-- ===== src/Secrets/Shown.antt =====
-- web/src/features/account/TokensPage.tsx, web/src/features/operations/CodesPage.tsx and
-- web/src/features/operations/TeamsPage.tsx: no secret is lost before the user hides it.
use mathlib.Core.List.{append-nil}
use plugin_pocket.Base.{
  ◌≡◌, refl, sym, ap, ◌∙◌, Bool, true, false, not, ◌&&◌, ◌||◌, Option, none, some, List, [], ◌∷◌,
  ◌++◌, arith, if◌then◌else◌, if_cases, is_some,
}
use plugin_pocket.Secrets.{Reveal, locked, create, answered, hide}

-- A form with the secrets that came and those that the user hid, in their order.
pub record Desk (A : Type 0) : Type 0 where
  pub reveal : Reveal A
  pub received : List A
  pub hidden : List A

pub data Event (A : Type 0) : Type 0 where
  press : Bool → Event A
  answer : Option A → Event A
  hide_it : Event A

module _ {A : Type 0} where
  abbrev pub listed : Option A → List A
  listed none = []
  listed (some a) = a ∷ []

  -- An answer comes only to a request.
  abbrev pub event : Event A → Desk A → Desk A
  event (press accepts) d = record d { reveal = (create accepts d.reveal).0 }
  event (answer o) d =
      if d.reveal.pending
      then record d { reveal = answered o d.reveal; received = d.received ++ listed o }
      else d
  event hide_it d = record d { reveal = hide d.reveal; hidden = d.hidden ++ listed d.reveal.shown }

  abbrev pub events : List (Event A) → Desk A → Desk A
  events [] d = d
  events (e ∷ es) d = events es (event e d)

  -- While a request runs nothing is shown, and what came was hidden or is on show.
  pub record IsKept (d : Desk A) : Type 0 where
    pub quiet : d.reveal.pending ≡ true → d.reveal.shown ≡ none
    pub kept : d.received ≡ d.hidden ++ listed d.reveal.shown

  create-IsKept : (accepts : Bool) (d : Desk A) → IsKept d → IsKept (event (press accepts) d)
  unfolding create locked
  create-IsKept accepts d h =
      if_cases (λ (r : Reveal A × Bool). IsKept (record d { reveal = r.0 }))
        (not (d.reveal.pending || is_some d.reveal.shown) && accepts)
        (λ on. record {
          quiet = λ _. none_shown d.reveal.shown (ground (arith, on));
          kept = h.kept;
        })
        (λ _. h)
    where
      none_shown : (o : Option A) → is_some o ≡ false → o ≡ none
      none_shown none e = refl
      none_shown (some a) e = cc

  answer-IsKept : (o : Option A) (d : Desk A) → IsKept d → IsKept (event (answer o) d)
  unfolding answered
  answer-IsKept none d h =
      if_cases IsKept d.reveal.pending
        (λ _. record { quiet = λ e. cc; kept = append-nil d.received ∙ h.kept }) (λ _. h)
  answer-IsKept (some a) d h =
      if_cases IsKept d.reveal.pending
        (λ e. record {
          quiet = λ e. cc;
          kept = ap (λ (xs : List A). xs ++ a ∷ []) (h.kept ∙ rw (h.quiet e) (append-nil d.hidden));
        })
        (λ _. h)

  hide-IsKept : (d : Desk A) → IsKept d → IsKept (event hide_it d)
  unfolding hide
  hide-IsKept d h = record {
    quiet = λ _. refl;
    kept = h.kept ∙ sym (append-nil (d.hidden ++ listed d.reveal.shown));
  }

  -- However a form for a secret is pressed, answered and hidden: every secret that ever came was
  -- hidden by the user or is on show, in the order in which they came, and none is on show while
  -- another is under way.
  pub events-IsKept : (es : List (Event A)) (d : Desk A) → IsKept d → IsKept (events es d)
  events-IsKept [] d h = h
  events-IsKept (press accepts ∷ es) d h =
      events-IsKept es (event (press accepts) d) (create-IsKept accepts d h)
  events-IsKept (answer o ∷ es) d h = events-IsKept es (event (answer o) d) (answer-IsKept o d h)
  events-IsKept (hide_it ∷ es) d h = events-IsKept es (event hide_it d) (hide-IsKept d h)
