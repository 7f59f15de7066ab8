-- ===== src/Equipment/Confirming.antt =====
-- desktop/ui/src/EquipmentPage.tsx: what an uninstallation goes back to.
use mathlib.Core.Bool.{true≢false}
use plugin_pocket.Base.{
  ℕ, ◌≡◌, refl, sym, ap, ◌∙◌, Bool, true, false, not, ◌&&◌, Option, none, some, List, [], ◌∷◌, ◌++◌,
  arith, Text, codes, eq_text, eq_text_sound, if◌then◌else◌, is_some, all, starts_with,
}
use plugin_pocket.Equipment.{
  Kind, mcp, skill, Client, Item, Installed, Operation, Page, opened, key_of, disabled, set_search,
  set_client, set_kind, operation_done, ended_by, asks_row, ask_for, send, row, has_confirmation,
  ask_uninstall, cancel_uninstall, update, uninstall,
}

pub data Event : Type 0 where
  searched : Text → Event
  client_chosen : Option Client → Event
  kind_chosen : Option Kind → Event
  asked canceled update_pressed uninstall_pressed : Installed → ℕ → Event
  done : Bool → Event

-- What an event leaves of a confirmation: filters, presses that ask or cancel and successes drop it.
abbrev pub keeps : Event → Bool
keeps (update_pressed q n) = true
keeps (uninstall_pressed q n) = true
keeps (done success) = not success
keeps _ = false

module _ (lower : Text → Text) where
  abbrev pub event : Event → Page → Page
  event (searched word) p = set_search word p
  event (client_chosen client) p = set_client client p
  event (kind_chosen kind) p = set_kind kind p
  event (asked q n) p = ask_uninstall lower q n p
  event (canceled q n) p = cancel_uninstall lower q n p
  event (update_pressed q n) p = (update lower q n p).0
  event (uninstall_pressed q n) p = (uninstall lower q n p).0
  event (done success) p = operation_done success p

  -- Which events can happen: buttons that are off or not there are not pressed, and only an operation
  -- that runs ends.
  abbrev pub happens : Event → Page → Bool
  happens (asked q n) p = not (disabled q p) && is_some (row lower q n p)
  happens (canceled q n) p = has_confirmation lower q n p && not (is_some p.running)
  happens (done success) p = is_some p.running
  happens _ p = true

  -- A run of the page, the last event first.
  pub data Run : List Event → Page → Type 0 where
    start : Run [] opened
    next :
        {es : List Event} {p : Page}
        → Run es p
        → (e : Event) → happens e p ≡ true
        → Run (e ∷ es) (event e p)

  -- The confirmation of an item was asked for, by its kind and slug, when it was in view and nothing
  -- was running, and no event since then has dropped it.
  abbrev pub WasAsked : Item → List Event → Type 0
  WasAsked item es =
      (after : List Event) × (before : List Event) × (p : Page) × (q : Installed) × (n : ℕ)
      × (at_row : Item) × Run before p
      × (es ≡ after ++ asked q n ∷ before)
      × (row lower q n p ≡ some at_row)
      × (disabled q p ≡ false)
      × (at_row.kind ≡ item.kind)
      × (at_row.slug ≡ item.slug)
      × (all keeps after ≡ true)

  WasAsked-cons :
      (item : Item) (e : Event) (es : List Event)
      → keeps e ≡ true
      → WasAsked item es
      → WasAsked item (e ∷ es)
  WasAsked-cons item e es k
        (after, before, p, q, n, at_row, r, split, shown, on, kind, slug, kept) =
      (
        e ∷ after,
        before,
        p,
        q,
        n,
        at_row,
        r,
        ap (λ (xs : List Event). e ∷ xs) split,
        shown,
        on,
        kind,
        slug,
        rw k kept,
      )

  sent-confirmation :
      (on : Bool) (o : Option Item) (remove : Bool) (p : Page)
      → (send on o remove p).0.confirmation ≡ p.confirmation
  sent-confirmation true (some item) remove p = refl
  sent-confirmation true none remove p = refl
  sent-confirmation false o remove p = refl

  failed-confirmation :
      (o : Option Operation) (p : Page) → (ended_by false o p).confirmation ≡ p.confirmation
  failed-confirmation none p = refl
  failed-confirmation (some operation) p = refl

  key_inj : (a b : Item) → key_of a ≡ key_of b → (a.kind ≡ b.kind) × (a.slug ≡ b.slug)
  key_inj a b = same_key a.kind b.kind
    where
      same_key :
          (k l : Kind)
          → key_of (record a { kind = k }) ≡ key_of (record b { kind = l })
          → (k ≡ l) × (a.slug ≡ b.slug)
      same_key mcp mcp e = (refl, cc)
      same_key skill skill e = (refl, cc)
      same_key mcp skill e =
          let differs : true ≡ false = ap (λ (t : Text). starts_with t (codes "m")) e in
          absurd (true≢false differs)
      same_key skill mcp e =
          let differs : true ≡ false = ap (λ (t : Text). starts_with t (codes "s")) e in
          absurd (true≢false differs)

  none-ne-some : {A : Type 0} {a : A} → none ≡ some a → ⊥
  none-ne-some e = cc

  asked_lem :
      (b : Bool) (o : Option Item) (p : Page) (item : Item)
      → (b && is_some o) ≡ true
      → (ask_for b o p).confirmation ≡ some (key_of item)
      → (at_row : Item) × (o ≡ some at_row) × (b ≡ true) × (key_of at_row ≡ key_of item)
  asked_lem true (some at_row) p item on e = (at_row, refl, refl, cc)
  asked_lem true none p item on e = absurd (true≢false (sym on))
  asked_lem false o p item on e = absurd (true≢false (sym on))

  canceled_lem :
      (b : Bool) (p : Page)
      → b ≡ true
      → (if b then record p { confirmation = none } else p).confirmation ≡ none
  canceled_lem true p on = refl
  canceled_lem false p on = absurd (true≢false (sym on))

  done_lem :
      (o : Option Operation) (p : Page) → is_some o ≡ true → (ended_by true o p).confirmation ≡ none
  done_lem none p on = absurd (true≢false (sym on))
  done_lem (some operation) p on = refl

  confirmation-WasAsked :
      {es : List Event} {p : Page}
      → Run es p
      → (item : Item) → p.confirmation ≡ some (key_of item)
      → WasAsked item es
  unfolding set_search set_client set_kind ask_uninstall cancel_uninstall update uninstall
      operation_done
  confirmation-WasAsked start item e = cc
  confirmation-WasAsked (next r (searched word) on) item e = cc
  confirmation-WasAsked (next r (client_chosen client) on) item e = cc
  confirmation-WasAsked (next r (kind_chosen kind) on) item e = cc
  confirmation-WasAsked (next {es} {p} r (asked q n) on) item e =
      let (at_row, shown, free, same) =
        asked_lem (not (disabled q p)) (row lower q n p) p item on e in
      let (kind, slug) = key_inj at_row item same in
      ([], es, p, q, n, at_row, r, refl, shown, ground (arith, free), kind, slug, refl)
  confirmation-WasAsked (next {es} {p} r (canceled q n) on) item e =
      absurd (none-ne-some (sym (canceled_lem _ p on) ∙ e))
  confirmation-WasAsked (next {es} {p} r (update_pressed q n) on) item e =
      WasAsked-cons item (update_pressed q n) es refl (
        confirmation-WasAsked r item
          (sym (sent-confirmation (not (disabled q p)) (row lower q n p) false p) ∙ e))
  confirmation-WasAsked (next {es} {p} r (uninstall_pressed q n) on) item e =
      WasAsked-cons item (uninstall_pressed q n) es refl (
        confirmation-WasAsked r item (
          sym (
            sent-confirmation (has_confirmation lower q n p && not (disabled q p)) (row lower q n p)
              true p)
          ∙ e))
  confirmation-WasAsked (next {es} {p} r (done false) on) item e =
      WasAsked-cons item (done false) es refl
        (confirmation-WasAsked r item (sym (failed-confirmation p.running p) ∙ e))
  confirmation-WasAsked (next {es} {p} r (done true) on) item e =
      absurd (none-ne-some (sym (done_lem p.running p on) ∙ e))

  sent-item :
      (on : Bool) (at_row : Item) (p : Page) (item : Item)
      → (send on (some at_row) true p).1 ≡ some (item, true)
      → (on ≡ true) × (at_row ≡ item)
  sent-item true at_row p item e = (refl, cc)
  sent-item false at_row p item e = absurd (none-ne-some e)

  sent_lem :
      (key : Option Text) (b : Bool) (o : Option Item) (p : Page) (item : Item)
      → (send (asks_row key o && b) o true p).1 ≡ some (item, true)
      → key ≡ some (key_of item)
  sent_lem none b none p item e = cc
  sent_lem none b (some at_row) p item e = cc
  sent_lem (some key) b none p item e = cc
  sent_lem (some key) b (some at_row) p item e =
      let (on, same) = sent-item (eq_text key (key_of at_row) && b) at_row p item e in
      let asked_key : eq_text key (key_of at_row) ≡ true = ground (arith, on) in
      rw (eq_text_sound key (key_of at_row) asked_key, same) refl

  -- In a run of the page in which only buttons that are there and on are pressed: if a press of the
  -- confirming button sends the uninstallation of an item, then that was asked for at the row of an
  -- item of the same kind and slug, while nothing was running; and since then no filter was changed,
  -- nothing else asked for, nothing canceled, and no operation has succeeded.
  pub uninstall-WasAsked :
      {es : List Event} {p : Page}
      → Run es p
      → (q : Installed) (n : ℕ) (item : Item) → (uninstall lower q n p).1 ≡ some (item, true)
      → WasAsked item es
  unfolding uninstall
  uninstall-WasAsked {es} {p} r q n item e =
      confirmation-WasAsked r item
        (sent_lem p.confirmation (not (disabled q p)) (row lower q n p) p item e)
