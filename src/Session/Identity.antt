-- ===== src/Session/Identity.antt =====
-- One generation of the children belongs to one account.
use plugin_pocket.Base.{
  ℕ, ◌+◌, ◌≤◌, ◌≡◌, ◌≢◌, refl, sym, ap, ◌∙◌, ◌⊎◌, inl, inr, true, false, Option, none, some, arith,
  leb, ◌==◌, ==_iff, if_cases,
}
use plugin_pocket.Session.{
  Seen, unknown, signed_out, account, QueryState, Client, Session, snapshot, update_for, render,
  kept_or, rendered,
}

-- The session agrees with what its client knows.
abbrev pub Agrees : Seen → Option ℕ → Type 0
Agrees unknown identity = Unit
Agrees signed_out identity = identity ≡ none
Agrees (account id) identity = identity ≡ some id

abbrev pub IsSettled : Session → Type 0
IsSettled s = Agrees (snapshot s.client) s.identity

-- How a session may follow another: the same client and generation with the same identity or one
-- where there was none, or a new client of a new generation that knows of this identity alone.
abbrev pub Follows : Session → Session → Type 0
Follows s t =
    ((t.generation ≡ s.generation)
      × (t.client ≡ s.client)
      × ((s.identity ≡ none) ⊎ (t.identity ≡ s.identity)))
    ⊎ ((t.generation ≡ s.generation + 1)
        × (t.client.number ≡ s.client.number + 1)
        × (s.identity ≢ t.identity))

update_for-IsSettled :
    (now : ℕ) (seen : Seen) (identity : Option ℕ) (s : Session)
    → snapshot s.client ≡ seen
    → s.identity ≡ identity
    → IsSettled (kept_or s (update_for now seen identity s))
      × Follows s (kept_or s (update_for now seen identity s))
unfolding snapshot update_for
update_for-IsSettled now unknown identity s e f = (rw e tt, inl (refl, refl, inr refl))
update_for-IsSettled now signed_out none s e f = (rw e f, inl (refl, refl, inr refl))
update_for-IsSettled now signed_out (some i) s e f =
    let found : leb 0 now ≡ true = ground arith in
    (rw found refl, inr (refl, refl, λ same. some-ne-none (sym f ∙ same)))
  where
    some-ne-none : some i ≡ none → ⊥
    some-ne-none same = cc
update_for-IsSettled now (account id) none s e f = (rw e refl, inl (refl, refl, inl f))
update_for-IsSettled now (account id) (some i) s e f =
    if_cases (λ (o : Option Session). IsSettled (kept_or s o) × Follows s (kept_or s o)) (id == i)
      (λ same. (
        rw e (f ∙ ap (λ (n : ℕ). some n) (sym ((==_iff id i).0 same))),
        inl (refl, refl, inr refl),
      ))
      (λ other. (refl, inr (refl, refl, λ same. other_id other (sym f ∙ same))))
  where
    other_id : (id == i) ≡ false → some i ≡ some id → ⊥
    other_id other same = ground arith

update_for-none :
    (now : ℕ) (seen : Seen) (identity : Option ℕ) (s : Session)
    → Agrees seen identity
    → update_for now seen identity s ≡ none
unfolding update_for
update_for-none now unknown identity s a = refl
update_for-none now signed_out none s a = refl
update_for-none now signed_out (some i) s a = cc
update_for-none now (account id) none s a = cc
update_for-none now (account id) (some i) s a =
    let same : (id == i) ≡ true = ground arith in rw same refl

-- The state that a render sets agrees with what its client knows, so that the next render sets
-- nothing; and it keeps client, generation and account, or is the first account of a generation, or
-- it has a new client and generation, and then the account is another one than before.
pub rendered-IsSettled :
    (now later : ℕ) (s : Session)
    → IsSettled (rendered now s)
      × Follows s (rendered now s)
      × (render later (rendered now s) ≡ none)
unfolding rendered render
rendered-IsSettled now later s =
    let (settled, follows) = update_for-IsSettled now (snapshot s.client) s.identity s refl refl in
    (settled, follows, update_for-none later _ _ _ settled)

-- The client's cache changes in any way, or the boundary renders.
pub data Step (s : Session) : Session → Type 0 where
  cache_changed :
      (a p : Option QueryState)
      → Step s (record s { client = record s.client { account_state = a; public_state = p } })
  renders : (now : ℕ) → Step s (rendered now s)

pub data Reach (s : Session) : Session → Type 0 where
  here : Reach s s
  step : {t u : Session} → Reach s t → Step t u → Reach s u

-- How a state relates to a later one.
abbrev pub IsLater : Session → Session → Type 0
IsLater s t =
    (s.generation ≤ t.generation)
    × (t.generation ≡ s.generation
        → (t.client.number ≡ s.client.number) × ((s.identity ≡ none) ⊎ (t.identity ≡ s.identity)))

Follows-IsLater : (s t : Session) → Follows s t → IsLater s t
Follows-IsLater s t (inl (g, c, i)) = (omega arith, λ e. (ap (λ (x : Client). x.number) c, i))
Follows-IsLater s t (inr (g, c, i)) = (omega arith, λ e. absurd (omega arith))

Step-IsLater : {s t : Session} → Step s t → IsLater s t
Step-IsLater (cache_changed a p) = (omega arith, λ e. (refl, inr refl))
Step-IsLater {s} (renders now) = Follows-IsLater s (rendered now s) (rendered-IsSettled now now s).1

IsLater-trans : (s t u : Session) → IsLater s t → IsLater t u → IsLater s u
IsLater-trans s t u (a, f) (b, g) = (omega arith, λ e. chain (f (omega arith)) (g (omega arith)))
  where
    chain :
        (t.client.number ≡ s.client.number) × ((s.identity ≡ none) ⊎ (t.identity ≡ s.identity))
        → (u.client.number ≡ t.client.number) × ((t.identity ≡ none) ⊎ (u.identity ≡ t.identity))
        → (u.client.number ≡ s.client.number) × ((s.identity ≡ none) ⊎ (u.identity ≡ s.identity))
    chain (c, i) (d, j) = (d ∙ c, together i j)
      where
        together :
            (s.identity ≡ none) ⊎ (t.identity ≡ s.identity)
            → (t.identity ≡ none) ⊎ (u.identity ≡ t.identity)
            → (s.identity ≡ none) ⊎ (u.identity ≡ s.identity)
        together (inl e) j = inl e
        together (inr e) (inl f) = inl (sym e ∙ f)
        together (inr e) (inr f) = inr (f ∙ e)

Reach-IsLater : {s t : Session} → Reach s t → IsLater s t
Reach-IsLater here = (omega arith, λ e. (refl, inr refl))
Reach-IsLater {s} {t = u} (step {t} r h) = IsLater-trans s t u (Reach-IsLater r) (Step-IsLater h)

-- However caches change and the boundary renders: two states of the same generation have the same
-- client, and if the first knows an account, the second has the same one. So children that are
-- mounted once never see a second account, nor one account's client with another's session.
pub Reach-one_account :
    {s t : Session} (id : ℕ)
    → Reach s t
    → s.identity ≡ some id
    → t.generation ≡ s.generation
    → (t.client.number ≡ s.client.number) × (t.identity ≡ some id)
Reach-one_account {s} {t} id r e g =
    let (client, same) = (Reach-IsLater r).1 g in (client, kept same)
  where
    kept : (s.identity ≡ none) ⊎ (t.identity ≡ s.identity) → t.identity ≡ some id
    kept (inl f) = cc
    kept (inr f) = f ∙ e
