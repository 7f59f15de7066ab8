-- ===== src/Transfers/Once.antt =====
-- Transfers of web/src/features/account/AdminPage.tsx and web/src/features/operations/TeamsPage.tsx:
-- under how many operation numbers requests are sent.
use plugin_pocket.Base.{
  ◌≡◌, ◌⊎◌, inl, inr, refl, ap, Bool, true, false, not, ◌&&◌, Option, none, some, List, [], ◌∷◌,
  ◌++◌, arith, Text, if◌then◌else◌, if_cases, is_some, Bool-cases, or_else, All, keys, mem_text,
  AreDistinct,
}
use plugin_pocket.Transfers.{
  Phase, idle, pending, failed, done, is_pending, is_done, Request, Transfer, begun, type_fields,
  submit, settled, again,
}

-- A transfer with all requests that it ever sent and those that were answered with success.
pub record World (F P : Type 0) : Type 0 where
  pub transfer : Transfer F P
  pub sent : List (Request P)
  pub confirmed : List (Request P)

module _ {P : Type 0} where
  abbrev pub confirm : Option (Request P) → List (Request P) → List (Request P)
  confirm none rs = rs
  confirm (some r) rs = r ∷ rs

  abbrev pub IsAmong : Request P → List (Request P) → Type 0
  IsAmong r [] = ⊥
  IsAmong r (x ∷ xs) = (r ≡ x) ⊎ IsAmong r xs

-- The operation that was not confirmed yet.
module _ {F P : Type 0} where
  abbrev pub open_operation : Transfer F P → List (Request P)
  open_operation t = if is_done t.phase then [] else confirm t.operation []

not_done : (p : Phase) → is_pending p ≡ true → is_done p ≡ false
not_done idle e = refl
not_done pending e = refl
not_done failed e = refl
not_done done e = cc

confirm-append :
    {P : Type 0} (o : Option (Request P)) (rs : List (Request P))
    → confirm o rs ≡ confirm o [] ++ rs
confirm-append none rs = refl
confirm-append (some r) rs = refl

All-imp :
    {P : Type 0} {A B : Request P → Type 0}
    → ((r : Request P) → A r → B r)
    → (rs : List (Request P)) → All A rs
    → All B rs
All-imp step [] h = tt
All-imp step (r ∷ rs) (here, more) = (step r here, All-imp step rs more)

module _ {F P : Type 0} (blank : F) (payload : F → P) (accepts : F → Bool) where
  -- What can happen, one at a time; a number that is drawn was never sent before.
  pub data Step : World F P → World F P → Type 0 where
    typed :
        (w : World F P) (fields : F)
        → Step w (record w { transfer = type_fields fields w.transfer })
    submitted :
        (w : World F P) (key : Text)
        → mem_text key (keys w.sent) ≡ false
        → Step w (record w {
          transfer = (submit payload accepts key w.transfer).0;
          sent = confirm (submit payload accepts key w.transfer).1 w.sent;
        })
    succeeded :
        (w : World F P)
        → is_pending w.transfer.phase ≡ true
        → Step w (record w {
          transfer = settled true w.transfer;
          confirmed = confirm w.transfer.operation w.confirmed;
        })
    lost : (w : World F P) → Step w (record w { transfer = settled false w.transfer })
    cleared : (w : World F P) → Step w (record w { transfer = again blank w.transfer })

  pub data Reach (start : World F P) : World F P → Type 0 where
    here : Reach start start
    next : {v w : World F P} → Reach start v → Step v w → Reach start w

  abbrev pub operations : World F P → List (Request P)
  operations w = open_operation w.transfer ++ w.confirmed

  -- Every request belongs to an operation that was confirmed or to the one that is under way, and
  -- all of these have different numbers, under which requests were sent.
  pub record IsOnce (w : World F P) : Type 0 where
    pub accounted : All (λ r. IsAmong r (operations w)) w.sent
    pub distinct : AreDistinct (keys (operations w))
    pub known :
        (k : Text) → mem_text k (keys (operations w)) ≡ true → mem_text k (keys w.sent) ≡ true

  IsOnce-same :
      (v w : World F P) → operations w ≡ operations v → w.sent ≡ v.sent → IsOnce v → IsOnce w
  IsOnce-same v w e s h = record {
    accounted = rw (e, s) h.accounted;
    distinct = rw e h.distinct;
    known = rw (e, s) h.known;
  }

  typed-operations :
      (fields : F) (t : Transfer F P) → open_operation (type_fields fields t) ≡ open_operation t
  unfolding type_fields
  typed-operations fields t =
      if_cases (λ (u : Transfer F P). open_operation u ≡ open_operation t) (is_some t.operation)
        (λ _. refl) (λ _. refl)

  cleared-operations : (t : Transfer F P) → open_operation (again blank t) ≡ open_operation t
  unfolding again
  cleared-operations t =
      if_cases (λ (u : Transfer F P). open_operation u ≡ open_operation t) (is_done t.phase)
        (λ (e : is_done t.phase ≡ true). rw e refl) (λ _. refl)

  lost-operations : (t : Transfer F P) → open_operation (settled false t) ≡ open_operation t
  unfolding settled
  lost-operations t =
      if_cases (λ (u : Transfer F P). open_operation u ≡ open_operation t) (is_pending t.phase)
        (λ (e : is_pending t.phase ≡ true). rw (not_done t.phase e) refl) (λ _. refl)

  succeeded-operations :
      (t : Transfer F P) (rs : List (Request P))
      → is_pending t.phase ≡ true
      → open_operation (settled true t) ++ confirm t.operation rs ≡ open_operation t ++ rs
  unfolding settled
  succeeded-operations t rs e = rw (e, not_done t.phase e) (confirm-append t.operation rs)

  -- A first request joins the confirmed ones.
  module _ (w : World F P) (key : Text) (fresh : mem_text key (keys w.sent) ≡ false) where
    first_of :
        (fields : F)
        → All (λ r. IsAmong r w.confirmed) w.sent
        → AreDistinct (keys w.confirmed)
        → ((k : Text) → mem_text k (keys w.confirmed) ≡ true → mem_text k (keys w.sent) ≡ true)
        → IsOnce (record w {
          transfer = record {
            fields = fields;
            operation = some (key, payload fields);
            phase = pending;
          };
          sent = (key, payload fields) ∷ w.sent;
        })
    first_of fields accounted distinct known = record {
      accounted = (inl refl, All-imp (λ r among. inr among) w.sent accounted);
      distinct = (
        elim (Bool-cases (mem_text key (keys w.confirmed))) [
          | inl m ↦ cc (known key m, fresh)
          | inr n ↦ n
        ],
        distinct,
      );
      known = λ k m. ground (arith, known k, m);
    }

  -- A submit that sends something: again the operation under way, or a first one.
  submitted-IsOnce :
      (w : World F P) (key : Text)
      → mem_text key (keys w.sent) ≡ false
      → IsOnce w
      → IsOnce (record w {
        transfer = (submit payload accepts key w.transfer).0;
        sent = confirm (submit payload accepts key w.transfer).1 w.sent;
      })
  unfolding submit
  submitted-IsOnce w key fresh h =
      if_cases
        (λ (s : Transfer F P × Option (Request P)).
          IsOnce (record w { transfer = s.0; sent = confirm (s.1) w.sent }))
        (not (is_pending w.transfer.phase)
          && (not (is_done w.transfer.phase) && accepts w.transfer.fields))
        (λ on. sent_once w.transfer.operation refl (ground (arith, on))) (λ _. h)
    where
      sent_once :
          (o : Option (Request P))
          → w.transfer.operation ≡ o
          → is_done w.transfer.phase ≡ false
          → IsOnce (record w {
            transfer = record (w.transfer) {
              operation = some (or_else o (key, payload w.transfer.fields));
              phase = pending;
            };
            sent = or_else o (key, payload w.transfer.fields) ∷ w.sent;
          })
      sent_once none e open_yet =
          let before : operations w ≡ w.confirmed = rw (open_yet, e) refl in
          first_of w key fresh (w.transfer.fields) (rw before at h.accounted)
            (rw before at h.distinct) (rw before at h.known)
      sent_once (some r) e open_yet =
          let before : operations w ≡ r ∷ w.confirmed = rw (open_yet, e) refl in
          record {
            accounted = (inl refl, rw before at h.accounted);
            distinct = rw before at h.distinct;
            known = λ k m. ground (arith, (rw before at h.known) k m);
          }

  step-IsOnce : {v w : World F P} → Step v w → IsOnce v → IsOnce w
  step-IsOnce (typed w fields) h =
      IsOnce-same w _
        (ap (λ (o : List (Request P)). o ++ w.confirmed) (typed-operations fields w.transfer)) refl
        h
  step-IsOnce (submitted w key fresh) h = submitted-IsOnce w key fresh h
  step-IsOnce (succeeded w e) h =
      IsOnce-same w _ (succeeded-operations w.transfer w.confirmed e) refl h
  step-IsOnce (lost w) h =
      IsOnce-same w _ (ap (λ (o : List (Request P)). o ++ w.confirmed) (lost-operations w.transfer))
        refl h
  step-IsOnce (cleared w) h =
      IsOnce-same w _
        (ap (λ (o : List (Request P)). o ++ w.confirmed) (cleared-operations w.transfer)) refl h

  -- However often a form is filled in, sent, answered or not, and begun again, as long as the drawn
  -- numbers are new: each request that was ever sent is, number and content, that of an operation
  -- that was confirmed or of the one under way, and all of these have different numbers, each of
  -- which was sent.
  pub Reach-IsOnce :
      {w : World F P}
      → Reach (record { transfer = begun blank; sent = []; confirmed = [] }) w
      → IsOnce w
  Reach-IsOnce here = record { accounted = tt; distinct = tt; known = λ k m. cc }
  Reach-IsOnce (next r step) = step-IsOnce step (Reach-IsOnce r)
