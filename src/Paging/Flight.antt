-- ===== src/Paging/Flight.antt =====
-- At most one fetch of a next page runs at a time, whatever handlers and renders interleave.
use plugin_pocket.Base.{
  ℕ, ◌≡◌, ◌≤◌, refl, false, List, ◌∷◌, ◌++◌, ap, arith, length-append, Text, if◌then◌else◌, length,
}
use plugin_pocket.Paging.{
  Key, Query, Fetched, resolved, thrown, Hook, Effect, fetch_next, render, next_start, next_finish,
  previous, set_page_size, retry,
}

-- The fetches that a handler has started and that have not settled.
abbrev started : Effect → List (Key × ℕ) → List (Key × ℕ)
started (fetch_next key index) fs = (key, index) ∷ fs
started _ fs = fs

pub record World : Type 0 where
  pub hook : Hook
  pub flights : List (Key × ℕ)

-- One event. A handler belongs to some render: it saw a key and a query, perhaps old ones.
pub data Step {ℓ} (A : Type ℓ) (w : World) : World → Type ℓ where
  rendered : (key : Key) → Step A w (record w { hook = render key w.hook })
  next_pressed :
      (key : Key) (q : Query A)
      → Step A w (record {
        hook = (next_start key q w.hook).0;
        flights = started (next_start key q w.hook).1 w.flights;
      })
  retry_pressed :
      (key : Key) (q : Query A)
      → Step A w (record {
        hook = (retry key q w.hook).0;
        flights = started (retry key q w.hook).1 w.flights;
      })
  previous_pressed :
      (key : Key) (q : Query A) → Step A w (record w { hook = previous key q w.hook })
  size_chosen :
      (path : Text) (size : ℕ) → Step A w (record w { hook = set_page_size path size w.hook })
  settled :
      (key current : Key) (index : ℕ) (before after : List (Key × ℕ)) (r : Fetched A)
      → w.flights ≡ before ++ (key, index) ∷ after
      → Step A w
          (record { hook = next_finish key index current r w.hook; flights = before ++ after })

pub data Reach {ℓ} (A : Type ℓ) (w : World) : World → Type ℓ where
  here : Reach A w w
  step : {u v : World} → Reach A w u → Step A u v → Reach A w v

-- The mark of a running fetch counts the fetches under way.
abbrev pub IsCounted : World → Type 0
IsCounted w = length w.flights ≡ (if w.hook.fetching_next then 1 else 0)

module _ {ℓ} {A : Type ℓ} where
  next_finish-fetching_next :
      (key : Key) (index : ℕ) (current : Key) (r : Fetched A) (h : Hook)
      → (next_finish key index current r h).fetching_next ≡ false
  unfolding next_finish
  next_finish-fetching_next key index current thrown h = refl
  next_finish-fetching_next key index current (resolved e l) h = ground arith

  Step-IsCounted : {w v : World} → Step A w v → IsCounted w → IsCounted v
  unfolding render next_start previous set_page_size retry
  Step-IsCounted (rendered key) c = ground arith
  Step-IsCounted (next_pressed key q) c = ground arith
  Step-IsCounted (retry_pressed key q) c = ground arith
  Step-IsCounted (previous_pressed key q) c = c
  Step-IsCounted (size_chosen path size) c = c
  Step-IsCounted {w} (settled key current index before after r e) c = ground (
    arith,
    next_finish-fetching_next key index current r w.hook,
    ap length e,
    length-append before ((key, index) ∷ after),
    length-append before after,
  )

  -- From a state in which the mark of a running fetch counts the fetches under way (as at the
  -- start: no mark, no fetch), every reachable state has that count and so at most one fetch of
  -- a next page under way, also when handlers of old renders are called.
  pub Reach-IsCounted :
      {w v : World} → Reach A w v → IsCounted w → IsCounted v × (length v.flights ≤ 1)
  Reach-IsCounted here c = (c, ground arith)
  Reach-IsCounted (step r s) c =
      let counted = Step-IsCounted s (Reach-IsCounted r c).0 in (counted, ground arith)
