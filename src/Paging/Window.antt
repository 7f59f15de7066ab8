-- ===== src/Paging/Window.antt =====
-- Which records the page on show holds, and how the view moves over the loaded pages.
use plugin_pocket.Base.{
  ℕ, zero, suc, ◌+◌, ◌-◌, ◌≤◌, ◌<◌, ◌≡◌, refl, sym, ◌⊎◌, inl, inr, Bool, true, false, not, ◌&&◌,
  Option, none, some, List, [], ◌∷◌, ◌++◌, arith, ltb→lt, length, take, drop, sum_of, drop-append,
  take-append, length-append, Bool-cases, and_split, eq_text_refl,
}
use plugin_pocket.Paging.{
  Key, eq_key, Page, Query, Fetched, resolved, thrown, Hook, idle, pages, page_index, items,
  items_at, offset, pagination, next_start, next_finish, has_page, previous,
}

pub eq_key_refl : (k : Key) → eq_key k k ≡ true
unfolding eq_key
eq_key_refl k = ground (arith, eq_text_refl k.path)

module _ {ℓ} {A : Type ℓ} where
  -- Every record that is loaded, in order.
  abbrev pub all_items : List (Page A) → List A
  all_items [] = []
  all_items (p ∷ ps) = p.items ++ all_items ps

  abbrev start_of : List (Page A) → ℕ → ℕ
  start_of ps i = sum_of (λ p. length p.items) (take i ps)

  items_at-slice :
      (ps : List (Page A)) (i : ℕ)
      → take (length (items_at ps i)) (drop (start_of ps i) (all_items ps)) ≡ items_at ps i
  items_at-slice [] i = refl
  items_at-slice (p ∷ ps) zero = take-append p.items (all_items ps)
  items_at-slice (p ∷ ps) (suc i) =
      rw (drop-append p.items (all_items ps) (start_of ps i) refl) (items_at-slice ps i)

  items_at-within :
      (ps : List (Page A)) (i : ℕ) → start_of ps i + length (items_at ps i) ≤ length (all_items ps)
  items_at-within [] zero = omega arith
  items_at-within [] (suc i) = omega arith
  items_at-within (p ∷ ps) zero = omega (arith, length-append p.items (all_items ps))
  items_at-within (p ∷ ps) (suc i) =
      omega (arith, length-append p.items (all_items ps), items_at-within ps i)

  pub page_index-lt-length :
      (key : Key) (q : Query A) (h : Hook)
      → 0 < length (pages q)
      → page_index key q h < length (pages q)
  unfolding page_index
  page_index-lt-length key q h pos = ground arith

  pagination-start :
      (key : Key) (q : Query A) (h : Hook)
      → 0 < length (items key q h)
      → (pagination key q h).start ≡ offset key q h + 1
  unfolding pagination
  pagination-start key q h pos = ground arith

  pagination-end :
      (key : Key) (q : Query A) (h : Hook)
      → (pagination key q h).end ≡ offset key q h + length (items key q h)
  unfolding pagination
  pagination-end key q h = refl

  items-slice :
      (key : Key) (q : Query A) (h : Hook)
      → items key q h ≡ take (length (items key q h)) (drop (offset key q h) (all_items (pages q)))
  unfolding items offset eq_key
  items-slice key q h = sym (items_at-slice (pages q) (page_index key q h))

  items-within :
      (key : Key) (q : Query A) (h : Hook)
      → offset key q h + length (items key q h) ≤ length (all_items (pages q))
  unfolding items offset eq_key
  items-within key q h = items_at-within (pages q) (page_index key q h)

  -- When the page on show is not empty, its records are exactly those from position `start` to
  -- position `end`, counted from 1, of all records loaded so far, in order; and `end` is within
  -- what is loaded.
  pub pagination-items :
      (key : Key) (q : Query A) (h : Hook)
      → 0 < length (items key q h)
      → (items key q h
          ≡ take
              ((pagination key q h).end + 1 - (pagination key q h).start)
              (drop ((pagination key q h).start - 1) (all_items (pages q))))
        × (1 ≤ (pagination key q h).start)
        × ((pagination key q h).start ≤ (pagination key q h).end)
        × ((pagination key q h).end ≤ length (all_items (pages q)))
  pagination-items key q h pos =
      let s = pagination-start key q h pos in
      let e = pagination-end key q h in
      let n : (pagination key q h).end + 1 - (pagination key q h).start ≡ length (items key q h) =
        omega (arith, s, e) in
      let o : (pagination key q h).start - 1 ≡ offset key q h = omega (arith, s) in
      (
        rw (n, o) (items-slice key q h),
        omega (arith, s),
        omega (arith, s, e),
        omega (arith, e, items-within key q h),
      )

  -- Going back from a page that is not the first and then forward again, with no fetch under way,
  -- shows the same page as before and fetches nothing.
  pub next_start-previous :
      (key : Key) (q : Query A) (h : Hook)
      → q.is_fetching ≡ false
      → h.fetching_next ≡ false
      → 0 < page_index key q h
      → (page_index key q (next_start key q (previous key q h)).0 ≡ page_index key q h)
        × ((next_start key q (previous key q h)).1 ≡ idle)
  unfolding previous next_start page_index
  next_start-previous key q h still ready pos = ground (arith, eq_key_refl key)

  has_page-resolved :
      (index : ℕ) (e : Bool) (loaded : Option (List (Page A)))
      → not e ≡ true
      → has_page index loaded ≡ true
      → (ps : List (Page A)) × (resolved e loaded ≡ resolved false (some ps))
        × (index + 1 < length ps)
  has_page-resolved index true loaded a b = cc
  has_page-resolved index false none a b = cc
  has_page-resolved index false (some ps) a b = (ps, refl, ltb→lt _ _ b)

  -- What `next` does once its fetch settles: the mark of a running fetch is cleared, and the view
  -- either stays as it is, or the key is still the one that the fetch was started for, the fetch
  -- brought more pages than the one on show then, and the view moves to the page behind that one.
  pub next_finish_cases :
      (key current : Key) (index : ℕ) (r : Fetched A) (h : Hook)
      → ((next_finish key index current r h).fetching_next ≡ false)
        × (((next_finish key index current r h).view ≡ h.view)
            ⊎ ((eq_key current key ≡ true)
                × ((ps : List (Page A)) × (r ≡ resolved false (some ps)) × (index + 1 < length ps))
                × ((next_finish key index current r h).view
                    ≡ record { key = key; index = index + 1 })))
  unfolding next_finish
  next_finish_cases key current index thrown h = (refl, inl refl)
  next_finish_cases key current index (resolved e loaded) h =
      elim (Bool-cases (eq_key current key && not e && has_page index loaded)) [
        | inl b ↦ (
          rw b refl,
          inr (
            (and_split _ _ (and_split _ _ b).0).0,
            has_page-resolved index e loaded (and_split _ _ (and_split _ _ b).0).1
                (and_split _ _ b).1,
            rw b refl,
          ),
        )
        | inr b ↦ (rw b refl, inl (rw b refl))
      ]
