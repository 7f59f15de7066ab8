-- ===== src/Paging/Buttons.antt =====
-- The buttons of `Pagination` over the state of `usePagedList`.
use plugin_pocket.Base.{ℕ, ◌+◌, ◌-◌, ◌≡◌, ◌⊎◌, ◌↔◌, true, false, some, none, arith, Text}
use plugin_pocket.Paging.{
  Key, Query, Hook, idle, fetch_next, page_index, Pagination, pagination, Bar, bar, next_start,
  previous, set_page_size, render,
}
use plugin_pocket.Paging.Window.{eq_key_refl}

-- The bar is left out exactly when there is no data or the range on show ends at 0.
pub bar-eq-none : (p : Pagination) → (bar p ≡ none) ↔ ((p.has_data ≡ false) ⊎ (p.end ≡ 0))
unfolding bar
bar-eq-none p = ground arith

module _ {ℓ} {A : Type ℓ} (key : Key) (q : Query A) (h : Hook) {b : Bar}
    (shown : bar (pagination key q h) ≡ some b) where
  bar-page : b.page ≡ page_index key q h + 1
  unfolding bar pagination
  bar-page = ground arith

  -- A press of an enabled "previous" button goes back by exactly one page.
  pub previous-bar :
      b.previous_disabled ≡ false → page_index key q (previous key q h) + 1 ≡ b.page - 1
  unfolding bar pagination previous page_index
  previous-bar on = ground (arith, eq_key_refl key)

  -- A press of an enabled "next" button is never lost, unless a fetch of the next page already
  -- runs: it shows the following page at once, or it starts the fetch behind the page on show.
  next_start-bar :
      b.next_disabled ≡ false
      → h.fetching_next ≡ false
      → ((page_index key q (next_start key q h).0 ≡ b.page) × ((next_start key q h).1 ≡ idle))
        ⊎ (((next_start key q h).1 ≡ fetch_next key (b.page - 1))
            × ((next_start key q h).0.fetching_next ≡ true))
  unfolding bar pagination next_start page_index
  next_start-bar on ready = ground (arith, eq_key_refl key)

module _ {ℓ} {A : Type ℓ} where
  -- The correction that a render makes to the stored view does not change the page that it shows,
  -- and choosing a page size shows the first page at the next render.
  pub page_index-render :
      (key : Key) (q : Query A) (h : Hook) (path : Text) (size : ℕ)
      → (page_index key q (render key h) ≡ page_index key q h)
        × (page_index
              (record { path = path; size = size })
              q
              (render (record { path = path; size = size }) (set_page_size path size h))
            ≡ 0)
  unfolding page_index render set_page_size
  page_index-render key q h path size = (
    ground (arith, eq_key_refl key),
    ground (arith, eq_key_refl (record { path = path; size = size })),
  )
