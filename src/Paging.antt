-- ===== src/Paging.antt =====
-- web/src/features/account/usePagedList.ts and web/src/components/Pagination.tsx: a list that is
-- fetched page by page with a cursor. The query library is not modelled: what it returns at a
-- render is the argument `Query`, and what a fetch yields is the argument `Fetched`. A key
-- `${path}:${pageSize}` is the pair of its parts, which it determines.
pub mod Window
pub mod Flight
pub mod Buttons
mod Tests
use plugin_pocket.Base.{
  ℕ, ◌+◌, ◌-◌, min, Bool, true, false, not, ◌&&◌, ◌||◌, Option, none, some, List, [], ◌∷◌, Text,
  eq_text, if◌then◌else◌, ltb, ◌==◌, length, get_elem?, take, sum_of, is_some, or_else, empty,
}

pub record Key : Type 0 where
  pub path : Text
  pub size : ℕ

unfoldable pub eq_key : Key → Key → Bool
eq_key a b = eq_text a.path b.path && a.size == b.size

pub record View : Type 0 where
  pub key : Key
  pub index : ℕ

pub record Page {ℓ} (A : Type ℓ) : Type ℓ where
  pub items : List A
  pub next_cursor : Text

-- `page.next_cursor || undefined`
unfoldable pub next_page_param {ℓ} : {A : Type ℓ} → Page A → Option Text
next_page_param p = if empty p.next_cursor then none else some p.next_cursor

-- What the query hook returns at a render.
pub record Query {ℓ} (A : Type ℓ) : Type ℓ where
  pub loaded : Option (List (Page A))
  pub has_next_page : Bool
  pub is_fetching : Bool
  pub is_paused : Bool
  pub is_fetch_next_page_error : Bool

-- What `fetchNextPage` resolves to, or that it throws.
pub data Fetched {ℓ} (A : Type ℓ) : Type ℓ where
  resolved : (is_error : Bool) → Option (List (Page A)) → Fetched A
  thrown : Fetched A

-- The state that the hook keeps between renders.
pub record Hook : Type 0 where
  pub page_size : ℕ
  pub view : View
  pub fetching_next : Bool

-- What a handler asks the query library for; a fetch carries what its closure captured.
pub data Effect : Type 0 where
  idle refetch : Effect
  fetch_next : Key → ℕ → Effect

abbrev pub current_key : Text → Hook → Key
current_key path h = record { path = path; size = h.page_size }

-- `if (view.key !== key) setView({ key, index: 0 })`
unfoldable pub render : Key → Hook → Hook
render key h =
    if eq_key h.view.key key then h else record h { view = record { key = key; index = 0 } }

-- The fields of `pagination` that are not handlers.
pub record Pagination : Type 0 where
  pub page : ℕ
  pub page_size : ℕ
  pub start : ℕ
  pub end : ℕ
  pub has_data : Bool
  pub has_next : Bool
  pub pending : Bool

unfoldable pub set_page_size : Text → ℕ → Hook → Hook
set_page_size path size h = record h {
  view = record { key = record { path = path; size = size }; index = 0 };
  page_size = size;
}

module _ {ℓ} {A : Type ℓ} where
  abbrev pub pages : Query A → List (Page A)
  pages q = or_else q.loaded []

  unfoldable pub page_index : Key → Query A → Hook → ℕ
  page_index key q h = if eq_key h.view.key key then min h.view.index (length (pages q) - 1) else 0

  -- `pages[index]?.items ?? []`
  abbrev pub items_at : List (Page A) → ℕ → List A
  items_at ps i = elim (get_elem? ps i) [ none ↦ [] | some p ↦ p.items ]

  unfoldable pub items : Key → Query A → Hook → List A
  unfolding page_index
  items key q h = items_at (pages q) (page_index key q h)

  unfoldable pub offset : Key → Query A → Hook → ℕ
  unfolding page_index
  offset key q h = sum_of (λ p. length p.items) (take (page_index key q h) (pages q))

  -- The synchronous part of `next`.
  unfoldable pub next_start : Key → Query A → Hook → Hook × Effect
  unfolding page_index
  next_start key q h =
      let index = page_index key q h in
      if q.is_fetching || h.fetching_next
      then (h, idle)
      else if ltb index (length (pages q) - 1)
      then (record h { view = record { key = key; index = index + 1 } }, idle)
      else if not q.has_next_page
      then (h, idle)
      else (record h { fetching_next = true }, fetch_next key index)

  -- `result.data && result.data.pages.length > index + 1`
  abbrev pub has_page : ℕ → Option (List (Page A)) → Bool
  has_page index none = false
  has_page index (some ps) = ltb (index + 1) (length ps)

  -- The rest of `next`, once the fetch settles; `current` is the key of the latest render.
  unfoldable pub next_finish : Key → ℕ → Key → Fetched A → Hook → Hook
  next_finish key index current thrown h = record h { fetching_next = false }
  next_finish key index current (resolved is_error loaded) h =
      if eq_key current key && not is_error && has_page index loaded
      then record h { view = record { key = key; index = index + 1 }; fetching_next = false }
      else record h { fetching_next = false }

  unfoldable pub previous : Key → Query A → Hook → Hook
  unfolding page_index
  previous key q h = record h { view = record { key = key; index = page_index key q h - 1 } }

  unfoldable pub retry : Key → Query A → Hook → Hook × Effect
  unfolding next_start
  retry key q h = if q.is_fetch_next_page_error then next_start key q h else (h, refetch)

  unfoldable pub pagination : Key → Query A → Hook → Pagination
  unfolding page_index items offset
  pagination key q h = record {
    page = page_index key q h + 1;
    page_size = h.page_size;
    start = (if ltb 0 (length (items key q h)) then offset key q h + 1 else 0);
    end = offset key q h + length (items key q h);
    has_data = is_some q.loaded;
    has_next = ltb (page_index key q h) (length (pages q) - 1) || q.has_next_page;
    pending = q.is_fetching || q.is_paused;
  }

-- What the component shows in the place of the count.
pub data Count : Type 0 where
  loading no_records : Count
  range : ℕ → ℕ → Count

pub record Bar : Type 0 where
  pub count : Count
  pub size_disabled : Bool
  pub previous_disabled : Bool
  pub page : ℕ
  pub next_disabled : Bool

-- The component `Pagination`; `none` where it renders nothing.
unfoldable pub bar : Pagination → Option Bar
bar p =
    if not p.has_data || p.end == 0
    then none
    else some (record {
      count =
          (if p.pending
            then loading
            else if not (p.end == 0)
            then range p.start p.end
            else no_records);
      size_disabled = p.pending;
      previous_disabled = p.page == 1 || p.pending;
      page = p.page;
      next_disabled = not p.has_next || p.pending;
    })
