-- ===== src/Paging/Tests.antt =====
-- Runs of the paged list, and the theorems at concrete states.
use plugin_pocket.Base.{
  ℕ, ◌+◌, ◌-◌, ◌≤◌, ◌≡◌, ◌⊎◌, ◌↔◌, refl, true, false, none, some, [], ◌∷◌, arith, codes, length,
  take, drop,
}
use plugin_pocket.Paging.{
  Key, Page, Query, Fetched, resolved, Hook, fetch_next, page_index, items, pagination, Bar, bar,
  range, next_start, next_finish, previous, set_page_size, render, eq_key, pages, next_page_param,
}
use plugin_pocket.Paging.Window.{all_items, pagination-items}
use plugin_pocket.Paging.Flight.{World, next_pressed, Reach, here, step, IsCounted, Reach-IsCounted}
use plugin_pocket.Paging.Buttons.{bar-eq-none}

abbrev users : Key
users = record { path = codes "/admin/users"; size = 10 }

abbrev first : Page ℕ
first = record { items = 7 ∷ 8 ∷ []; next_cursor = codes "c1" }

abbrev second : Page ℕ
second = record { items = 9 ∷ []; next_cursor = [] }

abbrev both : Query ℕ
both = record {
  loaded = some (first ∷ second ∷ []);
  has_next_page = true;
  is_fetching = false;
  is_paused = false;
  is_fetch_next_page_error = false;
}

abbrev on_page : ℕ → Hook
on_page i = record {
  page_size = 10;
  view = record { key = users; index = i };
  fetching_next = false;
}

runs : Unit {0}
unfolding page_index items pagination bar next_start next_finish previous set_page_size render
    eq_key next_page_param
runs = tt

page_tests :
    (items users both (on_page 1) ≡ 9 ∷ [])
    × ((pagination users both (on_page 1)).start ≡ 3)
    × ((next_start users both (on_page 1)).1 ≡ fetch_next users 1)
    × (next_page_param second ≡ none)
unfolding runs
page_tests = (refl, refl, refl, refl)

abbrev shown : Bar
shown = record {
  count = range 3 3;
  size_disabled = false;
  previous_disabled = false;
  page = 2;
  next_disabled = false;
}

bar_test : bar (pagination users both (on_page 1)) ≡ some shown
unfolding runs
bar_test = refl

pagination-items_example :
    (items users both (on_page 1)
      ≡ take
          ((pagination users both (on_page 1)).end + 1 - (pagination users both (on_page 1)).start)
          (drop ((pagination users both (on_page 1)).start - 1) (all_items (pages both))))
    × (1 ≤ (pagination users both (on_page 1)).start)
    × ((pagination users both (on_page 1)).start ≤ (pagination users both (on_page 1)).end)
    × ((pagination users both (on_page 1)).end ≤ length (all_items (pages both)))
unfolding runs
pagination-items_example = pagination-items users both (on_page 1) (omega arith)

abbrev failed : Fetched ℕ
failed = resolved true none

abbrev world : World
world = record { hook = on_page 1; flights = [] }

abbrev flying : World
flying = record { hook = record (on_page 1) { fetching_next = true }; flights = (users, 1) ∷ [] }

one_press : Reach ℕ world flying
unfolding runs
one_press = step here (next_pressed users both)

Reach-IsCounted_example : IsCounted flying × (length flying.flights ≤ 1)
Reach-IsCounted_example = Reach-IsCounted one_press refl

bar-eq-none_example : (bar (pagination users both (on_page 1)) ≡ none) ↔ (
    ((pagination users both (on_page 1)).has_data ≡ false)
    ⊎ ((pagination users both (on_page 1)).end ≡ 0))
bar-eq-none_example = bar-eq-none (pagination users both (on_page 1))
