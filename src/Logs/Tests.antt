-- ===== src/Logs/Tests.antt =====
-- Runs of the page of the local log, and its theorem at a concrete one.
use plugin_pocket.Base.{
  ℕ, ◌≡◌, refl, false, none, some, [], ◌∷◌, Text, codes, map, keep, trim, trim_start, is_space,
  lower_unit, lookup,
}
use plugin_pocket.Logs.{
  Level, info, error, Entry, Web, Query, Page, opened, all_entries, title_of, insert_entry,
  newest_first, set_search, set_level, copy_done, export_done, fits, visible, copy, export_logs,
}
use plugin_pocket.Logs.Order.{AreNewestFirst, at_time, visible_lem}

runs : Unit {0}
unfolding trim trim_start is_space lower_unit lookup title_of insert_entry newest_first set_search
    set_level copy_done export_done fits visible copy export_logs
runs = tt

abbrev digit : ℕ → Text
digit n = n ∷ []

abbrev web : Web
web = record {
  lower = λ s. map lower_unit s;
  upper = λ s. s;
  translate = λ s. s;
  iso_string = digit;
}

abbrev entry : ℕ → Level → Text → Entry
entry timestamp level message = record {
  timestamp = timestamp;
  level = level;
  action = codes "doctor";
  message = message;
}

abbrev log : Query
log = record {
  data_of = some (
      entry 49 info (codes "one")
      ∷ entry 50 error (codes "two")
      ∷ entry 49 info (codes "One again")
      ∷ []);
  is_error = false;
}

abbrev searching : Page
searching = set_search (codes "ONE ") opened

visible_test :
    visible web log searching ≡ entry 49 info (codes "one") ∷ entry 49 info (codes "One again") ∷ []
unfolding runs
visible_test = refl

copy_test : (copy web log (set_level (some error) opened)).1 ≡ some (codes "2 [error] doctor: two")
unfolding runs
copy_test = refl

again_test : (copy web log (copy web log opened).0).1 ≡ none
unfolding runs
again_test = refl

visible_lem_example :
    AreNewestFirst (visible web log searching)
    × ((k : ℕ)
        → at_time k (visible web log searching)
          ≡ at_time k (keep (fits web searching) (all_entries log)))
visible_lem_example = visible_lem web log searching
