-- ===== src/Equipment/Tests.antt =====
-- Runs of the page of the equipment, and its theorem at a concrete one.
use plugin_pocket.Base.{
  ◌≡◌, refl, false, none, some, List, [], ◌∷◌, Text, codes, map, trim, trim_start, is_space,
  lower_unit,
}
use plugin_pocket.Equipment.{
  mcp, skill, codex, Item, Installed, Page, opened, set_search, set_client, set_kind,
  operation_done, visible, ask_uninstall, cancel_uninstall, update, uninstall,
}
use plugin_pocket.Equipment.Confirming.{
  Event, searched, kind_chosen, asked, uninstall_pressed, done, Run, start, next, event, WasAsked,
  uninstall-WasAsked,
}

runs : Unit {0}
unfolding trim trim_start is_space lower_unit visible set_search set_client set_kind operation_done
    ask_uninstall cancel_uninstall update uninstall
runs = tt

abbrev lower : Text → Text
lower s = map lower_unit s

abbrev notes : Item
notes = record { slug = codes "Notes"; kind = skill; clients = codex ∷ []; version = none }

abbrev search_server : Item
search_server = record { slug = codes "search"; kind = mcp; clients = codex ∷ []; version = none }

abbrev loaded : Installed
loaded = record {
  data_of = some (search_server ∷ notes ∷ []);
  is_fetching = false;
  is_error = false;
}

-- A skill is looked for and asked for; its uninstallation fails.
abbrev pressed : List Event
pressed = done false ∷ uninstall_pressed loaded 0 ∷ asked loaded 0 ∷ searched (codes " note") ∷ []

abbrev page_after : List Event → Page
page_after [] = opened
page_after (e ∷ es) = event lower e (page_after es)

pressed-Run : Run lower pressed (page_after pressed)
unfolding runs
pressed-Run =
    next
      (next (next (next start (searched (codes " note")) refl) (asked loaded 0) refl)
        (uninstall_pressed loaded 0) refl)
      (done false) refl

dropped_test :
    (uninstall lower loaded 0 (event lower (kind_chosen none) (page_after pressed))).1 ≡ none
unfolding runs
dropped_test = refl

uninstall-WasAsked_example : WasAsked lower notes pressed
unfolding runs
uninstall-WasAsked_example = uninstall-WasAsked lower pressed-Run loaded 0 notes refl
