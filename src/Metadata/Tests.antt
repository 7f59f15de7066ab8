-- ===== src/Metadata/Tests.antt =====
-- Runs of the panel of the overrides.
use plugin_pocket.Base.{◌≡◌, refl, true, false, none, some, [], codes, trim, trim_start, is_space}
use plugin_pocket.Settlement.{string, Engine}
use plugin_pocket.Metadata.{
  UpstreamTool, Panel, sent, override_of, current_of, draft_of, toggle_editing, set_description,
  set_schema, saving, save, save_done, clear_override, clear_done,
}

runs : Unit {0}
unfolding trim trim_start is_space override_of current_of draft_of toggle_editing set_description
    set_schema saving save save_done clear_override clear_done
runs = tt

abbrev js : Engine
js = record {
  parse = λ s. some (string s);
  stringify = λ _. codes "{}";
  pretty = λ _. codes "{}";
  compiles = λ _. true;
}

abbrev first_tool : UpstreamTool
first_tool = record { name = codes "a"; description = codes "A"; input_schema = none }

abbrev second_tool : UpstreamTool
second_tool = record { name = codes "b"; description = codes "B"; input_schema = none }

abbrev opened : Panel
opened = toggle_editing js first_tool none (record { editing = none; removing = false })

save_test :
    (save js (set_description (codes "better") opened)).1
    ≡ sent (record {
      remote_name = codes "a";
      description = codes "better";
      input_schema = some (string (codes "{}"));
    })
unfolding runs
save_test = refl

blank_test :
    (save js (set_schema [] opened)).1
    ≡ sent (record { remote_name = codes "a"; description = []; input_schema = none })
unfolding runs
blank_test = refl

-- The save of one tool ends while another is being edited.
closed_test :
    (save_done false true (
      set_description
        (codes "new")
        (toggle_editing js second_tool none ((save js opened).0)))).editing
    ≡ none
unfolding runs
closed_test = refl

current_test : current_of first_tool (override_of (codes "b") []) ≡ codes "A"
unfolding runs
current_test = refl
