-- ===== src/Settlement/Tests.antt =====
-- Runs of the settlement editor, and the theorems at a concrete draft.
use plugin_pocket.Base.{
  ◌≡◌, ◌≢◌, refl, true, false, none, some, [], codes, eq_text, if◌then◌else◌, trim, trim_start,
  is_space, ok, err,
}
use plugin_pocket.Settlement.{
  Json, number, object, Members, Engine, path, json, RuleDraft, mode_of, draft_of, rule_draft,
  utf8_length, path_rule, settlement_at, settlement_value, default_script, bad_path,
}
use plugin_pocket.Settlement.Editor.{
  not_sent, Editor, reset, change, change_mode, press_preview, preview_done, form,
}
use plugin_pocket.Settlement.Rules.{IsRule, settlement_value-IsRule, settlement_value-rule_draft}
use plugin_pocket.Settlement.Editing.{}

runs : Unit {0}
unfolding mode_of draft_of rule_draft utf8_length settlement_at settlement_value reset change
    change_mode press_preview preview_done form trim trim_start is_space
runs = tt

abbrev zero_number : Json
zero_number = number (codes "0")

abbrev rule : Members
rule = path_rule (codes "data.code") zero_number

-- It reads and writes a zero, and the object that holds the rule.
abbrev js : Engine
js = record {
  parse = λ s. if eq_text s (codes "0") then some zero_number else some (object rule);
  stringify = λ j. codes "0";
  pretty = λ j. codes "{}";
  compiles = λ s. true;
}

abbrev draft : RuleDraft
draft = record {
  mode = path;
  path = codes " data.code ";
  equals = codes "0";
  pattern = codes "^OK";
  script = default_script;
  json = [];
}

abbrev editor : Editor
editor = record {
  value = draft;
  text = codes "ok";
  is_error = false;
  local_error = none;
  preview = not_sent;
}

settled : settlement_value js draft ≡ ok rule
unfolding runs
settled = refl

blank : settlement_value js (record draft { path = codes "  " }) ≡ err bad_path
unfolding runs
blank = refl

wide : utf8_length (codes "é漢") ≡ 5
unfolding runs
wide = refl

path-ne-json : path ≢ json
path-ne-json e = cc

read : (j : Json) → js.parse draft.equals ≡ some j → js.parse (js.stringify j) ≡ some j
read j e = e

settlement_value-IsRule_example : IsRule js path draft rule
settlement_value-IsRule_example = settlement_value-IsRule js draft rule settled

settlement_value-rule_draft_example :
    ((rule_draft js rule).mode ≡ path) × (settlement_value js (rule_draft js rule) ≡ ok rule)
settlement_value-rule_draft_example =
    settlement_value-rule_draft js draft rule read path-ne-json settled

full : (trim (js.pretty (object rule))) ≡ codes "{}"
unfolding runs
full = refl
