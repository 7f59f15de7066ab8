-- ===== src/Tools/Tests.antt =====
-- Runs of the editor of a tool, and its theorem at a concrete one.
use plugin_pocket.Base.{
  ◌≡◌, ◌⊎◌, refl, true, Option, none, some, [], ◌∷◌, Text, codes, eq_text, if◌then◌else◌, insert,
  is_space, trim_start, trim, map, ok, lower_unit,
}
use plugin_pocket.Settlement.{
  Json, null, string, object, no_members, member, settlement_value, settlement_at, rule_draft,
  draft_of, mode_of, utf8_length,
}
use plugin_pocket.Tools.{
  Web, http, Problem, Editor, begun, form_of, replace_connection, json_object, string_record,
  is_authorization, with_token, http_fields, stdio_fields, config_at, config_of, http_config,
  ToolBody, settlement_of, body_of, submit,
}
use plugin_pocket.Tools.Body.{IsBody, submit_cases}

runs : Unit {0}
unfolding begun form_of replace_connection json_object string_record is_authorization with_token
    http_fields stdio_fields config_at config_of settlement_of body_of submit settlement_value
    settlement_at rule_draft draft_of mode_of utf8_length trim trim_start is_space insert lower_unit
runs = tt

-- An engine that reads two texts only.
abbrev parse : Text → Option Json
parse s =
    if eq_text s (codes "schema")
    then some (object (member (codes "type") (string (codes "object")) no_members))
    else if eq_text s (codes "headers")
    then some (object (member (codes "AUTHORIZATION") (string (codes "x")) no_members))
    else none

abbrev web : Web
web = record {
  js = record {
    parse = parse;
    stringify = λ _. codes "json";
    pretty = λ _. codes "schema";
    compiles = λ _. true;
  };
  parse_url = λ _. some (record { protocol = codes "https:"; username = []; password = [] });
  number = λ _. null;
  to_lower = map lower_unit;
}

abbrev start : Editor
start = begun web.js none

abbrev filled : Editor
filled = record start {
  form = record (start.form) {
    kind = http;
    url = codes " https://a.example ";
    token = codes "t";
    headers = codes "headers";
  };
}

config_test :
    config_of web none filled
    ≡ ok (
        some (
          http_config (codes "https://a.example") ((codes "Authorization", codes "Bearer t") ∷ [])))
unfolding runs
config_test = refl

submit_cases_example :
    ((p : Problem) × (submit web none filled ≡ (record filled { validation = some p }, none)))
    ⊎ ((body : ToolBody) × (submit web none filled
          ≡ (record filled { validation = none }, some body))
        × IsBody web none filled body)
submit_cases_example = submit_cases web none filled
