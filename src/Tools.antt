-- ===== src/Tools.antt =====
-- web/src/features/operations/ToolEditor.tsx: the editor of a tool and the body that it sends. JSON
-- and scripts are the engine `js` of Settlement; the URL parser, `Number` and `toLowerCase` are
-- `web`. The fields of the form are kept by react-hook-form and stand here as a record. The draft
-- of the settlement rule and the icon are those of Settlement and Icon.
pub mod Connection
pub mod Body
mod Tests
use plugin_pocket.Base.{
  ℕ, Bool, true, false, not, ◌&&◌, ◌||◌, Option, none, some, List, [], ◌∷◌, ◌++◌, Text, codes,
  empty, eq_text, if◌then◌else◌, keep, or_else, is_some, insert, mem_text, trim, without, Result,
  ok, err, ◌>>=◌, ◌>>◌, reject,
}
use plugin_pocket.Settlement
use plugin_pocket.Settlement.{
  Json, string, boolean, array, object, Items, no_items, item, Members, no_members, member, get,
  Engine, RuleDraft, rule_draft, settlement_value,
}

pub record Address : Type 0 where
  pub protocol : Text
  pub username : Text
  pub password : Text

pub record Web : Type 0 where
  pub js : Engine
  pub parse_url : Text → Option Address
  pub number : Text → Json
  pub to_lower : Text → Text

pub data Kind : Type 0 where
  builtin http stdio : Kind

pub data ConnectionMode : Type 0 where
  fields json : ConnectionMode

pub record Tool : Type 0 where
  pub key : Text
  pub name : Text
  pub description : Text
  pub kind : Kind
  pub enabled : Bool
  pub units_per_call : Text
  pub allowed_roles : Option (List Text)
  pub input_schema : Members
  pub settlement : Option Members
  pub icon : Option Text

pub record Form : Type 0 where
  pub key : Text
  pub name : Text
  pub description : Text
  pub kind : Kind
  pub units_per_call : Text
  pub allowed_roles : List Text
  pub input_schema : Text
  pub config : Text
  pub url : Text
  pub token : Text
  pub headers : Text
  pub command : Text
  pub args : Text
  pub env : Text

-- The messages of the validation.
pub data Problem : Type 0 where
  bad_schema schema_type bad_config bad_url bad_headers no_command bad_args bad_env : Problem
  bad_rule : Settlement.Problem → Problem

pub record Editor : Type 0 where
  pub form : Form
  pub icon : Text
  pub rule : RuleDraft
  pub update_connection : Bool
  pub connection_mode : ConnectionMode
  pub validation : Option Problem

abbrev string_member : Text → Text → Members → Members
string_member k v ms = member k (string v) ms

abbrev empty_schema : Members
empty_schema =
    string_member (codes "type") (codes "object")
      (member (codes "properties") (object no_members) no_members)

abbrev new_form : Engine → Form
new_form js = record {
  key = [];
  name = [];
  description = [];
  kind = builtin;
  units_per_call = codes "1";
  allowed_roles = [];
  input_schema = js.pretty (object empty_schema);
  config = [];
  url = [];
  token = [];
  headers = [];
  command = [];
  args = [];
  env = [];
}

-- `defaultValues`: a saved connection is not shown again.
unfoldable pub form_of : Engine → Option Tool → Form
form_of js none = new_form js
form_of js (some t) = record (new_form js) {
  key = t.key;
  name = t.name;
  description = t.description;
  kind = t.kind;
  units_per_call = t.units_per_call;
  allowed_roles = or_else t.allowed_roles [];
  input_schema = js.pretty (object t.input_schema);
}

abbrev pub icon_of : Option Tool → Text
icon_of none = []
icon_of (some t) = or_else t.icon []

abbrev rule_of : Option Tool → Members
rule_of none = no_members
rule_of (some t) = or_else t.settlement no_members

unfoldable pub begun : Engine → Option Tool → Editor
begun js t = record {
  form = form_of js t;
  icon = icon_of t;
  rule = rule_draft js (rule_of t);
  update_connection = not (is_some t);
  connection_mode = fields;
  validation = none;
}

abbrev pub same_kind : Kind → Kind → Bool
same_kind builtin builtin = true
same_kind http http = true
same_kind stdio stdio = true
same_kind _ _ = false

abbrev kind_is_saved : Kind → Option Tool → Bool
kind_is_saved kind none = false
kind_is_saved kind (some t) = same_kind kind t.kind

unfoldable pub replace_connection : Option Tool → Editor → Bool
replace_connection t e = e.update_connection || not (kind_is_saved e.form.kind t)

abbrev pub as_object : Problem → Option Json → Result Problem Members
as_object p (some (object ms)) = ok ms
as_object p _ = err p

unfoldable pub json_object : Engine → Text → Problem → Result Problem Members
json_object js raw p = as_object p (js.parse raw)

-- `z.record(z.string(), z.string())`
abbrev cons_string : Text → Json → Option (List (Text × Text)) → Option (List (Text × Text))
cons_string k (string s) (some rest) = some ((k, s) ∷ rest)
cons_string k _ _ = none

abbrev strings_of : Members → Option (List (Text × Text))
strings_of no_members = some []
strings_of (member k v ms) = cons_string k v (strings_of ms)

-- `z.array(z.string())`
abbrev cons_text : Json → Option (List Text) → Option (List Text)
cons_text (string s) (some rest) = some (s ∷ rest)
cons_text _ _ = none

abbrev texts_of : Items → Option (List Text)
texts_of no_items = some []
texts_of (item j js) = cons_text j (texts_of js)

abbrev as_texts : Option Json → Option (List Text)
as_texts (some (array js)) = texts_of js
as_texts _ = none

abbrev pub or_problem {ℓ} : {A : Type ℓ} → Problem → Option A → Result Problem A
or_problem p none = err p
or_problem p (some a) = ok a

unfoldable pub string_record : Engine → Text → Problem → Result Problem (List (Text × Text))
string_record js raw p = do ms ← json_object js raw p; or_problem p (strings_of ms)

pub data Config : Type 0 where
  raw_config : Members → Config
  http_config : Text → List (Text × Text) → Config
  stdio_config : Text → List Text → Option (List (Text × Text)) → Config

abbrev pub bad_address : Address → Bool
bad_address a =
    (not (eq_text a.protocol (codes "https:")) && not (eq_text a.protocol (codes "http:")))
    || (not (empty a.username) || not (empty a.password))

unfoldable pub is_authorization : Web → Text → Bool
is_authorization web key = eq_text (web.to_lower key) (codes "authorization")

-- A token takes the place of every authorization header.
unfoldable pub with_token : Web → Text → List (Text × Text) → List (Text × Text)
with_token web token headers =
    if empty (trim token)
    then headers
    else insert (codes "Authorization") (codes "Bearer " ++ trim token)
        (keep (λ h. not (is_authorization web h.0)) headers)

abbrev pub headers_of : Engine → Text → Result Problem (List (Text × Text))
headers_of js raw = if empty (trim raw) then ok [] else string_record js raw bad_headers

-- Without headers the field is left out, which is here the empty list.
unfoldable pub http_fields : Web → Form → Result Problem Config
http_fields web form = do
  address ← or_problem bad_url (web.parse_url form.url)
  reject (bad_address address) bad_url
  headers ← headers_of web.js form.headers
  ok (http_config (trim form.url) (with_token web form.token headers))

abbrev pub args_of : Engine → Text → Result Problem (List Text)
args_of js raw = if empty (trim raw) then ok [] else or_problem bad_args (as_texts (js.parse raw))

abbrev pub env_of : Engine → Text → Result Problem (Option (List (Text × Text)))
env_of js raw =
    if empty (trim raw) then ok none else string_record js raw bad_env >>= λ env. ok (some env)

unfoldable pub stdio_fields : Web → Form → Result Problem Config
stdio_fields web form = do
  reject (empty (trim form.command)) no_command
  args ← args_of web.js form.args
  env ← env_of web.js form.env
  ok (stdio_config (trim form.command) args env)

unfoldable pub config_at : Web → ConnectionMode → Kind → Form → Result Problem (Option Config)
config_at web mode builtin form = ok none
config_at web json kind form =
    json_object web.js form.config bad_config >>= λ ms. ok (some (raw_config ms))
config_at web fields http form = http_fields web form >>= λ config. ok (some config)
config_at web fields stdio form = stdio_fields web form >>= λ config. ok (some config)

unfoldable pub config_of : Web → Option Tool → Editor → Result Problem (Option Config)
config_of web t e =
    if replace_connection t e then config_at web e.connection_mode e.form.kind e.form else ok none

pub record ToolBody : Type 0 where
  pub key : Text
  pub name : Text
  pub description : Text
  pub kind : Kind
  pub enabled : Bool
  pub units_per_call : Json
  pub allowed_roles : List Text
  pub input_schema : Members
  pub icon : Option Text
  pub config : Option Config
  pub settlement : Option Members

abbrev pub enabled_of : Option Tool → Bool
enabled_of none = true
enabled_of (some t) = t.enabled

-- An empty icon is sent only to take a saved one away.
abbrev pub icon_to_send : Option Tool → Text → Option Text
icon_to_send t icon = if empty icon && empty (icon_of t) then none else some icon

abbrev pub lifted : Result Settlement.Problem Members → Result Problem (Option Members)
lifted (err p) = err (bad_rule p)
lifted (ok ms) = ok (some ms)

unfoldable pub settlement_of : Engine → Kind → RuleDraft → Result Problem (Option Members)
settlement_of js builtin rule = ok none
settlement_of js kind rule = lifted (settlement_value js rule)

abbrev pub is_object_type : Option Json → Bool
is_object_type (some (string s)) = eq_text s (codes "object")
is_object_type _ = false

unfoldable pub body_of : Web → Option Tool → Editor → Result Problem ToolBody
body_of web t e = do
  input_schema ← json_object web.js e.form.input_schema bad_schema
  reject (not (is_object_type (get (codes "type") input_schema))) schema_type
  config ← config_of web t e
  settlement ← settlement_of web.js e.form.kind e.rule
  ok (record {
    key = e.form.key;
    name = e.form.name;
    description = e.form.description;
    kind = e.form.kind;
    enabled = enabled_of t;
    units_per_call = web.number e.form.units_per_call;
    allowed_roles = e.form.allowed_roles;
    input_schema = input_schema;
    icon = icon_to_send t e.icon;
    config = config;
    settlement = settlement;
  })

abbrev pub sent : Editor → Result Problem ToolBody → Editor × Option ToolBody
sent e (err p) = (record e { validation = some p }, none)
sent e (ok body) = (e, some body)

-- The submit handler: the body that is sent, if the validation finds no problem.
unfoldable pub submit : Web → Option Tool → Editor → Editor × Option ToolBody
submit web t e =
    let cleared = record e { validation = none } in sent cleared (body_of web t cleared)

-- The selection of the kind is off for a saved tool.
abbrev pub set_kind : Option Tool → Text → Editor → Editor
set_kind (some t) value e = e
set_kind none value e = record e {
  form = record (e.form) {
    kind =
        if eq_text value (codes "http")
        then http
        else if eq_text value (codes "stdio")
        then stdio
        else builtin;
  };
}

abbrev pub set_update_connection : Bool → Editor → Editor
set_update_connection checked e = record e { update_connection = checked }

abbrev pub set_connection_mode : ConnectionMode → Editor → Editor
set_connection_mode mode e = record e { connection_mode = mode }

abbrev pub set_rule : RuleDraft → Editor → Editor
set_rule rule e = record e { rule = rule }

abbrev pub set_icon : Text → Editor → Editor
set_icon icon e = record e { icon = icon }

-- The schema of the example, with the description in the reader's language.
abbrev example_schema : Text → Members
example_schema description = string_member (codes "type") (codes "object") (
    member (codes "properties")
      (object (
        member (codes "query")
          (object (
            string_member (codes "type") (codes "string")
              (string_member (codes "description") description no_members)))
          no_members))
      (member (codes "required") (array (item (string (codes "query")) no_items)) no_members))

abbrev pub fill_example : Engine → Text → Editor → Editor
fill_example js description e = record e {
  form = record (e.form) { input_schema = js.pretty (object (example_schema description)) };
}
