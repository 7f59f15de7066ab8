-- ===== src/Settlement.antt =====
-- web/src/features/operations/SettlementEditor.tsx: the rule that decides whether a call is charged,
-- as a draft and as the JSON that is saved. `JSON.parse`, `JSON.stringify` and the test of a
-- script's syntax by `new Function` are the argument `js`. Labels and help texts are not modelled.
pub mod Editor
pub mod Rules
pub mod Editing
mod Tests
use plugin_pocket.Base.{
  ℕ, ◌+◌, Bool, true, false, not, ◌&&◌, ◌||◌, Option, none, some, List, [], ◌∷◌, ◌++◌, Text, codes,
  eq_text, if◌then◌else◌, leb, ltb, length, or_else, empty, trim, Result, ok, err, ◌>>=◌, ◌>>◌,
  reject,
}

-- A number is the text that it prints as.
mutual
  pub data Json : Type 0 where
    null : Json
    boolean : Bool → Json
    number string : Text → Json
    array : Items → Json
    object : Members → Json

  pub data Items : Type 0 where
    no_items : Items
    item : Json → Items → Items

  pub data Members : Type 0 where
    no_members : Members
    member : Text → Json → Members → Members

pub record Engine : Type 0 where
  pub parse : Text → Option Json
  pub stringify : Json → Text
  pub pretty : Json → Text
  pub compiles : Text → Bool

abbrev pub get : Text → Members → Option Json
get k no_members = none
get k (member j v ms) = if eq_text j k then some v else get k ms

abbrev pub has_members : Members → Bool
has_members no_members = false
has_members (member k v ms) = true

pub data Mode : Type 0 where
  default path pattern script json : Mode

pub record RuleDraft : Type 0 where
  pub mode : Mode
  pub path : Text
  pub equals : Text
  pub pattern : Text
  pub script : Text
  pub json : Text

pub record Content : Type 0 where
  pub path : Option Text
  pub equals : Option Json
  pub pattern : Option Text

-- `z.string().optional()`
abbrev pub optional_string : Option Json → Option (Option Text)
optional_string none = some none
optional_string (some (string s)) = some (some s)
optional_string (some _) = none

abbrev pub content_with : Option (Option Text) → Option Json → Option (Option Text) → Option Content
content_with (some p) e (some q) = some (record { path = p; equals = e; pattern = q })
content_with none e q = none
content_with (some p) e none = none

-- `contentSchema.safeParse(value.content)`
abbrev pub parse_content : Option Json → Option Content
parse_content (some (object ms)) =
    content_with (optional_string (get (codes "path") ms)) (get (codes "equals") ms)
      (optional_string (get (codes "pattern") ms))
parse_content _ = none

abbrev pub script_of : Option Json → Text
script_of (some (string s)) = s
script_of _ = []

-- `option ?? d` of a field of the content, where that was parsed
abbrev pub path_of : Option Content → Option Text
path_of none = none
path_of (some c) = c.path

abbrev pub pattern_of : Option Content → Option Text
pattern_of none = none
pattern_of (some c) = c.pattern

abbrev pub equals_of : Option Content → Option Json
equals_of none = none
equals_of (some c) = c.equals

abbrev pub default_script : Text
default_script = codes "const body = JSON.parse(result.text);\nreturn body.code === 0;"

unfoldable pub mode_of : Text → Option Content → Members → Mode
mode_of text content value =
    if not (empty text)
    then script
    else if not (empty (or_else (pattern_of content) []))
    then pattern
    else if not (empty (or_else (path_of content) []))
    then path
    else if has_members value
    then json
    else default

unfoldable pub draft_of : Engine → Text → Option Content → Members → RuleDraft
draft_of js text content value = record {
  mode = mode_of text content value;
  path = or_else (path_of content) (codes "code");
  equals = js.stringify (or_else (equals_of content) (number (codes "0")));
  pattern = or_else (pattern_of content) (codes "^OK");
  script = if empty text then default_script else text;
  json = if has_members value then js.pretty (object value) else [];
}

unfoldable pub rule_draft : Engine → Members → RuleDraft
rule_draft js value =
    draft_of js (script_of (get (codes "script") value))
      (parse_content (get (codes "content") value)) value

pub data Problem : Type 0 where
  bad_path bad_equals bad_pattern bad_json bad_script script_syntax long_text : Problem

-- The bytes of a text in UTF-8; a surrogate without its partner is encoded as U+FFFD.
unfoldable pub utf8_length : Text → ℕ
utf8_length [] = 0
utf8_length (c ∷ []) = if ltb c 0x80 then 1 else if ltb c 0x800 then 2 else 3
utf8_length (c ∷ d ∷ s) =
    let rest = utf8_length (d ∷ s) in
    let behind = utf8_length s in
    if leb 0xd800 c && ltb c 0xdc00 && leb 0xdc00 d && ltb d 0xe000
    then 4 + behind
    else (if ltb c 0x80 then 1 else if ltb c 0x800 then 2 else 3) + rest

-- `z.number()` takes finite numbers only.
abbrev pub is_finite : Text → Bool
is_finite n = not (eq_text n (codes "Infinity")) && not (eq_text n (codes "-Infinity"))

-- `z.union([z.string(), z.number(), z.boolean()])`
abbrev pub is_code : Json → Bool
is_code (string s) = true
is_code (number n) = is_finite n
is_code (boolean b) = true
is_code _ = false

abbrev pub count_items : Items → ℕ
count_items no_items = 0
count_items (item j js) = 1 + count_items js

abbrev pub all_codes : Items → Bool
all_codes no_items = true
all_codes (item j js) = is_code j && all_codes js

-- What a field may be compared with.
abbrev pub is_comparable : Json → Bool
is_comparable null = true
is_comparable (array js) = leb 1 (count_items js) && leb (count_items js) 16 && all_codes js
is_comparable j = is_code j

abbrev pub of_option {ℓ} : {A : Type ℓ} → Problem → Option A → Result Problem A
of_option p none = err p
of_option p (some a) = ok a

abbrev pub as_object : Json → Result Problem Members
as_object (object ms) = ok ms
as_object _ = err bad_json

abbrev pub strict : Text → Text
strict s = codes "\"use strict\";\n" ++ s

abbrev pub check_script : Engine → Option Json → Result Problem (Unit {0})
check_script js (some (string s)) =
    reject (empty (trim s) || ltb 8192 (utf8_length s)) bad_script
    >> reject (not (js.compiles (strict s))) script_syntax
check_script js _ = ok tt

-- The end of `settlementValue`: a script in the value is checked, however it got there.
abbrev pub checked : Engine → Members → Result Problem Members
checked js value = check_script js (get (codes "script") value) >> ok value

abbrev pub one_member : Text → Json → Members
one_member k v = member k v no_members

abbrev pub path_rule : Text → Json → Members
path_rule p e =
    one_member (codes "content")
      (object (member (codes "path") (string p) (one_member (codes "equals") e)))

abbrev pub pattern_rule : Text → Members
pattern_rule p = one_member (codes "content") (object (one_member (codes "pattern") (string p)))

abbrev pub script_rule : Text → Members
script_rule s = one_member (codes "script") (string s)

unfoldable pub settlement_at : Engine → Mode → RuleDraft → Result Problem Members
settlement_at js default d = ok no_members
settlement_at js path d = do
  reject (empty (trim d.path) || ltb 64 (length d.path)) bad_path
  equals ← of_option bad_equals (js.parse d.equals)
  reject (not (is_comparable equals)) bad_equals
  ok (path_rule (trim d.path) equals)
settlement_at js pattern d = do
  reject (empty d.pattern || ltb 256 (utf8_length d.pattern)) bad_pattern
  ok (pattern_rule d.pattern)
settlement_at js script d = checked js (script_rule d.script)
settlement_at js json d = do
  parsed ←
      (if empty (trim d.json) then ok (object no_members) else of_option bad_json (js.parse d.json))
  value ← as_object parsed
  checked js value

unfoldable pub settlement_value : Engine → RuleDraft → Result Problem Members
settlement_value js d = settlement_at js d.mode d
