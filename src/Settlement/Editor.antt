-- ===== src/Settlement/Editor.antt =====
-- web/src/features/operations/SettlementEditor.tsx: the editor of a rule, its preview and what it
-- shows. Its value belongs to the parent, which sets it to what `onChange` gives; here it is part
-- of the editor.
use plugin_pocket.Base.{
  Bool, true, false, ◌||◌, Option, none, some, Text, ltb, Result, ok, err, ◌>>=◌, ◌>>◌, reject,
}
use plugin_pocket.Settlement.{
  rule_draft, utf8_length, settlement_value, Members, Engine, Mode, RuleDraft, Problem, object,
  default, path, pattern, script, json, long_text,
}

pub record PreviewBody : Type 0 where
  pub settlement : Members
  pub text : Text
  pub is_error : Bool

-- The mutation's `isPending`, `data` and `error`.
pub data Preview : Type 0 where
  not_sent failed : Preview
  pending : PreviewBody → Preview
  answered : Bool → Preview

pub record Editor : Type 0 where
  pub value : RuleDraft
  pub text : Text
  pub is_error : Bool
  pub local_error : Option Problem
  pub preview : Preview

unfoldable pub reset : Editor → Editor
reset e = record e { preview = not_sent; local_error = none }

-- `change`, with the patched draft
unfoldable pub change : RuleDraft → Editor → Editor
change d e = record (reset e) { value = d }

unfoldable pub set_text : Text → Editor → Editor
set_text t e = record (reset e) { text = t }

unfoldable pub set_is_error : Bool → Editor → Editor
set_is_error b e = record (reset e) { is_error = b }

abbrev pub changed_to : (Members → RuleDraft) → Result Problem Members → Editor → Editor
changed_to f (err p) e = record e { local_error = some p }
changed_to f (ok m) e = change (f m) e

abbrev pub leave : Engine → Mode → Mode → Editor → Editor
leave js mode json e =
    changed_to (λ m. record (rule_draft js m) { mode = mode }) (settlement_value js e.value) e
leave js mode default e = change (record e.value { mode = mode }) e
leave js mode path e = change (record e.value { mode = mode }) e
leave js mode pattern e = change (record e.value { mode = mode }) e
leave js mode script e = change (record e.value { mode = mode }) e

-- `changeMode`
unfoldable pub change_mode : Engine → Mode → Editor → Editor
change_mode js json e =
    changed_to (λ m. record e.value { mode = json; json = js.pretty (object m) })
      (settlement_value js e.value) e
change_mode js default e = leave js default e.value.mode e
change_mode js path e = leave js path e.value.mode e
change_mode js pattern e = leave js pattern e.value.mode e
change_mode js script e = leave js script e.value.mode e

abbrev pub body_of : Engine → Editor → Result Problem PreviewBody
body_of js e = do
  settlement ← settlement_value js e.value
  reject (ltb 65536 (utf8_length e.text)) long_text
  ok (record { settlement = settlement; text = e.text; is_error = e.is_error })

abbrev pub sent : Result Problem PreviewBody → Editor → Editor
sent (err p) e = record e { local_error = some p }
sent (ok b) e = record e { preview = pending b }

-- The preview button's `onClick`
unfoldable pub press_preview : Engine → Editor → Editor
press_preview js e = sent (body_of js e) (reset e)

-- The answer to a preview that was not reset since it was sent.
unfoldable pub preview_done : Option Bool → Editor → Editor
preview_done none e = record e { preview = failed }
preview_done (some charge) e = record e { preview = answered charge }

-- What the editor shows: the fields of the mode, and the preview with its button.
pub data Fields : Type 0 where
  no_fields : Fields
  path_fields : Text → Text → Fields
  pattern_field script_field json_field : Text → Fields

pub record Form : Type 0 where
  pub mode : Mode
  pub mode_disabled : Bool
  pub fields : Fields
  pub sample : Text
  pub checked : Bool
  pub button_disabled : Bool
  pub button_pending : Bool
  pub problem : Option Problem
  pub request_failed : Bool
  pub charge : Option Bool

abbrev pub fields_at : RuleDraft → Mode → Fields
fields_at d default = no_fields
fields_at d path = path_fields d.path d.equals
fields_at d pattern = pattern_field d.pattern
fields_at d script = script_field d.script
fields_at d json = json_field d.json

abbrev pub is_pending : Preview → Bool
is_pending (pending b) = true
is_pending _ = false

abbrev pub has_failed : Preview → Bool
has_failed failed = true
has_failed _ = false

abbrev pub charge_of : Preview → Option Bool
charge_of (answered charge) = some charge
charge_of _ = none

unfoldable pub form : Bool → Editor → Form
form disabled e = record {
  mode = e.value.mode;
  mode_disabled = disabled || is_pending e.preview;
  fields = fields_at e.value e.value.mode;
  sample = e.text;
  checked = e.is_error;
  button_disabled = disabled || is_pending e.preview;
  button_pending = is_pending e.preview;
  problem = e.local_error;
  request_failed = has_failed e.preview;
  charge = charge_of e.preview;
}
