-- ===== src/Metadata.antt =====
-- web/src/features/operations/ToolMetadataPanel.tsx: the overrides of the descriptions and the
-- parameters of upstream tools. JSON is the engine `js` of Settlement.
mod Tests
use plugin_pocket.Base.{
  ℕ, Bool, true, false, not, ◌&&◌, ◌||◌, Option, none, some, List, [], ◌∷◌, Text, codes, empty,
  eq_text, trim, if◌then◌else◌, or_else, is_some,
}
use plugin_pocket.Settlement.{Json, null, string, object, no_members, member, Engine}

pub record UpstreamTool : Type 0 where
  pub name : Text
  pub description : Text
  pub input_schema : Option Json

pub record MetadataOverride : Type 0 where
  pub remote_name : Text
  pub description : Text
  pub input_schema : Option Json

-- The override editor of one tool.
pub record Draft : Type 0 where
  pub description : Text
  pub schema : Text
  pub pending : Bool

pub record Panel : Type 0 where
  pub editing : Option (Text × Draft)
  pub removing : Bool

pub record MetadataBody : Type 0 where
  pub remote_name : Text
  pub description : Text
  pub input_schema : Option Json

-- What a press of the save button leads to.
pub data Saving : Type 0 where
  unavailable invalid_json : Saving
  sent : MetadataBody → Saving

-- `overrides.find(...)`
unfoldable pub override_of : Text → List MetadataOverride → Option MetadataOverride
override_of name [] = none
override_of name (entry ∷ rest) =
    let later = override_of name rest in
    if eq_text entry.remote_name name then some entry else later

abbrev description_of : Option MetadataOverride → Text
description_of none = []
description_of (some entry) = entry.description

-- `override?.description || remote.description`
unfoldable pub current_of : UpstreamTool → Option MetadataOverride → Text
current_of remote override =
    if empty (description_of override) then remote.description else description_of override

abbrev schema_in : Option MetadataOverride → Option Json
schema_in none = none
schema_in (some entry) = entry.input_schema

-- `a ?? b`
abbrev or_json : Option Json → Json → Json
or_json none other = other
or_json (some null) other = other
or_json (some j) other = j

abbrev any_object : Json
any_object = object (member (codes "type") (string (codes "object")) no_members)

unfoldable pub draft_of : Engine → UpstreamTool → Option MetadataOverride → Draft
draft_of js remote override = record {
  description = description_of override;
  schema = js.pretty (or_json (schema_in override) (or_json remote.input_schema any_object));
  pending = false;
}

abbrev is_open : Text → Option (Text × Draft) → Bool
is_open name none = false
is_open name (some (other, draft)) = eq_text other name

-- The button of a tool opens its editor in place of any other, or closes it.
unfoldable pub toggle_editing : Engine → UpstreamTool → Option MetadataOverride → Panel → Panel
toggle_editing js remote override p = record p {
  editing =
      if is_open remote.name p.editing
      then none
      else some (remote.name, draft_of js remote override);
}

abbrev with_draft : (Draft → Draft) → Option (Text × Draft) → Option (Text × Draft)
with_draft change none = none
with_draft change (some (name, draft)) = some (name, change draft)

unfoldable pub set_description : Text → Panel → Panel
set_description description p = record p {
  editing = with_draft (λ draft. record draft { description = description }) p.editing;
}

unfoldable pub set_schema : Text → Panel → Panel
set_schema schema p = record p {
  editing = with_draft (λ draft. record draft { schema = schema }) p.editing;
}

abbrev saving_of : Text → Draft → Option Json → Saving
saving_of name draft parsed =
    sent (record { remote_name = name; description = draft.description; input_schema = parsed })

abbrev saving_or : Text → Draft → Option Json → Saving
saving_or name draft none = invalid_json
saving_or name draft (some j) = saving_of name draft (some j)

unfoldable pub saving : Engine → Text → Draft → Saving
saving js name draft =
    if draft.pending
    then unavailable
    else if empty (trim draft.schema)
    then saving_of name draft none
    else saving_or name draft (js.parse draft.schema)

abbrev marked : Saving → Panel → Panel
marked (sent body) p = record p {
  editing = with_draft (λ draft. record draft { pending = true }) p.editing;
}
marked _ p = p

abbrev saving_in : Engine → Option (Text × Draft) → Saving
saving_in js none = unavailable
saving_in js (some (name, draft)) = saving js name draft

unfoldable pub save : Engine → Panel → Panel × Saving
save js p = (marked (saving_in js p.editing) p, saving_in js p.editing)

-- The end of a save: a success closes the editor that is open then. A failure is told to the editor
-- that sent it, `followed`, unless that is closed.
unfoldable pub save_done : Bool → Bool → Panel → Panel
save_done followed true p = record p { editing = none }
save_done true false p = record p {
  editing = with_draft (λ draft. record draft { pending = false }) p.editing;
}
save_done false false p = p

-- The press of the button that clears an override; it is there if the tool has one.
unfoldable pub clear_override : Text → Option MetadataOverride → Panel → Panel × Option Text
clear_override name override p =
    if is_some override && not p.removing
    then (record p { removing = true }, some name)
    else (p, none)

unfoldable pub clear_done : Panel → Panel
clear_done p = record p { removing = false }
