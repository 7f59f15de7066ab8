-- ===== src/Icon/Editor.antt =====
-- web/src/features/operations/ToolIcon.tsx: the editor of an icon, its file input and what it shows.
use plugin_pocket.Base.{
  ℕ, ◌+◌, ◌*◌, Bool, true, false, not, ◌&&◌, ◌||◌, ◌==◌, Option, none, some, List, [], ◌∷◌, Text,
  codes, eq_text, if◌then◌else◌, ltb, length, empty, starts_with, ends_with, includes, mem_text,
  Result, ok, err,
}
use plugin_pocket.Icon.{max_bytes, parse_icon, behind_comma, Web, Problem, invalid, upload}

pub record File : Type 0 where
  pub name : Text
  pub media : Text
  pub bytes : ℕ

-- The editor with the value that it passes to its parent; the text field's custom validity is the
-- error, or the note that a file is being read.
pub record Editor : Type 0 where
  pub value : Text
  pub draft : Text
  pub filename : Text
  pub problem : Option Problem
  pub reading : Bool
  pub blocked : Bool
  pub revision : ℕ

abbrev pub some_problem : Option Problem → Bool
some_problem none = false
some_problem (some p) = true

unfoldable pub report : Option Problem → Editor → Editor
report p e = record e { reading = false; problem = p; blocked = some_problem p }

-- `accept`: the editor, and whether the source was taken.
abbrev pub accepted : Result Problem Text → Editor → Editor × Bool
accepted (err p) e = (report (some invalid) e, false)
accepted (ok next) e = (record (report none e) { value = next }, true)

unfoldable pub accept : Web → Text → Editor → Editor × Bool
accept web source e = accepted (parse_icon web source) e

abbrev pub svg_type : Text
svg_type = codes "image/svg+xml"

abbrev pub image_types : List Text
image_types = svg_type ∷ codes "image/png" ∷ codes "image/jpeg" ∷ codes "image/webp" ∷ []

-- `file.size > (svg ? 64 KiB : 5 MiB)`
abbrev pub is_refused : File → Bool
is_refused f =
    not (mem_text f.media image_types)
    || ltb (if eq_text f.media svg_type then max_bytes else 5 * 1048576) f.bytes
    || f.bytes == 0

pub record Task : Type 0 where
  pub current : ℕ
  pub name : Text

-- The file input's `onChange`, with the reading that it starts.
unfoldable pub choose : Option File → Editor → Editor × Option Task
choose none e = (e, none)
choose (some f) e =
    if is_refused f
    then (report (some upload) (record e { revision = e.revision + 1 }), none)
    else (
      record (report none (record e { revision = e.revision + 1 })) {
        reading = true;
        blocked = true;
      },
      some (record { current = e.revision + 1; name = f.name }),
    )

abbrev pub named : Text → Editor × Bool → Editor
named name (e, true) = record e { draft = []; filename = name }
named name (e, false) = e

abbrev pub taken : Web → Text → Problem → Option Text → Editor → Editor
taken web name p none e = report (some p) e
taken web name p (some source) e = named name (accept web source e)

-- The end of a reading: what was read, or the failure `p` of this kind of file.
unfoldable pub finish : Web → Task → Problem → Option Text → Editor → Editor
finish web t p source e = if e.revision == t.current then taken web t.name p source e else e

-- The remove button, and the text field's `onChange`
unfoldable pub clear : Editor → Editor
clear e = record (report none (record e { revision = e.revision + 1; draft = []; filename = [] })) {
  value = [];
}

abbrev pub typed : Editor × Bool → Editor
typed (e, true) = record e { filename = [] }
typed (e, false) = e

unfoldable pub set_draft : Web → Text → Editor → Editor
set_draft web text e =
    typed (accept web text (record e { revision = e.revision + 1; draft = text }))

-- `ToolIcon`: the icon that the image shows, none for the built-in one, and the image's `onError`.
abbrev pub failed_is : Option Text → Text → Bool
failed_is none icon = false
failed_is (some f) icon = eq_text f icon

unfoldable pub tool_icon : Option Text → Text → Option Text
tool_icon failed icon = if not (empty icon) && not (failed_is failed icon) then some icon else none

abbrev pub image_error : Text → Option Text → Option Text
image_error icon failed = some icon

-- What the editor shows. The saved size is given by the payload's length and its padding.
pub record Form : Type 0 where
  pub preview : Option Text
  pub file_disabled : Bool
  pub uploaded : Option (Option Text)
  pub saved : Option (ℕ × ℕ)
  pub remove_disabled : Bool
  pub field : Text
  pub is_reading : Bool
  pub complaint : Option Problem

abbrev pub is_data : Text → Bool
is_data value = starts_with value (codes "data:")

abbrev pub padding : Text → ℕ
padding value =
    if ends_with value (codes "==") then 2 else if ends_with value (codes "=") then 1 else 0

abbrev pub named_or : Text → Option Text
named_or name = if empty name then none else some name

unfoldable pub form : Bool → Option Text → Editor → Form
form disabled failed e = record {
  preview = tool_icon failed e.value;
  file_disabled = disabled;
  uploaded = (if is_data e.value && empty e.draft then some (named_or e.filename) else none);
  saved =
      (if is_data e.value && includes e.value (codes ",")
        then some (length (behind_comma e.value), padding e.value)
        else none);
  remove_disabled =
      disabled || (empty e.value && empty e.draft && not (some_problem e.problem) && not e.reading);
  field = e.draft;
  is_reading = e.reading;
  complaint = e.problem;
}
