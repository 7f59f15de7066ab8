-- ===== src/Skills.antt =====
-- web/src/features/operations/SkillFileEditor.tsx: the files of a skill, its tabs and the handlers
-- of the workspace. The editor's content and uploads belong to its parent, which sets them to what
-- the handlers give; here they are part of the workspace. `web` holds what the browser does with
-- text: UTF-8 with base64, `toLowerCase` and `localeCompare`. The query of the published files is
-- an argument.
pub mod Workspace
pub mod View
pub mod Paths
pub mod Creating
pub mod Soundness
pub mod Tabs
pub mod Editing
pub mod Tree
pub mod Leaves
mod Tests
use plugin_pocket.Base.{
  ℕ, Bool, true, false, not, ◌&&◌, ◌||◌, Option, none, some, List, [], ◌∷◌, ◌++◌, map, Text, codes,
  eq_text, if◌then◌else◌, leb, ltb, ◌==◌, any, keep, keys, or_else, is_some, lookup, mem_text,
  distinct, sort_by, ends_with, lower_unit,
}
use plugin_pocket.Settlement.{utf8_length}
use plugin_pocket.Attachments.{FileInfo, FileUpload, Infos, Uploads, skill_md}

pub record Web : Type 0 where
  pub to_base64 : Text → Text
  pub of_base64 : Text → Option Text
  pub to_lower : Text → Text
  pub comes_before : Text → Text → Bool

-- A published skill: files with their text, and, of the second format, those with their size.
pub record Item : Type 0 where
  pub slug : Text
  pub version : Text
  pub files : List (Text × Text)
  pub manifest : Option Infos

abbrev pub files_of : Option Item → List (Text × Text)
files_of none = []
files_of (some i) = i.files

abbrev pub manifest_of : Option Item → Infos
manifest_of none = []
manifest_of (some i) = or_else i.manifest []

abbrev pub has_manifest : Option Item → Bool
has_manifest none = false
has_manifest (some i) = is_some i.manifest

-- `[\x00-\x08\x0e-\x1f]`
abbrev pub is_binary_unit : ℕ → Bool
is_binary_unit c = leb c 8 || (leb 14 c && leb c 31)

abbrev pub as_text : Option Text → Option Text
as_text none = none
as_text (some s) = if any is_binary_unit s then none else some s

unfoldable pub decode : Web → Text → Option Text
decode web content = as_text (web.of_base64 content)

unfoldable pub encode_skill_text : Web → Text → Bool → FileUpload
encode_skill_text web text executable = record {
  content = web.to_base64 text;
  size = utf8_length text;
  executable = executable;
}

-- SKILL.md first, the others as the locale has them
abbrev pub before : Web → Text → Text → Bool
before web a b =
    if eq_text a skill_md then true else if eq_text b skill_md then false else web.comes_before a b

abbrev pub all_paths : Option Item → Uploads → List Text
all_paths item uploads =
    skill_md ∷ keys (files_of item) ++ (keys (manifest_of item) ++ keys uploads)

unfoldable pub paths : Web → Option Item → Uploads → List Text → List Text
paths web item uploads deleted =
    sort_by (before web)
      (keep (λ path. not (mem_text path deleted)) (distinct (all_paths item uploads)))

unfoldable pub active : Text → List Text → Text
active selected ps = if mem_text selected ps then selected else skill_md

-- `/\.(md|mdx|markdown)$/i`
abbrev pub is_markdown : Text → Bool
is_markdown path =
    ends_with (map lower_unit path) (codes ".md")
    || ends_with (map lower_unit path) (codes ".mdx")
    || ends_with (map lower_unit path) (codes ".markdown")

-- The open tabs: those whose path is there, and the active one.
unfoldable pub opened : List Text → List Text → Text → List Text
opened tabs ps now = distinct (keep (λ path. mem_text path ps) tabs ++ now ∷ [])
