-- ===== src/Market.antt =====
-- web/src/features/operations/MarketplaceEditor.tsx: the editor of a skill or a bundle and the
-- body that its save sends. The file workspace (Skills) and the attachments (Attachments) set the
-- uploads and the deleted paths here. `web` is the browser's base64, as in Skills. The answer
-- of the server is not part of the model.
pub mod Saving
pub mod Desk
pub mod Consistency
pub mod Sharing
pub mod Panel
pub mod Syncing
pub mod Including
mod Tests
use plugin_pocket.Base.{
  ℕ, Bool, true, false, not, ◌&&◌, ◌||◌, Option, none, some, List, [], ◌∷◌, ◌++◌, Text, codes,
  empty, eq_text, if◌then◌else◌, is_some, leb, ltb, ◌==◌, keep, length, or_else, any, lookup,
  insert, merge, mem_text, trim, without,
}
use plugin_pocket.Settlement.{utf8_length}
use plugin_pocket.Attachments.{FileInfo, Infos, Uploads, skill_md}
use plugin_pocket.Skills.{Web, Item, encode_skill_text}

pub data Kind : Type 0 where
  mcp skill bundle : Kind

pub data Origin : Type 0 where
  curated github : Origin

pub data Transport : Type 0 where
  http stdio unknown gateway : Transport

pub data Source : Type 0 where
  inline github : Source

pub record Spec : Type 0 where
  pub source : Option Source
  pub repo : Option Text
  pub path : Option Text
  pub files : Option (List (Text × Text))
  pub file_manifest : Option Infos
  pub includes : Option (List Text)

pub record MarketplaceItem : Type 0 where
  pub slug : Text
  pub name : Text
  pub description : Text
  pub kind : Kind
  pub source : Origin
  pub transport : Transport
  pub version : Text
  pub spec : Option Spec
  pub endpoint : Text
  pub installed : Bool

-- `item?.spec?.…`
abbrev pub spec_of : Option MarketplaceItem → Option Spec
spec_of none = none
spec_of (some i) = i.spec

abbrev pub repo_of : Option Spec → Text
repo_of none = []
repo_of (some s) = or_else s.repo []

abbrev pub path_of : Option Spec → Text
path_of none = []
path_of (some s) = or_else s.path []

abbrev pub files_of : Option Spec → List (Text × Text)
files_of none = []
files_of (some s) = or_else s.files []

abbrev pub manifest_of : Option Spec → Infos
manifest_of none = []
manifest_of (some s) = or_else s.file_manifest []

abbrev pub includes_of : Option Spec → List Text
includes_of none = []
includes_of (some s) = or_else s.includes []

abbrev pub manifest_in : Option Spec → Option Infos
manifest_in none = none
manifest_in (some s) = s.file_manifest

-- The item as the file workspace reads it.
abbrev pub workspace_item : Option MarketplaceItem → Option Item
workspace_item none = none
workspace_item (some i) = some (record {
  slug = i.slug;
  version = i.version;
  files = files_of i.spec;
  manifest = manifest_in i.spec;
})

pub record Editor : Type 0 where
  pub name : Text
  pub slug : Text
  pub description : Text
  pub source : Source
  pub repo : Text
  pub path : Text
  pub content : Text
  pub includes : List Text
  pub uploads : Uploads
  pub deleted : List Text
  pub attachments_blocked : Bool

abbrev name_in : Option MarketplaceItem → Text
name_in none = []
name_in (some i) = i.name

abbrev slug_in : Option MarketplaceItem → Text
slug_in none = []
slug_in (some i) = i.slug

abbrev description_in : Option MarketplaceItem → Text
description_in none = []
description_in (some i) = i.description

unfoldable pub begun : Option MarketplaceItem → Editor
begun item = record {
  name = name_in item;
  slug = slug_in item;
  description = description_in item;
  source = inline;
  repo = repo_of (spec_of item);
  path = path_of (spec_of item);
  content = or_else (lookup skill_md (files_of (spec_of item))) [];
  includes = includes_of (spec_of item);
  uploads = [];
  deleted = [];
  attachments_blocked = false;
}

-- The files of a save: texts, uploads and the paths to delete.
pub record Package : Type 0 where
  pub files : List (Text × Text)
  pub files_v2 : Uploads
  pub delete_files : List Text

pub data Content : Type 0 where
  included : List Text → Content
  synced : Text → Text → Content
  edited : Package → Content

pub record Body : Type 0 where
  pub name : Text
  pub slug : Text
  pub description : Text
  pub content : Content

abbrev pub is_skill : Kind → Bool
is_skill skill = true
is_skill _ = false

abbrev pub is_bundle : Kind → Bool
is_bundle bundle = true
is_bundle _ = false

abbrev pub is_inline : Source → Bool
is_inline inline = true
is_inline github = false

abbrev pub is_executable : Option FileInfo → Bool
is_executable none = false
is_executable (some i) = i.executable

unfoldable pub package_of : Web → Option MarketplaceItem → Editor → Package
package_of web item e = record {
  files = insert skill_md e.content (
      keep (λ f. not (mem_text f.0 e.deleted) && not (is_some (lookup f.0 e.uploads)))
        (files_of (spec_of item)));
  files_v2 =
      if is_executable (lookup skill_md (manifest_of (spec_of item)))
      then insert skill_md (encode_skill_text web e.content true) e.uploads
      else e.uploads;
  delete_files = e.deleted;
}

unfoldable pub body : Web → Kind → Option MarketplaceItem → Editor → Body
body web kind item e = record {
  name = trim e.name;
  slug = trim e.slug;
  description = e.description;
  content =
      if is_bundle kind
      then included e.includes
      else if is_inline e.source
      then edited (package_of web item e)
      else synced (trim e.repo) (trim e.path);
}

abbrev is_incomplete : Kind → Editor → Bool
is_incomplete kind e =
    is_skill kind && (is_inline e.source && (e.attachments_blocked || empty (trim e.content)))

-- The form's `onSubmit`: what is sent, if anything.
unfoldable pub submit : Web → Kind → Option MarketplaceItem → Editor → Option Body
submit web kind item e = if is_incomplete kind e then none else some (body web kind item e)

-- The save button, while no save is under way.
unfoldable pub can_save : Kind → Editor → Bool
can_save kind e = not (is_incomplete kind e) && not (is_bundle kind && length e.includes == 0)

-- What the attachments have to know of the published files.
abbrev inline_infos : List (Text × Text) → Infos
inline_infos [] = []
inline_infos ((path, text) ∷ rest) =
    (path, record { size = utf8_length text; executable = false }) ∷ inline_infos rest

unfoldable pub initial : Option MarketplaceItem → Infos
initial item = merge (inline_infos (files_of (spec_of item))) (manifest_of (spec_of item))

unfoldable pub document_bytes : Editor → ℕ
document_bytes e = utf8_length e.content

-- The disabled state of the file workspace.
abbrev pub workspace_disabled : Bool → Editor → Bool
workspace_disabled pending e = pending || (e.attachments_blocked || not (is_inline e.source))

abbrev pub attached : Uploads → List Text → Editor → Editor
attached files removed e = record e { uploads = files; deleted = removed }

abbrev pub block : Bool → Editor → Editor
block blocked e = record e { attachments_blocked = blocked }

abbrev pub set_source : Text → Editor → Editor
set_source value e = record e { source = if eq_text value (codes "github") then github else inline }

-- A component that a bundle can have: every skill, and an MCP server with an HTTP endpoint.
abbrev pub can_serve : MarketplaceItem → Bool
can_serve entry = elim (entry.kind) [
  | mcp ↦ elim (entry.transport) [ gateway ↦ true | http ↦ not (empty entry.endpoint) | _ ↦ false ]
  | _ ↦ true
]

unfoldable pub can_toggle : MarketplaceItem → Editor → Bool
can_toggle entry e =
    mem_text entry.slug e.includes || (ltb (length e.includes) 32 && can_serve entry)

-- The check box of a component; a disabled one does nothing.
unfoldable pub toggle : MarketplaceItem → Bool → Editor → Editor
toggle entry checked e =
    if can_toggle entry e
    then record e {
      includes = if checked then e.includes ++ entry.slug ∷ [] else without entry.slug e.includes;
    }
    else e

abbrev pub components : List MarketplaceItem → List MarketplaceItem
components items = keep (λ entry. not (is_bundle entry.kind)) items
