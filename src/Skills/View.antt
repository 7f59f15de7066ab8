-- ===== src/Skills/View.antt =====
-- web/src/features/operations/SkillFileEditor.tsx: what the workspace shows of the active file.
-- `Loaded` is the query of the published files as the library reports it. Numbers are printed by
-- the caller of `Status`.
use plugin_pocket.Base.{
  ℕ, Bool, true, false, not, ◌&&◌, ◌||◌, Option, none, some, List, [], ◌∷◌, Text, codes, eq_text,
  if◌then◌else◌, ltb, keep, keys, length, or_else, is_some, last, lookup, merge, mem_text, split,
}
use plugin_pocket.Attachments.{FileInfo, FileUpload, Uploads, skill_md}
use plugin_pocket.Files.{image_type}
use plugin_pocket.Skills.{
  Web, files_of, manifest_of, has_manifest, decode, encode_skill_text, is_markdown,
}
use plugin_pocket.Skills.Workspace.{Mode, edit, preview, Props, Workspace, active_in, opened_in}

pub record Loaded : Type 0 where
  pub files : Option Uploads
  pub is_error : Bool
  pub is_fetching : Bool

-- `string | null | undefined`
pub data Shown : Type 0 where
  plain : Text → Shown
  undecodable absent : Shown

-- The pane of the document; the flags: is the source there, is the preview there.
pub data Pane : Type 0 where
  source : Bool → Bool → Pane
  preview_alone failed fetching unavailable : Pane

abbrev pub shown_of : Option Text → Shown
shown_of none = undecodable
shown_of (some s) = plain s

abbrev given : Option Text → Shown
given none = absent
given (some s) = plain s

abbrev pub shown_file : Web → Option FileUpload → Option Text → Shown
shown_file web none inline = given inline
shown_file web (some u) inline = shown_of (decode web u.content)

abbrev pub is_undecodable : Shown → Bool
is_undecodable undecodable = true
is_undecodable _ = false

abbrev pub is_plain : Shown → Bool
is_plain (plain s) = true
is_plain _ = false

abbrev pub mark : Option FileUpload → Option FileInfo → Bool
mark (some u) i = u.executable
mark none (some i) = i.executable
mark none none = false

abbrev pub upload_or : Option FileUpload → Option FileUpload → Option FileUpload
upload_or (some u) other = some u
upload_or none other = other

abbrev view_of : Web → Shown → Bool → Option FileUpload → Option FileUpload
view_of web (plain s) executable file = some (encode_skill_text web s executable)
view_of web _ executable file = file

abbrev encoded : Web → List (Text × Text) → Uploads
encoded web [] = []
encoded web ((path, s) ∷ rest) = (path, encode_skill_text web s false) ∷ encoded web rest

abbrev is_edit : Mode → Bool
is_edit edit = true
is_edit _ = false

abbrev is_preview : Mode → Bool
is_preview preview = true
is_preview _ = false

-- What is around the pane: the buttons that are there, the error of the query, the status.
pub record Frame : Type 0 where
  pub tabs : List Text
  pub has_close : Bool
  pub has_modes : Bool
  pub has_wrap : Bool
  pub has_download : Bool
  pub download_name : Text
  pub has_error : Bool
  pub is_modified : Bool
  pub size : Option ℕ
  pub badge : Text

abbrev size_of : Option FileUpload → Option ℕ
size_of none = none
size_of (some u) = some u.size

abbrev upper_extension : (Text → Text) → Text → Text
upper_extension to_upper path = to_upper (or_else (last (split b'.' path)) [])

module _ (web : Web) (props : Props) (loaded : Loaded) where
  -- The query runs: the active file is neither uploaded nor given inline, or the preview of a
  -- document needs the other files.
  unfoldable pub needs_files : Workspace → Bool
  needs_files w =
      let now = active_in web props w in
      is_some props.item
      && ((not (is_some (lookup now w.uploads)) && not (is_some (lookup now (files_of props.item))))
          || (is_markdown now && (not (is_edit w.mode) && has_manifest props.item)))

  unfoldable pub file : Workspace → Option FileUpload
  file w =
      let now = active_in web props w in
      upload_or (lookup now w.uploads) (lookup now (or_else loaded.files []))

  unfoldable pub shown : Workspace → Shown
  shown w =
      let now = active_in web props w in
      if eq_text now skill_md
      then plain w.content
      else shown_file web (file w) (lookup now (files_of props.item))

  unfoldable pub executable : Workspace → Bool
  executable w = mark (file w) (lookup (active_in web props w) (manifest_of props.item))

  unfoldable pub view_file : Workspace → Option FileUpload
  view_file w = view_of web (shown w) (executable w) (file w)

  unfoldable pub preview_files : Workspace → Uploads
  preview_files w =
      keep (λ e. not (mem_text e.0 props.deleted))
        (merge (merge (encoded web (files_of props.item)) (or_else loaded.files [])) w.uploads)

  unfoldable pub modified : Workspace → List Text
  modified w =
      if eq_text w.content (or_else (lookup skill_md (files_of props.item)) [])
      then keys w.uploads
      else skill_md ∷ keys w.uploads

  unfoldable pub binary : Workspace → Bool
  binary w = is_some (image_type (active_in web props w)) || is_undecodable (shown w)

  unfoldable pub visible_mode : Workspace → Mode
  visible_mode w =
      if binary w then preview else if is_markdown (active_in web props w) then w.mode else edit

  unfoldable pub pane : Workspace → Pane
  pane w =
      let visible = visible_mode w in
      if is_plain (shown w) && not (binary w)
      then source (not (is_preview visible)) (not (is_edit visible))
      else if is_some (file w) || is_plain (shown w)
      then preview_alone
      else if loaded.is_error
      then failed
      else if loaded.is_fetching
      then fetching
      else unavailable

  -- `to_upper` is the browser's `toUpperCase`.
  unfoldable pub frame : (Text → Text) → Workspace → Frame
  frame to_upper w =
      let now = active_in web props w in
      let markdown = is_markdown now in
      record {
        tabs = opened_in web props w;
        has_close = ltb 1 (length (opened_in web props w));
        has_modes = markdown;
        has_wrap = not (binary w) && not (is_preview (visible_mode w));
        has_download = is_some (view_file w);
        download_name = or_else (last (split b'/' now)) [];
        has_error = markdown && (not (is_edit w.mode) && loaded.is_error);
        is_modified = mem_text now (modified w);
        size = size_of (view_file w);
        badge =
            if executable w
            then codes "可执行"
            else if binary w
            then upper_extension to_upper now
            else codes "UTF-8";
      }
