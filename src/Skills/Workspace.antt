-- ===== src/Skills/Workspace.antt =====
-- web/src/features/operations/SkillFileEditor.tsx: the state of the workspace and its handlers. A
-- handler reads the props and the state of the render that it belongs to.
use plugin_pocket.Base.{
  ℕ, Bool, true, false, not, ◌||◌, Option, List, [], ◌∷◌, ◌++◌, Text, codes, eq_text, if◌then◌else◌,
  leb, ltb, any, length, last, or_else, insert, mem_text, starts_with, without,
}
use plugin_pocket.Attachments.{Uploads, skill_md}
use plugin_pocket.Files.{safe_file_path}
use plugin_pocket.Skills.{Web, Item, encode_skill_text, paths, active, opened}

pub data Mode : Type 0 where
  edit preview split : Mode

-- The props, less those that the handlers set.
pub record Props : Type 0 where
  pub item : Option Item
  pub deleted : List Text

pub record Workspace : Type 0 where
  pub content : Text
  pub uploads : Uploads
  pub selected : Text
  pub tabs : List Text
  pub new_path : Text
  pub creating : Bool
  pub refused : Bool
  pub sidebar : Bool
  pub wrap : Bool
  pub mode : Mode
  pub focus_editor : Bool
  pub line : ℕ
  pub column : ℕ

abbrev pub begun : Text → Workspace
begun content = record {
  content = content;
  uploads = [];
  selected = skill_md;
  tabs = skill_md ∷ [];
  new_path = [];
  creating = false;
  refused = false;
  sidebar = true;
  wrap = true;
  mode = edit;
  focus_editor = false;
  line = 1;
  column = 1;
}

unfoldable pub open_file : Text → Workspace → Workspace
open_file path w = record w {
  selected = path;
  tabs = if mem_text path w.tabs then w.tabs else w.tabs ++ path ∷ [];
  line = 1;
  column = 1;
  focus_editor = false;
}

-- Two paths that no file system that ignores case can hold both.
unfoldable pub clashes : Web → Text → Text → Bool
clashes web next existing =
    let e = web.to_lower existing in
    let n = web.to_lower next in
    eq_text e n || (starts_with e (n ++ codes "/") || starts_with n (e ++ codes "/"))

module _ (web : Web) (props : Props) where
  unfoldable pub paths_in : Workspace → List Text
  paths_in w = paths web props.item w.uploads props.deleted

  unfoldable pub active_in : Workspace → Text
  active_in w = active w.selected (paths_in w)

  unfoldable pub opened_in : Workspace → List Text
  opened_in w = opened w.tabs (paths_in w) (active_in w)

  unfoldable pub refuses : Workspace → Bool
  refuses w =
      not (safe_file_path w.new_path)
      || (any (clashes web w.new_path) (paths_in w)
          || (mem_text w.new_path props.deleted || leb 32 (length (paths_in w))))

  abbrev refused_by : Workspace → Workspace
  refused_by w = record w { refused = true }

  abbrev pub created : Workspace → Workspace
  created w =
      let opened_file =
        open_file w.new_path
          (record w { uploads = insert w.new_path (encode_skill_text web [] false) w.uploads }) in
      record opened_file {
        focus_editor = true;
        mode = edit;
        new_path = [];
        creating = false;
        refused = false;
      }

  unfoldable pub create_file : Workspace → Workspace
  create_file w = if refuses w then refused_by w else created w

  -- The button is there only beside another tab.
  unfoldable pub close_tab : Text → Workspace → Workspace
  close_tab path w =
      let remaining = without path (opened_in w) in
      let kept = record w { tabs = remaining } in
      if ltb 1 (length (opened_in w))
      then if eq_text path (active_in w)
        then open_file (or_else (last remaining) skill_md) kept
        else kept
      else w

  -- What the code editor reports; `executable` is the render's.
  unfoldable pub change_text : Bool → Text → Workspace → Workspace
  change_text executable value w =
      if eq_text (active_in w) skill_md then record w { content = value } else record w {
        uploads = insert (active_in w) (encode_skill_text web value executable) w.uploads;
      }

abbrev pub toggle_sidebar : Workspace → Workspace
toggle_sidebar w = record w { sidebar = not w.sidebar }

abbrev pub toggle_creating : Workspace → Workspace
toggle_creating w = record w { sidebar = true; creating = not w.creating }

abbrev pub set_new_path : Text → Workspace → Workspace
set_new_path value w = record w { new_path = value }

abbrev pub set_mode : Mode → Workspace → Workspace
set_mode mode w = record w { mode = mode }

abbrev pub toggle_wrap : Workspace → Workspace
toggle_wrap w = record w { wrap = not w.wrap }

abbrev pub move_cursor : ℕ → ℕ → Workspace → Workspace
move_cursor line column w = record w { line = line; column = column }
