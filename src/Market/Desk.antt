-- ===== src/Market/Desk.antt =====
-- web/src/features/operations/MarketplaceEditor.tsx: the file workspace and the attachments of one
-- skill over the uploads and deleted paths that they share. An event of the one sets the shared
-- part for the other, as the parent's state does. Events that a disabled control would not pass on
-- are let through.
use plugin_pocket.Base.{
  ℕ, Bool, Option, none, some, List, [], ◌∷◌, Text, if◌then◌else◌, get_elem?, keys, mem_text,
}
use plugin_pocket.Attachments.{
  ChosenFile, Task, State, entries, choose, finish, remove_file, set_executable, set_directory,
}
use plugin_pocket.Skills.{Web}
use plugin_pocket.Skills.Workspace.{Props, Workspace}
use plugin_pocket.Skills.Soundness.{Press, press}
use plugin_pocket.Settlement.{utf8_length}
use plugin_pocket.Market.{MarketplaceItem, workspace_item, initial}

-- The tasks are the choices whose files are still being read.
pub record Desk : Type 0 where
  pub workspace : Workspace
  pub attachments : State
  pub tasks : List Task

pub data Event : Type 0 where
  in_workspace : Press → Event
  choose_files : List ChosenFile → Event
  files_read : ℕ → List (Option Text) → Event
  remove_listed : Text → Event
  mark : Text → Bool → Event
  name_directory : Text → Event

abbrev pub with_attachments : State → List Task → Desk → Desk
with_attachments s tasks d = record {
  workspace = record (d.workspace) { uploads = s.files };
  attachments = s;
  tasks = tasks;
}

abbrev pub with_workspace : Workspace → Desk → Desk
with_workspace w d = record {
  workspace = w;
  attachments = record (d.attachments) { files = w.uploads };
  tasks = d.tasks;
}

abbrev pub with_task : Option Task → List Task → List Task
with_task none tasks = tasks
with_task (some task) tasks = task ∷ tasks

module _ (web : Web) (item : Option MarketplaceItem) where
  abbrev pub props_of : Desk → Props
  props_of d = record { item = workspace_item item; deleted = d.attachments.deleted }

  abbrev pub chosen_files : List ChosenFile → Desk → Desk
  chosen_files files d =
      let result = choose (initial item) (utf8_length (d.workspace.content)) files d.attachments in
      with_attachments (result.0) (with_task (result.1) d.tasks) d

  abbrev pub files_done : Option Task → List (Option Text) → Desk → Desk
  files_done none reads d = d
  files_done (some task) reads d = with_attachments (finish task reads d.attachments) d.tasks d

  -- The list of files has a button for each entry.
  abbrev pub removed_listed : Text → Desk → Desk
  removed_listed path d =
      if mem_text path (keys (entries (initial item) (d.attachments.files) (d.attachments.deleted)))
      then with_attachments (remove_file path d.attachments) d.tasks d
      else d

  abbrev pub event : Event → Desk → Desk
  event (in_workspace p) d = with_workspace (press web (props_of d) p d.workspace) d
  event (choose_files files) d = chosen_files files d
  event (files_read i reads) d = files_done (get_elem? d.tasks i) reads d
  event (remove_listed path) d = removed_listed path d
  event (mark path checked) d =
      with_attachments (set_executable path checked d.attachments) d.tasks d
  event (name_directory directory) d =
      with_attachments (set_directory directory d.attachments) d.tasks d

  abbrev pub events : List Event → Desk → Desk
  events [] d = d
  events (e ∷ es) d = events es (event e d)
