-- ===== src/Skills/Tests.antt =====
-- Runs of the workspace of a skill, and the theorems at a concrete package.
use plugin_pocket.Base.{
  ◌≡◌, ◌⊎◌, refl, Bool, true, false, not, ◌&&◌, none, some, List, [], ◌∷◌, arith, Text, codes,
  eq_text, all, ◌||◌, ◌≤◌, ap, eq_text_iff, length, lookup, insert, merge, split, mem_text,
  distinct, sort_by, insert_by, without,
}
use plugin_pocket.Settlement.{utf8_length}
use plugin_pocket.Files.{
  safe_file_path, is_control, is_special, safe_part, is_device, image_type, lower,
}
use plugin_pocket.Attachments.{skill_md}
use plugin_pocket.Skills.{Web, Item, decode, encode_skill_text, paths, active, opened}
use plugin_pocket.Skills.Workspace.{
  Props, Workspace, begun, open_file, clashes, paths_in, active_in, opened_in, refuses, create_file,
  close_tab, change_text, set_new_path,
}
use plugin_pocket.Skills.View.{
  Loaded, pane, shown, executable, file, binary, visible_mode, view_file, preview_files, modified,
  needs_files,
}
use plugin_pocket.Skills.Tree.{
  folder_row, file_row, name_at, names, is_folder, rows_of, rows, tree, toggle,
}
use plugin_pocket.Skills.Creating.{IsFitting, IsCreated, create_file_cases}
use plugin_pocket.Skills.Soundness.{
  press_all, IsSound, press_all-IsSound, create, type_path, close, write,
}
use plugin_pocket.Skills.Tabs.{close_tab-opened}
use plugin_pocket.Skills.Editing.{IsEdited, change_text-IsEdited}
use plugin_pocket.Skills.Leaves.{shows, shows-tree}

runs : Unit {0}
unfolding decode encode_skill_text paths active opened open_file clashes paths_in active_in
    opened_in refuses create_file close_tab change_text pane shown executable file binary
    visible_mode view_file preview_files modified needs_files name_at names is_folder rows_of rows
    tree toggle utf8_length safe_file_path is_control is_special safe_part is_device image_type
    lower lookup insert merge split distinct sort_by insert_by
runs = tt

-- Base64 and the case of letters play no part here; the locale keeps the order.
abbrev web : Web
web = record {
  to_base64 = λ s. s;
  of_base64 = λ s. some s;
  to_lower = λ s. s;
  comes_before = λ a b. true;
}

abbrev item : Item
item = record {
  slug = codes "review";
  version = codes "1";
  files = (skill_md, codes "# Review") ∷ (codes "docs/a.md", codes "a") ∷ [];
  manifest = some ((codes "img/b.png", record { size = 3; executable = false }) ∷ []);
}

abbrev props : Props
props = record { item = some item; deleted = codes "docs/old.md" ∷ [] }

abbrev loaded : Loaded
loaded = record { files = none; is_error = false; is_fetching = true }

abbrev start : Workspace
start = begun (codes "# Review")

abbrev with_path : Workspace
with_path = set_new_path (codes "docs/c.md") start

abbrev listed : List Text
listed = skill_md ∷ codes "docs/a.md" ∷ codes "img/b.png" ∷ []

paths_test : paths_in web props start ≡ listed
unfolding runs
paths_test = refl

create_test :
    paths_in web props (create_file web props with_path)
    ≡ skill_md ∷ codes "docs/a.md" ∷ codes "img/b.png" ∷ codes "docs/c.md" ∷ []
unfolding runs
create_test = refl

create_again : refuses web props (set_new_path (codes "docs") start) ≡ true
unfolding runs
create_again = refl

create_deleted : refuses web props (set_new_path (codes "docs/old.md") start) ≡ true
unfolding runs
create_deleted = refl

tree_test :
    tree web listed ((codes "img/", []) ∷ ([], codes "img" ∷ []) ∷ [])
    ≡ file_row skill_md
      ∷ folder_row (codes "docs") true
      ∷ file_row (codes "docs/a.md")
      ∷ folder_row (codes "img") false
      ∷ []
unfolding runs
tree_test = refl

-- A check of all pairs.
all_of_mem :
    (p : Text → Bool) (xs : List Text) (q : Text)
    → all p xs ≡ true
    → mem_text q xs ≡ true
    → p q ≡ true
all_of_mem p [] q h k = cc
all_of_mem p (x ∷ xs) q h k =
    ground (arith, all_of_mem p xs q, eq_text_iff x q, λ (e : x ≡ q). ap p e)

abbrev pair_is_apart : Text → Text → Bool
pair_is_apart a b = eq_text a b || not (clashes web a b)

IsSound-of_pairs :
    (ps : List Text)
    → length ps ≤ 32
    → all (λ a. all (pair_is_apart a) ps) ps ≡ true
    → IsSound web props ps
IsSound-of_pairs ps few h = record {
  few = few;
  apart = λ a b ma mb ne.
      let pair =
        all_of_mem (pair_is_apart a) ps b (all_of_mem (λ a. all (pair_is_apart a) ps) ps a h ma)
          mb in
      ground (arith, pair, ne);
}

start-IsSound : IsSound web props (paths_in web props start)
unfolding runs
start-IsSound = IsSound-of_pairs (paths_in web props start) (omega arith) refl

create_file_cases_example :
    (create_file web props with_path ≡ record with_path { refused = true })
    ⊎ (IsFitting web props with_path
        × IsCreated web props with_path (create_file web props with_path))
create_file_cases_example = create_file_cases web props with_path

press_all-IsSound_example : IsSound web props (
    paths_in web props (
      press_all web props
        (type_path (codes "docs/c.md")
          ∷ create
          ∷ write false (codes "new")
          ∷ close (codes "docs/c.md")
          ∷ [])
        start))
unfolding runs
press_all-IsSound_example =
    press_all-IsSound web props
      (type_path (codes "docs/c.md")
        ∷ create
        ∷ write false (codes "new")
        ∷ close (codes "docs/c.md")
        ∷ [])
      start refl start-IsSound

abbrev two_tabs : Workspace
two_tabs = record start { selected = codes "docs/a.md"; tabs = skill_md ∷ codes "docs/a.md" ∷ [] }

close_tab-opened_example :
    (opened_in web props (close_tab web props (codes "docs/a.md") two_tabs)
      ≡ without (codes "docs/a.md") (opened_in web props two_tabs))
    × (eq_text (codes "docs/a.md") (active_in web props two_tabs) ≡ false
        → active_in web props (close_tab web props (codes "docs/a.md") two_tabs)
          ≡ active_in web props two_tabs)
unfolding runs
close_tab-opened_example = close_tab-opened web props two_tabs refl (codes "docs/a.md") refl

change_text-IsEdited_example :
    IsEdited web props loaded two_tabs
      (codes "b")
      (change_text web props (executable web props loaded two_tabs) (codes "b") two_tabs)
unfolding runs
change_text-IsEdited_example =
    change_text-IsEdited web props loaded two_tabs (codes "b") refl refl refl refl refl

shows-tree_example :
    shows (codes "docs/a.md") (tree web listed [])
    ≡ (mem_text (codes "docs/a.md") listed && not (is_folder listed (codes "docs/a.md")))
shows-tree_example = shows-tree web listed (codes "docs/a.md")
