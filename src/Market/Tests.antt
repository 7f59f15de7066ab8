-- ===== src/Market/Tests.antt =====
-- Runs of the marketplace, and the theorems at concrete items.
use plugin_pocket.Base.{
  ◌≡◌, refl, sym, eq_text_sound, true, false, not, ◌&&◌, ◌||◌, none, some, [], ◌∷◌, arith, Text,
  codes, keys, lookup, insert, merge, mem_text, is_space, trim_start, trim, AreDistinct, remove,
  distinct, sort_by, insert_by, split,
}
use plugin_pocket.Settlement.{utf8_length}
use plugin_pocket.Files.{safe_file_path, is_control, is_special, safe_part, is_device}
use plugin_pocket.Attachments
use plugin_pocket.Attachments.{
  State, Uploads, skill_md, target, entries, place, place_all, check_total, prepare, fill, read_all,
  choose, finish, remove_file, set_executable,
}
use plugin_pocket.Skills.{Web, decode, encode_skill_text, paths, active, opened}
use plugin_pocket.Skills.Workspace
use plugin_pocket.Skills.Workspace.{
  Workspace, open_file, clashes, paths_in, active_in, opened_in, refuses, create_file, close_tab,
  change_text,
}
use plugin_pocket.Skills.Soundness.{type_path, create}
use plugin_pocket.Market.{
  mcp, skill, curated, github, http, unknown, MarketplaceItem, Editor, begun, package_of, edited,
  body, submit, initial, can_toggle, toggle, workspace_item,
}
use plugin_pocket.Market.Saving.{
  IsConsistent, fate, meant, fate-package_of, stays, is_published, stays-package_of,
}
use plugin_pocket.Market.Desk.{
  Desk, in_workspace, choose_files, files_read, remove_listed, mark, events,
}
use plugin_pocket.Market.Sharing.{IsShared, events-IsShared}
use plugin_pocket.Market.Panel.{
  recommendations, has_slug, add_skills, skills_to_sync, sync_skills, sync, sync_all, install_body,
}
use plugin_pocket.Market.Syncing.{slugs, has_github_skill, skills_to_sync-AreDistinct}
use plugin_pocket.Market.Including.{clicks, IsBundle, clicks-IsBundle}

runs : Unit {0}
unfolding decode encode_skill_text paths active opened open_file clashes paths_in active_in
    opened_in refuses create_file close_tab change_text utf8_length safe_file_path is_control
    is_special safe_part is_device lookup insert merge remove split distinct sort_by insert_by
    target entries place place_all check_total prepare fill read_all choose finish remove_file
    set_executable begun package_of body submit initial can_toggle toggle fate meant add_skills
    skills_to_sync sync_skills sync sync_all install_body trim trim_start is_space
runs = tt

abbrev web : Web
web = record {
  to_base64 = λ s. s;
  of_base64 = λ s. some s;
  to_lower = λ s. s;
  comes_before = λ a b. true;
}

abbrev review : MarketplaceItem
review = record {
  slug = codes "review";
  name = codes "Review";
  description = [];
  kind = skill;
  source = curated;
  transport = unknown;
  version = codes "1.0.0";
  spec = some (record {
    source = some github;
    repo = some (codes "o/r");
    path = some (codes "skills/review");
    files = some ((skill_md, codes "# Review") ∷ []);
    file_manifest = some (
        (skill_md, record { size = 8; executable = false })
        ∷ (codes "run.sh", record { size = 3; executable = true })
        ∷ []);
    includes = none;
  });
  endpoint = [];
  installed = false;
}

abbrev server : MarketplaceItem
server = record {
  slug = codes "docs";
  name = codes "Docs";
  description = [];
  kind = mcp;
  source = github;
  transport = http;
  version = codes "1.0.0";
  spec = none;
  endpoint = codes "https://a.example";
  installed = false;
}

abbrev note : Attachments.FileUpload
note = record { content = codes "note"; size = 4; executable = false }

abbrev edited_review : Editor
edited_review = record (begun (some review)) {
  content = codes "# Better";
  uploads = (codes "note.md", note) ∷ [];
  deleted = codes "run.sh" ∷ [];
}

submit_test :
    submit web skill (some review) edited_review
    ≡ some (record {
      name = codes "Review";
      slug = codes "review";
      description = [];
      content = edited (record {
        files = (skill_md, codes "# Better") ∷ [];
        files_v2 = (codes "note.md", note) ∷ [];
        delete_files = codes "run.sh" ∷ [];
      });
    })
unfolding runs
submit_test = refl

submit_blocked : submit web skill none (begun none) ≡ none
unfolding runs
submit_blocked = refl

edited-IsConsistent : IsConsistent edited_review.uploads edited_review.deleted
unfolding runs
edited-IsConsistent = record {
  apart = λ q m.
      let same : codes "run.sh" ≡ q = eq_text_sound (codes "run.sh") q (ground (arith, m)) in
      rw (sym same) refl;
  document = refl;
  present = refl;
}

fate-package_of_example :
    fate (package_of web (some review) edited_review) (codes "run.sh")
    ≡ meant web (some review) edited_review (codes "run.sh")
fate-package_of_example =
    fate-package_of web (some review) edited_review edited-IsConsistent (codes "run.sh")

stays-package_of_example :
    stays
      (fate (package_of web (some review) edited_review) (codes "note.md"))
      (is_published (some review) (codes "note.md"))
    ≡ mem_text
        (codes "note.md")
        (paths web (workspace_item (some review)) edited_review.uploads edited_review.deleted)
stays-package_of_example =
    stays-package_of web (some review) edited_review (codes "note.md") edited-IsConsistent

abbrev attachments : State
attachments = record {
  files = [];
  deleted = [];
  directory = [];
  reading = false;
  error = none;
  blocked = false;
  revision = 0;
}

abbrev desk : Desk
desk = record {
  workspace = Workspace.begun (codes "# Review");
  attachments = attachments;
  tasks = [];
}

desk-IsShared : IsShared desk
unfolding runs
desk-IsShared = record {
  same = refl;
  now = record { apart = λ q m. cc; document = refl; present = refl };
  later = tt;
}

events-IsShared_example : IsShared (
    events web
      (some review)
      (in_workspace (type_path (codes "b.md"))
        ∷ in_workspace create
        ∷ choose_files (record { name = codes "c.png"; size = 3 } ∷ [])
        ∷ remove_listed (codes "run.sh")
        ∷ files_read 0 (some (codes "png") ∷ [])
        ∷ mark (codes "c.png") true
        ∷ [])
      desk)
events-IsShared_example =
    events-IsShared web (some review)
      (in_workspace (type_path (codes "b.md"))
        ∷ in_workspace create
        ∷ choose_files (record { name = codes "c.png"; size = 3 } ∷ [])
        ∷ remove_listed (codes "run.sh")
        ∷ files_read 0 (some (codes "png") ∷ [])
        ∷ mark (codes "c.png") true
        ∷ [])
      desk desk-IsShared

skills_to_sync-AreDistinct_example :
    AreDistinct (keys (skills_to_sync (review ∷ server ∷ [])))
    × ((slug : Text)
        → mem_text slug (keys (skills_to_sync (review ∷ server ∷ []))) ≡ (
            has_github_skill slug (review ∷ server ∷ [])
            || (mem_text slug (slugs recommendations)
                && not (has_slug slug (review ∷ server ∷ [])))))
skills_to_sync-AreDistinct_example = skills_to_sync-AreDistinct (review ∷ server ∷ [])

clicks-IsBundle_example :
    IsBundle
      (review ∷ server ∷ [])
      []
      (clicks (review ∷ server ∷ []) (0 ∷ 1 ∷ 0 ∷ []) (begun none)).includes
unfolding runs
clicks-IsBundle_example =
    clicks-IsBundle (review ∷ server ∷ []) [] (0 ∷ 1 ∷ 0 ∷ []) (begun none)
      (record { few = omega arith; each = λ slug m. cc })
