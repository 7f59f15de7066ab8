-- ===== src/Market/Panel.antt =====
-- web/src/features/operations/MarketplacePanel.tsx, and RecommendedSkills of MarketplaceEditor.tsx:
-- the list of the marketplace, its synchronisation and the installation of a server. What the server
-- answers to a request is an argument, and so are JSON and numbers (`js`, `number`) and `toLowerCase`.
use plugin_pocket.Base.{
  ℕ, ◌+◌, Bool, true, false, not, ◌&&◌, ◌||◌, Option, none, some, List, [], ◌∷◌, ◌++◌, Text, codes,
  empty, eq_text, if◌then◌else◌, includes, any, keep, length, insert, is_some, trim, Result, ok,
  err, ◌>>=◌,
}
use plugin_pocket.Settlement.{Json, string, object, no_members, member, Engine}
use plugin_pocket.Market.{
  Kind, mcp, skill, bundle, Source, github, MarketplaceItem, Spec, is_skill, is_bundle, repo_of,
  path_of,
}

pub record Skill : Type 0 where
  pub slug : Text
  pub name : Text
  pub description : Text
  pub repo : Text
  pub path : Text

abbrev pub recommendations : List Skill
recommendations =
    record {
      slug = codes "superpowers-debugging";
      name = codes "Systematic Debugging";
      description = codes "系统排障：定位根因、验证假设。";
      repo = codes "obra/superpowers";
      path = codes "skills/systematic-debugging";
    }
    ∷ record {
      slug = codes "superpowers-tdd";
      name = codes "Test Driven Development";
      description = codes "先写失败测试，再实现与重构。";
      repo = codes "obra/superpowers";
      path = codes "skills/test-driven-development";
    }
    ∷ record {
      slug = codes "anthropic-frontend-design";
      name = codes "Frontend Design";
      description = codes "构建有辨识度的前端界面。";
      repo = codes "anthropics/skills";
      path = codes "skills/frontend-design";
    }
    ∷ []

abbrev pub has_slug : Text → List MarketplaceItem → Bool
has_slug slug items = any (λ item. eq_text item.slug slug) items

abbrev pub recommended_of : List MarketplaceItem → List Skill → List (Text × Skill)
recommended_of items [] = []
recommended_of items (entry ∷ rest) =
    if has_slug entry.slug items
    then recommended_of items rest
    else (entry.slug, entry) ∷ recommended_of items rest

abbrev is_github : Option Source → Bool
is_github (some github) = true
is_github _ = false

abbrev from_github : Option Spec → Bool
from_github none = false
from_github (some s) = is_github s.source

-- A skill that came from GitHub, with where it is.
abbrev pub is_github_skill : MarketplaceItem → Bool
is_github_skill item =
    is_skill item.kind
    && (from_github item.spec
        && (not (empty (repo_of item.spec)) && not (empty (path_of item.spec))))

abbrev pub skill_of : MarketplaceItem → Skill
skill_of item = record {
  slug = item.slug;
  name = item.name;
  description = item.description;
  repo = repo_of item.spec;
  path = path_of item.spec;
}

unfoldable pub add_skills : List MarketplaceItem → List (Text × Skill) → List (Text × Skill)
add_skills [] skills = skills
add_skills (item ∷ rest) skills =
    add_skills rest
      (if is_github_skill item then insert item.slug (skill_of item) skills else skills)

-- The `Map` of the skills to synchronise, in its order.
unfoldable pub skills_to_sync : List MarketplaceItem → List (Text × Skill)
skills_to_sync items = add_skills items (recommended_of items recommendations)

pub record SyncResult : Type 0 where
  pub synced : ℕ
  pub skills : ℕ
  pub failed : List Text

-- One request after another; the answers are those that the server gives to each.
unfoldable pub sync_skills : (Skill → Bool) → List (Text × Skill) → SyncResult → SyncResult
sync_skills answer [] result = result
sync_skills answer ((slug, entry) ∷ rest) result = sync_skills answer rest (
    if answer entry
    then record result { skills = result.skills + 1 }
    else record result { failed = result.failed ++ entry.name ∷ [] })

-- What the request of the MCP servers adds: how many, or a failure.
abbrev pub mcp_result : Option ℕ → SyncResult
mcp_result none = record { synced = 0; skills = 0; failed = codes "MCP" ∷ [] }
mcp_result (some n) = record { synced = n; skills = 0; failed = [] }

unfoldable pub sync : Option ℕ → (Skill → Bool) → List MarketplaceItem → SyncResult
sync servers answer items = sync_skills answer (skills_to_sync items) (mcp_result servers)

-- `syncAll` of the recommended skills: the names that failed.
unfoldable pub sync_all : (Skill → Bool) → List Skill → List Text → List Text
sync_all answer [] failed = failed
sync_all answer (entry ∷ rest) failed =
    sync_all answer rest (if answer entry then failed else failed ++ entry.name ∷ [])

-- The filter of the list.
pub data Filter : Type 0 where
  every : Filter
  only : Kind → Filter

abbrev same_kind : Kind → Kind → Bool
same_kind mcp mcp = true
same_kind skill skill = true
same_kind bundle bundle = true
same_kind _ _ = false

abbrev pub fits : Filter → MarketplaceItem → Bool
fits every item = true
fits (only kind) item = same_kind item.kind kind

pub record Panel : Type 0 where
  pub installing : Option MarketplaceItem
  pub editing : Option (Kind × Option MarketplaceItem)
  pub recommended : Bool
  pub saved : Bool
  pub kind : Filter
  pub search : Text

unfoldable pub visible : (Text → Text) → List MarketplaceItem → Panel → List MarketplaceItem
visible to_lower items p =
    keep
      (λ item.
        fits p.kind item
        && includes
            (to_lower (item.name ++ codes " " ++ item.slug ++ codes " " ++ item.description))
            (to_lower p.search))
      items

unfoldable pub count : List MarketplaceItem → Filter → ℕ
count items kind = length (keep (fits kind) items)

abbrev pub create : Kind → Panel → Panel
create kind p = record p { saved = false; editing = some (kind, none) }

-- The button is there for a skill or a bundle.
unfoldable pub edit : MarketplaceItem → Panel → Panel
edit item p =
    if is_skill item.kind || is_bundle item.kind
    then record p {
      saved = false;
      editing = some (if is_skill item.kind then skill else bundle, some item);
    }
    else p

-- The button is there for a server that is not installed, and off while another is being installed.
unfoldable pub install : MarketplaceItem → Panel → Panel
install item p =
    if not (is_skill item.kind || is_bundle item.kind)
      && (not item.installed && not (is_some p.installing))
    then record p { installing = some item }
    else p

abbrev pub close_install : Panel → Panel
close_install p = record p { installing = none }

-- The editor calls `saved` and `close`.
abbrev pub saved_editor : Panel → Panel
saved_editor p = record p { saved = true; editing = none }

abbrev pub close_editor : Panel → Panel
close_editor p = record p { editing = none }

abbrev pub show_recommended : Bool → Panel → Panel
show_recommended on p = record p { recommended = on }

abbrev pub set_kind : Filter → Panel → Panel
set_kind kind p = record p { kind = kind }

abbrev pub set_search : Text → Panel → Panel
set_search value p = record p { search = value }

-- The editor of an installation.
pub record Installation : Type 0 where
  pub key : Text
  pub units : Text
  pub config : Text

abbrev pub begun_installation : Engine → MarketplaceItem → Installation
begun_installation js item = record {
  key = item.slug;
  units = codes "1";
  config =
      if empty item.endpoint
      then []
      else js.stringify (object (member (codes "url") (string item.endpoint) no_members));
}

pub data InstallProblem : Type 0 where
  invalid_json : InstallProblem

pub record InstallBody : Type 0 where
  pub slug : Text
  pub key : Text
  pub units_per_call : Json
  pub config : Option Json

abbrev parsed_config : Engine → Text → Result InstallProblem (Option Json)
parsed_config js config = if empty (trim config) then ok none else given (js.parse config)
  where
    given : Option Json → Result InstallProblem (Option Json)
    given none = err invalid_json
    given (some value) = ok (some value)

-- The body of the request; the transport in it is always HTTP.
unfoldable pub install_body :
    Engine → (Text → Json) → MarketplaceItem → Installation → Result InstallProblem InstallBody
install_body js number item s = do
  config ← parsed_config js s.config
  ok (record { slug = item.slug; key = s.key; units_per_call = number s.units; config = config })
