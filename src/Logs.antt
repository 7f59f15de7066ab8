-- ===== src/Logs.antt =====
-- desktop/ui/src/LogsPage.tsx: the local log with its filter, its order, and its copies and exports.
-- `Date.toISOString`, `toUpperCase`, `toLowerCase` and the translation are the argument `web`; an
-- action that is named like a member of every object is left aside.
pub mod Order
mod Tests
use plugin_pocket.Base.{
  ℕ, Bool, true, false, not, ◌&&◌, ◌||◌, Option, none, some, List, [], ◌∷◌, ◌++◌, Text, codes,
  includes, trim, keep, map, ltb, length, if◌then◌else◌, or_else, lookup,
}

pub data Level : Type 0 where
  info error : Level

pub record Entry : Type 0 where
  pub timestamp : ℕ
  pub level : Level
  pub action : Text
  pub message : Text

pub record Web : Type 0 where
  pub lower : Text → Text
  pub upper : Text → Text
  pub translate : Text → Text
  pub iso_string : ℕ → Text

-- The query of the log.
pub record Query : Type 0 where
  pub data_of : Option (List Entry)
  pub is_error : Bool

pub data Feedback : Type 0 where
  no_feedback export_failed copy_failed : Feedback
  exported copied : ℕ → Feedback

-- `none` is `all` as a level.
pub record Page : Type 0 where
  pub search : Text
  pub level : Option Level
  pub feedback : Feedback
  pub has_failed : Bool
  pub copying : Bool
  pub exporting : Bool
  pub export_path : Text

abbrev pub opened : Page
opened = record {
  search = [];
  level = none;
  feedback = no_feedback;
  has_failed = false;
  copying = false;
  exporting = false;
  export_path = [];
}

abbrev pub actions : List (Text × Text)
actions =
    (codes "login", codes "账号登录")
    ∷ (codes "logout", codes "退出登录")
    ∷ (codes "apply", codes "配置客户端")
    ∷ (codes "remove", codes "移除配置")
    ∷ (codes "install", codes "安装装备")
    ∷ (codes "update", codes "更新装备")
    ∷ (codes "uninstall", codes "卸载装备")
    ∷ (codes "update_installed", codes "更新装备")
    ∷ (codes "uninstall_installed", codes "卸载装备")
    ∷ (codes "diagnostics", codes "连接诊断")
    ∷ (codes "doctor", codes "连接检查")
    ∷ (codes "bridge", codes "Bridge")
    ∷ []

unfoldable pub title_of : Text → Text
title_of action = or_else (lookup action actions) action

abbrev of_level : Option Level → Entry → Bool
of_level none e = true
of_level (some info) e = is_info e.level
  where
    is_info : Level → Bool
    is_info info = true
    is_info error = false
of_level (some error) e = is_error_level e.level
  where
    is_error_level : Level → Bool
    is_error_level info = false
    is_error_level error = true

abbrev level_text : Level → Text
level_text info = codes "info"
level_text error = codes "error"

abbrev pub all_entries : Query → List Entry
all_entries q = if q.is_error then [] else or_else q.data_of []

-- The sort of the language, which is stable: the newest first.
unfoldable pub insert_entry : Entry → List Entry → List Entry
insert_entry e [] = e ∷ []
insert_entry e (x ∷ xs) =
    let rest = insert_entry e xs in if ltb e.timestamp x.timestamp then x ∷ rest else e ∷ x ∷ xs

unfoldable pub newest_first : List Entry → List Entry
newest_first [] = []
newest_first (e ∷ es) = insert_entry e (newest_first es)

-- `join('\n')`
abbrev pub join_lines : List Text → Text
join_lines [] = []
join_lines (line ∷ []) = line
join_lines (line ∷ next ∷ lines) = line ++ 10 ∷ join_lines (next ∷ lines)

unfoldable pub set_search : Text → Page → Page
set_search search p = record p { search = search; feedback = no_feedback }

unfoldable pub set_level : Option Level → Page → Page
set_level level p = record p { level = level; feedback = no_feedback }

abbrev silenced : Page → Page
silenced p = record p { feedback = no_feedback; has_failed = false; export_path = [] }

-- The end of a copy of so many entries.
unfoldable pub copy_done : Bool → ℕ → Page → Page
copy_done true n p = record p { feedback = copied n; copying = false }
copy_done false n p = record p { has_failed = true; feedback = copy_failed; copying = false }

-- The end of an export: how many entries were written, and where.
unfoldable pub export_done : Option (ℕ × Text) → Page → Page
export_done none p = record p { has_failed = true; feedback = export_failed; exporting = false }
export_done (some (count, path)) p = record p {
  feedback = exported count;
  export_path = path;
  exporting = false;
}

abbrev is_nil : List Entry → Bool
is_nil [] = true
is_nil (e ∷ es) = false

module _ (web : Web) where
  unfoldable pub fits : Page → Entry → Bool
  fits p e =
      of_level p.level e
      && includes (web.lower (e.message ++ 32 ∷ web.translate (title_of e.action)))
          (web.lower (trim p.search))

  unfoldable pub visible : Query → Page → List Entry
  visible q p = newest_first (keep (fits p) (all_entries q))

  abbrev pub line_of : Entry → Text
  line_of e =
      web.iso_string e.timestamp
      ++ codes " ["
      ++ web.upper (level_text e.level)
      ++ codes "] "
      ++ e.action
      ++ codes ": "
      ++ e.message

  abbrev pub text : Query → Page → Text
  text q p = join_lines (map line_of (visible q p))

  -- The press of the button: what is written to the clipboard.
  unfoldable pub copy : Query → Page → Page × Option Text
  copy q p =
      if is_nil (visible q p) || p.copying
      then (p, none)
      else (record (silenced p) { copying = true }, some (text q p))

  -- The press of the button: what is exported.
  unfoldable pub export_logs : Query → Page → Page × Option (List Entry)
  export_logs q p =
      if is_nil (visible q p) || p.exporting
      then (p, none)
      else (record (silenced p) { exporting = true }, some (visible q p))
