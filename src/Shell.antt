-- ===== src/Shell.antt =====
-- web/src/App.tsx: the routes of the console, what each shows to whom, the links of its navigation,
-- and the end of a session. Which route a location matches is the router's; the account is what the
-- query of the session reports.
pub mod Access
pub mod Ending
mod Tests
use plugin_pocket.Base.{
  ℕ, Bool, true, false, not, ◌&&◌, ◌||◌, ◌==◌, Option, none, some, List, [], ◌∷◌, ◌++◌, Text, codes,
  empty, eq_text, if◌then◌else◌, is_some, mem_text, starts_with, keep,
}

pub data Route : Type 0 where
  landing download plugins plugin health login register verify_email : Route
  overview tokens usage tools billing teams team team_usage device devices settings : Route
  admin_users admin_marketplace admin_settings admin_ledger admin_tools admin_plans admin_codes
        admin_usage :
      Route
  unknown dashboard : Route

unfoldable pub pattern_of : Route → Text
pattern_of landing = codes "/"
pattern_of download = codes "/download"
pattern_of plugins = codes "/plugins"
pattern_of plugin = codes "/plugins/:slug"
pattern_of health = codes "/health"
pattern_of login = codes "/login"
pattern_of register = codes "/register"
pattern_of verify_email = codes "/verify-email"
pattern_of overview = codes "/overview"
pattern_of tokens = codes "/tokens"
pattern_of usage = codes "/usage"
pattern_of tools = codes "/tools"
pattern_of billing = codes "/billing"
pattern_of teams = codes "/teams"
pattern_of team = codes "/teams/:id"
pattern_of team_usage = codes "/teams/:id/usage"
pattern_of device = codes "/device"
pattern_of devices = codes "/devices"
pattern_of settings = codes "/settings"
pattern_of admin_users = codes "/admin/users"
pattern_of admin_marketplace = codes "/admin/marketplace"
pattern_of admin_settings = codes "/admin/settings"
pattern_of admin_ledger = codes "/admin/ledger"
pattern_of admin_tools = codes "/admin/tools"
pattern_of admin_plans = codes "/admin/plans"
pattern_of admin_codes = codes "/admin/codes"
pattern_of admin_usage = codes "/admin/usage"
pattern_of unknown = codes "*"
pattern_of dashboard = codes "/dashboard"

-- The element around a page: none, the shell of the public catalogue, the shell, or a redirection.
pub data Layout : Type 0 where
  bare catalogue member redirect : Layout

unfoldable pub layout_of : Route → Layout
layout_of landing = bare
layout_of download = bare
layout_of plugins = catalogue
layout_of plugin = catalogue
layout_of health = bare
layout_of login = bare
layout_of register = bare
layout_of verify_email = bare
layout_of unknown = bare
layout_of dashboard = redirect
layout_of _ = member

-- The pages inside `AdminOnly`.
unfoldable pub is_admin_only : Route → Bool
is_admin_only admin_marketplace = true
is_admin_only admin_settings = true
is_admin_only admin_ledger = true
is_admin_only admin_tools = true
is_admin_only admin_plans = true
is_admin_only admin_codes = true
is_admin_only admin_usage = true
is_admin_only _ = false

pub record Account : Type 0 where
  pub is_admin : Bool

pub record AccountQuery : Type 0 where
  pub data_of : Option Account
  pub is_pending : Bool
  pub is_error : Bool

pub data View : Type 0 where
  page : Route → View
  framed : View → View
  catalogue_alone loading error_notice nothing denied : View
  to_overview : View

abbrev pub is_admin : Option Account → Bool
is_admin none = false
is_admin (some a) = a.is_admin

-- The page of the users looks at the role itself.
abbrev page_for : AccountQuery → Route → View
page_for q admin_users = if is_admin q.data_of then page admin_users else denied
page_for q r = page r

abbrev guarded : AccountQuery → Route → View
guarded q r =
    if is_admin_only r then if is_admin q.data_of then page_for q r else denied else page_for q r

unfoldable pub shell : Bool → AccountQuery → View → View
shell public q outlet =
    if public && (not (is_some q.data_of) || q.is_error)
    then catalogue_alone
    else if q.is_pending
    then loading
    else if q.is_error
    then error_notice
    else if is_some q.data_of
    then framed outlet
    else nothing

-- `q` is the query of the account, `p` that of the public session.
abbrev view_in : Layout → AccountQuery → AccountQuery → Route → View
view_in bare q p r = page r
view_in catalogue q p r = shell true p (page r)
view_in member q p r = shell false q (guarded q r)
view_in redirect q p r = to_overview

unfoldable pub view : AccountQuery → AccountQuery → Route → View
view q p r = view_in (layout_of r) q p r

-- The targets of the navigation.
abbrev member_links : List Text
member_links =
    codes "/overview"
    ∷ codes "/tokens"
    ∷ codes "/usage"
    ∷ codes "/plugins"
    ∷ codes "/billing"
    ∷ codes "/teams"
    ∷ codes "/device"
    ∷ codes "/settings"
    ∷ []

abbrev admin_links : List Text
admin_links =
    codes "/admin/users"
    ∷ codes "/admin/tools"
    ∷ codes "/admin/marketplace"
    ∷ codes "/admin/plans"
    ∷ codes "/admin/codes"
    ∷ codes "/admin/usage"
    ∷ codes "/admin/ledger"
    ∷ codes "/admin/settings"
    ∷ []

unfoldable pub links : Account → List Text
links a = member_links ++ (if a.is_admin then admin_links else [])

pub data Group : Type 0 where
  workspace administration account : Group

unfoldable pub in_group : Group → Text → Bool
in_group administration to = starts_with to (codes "/admin")
in_group account to = eq_text to (codes "/settings")
in_group workspace to =
    not (starts_with to (codes "/admin")) && not (eq_text to (codes "/settings"))

unfoldable pub group_links : Account → Group → List Text
group_links a group = keep (in_group group) (links a)

-- The state of the frame.
pub record Frame : Type 0 where
  pub expanded : Bool
  pub collapsed : Bool

abbrev pub toggle_collapsed : Frame → Frame
toggle_collapsed f = record f { collapsed = not f.collapsed }

abbrev pub toggle_expanded : Frame → Frame
toggle_expanded f = record f { expanded = not f.expanded }

abbrev pub follow_link : Frame → Frame
follow_link f = record f { expanded = false }

-- What an error of a query or a mutation is, as far as the session is concerned.
pub data Failure : Type 0 where
  api_error : ℕ → Text → Failure
  other_error no_error : Failure

pub record Location : Type 0 where
  pub pathname : Text
  pub search : Text

pub data Action : Type 0 where
  clear_cache : Action
  go_to_login : Text → Action

abbrev is_public_page : Location → Bool
is_public_page l =
    mem_text l.pathname (
      codes "/"
      ∷ codes "/login"
      ∷ codes "/register"
      ∷ codes "/health"
      ∷ codes "/verify-email"
      ∷ codes "/plugins"
      ∷ [])
    || starts_with l.pathname (codes "/plugins/")

abbrev pub is_expiry : Failure → Bool
is_expiry (api_error status code) =
    status == 401 && not (eq_text code (codes "invalid_credentials"))
is_expiry _ = false

-- The end of a session at a location.
abbrev pub ending : Location → List Action
ending l =
    clear_cache ∷ (if is_public_page l then [] else go_to_login (l.pathname ++ l.search) ∷ [])

-- `expired`: its flag, what it does, and whether it reports an end.
unfoldable pub expired : Location → Failure → Bool → Bool × List Action × Bool
expired l failure handled =
    if not handled && is_expiry failure then (true, ending l, true) else (handled, [], false)

-- The errors that are there when the effect runs, up to the first end.
unfoldable pub check_all : Location → List Failure → Bool → Bool × List Action
check_all l [] handled = (handled, [])
check_all l (failure ∷ rest) handled =
    let later = check_all l rest handled in
    let now = expired l failure handled in if now.2 then (now.0, now.1) else later

-- The errors that caches report afterwards.
unfoldable pub report_all : Location → List Failure → Bool → Bool × List Action
report_all l [] handled = (handled, [])
report_all l (failure ∷ rest) handled =
    let now = expired l failure handled in
    let later = report_all l rest (now.0) in (later.0, now.1 ++ later.1)

-- A run of the effect at one location: what is there, then what comes.
unfoldable pub session_events : Location → List Failure → List Failure → List Action
session_events l there later =
    let first = check_all l there false in first.1 ++ (report_all l later (first.0)).1
