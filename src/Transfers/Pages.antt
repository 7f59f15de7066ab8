-- ===== src/Transfers/Pages.antt =====
-- web/src/features/account/AdminPage.tsx and web/src/features/operations/TeamsPage.tsx: the two
-- forms of a transfer and the pages that hold them. `Number` and the test of a safe integer are
-- `web`; what the server answers is an argument.
use plugin_pocket.Base.{
  ℕ, Bool, true, false, not, ◌&&◌, ◌||◌, ◌==◌, Option, none, some, [], Text, empty, all,
  if◌then◌else◌, leb, is_some,
}
use plugin_pocket.Settlement.{Json}
use plugin_pocket.Transfers.{Transfer, Phase, failed, is_pending, Request, begun, submit, again}

pub record Web : Type 0 where
  pub number : Text → Json
  pub is_safe_integer : Text → Bool
  pub is_zero : Text → Bool

-- The form of an adjustment and what is sent of it.
pub record AdjustmentFields : Type 0 where
  pub delta : Text
  pub note : Text

pub record AdjustmentBody : Type 0 where
  pub delta : Json
  pub note : Text

abbrev pub Adjustment : Type 0
Adjustment = Transfer AdjustmentFields AdjustmentBody

abbrev pub no_adjustment : AdjustmentFields
no_adjustment = record { delta = []; note = [] }

abbrev pub adjustment_body : Web → AdjustmentFields → AdjustmentBody
adjustment_body web fields = record { delta = web.number fields.delta; note = fields.note }

abbrev pub is_adjustment : Web → AdjustmentFields → Bool
is_adjustment web fields = not (web.is_zero fields.delta) && web.is_safe_integer fields.delta

unfoldable pub adjust : Web → Text → Adjustment → Adjustment × Option (Request AdjustmentBody)
adjust web key a = submit (adjustment_body web) (is_adjustment web) key a

-- The note that a retry uses the same number.
unfoldable pub warns : Adjustment → Bool
warns a = is_some a.operation && has_failed a.phase
  where
    has_failed : Phase → Bool
    has_failed failed = true
    has_failed _ = false

pub record User : Type 0 where
  pub id : ℕ
  pub is_admin : Bool
  pub enabled : Bool

-- The page: whose balance is being adjusted, with the panel of that, and whose state is to be
-- confirmed.
pub record AdminPage : Type 0 where
  pub selected : Option (User × Adjustment)
  pub confirm_user : Option User
  pub toggling : Bool

abbrev pub permitted : Option User → Bool
permitted none = false
permitted (some account) = account.is_admin

unfoldable pub select_user : User → AdminPage → AdminPage
select_user user p =
    if is_some p.selected then p else record p { selected = some (user, begun no_adjustment) }

-- The close button and the panel are locked while the request runs.
abbrev closed_adjustment : Option (User × Adjustment) → Option (User × Adjustment)
closed_adjustment none = none
closed_adjustment (some (user, a)) = if is_pending a.phase then some (user, a) else none

unfoldable pub close_adjustment : AdminPage → AdminPage
close_adjustment p = record p { selected = closed_adjustment p.selected }

-- No button is there for the administrator's own account.
unfoldable pub ask_toggle : User → User → AdminPage → AdminPage
ask_toggle account user p =
    if account.id == user.id then p else record p { confirm_user = some user; toggling = false }

abbrev toggle_of : Option User → Option (ℕ × Bool)
toggle_of none = none
toggle_of (some user) = some (user.id, not user.enabled)

-- The request: the user and whether the account is enabled from then on.
unfoldable pub confirm_toggle : AdminPage → AdminPage × Option (ℕ × Bool)
confirm_toggle p =
    if p.toggling || not (is_some p.confirm_user)
    then (p, none)
    else (record p { toggling = true }, toggle_of p.confirm_user)

-- The answer of a request, which the page still follows unless another user was asked for since.
unfoldable pub toggled : Bool → Bool → AdminPage → AdminPage
toggled followed success p = record p {
  toggling = not followed && p.toggling;
  confirm_user = if success then none else p.confirm_user;
}

unfoldable pub cancel_toggle : AdminPage → AdminPage
cancel_toggle p = if p.toggling then p else record p { confirm_user = none }

-- The form of a payment into a team; the browser holds back what is no whole number from 1 on.
abbrev pub Funding : Type 0
Funding = Transfer Text Json

unfoldable pub fund : Web → Text → Funding → Funding × Option (Request Json)
fund web key f = submit web.number (λ _. true) key f

unfoldable pub fund_again : Funding → Funding
fund_again f = again [] f

-- The page of a team, where a member is about to be removed or to leave.
pub record TeamDetail : Type 0 where
  pub removing : Option ℕ
  pub is_removing : Bool
  pub transferred : Bool

abbrev pub is_self : Option User → ℕ → Bool
is_self none member = false
is_self (some account) member = member == account.id

abbrev pub may_remove : Bool → Option User → ℕ → Bool
may_remove owner account member = owner || is_self account member

unfoldable pub ask_remove : Bool → Option User → ℕ → TeamDetail → TeamDetail
ask_remove owner account member d =
    if may_remove owner account member
    then record d { removing = some member; is_removing = false }
    else d

unfoldable pub cancel_remove : TeamDetail → TeamDetail
cancel_remove d = if d.is_removing then d else record d { removing = none }

unfoldable pub confirm_remove : TeamDetail → TeamDetail × Option ℕ
confirm_remove d =
    if d.is_removing || not (is_some d.removing)
    then (d, none)
    else (record d { is_removing = true }, d.removing)

-- The answer, as for a user: whether the page is left for the list of teams.
unfoldable pub removed : Bool → Bool → Option User → ℕ → TeamDetail → TeamDetail × Bool
removed followed success account member d = (
  record d {
    removing = if success then none else d.removing;
    is_removing = not followed && d.is_removing;
  },
  success && is_self account member,
)

abbrev pub transferred_to : TeamDetail → TeamDetail
transferred_to d = record d { transferred = true }

pub data TeamsView : Type 0 where
  team_list : TeamsView
  team_detail : Text → TeamsView
  no_team : TeamsView

abbrev is_digit : ℕ → Bool
is_digit c = leb b'0' c && leb c b'9'

-- `/^\d+$/` on the parameter of the route.
unfoldable pub teams_page : Option Text → TeamsView
teams_page none = team_list
teams_page (some id) =
    if empty id then team_list else if all is_digit id then team_detail id else no_team
