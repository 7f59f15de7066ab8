-- ===== src/Secrets/Tokens.antt =====
-- web/src/features/account/TokensPage.tsx: the creation of a token, for oneself or a team, and the
-- revocation. The teams are those that the queries hold; `number` is the browser's `Number`.
use plugin_pocket.Base.{
  ℕ, Bool, true, false, not, ◌&&◌, ◌||◌, Option, none, some, List, [], ◌∷◌, ◌++◌, Text, empty,
  eq_text, any, if◌then◌else◌, is_some, or_else,
}
use plugin_pocket.Settlement.{Json}
use plugin_pocket.Secrets.{Reveal, nothing, create, answered, hide, Copy, unasked, copy_done}

-- A team, with its number as it is printed.
pub record Team : Type 0 where
  pub id : Text
  pub name : Text

pub record Page : Type 0 where
  pub token : Reveal Text
  pub team_id : Text
  pub copied : Copy
  pub name : Text
  pub confirm : Option ℕ
  pub revoking : Bool

-- The page as it opens, for the team of the address if that names one.
abbrev pub opened : Option Text → Page
opened team = record {
  token = nothing;
  team_id = or_else team [];
  copied = unasked;
  name = [];
  confirm = none;
  revoking = false;
}

-- The fields are disabled while the request runs.
unfoldable pub set_name : Text → Page → Page
set_name name p = if p.token.pending then p else record p { name = name }

unfoldable pub set_team_id : Text → Page → Page
set_team_id id p = if p.token.pending then p else record p { team_id = id }

abbrev pub has_team : Text → List Team → Bool
has_team id teams = any (λ team. eq_text team.id id) teams

abbrev found : Option Team → List Team
found none = []
found (some team) = team ∷ []

-- The query of one team runs for a team that the list does not hold.
unfoldable pub needs_team : Text → List Team → Bool
needs_team id listed = not (empty id) && not (has_team id listed)

unfoldable pub available_teams : Text → List Team → Option Team → List Team
available_teams id listed selected = listed ++ (if has_team id listed then [] else found selected)

abbrev may_create : List Team → Page → Bool
may_create teams p = empty p.team_id || has_team p.team_id teams

-- The body: a name and, for a team, its number.
abbrev team_of : (Text → Json) → Text → Option Json
team_of number id = if empty id then none else some (number id)

unfoldable pub create_token : (Text → Json) → List Team → Page → Page × Option (Text × Option Json)
create_token number teams p =
    let result = create (may_create teams p) p.token in
    (
      record p { token = result.0 },
      if result.1 then some (p.name, team_of number p.team_id) else none,
    )

unfoldable pub token_answered : Option Text → Page → Page
token_answered none p = record p { token = answered none p.token }
token_answered (some token) p = record p {
  token = answered (some token) p.token;
  copied = unasked;
  name = [];
}

unfoldable pub hide_token : Page → Page
hide_token p = record p { token = hide p.token; copied = unasked }

abbrev pub copied_token : Bool → Page → Page
copied_token success p = record p { copied = copy_done success }

abbrev pub ask_revoke : ℕ → Page → Page
ask_revoke id p = record p { confirm = some id }

unfoldable pub cancel_revoke : Page → Page
cancel_revoke p = if p.revoking then p else record p { confirm = none }

-- The button stands beside the token that is to be confirmed.
unfoldable pub confirm_revoke : Page → Page × Option ℕ
confirm_revoke p =
    if p.revoking || not (is_some p.confirm)
    then (p, none)
    else (record p { revoking = true }, p.confirm)

unfoldable pub revoked : Bool → Page → Page
revoked success p =
    if success then record p { revoking = false; confirm = none } else record p { revoking = false }
