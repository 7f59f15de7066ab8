-- ===== src/Session.antt =====
-- web/src/SessionBoundary.tsx: the query client that belongs to the account which is signed in. A
-- client is its number, in the order of creation, and what its cache holds under the two queries
-- that are looked at; an account is its user's id. Time is an argument.
pub mod Identity
mod Tests
use plugin_pocket.Base.{
  ℕ, ◌+◌, Bool, true, false, not, ◌&&◌, Option, none, some, List, [], ◌∷◌, if◌then◌else◌, leb, ◌==◌,
}

-- The data of a query: undefined, null or an account.
pub data Seen : Type 0 where
  unknown signed_out : Seen
  account : ℕ → Seen

pub record QueryState : Type 0 where
  pub success : Bool
  pub updated_at : ℕ
  pub data_seen : Seen

pub record Client : Type 0 where
  pub number : ℕ
  pub account_state : Option QueryState
  pub public_state : Option QueryState

pub record Session : Type 0 where
  pub client : Client
  pub identity : Option ℕ
  pub generation : ℕ

-- `useState({ client: initialClient, identity: undefined, generation: 0 })`
abbrev pub initial : Client → Session
initial client = record { client = client; identity = none; generation = 0 }

abbrev pub data_of : Option QueryState → Seen
data_of none = unknown
data_of (some q) = q.data_seen

abbrev pub updated_at : Option QueryState → ℕ
updated_at none = 0
updated_at (some q) = q.updated_at

abbrev pub snapshot_with : Option QueryState → Option QueryState → Seen
snapshot_with none a = data_of a
snapshot_with (some p) a =
    if p.success && leb (updated_at a) p.updated_at then p.data_seen else data_of a

-- `snapshot`
unfoldable pub snapshot : Client → Seen
snapshot c = snapshot_with c.public_state c.account_state

-- `setQueryData` on a new client
abbrev pub fetched : ℕ → Seen → Option QueryState
fetched now s = some (record { success = true; updated_at = now; data_seen = s })

abbrev pub sign_out : ℕ → Session → Session
sign_out now s = record {
  client = record {
    number = s.client.number + 1;
    account_state = none;
    public_state = fetched now signed_out;
  };
  identity = none;
  generation = s.generation + 1;
}

abbrev pub switch_to : ℕ → ℕ → Session → Session
switch_to now id s = record {
  client = record {
    number = s.client.number + 1;
    account_state = fetched now (account id);
    public_state = none;
  };
  identity = some id;
  generation = s.generation + 1;
}

-- What a render that sees this account sets the session to; none where it sets nothing.
unfoldable pub update_for : ℕ → Seen → Option ℕ → Session → Option Session
update_for now unknown identity s = none
update_for now signed_out none s = none
update_for now signed_out (some i) s = some (sign_out now s)
update_for now (account id) none s = some (record s { identity = some id })
update_for now (account id) (some i) s = if id == i then none else some (switch_to now id s)

unfoldable pub render : ℕ → Session → Option Session
render now s = update_for now (snapshot s.client) s.identity s

abbrev pub kept_or : Session → Option Session → Session
kept_or s none = s
kept_or s (some t) = t

-- The session after a render, once the state that it set is rendered.
unfoldable pub rendered : ℕ → Session → Session
rendered now s = kept_or s (render now s)

-- The effect that clears a client which is not used any more.
pub record Clearing : Type 0 where
  pub previous : ℕ
  pub cleared : List ℕ

unfoldable pub clear_previous : Session → Clearing → Clearing
clear_previous s c =
    if c.previous == s.client.number
    then c
    else record { previous = s.client.number; cleared = c.previous ∷ c.cleared }
