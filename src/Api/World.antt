-- ===== src/Api/World.antt =====
-- web/src/features/account/api.ts: all calls at once with the refresh that they share, the events
-- that may come in any order, and what is kept by them.
use plugin_pocket.Base.{ℕ, ◌+◌, ◌≤◌, ◌≡◌, Bool, true, List, ◌∷◌, ◌++◌, Text, if◌then◌else◌, All}
use plugin_pocket.Api.{
  Reply, Shared, Phase, first, refreshing, second, settled, Call, start_call, first_done,
  second_done, refresh_settled,
}

pub record World {ℓ} (B : Type ℓ) : Type ℓ where
  pub shared : Shared
  pub calls : List (Call B)

-- One event: a call starts, a fetch of one of the calls ends, or the refresh under way ends.
pub data Step {ℓ} {B : Type ℓ} (w : World B) : World B → Type ℓ where
  started : (path : Text) → Step w (record w { calls = start_call path w.shared ∷ w.calls })
  first_ended :
      (before after : List (Call B)) (c : Call B) (n : ℕ) (reply : Reply B) (aborted : Bool)
      → w.calls ≡ before ++ c ∷ after
      → c.phase ≡ first n
      → Step w (record {
        shared = (first_done n reply aborted w.shared c).0;
        calls = before ++ (first_done n reply aborted w.shared c).1 ∷ after;
      })
  second_ended :
      (before after : List (Call B)) (c : Call B) (reply : Reply B)
      → w.calls ≡ before ++ c ∷ after
      → c.phase ≡ second
      → Step w (record w { calls = before ++ second_done reply c ∷ after })
  refresh_ended :
      (reply : Reply (Unit {0})) (aborted : Call B → Bool)
      → w.shared.in_flight ≡ true
      → Step w (record {
        shared = (refresh_settled reply aborted w.shared w.calls).0;
        calls = (refresh_settled reply aborted w.shared w.calls).1;
      })

pub data Reach {ℓ} {B : Type ℓ} (w : World B) : World B → Type ℓ where
  here : Reach w w
  step : {u v : World B} → Reach w u → Step u v → Reach w v

-- What holds of a call at each point: how many requests it has sent, and that a refresh is under
-- way if it waits for one.
abbrev pub PhaseFits {ℓ} : {B : Type ℓ} → Shared → ℕ → Phase B → Type 0
PhaseFits g sent (first n) = (sent ≡ 1) × (n ≤ g.generation)
PhaseFits g sent refreshing = (sent ≡ 1) × (g.in_flight ≡ true)
PhaseFits g sent second = sent ≡ 2
PhaseFits g sent (settled r) = sent ≤ 2

abbrev pub CallFits {ℓ} : {B : Type ℓ} → Shared → Call B → Type 0
CallFits g c = PhaseFits g c.sent c.phase

pub record IsValid {ℓ} {B : Type ℓ} (w : World B) : Type 0 where
  pub counted :
      w.shared.refreshes
      ≡ w.shared.generation + w.shared.failures + (if w.shared.in_flight then 1 else 0)
  pub fits : All (CallFits w.shared) w.calls
