-- ===== src/Session/Tests.antt =====
-- Runs of the session boundary, and the theorems at concrete sessions.
use plugin_pocket.Base.{ℕ, ◌≡◌, refl, true, Option, none, some, [], ◌∷◌}
use plugin_pocket.Session.{
  account, QueryState, Session, initial, snapshot, update_for, render, rendered, clear_previous,
}
use plugin_pocket.Session.Identity.{
  IsSettled, Follows, rendered-IsSettled, Reach, here, step, cache_changed, renders,
  Reach-one_account,
}

runs : Unit {0}
unfolding snapshot update_for render rendered clear_previous
runs = tt

abbrev holds : ℕ → Option QueryState
holds id = some (record { success = true; updated_at = 5; data_seen = account id })

abbrev fresh : Session
fresh = initial (record { number = 0; account_state = holds 7; public_state = none })

abbrev other : Session
other = record {
  client = record { number = 0; account_state = holds 8; public_state = none };
  identity = some 7;
  generation = 0;
}

first_account : (rendered 9 fresh).identity ≡ some 7
unfolding runs
first_account = refl

switched : (rendered 9 other).generation ≡ 1
unfolding runs
switched = refl

cleared :
    (clear_previous (rendered 9 other) (record { previous = 0; cleared = [] })).cleared ≡ 0 ∷ []
unfolding runs
cleared = refl

rendered-IsSettled_example :
    IsSettled (rendered 9 other)
    × Follows other (rendered 9 other)
    × (render 10 (rendered 9 other) ≡ none)
rendered-IsSettled_example = rendered-IsSettled 9 10 other

abbrev known : Session
known = record {
  client = record { number = 0; account_state = holds 7; public_state = none };
  identity = some 7;
  generation = 0;
}

known-Reach : Reach known known
unfolding runs
known-Reach = step (step here (cache_changed (holds 7) none)) (renders 9)

Reach-one_account_example : (known.client.number ≡ known.client.number) × (known.identity ≡ some 7)
Reach-one_account_example = Reach-one_account 7 known-Reach refl refl
