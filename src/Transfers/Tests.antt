-- ===== src/Transfers/Tests.antt =====
-- Runs of transfers, and their theorem at a concrete one.
use plugin_pocket.Base.{refl, Bool, true, some, [], ◌∷◌, Text, codes}
use plugin_pocket.Settlement.{Json, string}
use plugin_pocket.Transfers.{begun, type_fields, submit, settled, again, done}
use plugin_pocket.Transfers.Once.{
  World, typed, submitted, succeeded, lost, Reach, here, next, IsOnce, Reach-IsOnce,
}

runs : Unit {0}
unfolding type_fields submit settled again
runs = tt

abbrev payload : Text → Json
payload s = string s

abbrev accepts : Text → Bool
accepts _ = true

abbrev start : World Text Json
start = record { transfer = begun []; sent = []; confirmed = [] }

-- A payment that is lost, sent again under the same number and then answered.
abbrev paid : World Text Json
paid = record {
  transfer = record {
    fields = codes "5";
    operation = some (codes "k", string (codes "5"));
    phase = done;
  };
  sent = (codes "k", string (codes "5")) ∷ (codes "k", string (codes "5")) ∷ [];
  confirmed = (codes "k", string (codes "5")) ∷ [];
}

paid-Reach : Reach [] payload accepts start paid
unfolding runs
paid-Reach =
    next
      (next (next (next (next here (typed _ (codes "5"))) (submitted _ (codes "k") refl)) (lost _))
        (submitted _ (codes "l") refl))
      (succeeded _ refl)

Reach-IsOnce_example : IsOnce [] payload accepts paid
Reach-IsOnce_example = Reach-IsOnce [] payload accepts paid-Reach
