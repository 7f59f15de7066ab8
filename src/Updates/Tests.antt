-- ===== src/Updates/Tests.antt =====
-- Runs of the update panel, and the theorems at concrete states.
use plugin_pocket.Base.{ℕ, ◌≡◌, inl, refl, true, none, some, codes, ok}
use plugin_pocket.Updates.{
  UpdateInfo, UpdateProgress, Update, update_available, current_version, parse_update, check,
  on_event, percent, downloading, opened, silent_done, version_done, check_start, check_done,
  install_start, install_progress, install_done, put_off, shown,
}
use plugin_pocket.Updates.Runs.{
  World, start, check_pressed, check_ended, install_pressed, Reach, here, step, IsAlive,
  Reach-IsAlive, silent_ended-install_pressed,
}

runs : Unit {0}
unfolding current_version parse_update check on_event percent silent_done version_done check_start
    check_done install_start install_progress install_done put_off shown
runs = tt

-- A scale that falls short of every quotient.
abbrev flat : ℕ → ℕ → ℕ
flat received total = received

abbrev newer : UpdateInfo
newer = record { current_version = codes "1.0.0"; version = codes "1.1.0"; notes = none }

abbrev busy : World
busy = record {
  panel = install_start (check_done (ok (update_available newer)) (check_start opened));
  silent = true;
  checks = 0;
  installs = 1;
}

busy-Reach : Reach flat start busy
unfolding runs
busy-Reach =
    step
      (step (step here (check_pressed (inl refl)))
        (check_ended 0 (ok (update_available newer)) refl))
      (install_pressed (inl refl))

Reach-IsAlive_example : IsAlive flat busy
Reach-IsAlive_example = Reach-IsAlive flat busy-Reach

silent_ended-install_pressed_example :
    (x : World) × Reach flat busy x × (x.installs ≡ 2) × (x.panel.phase ≡ downloading)
silent_ended-install_pressed_example = silent_ended-install_pressed flat busy newer refl

abbrev half : UpdateProgress
half = record { received = 4; total = some 9 }

half-percent : percent flat (some half) ≡ some 4
unfolding runs
half-percent = refl

abbrev offered_update : Update
offered_update = record { current_version = codes "1.0.0"; version = codes "1.1.0"; body = none }

found : check (ok (some offered_update)) none (codes "1.0.0") ≡ ok (update_available newer)
unfolding runs
found = refl
