-- ===== src/Panel/Tests.antt =====
-- Runs of the side panel, and the theorems at concrete panels.
use plugin_pocket.Base.{◌≡◌, refl, true, false, none, some}
use plugin_pocket.Panel.{
  Panel, opened, open_change, escape_key_down, press_escape, toggle, press_close, register_escape,
  unregister_escape, dialog,
}
use plugin_pocket.Panel.Closing.{
  opening, escaping, toggling, happen, Reach, here, step, IsCounted, happen-IsCounted,
}

runs : Unit {0}
unfolding opened open_change escape_key_down press_escape toggle press_close register_escape
    unregister_escape dialog
runs = tt

abbrev full : Panel
full = record { is_open = true; fullscreen = true; local_escape = none; closed = 0 }

first_escape : (press_escape false full) ≡ record full { fullscreen = false }
unfolding runs
first_escape = refl

second_escape : (press_escape false (press_escape false full)).closed ≡ 1
unfolding runs
second_escape = refl

locked_dialog :
    dialog true full ≡ some (record { fullscreen = true; pressed = true; close_disabled = true })
unfolding runs
locked_dialog = refl

happen-IsCounted_example :
    IsCounted false (press_escape false full) (happen (escaping false) (press_escape false full))
happen-IsCounted_example = happen-IsCounted (escaping false) (press_escape false full)

abbrev used : Panel
used =
    happen (escaping false)
      (happen (escaping false) (happen (toggling true) (happen (opening false) (opened true))))

used-Reach : Reach (opened true) used
used-Reach =
    step (step (step (step here (opening false)) (toggling true)) (escaping false)) (escaping false)

shut : used.is_open ≡ false
unfolding runs
shut = refl
