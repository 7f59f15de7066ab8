-- ===== src/Attachments/Tests.antt =====
-- Runs of the attachments, and the theorems at concrete choices.
use plugin_pocket.Base.{
  All, ◌+◌, ◌≡◌, ◌⊎◌, inr, refl, true, false, none, some, List, [], ◌∷◌, arith, Text, codes, ok,
  lookup, insert, merge, split, mem_text,
}
use plugin_pocket.Files.{safe_file_path, is_control, is_special, safe_part, is_device}
use plugin_pocket.Attachments.{
  FileUpload, ChosenFile, Problem, bad_path, Infos, Uploads, target, entries, place, place_all,
  check_total, prepare, fill, read_all, State, Task, begun, task_of, choose, finish, unmount,
  remove_file, set_executable,
}
use plugin_pocket.Attachments.Limits.{IsWithin, IsTaken, prepare-eq-ok}
use plugin_pocket.Attachments.Choosing.{IsFine, IsRefused}
use plugin_pocket.Attachments.Outcomes.{choose_cases}
use plugin_pocket.Attachments.Staleness.{here, finish_overtaken}

runs : Unit {0}
unfolding target entries place place_all check_total prepare fill read_all choose finish unmount
    remove_file set_executable lookup insert merge split safe_file_path is_control is_special
    safe_part is_device
runs = tt

abbrev logo : ChosenFile
logo = record { name = codes "a.png"; size = 5 }

abbrev start : State
start = record {
  files = [];
  deleted = codes "img/a.png" ∷ [];
  directory = codes "img";
  reading = false;
  error = none;
  blocked = false;
  revision = 3;
}

abbrev published : Infos
published = (codes "img/a.png", record { size = 9; executable = true }) ∷ []

abbrev upload : Text → FileUpload
upload content = record { content = content; size = 5; executable = true }

abbrev placed : Uploads × List Text
placed = ((codes "img/a.png", upload []) ∷ [], [])

abbrev task : Task
task = task_of start (logo ∷ []) placed

prepare_test :
    prepare published [] 100 (codes "img") (logo ∷ []) (codes "img/a.png" ∷ []) ≡ ok placed
unfolding runs
prepare_test = refl

choose_test : choose published 100 (logo ∷ []) start ≡ (begun start, some task)
unfolding runs
choose_test = refl

choose_bad :
    (choose published 100 (record { name = codes "../a"; size = 5 } ∷ []) start).0.error
    ≡ some bad_path
unfolding runs
choose_bad = refl

finish_test :
    (finish task (some (codes "AAAA") ∷ []) (begun start)).files
    ≡ (codes "img/a.png", upload (codes "AAAA")) ∷ []
unfolding runs
finish_test = refl

task-IsWithin : IsWithin published 100 task.next task.removed
task-IsWithin =
    (prepare-eq-ok published [] 100 (codes "img") (logo ∷ []) (codes "img/a.png" ∷ [])
      prepare_test).0

prepare-eq-ok_example :
    IsWithin published 100 placed.0 placed.1
    × ((k : Text)
        → ((lookup k placed.0 ≡ lookup k [])
            × (mem_text k placed.1 ≡ mem_text k (codes "img/a.png" ∷ [])))
          ⊎ (IsTaken (codes "img") (logo ∷ []) k × (mem_text k placed.1 ≡ false)))
prepare-eq-ok_example =
    prepare-eq-ok published [] 100 (codes "img") (logo ∷ []) (codes "img/a.png" ∷ []) prepare_test

choose_cases_example :
    ((problem : Problem) × (choose published 100 (logo ∷ []) start ≡ (
      record start {
        revision = start.revision + 1;
        error = some problem;
        reading = false;
        blocked = true;
      },
      none,
    ))
      × IsRefused published start.files 100 start.directory (logo ∷ []) start.deleted problem)
    ⊎ ((t : Task) × (choose published 100 (logo ∷ []) start ≡ (
      record start { revision = start.revision + 1; error = none; reading = true; blocked = true },
      some t,
    ))
        × All (IsFine start.directory) (logo ∷ [])
        × (t.current ≡ start.revision + 1)
        × (t.directory ≡ start.directory)
        × (t.chosen ≡ logo ∷ [])
        × IsWithin published 100 t.next t.removed)
choose_cases_example = choose_cases published 100 start logo []

finish_overtaken_example :
    finish task (some [] ∷ []) (unmount (begun start)) ≡ unmount (begun start)
finish_overtaken_example =
    finish_overtaken published 100 logo [] task (some [] ∷ []) (begun start) (omega arith)
      (inr refl) here
