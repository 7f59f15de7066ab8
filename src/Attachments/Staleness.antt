-- ===== src/Attachments/Staleness.antt =====
-- A choice of attachments that was overtaken changes nothing.
use plugin_pocket.Base.{ℕ, ◌≤◌, ◌<◌, ◌≡◌, ◌⊎◌, inl, inr, Bool, Option, List, [], ◌∷◌, arith, Text}
use plugin_pocket.Attachments.{
  ChosenFile, Infos, State, Task, choose, finish, unmount, clear_error, set_executable, remove_file,
  set_directory,
}
use plugin_pocket.Attachments.Outcomes.{finish_late}

-- Everything that may happen to the component.
pub data Step (s : State) : State → Type 0 where
  chosen :
      (initial : Infos) (document_bytes : ℕ) (files : List ChosenFile)
      → Step s (choose initial document_bytes files s).0
  finished : (task : Task) (reads : List (Option Text)) → Step s (finish task reads s)
  unmounted : Step s (unmount s)
  cleared : Step s (clear_error s)
  marked : (path : Text) (checked : Bool) → Step s (set_executable path checked s)
  removed : (path : Text) → Step s (remove_file path s)
  directed : (directory : Text) → Step s (set_directory directory s)

pub data Reach (s : State) : State → Type 0 where
  here : Reach s s
  step : {t u : State} → Reach s t → Step t u → Reach s u

choose-revision :
    (initial : Infos) (document_bytes : ℕ) (files : List ChosenFile) (s : State)
    → s.revision ≤ (choose initial document_bytes files s).0.revision
unfolding choose
choose-revision initial document_bytes [] s = omega arith
choose-revision initial document_bytes (file ∷ rest) s = ground arith

choose-revision_lt :
    (initial : Infos) (document_bytes : ℕ) (file : ChosenFile) (rest : List ChosenFile) (s : State)
    → s.revision < (choose initial document_bytes (file ∷ rest) s).0.revision
unfolding choose
choose-revision_lt initial document_bytes file rest s = ground arith

unmount-revision : (s : State) → s.revision < (unmount s).revision
unfolding unmount
unmount-revision s = omega arith

Step-revision : {s t : State} → Step s t → s.revision ≤ t.revision
unfolding finish unmount clear_error set_executable remove_file set_directory
Step-revision {s} (chosen initial document_bytes files) =
    choose-revision initial document_bytes files s
Step-revision (finished task reads) = ground arith
Step-revision unmounted = omega arith
Step-revision cleared = omega arith
Step-revision (marked path checked) = ground arith
Step-revision (removed path) = omega arith
Step-revision (directed directory) = ground arith

Reach-revision : {s t : State} → Reach s t → s.revision ≤ t.revision
Reach-revision here = omega arith
Reach-revision (step r st) = omega (arith, Reach-revision r, Step-revision st)

-- Once another choice of at least one file was made after that of `task`, or the component was
-- unmounted, the end of `task` changes nothing, whatever has happened in between.
pub finish_overtaken :
    (initial : Infos) (document_bytes : ℕ) (file : ChosenFile) (rest : List ChosenFile)
    (task : Task) (reads : List (Option Text)) (s : State) {t u : State}
    → task.current ≤ s.revision
    → (t ≡ (choose initial document_bytes (file ∷ rest) s).0) ⊎ (t ≡ unmount s)
    → Reach t u
    → finish task reads u ≡ u
finish_overtaken initial document_bytes file rest task reads s {t} {u} before (inl e) r =
    let grown : s.revision < t.revision =
      rw e (choose-revision_lt initial document_bytes file rest s) in
    let kept = Reach-revision r in finish_late task reads u (ground arith)
finish_overtaken initial document_bytes file rest task reads s {t} {u} before (inr e) r =
    let grown : s.revision < t.revision = rw e (unmount-revision s) in
    let kept = Reach-revision r in finish_late task reads u (ground arith)
