-- ===== src/Market/Sharing.antt =====
-- web/src/features/operations/MarketplaceEditor.tsx: what every run of the two parts over their
-- shared state keeps.
use plugin_pocket.Base.{
  ℕ, zero, suc, ◌≡◌, inl, inr, refl, sym, ap, Bool, true, false, Option, none, some, List, [], ◌∷◌,
  arith, Text, eq_text, eq_text_iff, if_cases, Bool-cases, Option-cases, Result-cases, ◌==◌, insert,
  All, get_elem?, keys, keep, merge, lookup, mem_text, ok, bind-eq-ok, ok-injective,
}
use plugin_pocket.Settlement.{utf8_length}
use plugin_pocket.Attachments
use plugin_pocket.Attachments.{
  FileUpload, Uploads, Infos, ChosenFile, Problem, State, Task, skill_md, counts, place_all,
  check_total, prepare, read_all, choose, finish, remove_file, set_executable, set_directory,
  add_deleted, entries,
}
use plugin_pocket.Attachments.Outcomes.{
  finish_late, finish_of_err, finish_of_ok, choose_of_err, choose_of_ok,
}
use plugin_pocket.Skills.{Web}
use plugin_pocket.Market.{MarketplaceItem, initial}
use plugin_pocket.Market.Saving.{IsConsistent}
use plugin_pocket.Market.Consistency.{
  update-IsConsistent, remove-IsConsistent, read_all-IsConsistent, place_all-IsConsistent,
  press-IsConsistent,
}
use plugin_pocket.Market.Desk.{
  name_directory, Desk, Event, in_workspace, choose_files, files_read, remove_listed, mark,
  with_task, props_of, event, events,
}

abbrev IsConsistentTask : Task → Type 0
IsConsistentTask task = IsConsistent task.next task.removed

abbrev IsConsistentState : State → Type 0
IsConsistentState s = IsConsistent s.files s.deleted

-- Both parts have the same uploads, and these and all choices under way are consistent.
pub record IsShared (d : Desk) : Type 0 where
  pub same : d.workspace.uploads ≡ d.attachments.files
  pub now : IsConsistentState d.attachments
  pub later : All IsConsistentTask d.tasks

prepare-IsConsistent :
    (infos : Infos) (files : Uploads) (bytes : ℕ) (directory : Text) (chosen : List ChosenFile)
    (deleted : List Text) {placed : Uploads × List Text}
    → prepare infos files bytes directory chosen deleted ≡ ok placed
    → IsConsistent files deleted
    → IsConsistent placed.0 placed.1
unfolding prepare
prepare-IsConsistent infos files bytes directory chosen deleted e h =
    let (p, here, later) =
      bind-eq-ok (place_all infos files bytes directory chosen files deleted) _ e in
    let (done, checked, last) =
      bind-eq-ok (check_total infos files bytes directory p.0 p.1) _ later in
    rw (sym (ok-injective last))
      (place_all-IsConsistent infos files bytes directory chosen files deleted here h)

finish-IsConsistent :
    (task : Task) (reads : List (Option Text)) (s : State)
    → IsConsistentTask task
    → IsConsistentState s
    → IsConsistentState (finish task reads s)
finish-IsConsistent task reads s t h = elim (Bool-cases (s.revision == task.current)) [
  | inr late ↦ rw (finish_late task reads s late) h
  | inl now ↦ elim (Result-cases (read_all task.directory task.chosen reads task.next)) [
    | inl (p, e) ↦ rw (finish_of_err task reads s now e) h
    | inr (next, e) ↦
        rw (finish_of_ok task reads s now e)
          (read_all-IsConsistent task.directory task.chosen reads task.next task.removed e t)
  ]
]

set_executable-IsConsistent :
    (path : Text) (checked : Bool) (s : State)
    → IsConsistentState s
    → IsConsistentState (set_executable path checked s)
unfolding set_executable
set_executable-IsConsistent path checked s h = go (lookup path s.files) refl
  where
    go :
        (o : Option FileUpload)
        → lookup path s.files ≡ o
        → IsConsistentState (elim o [
          | none ↦ s
          | some u ↦ record s { files = insert path (record u { executable = checked }) s.files }
        ])
    go none e = h
    go (some u) e =
        update-IsConsistent path u (record u { executable = checked }) s.files s.deleted e h

choose-IsConsistent :
    (infos : Infos) (bytes : ℕ) (chosen : List ChosenFile) (s : State) (tasks : List Task)
    → IsConsistentState s
    → All IsConsistentTask tasks
    → IsConsistentState (choose infos bytes chosen s).0
      × All IsConsistentTask (with_task (choose infos bytes chosen s).1 tasks)
choose-IsConsistent infos bytes [] s tasks h later = unfold choose in (h, later)
choose-IsConsistent infos bytes (file ∷ rest) s tasks h later =
    elim (Result-cases (prepare infos s.files bytes s.directory (file ∷ rest) s.deleted)) [
      | inl (problem, e) ↦ rw (choose_of_err infos bytes s file rest e) (h, later)
      | inr (placed, e) ↦ rw (choose_of_ok infos bytes s file rest e) (
        h,
        (prepare-IsConsistent infos s.files bytes s.directory (file ∷ rest) s.deleted e h, later),
      )
    ]

-- The list of entries has no button for SKILL.md.
not_document :
    (path : Text) (deleted : List Text) (m : Infos)
    → mem_text path (keys (keep (counts deleted) m)) ≡ true
    → eq_text path skill_md ≡ false
not_document path deleted [] h = cc
not_document path deleted ((k, i) ∷ m) h = ground (
  arith,
  eq_text_iff k path,
  not_document path deleted m,
  λ (e : k ≡ path). ap (λ (t : Text). eq_text t skill_md) e,
)

remove_file-IsConsistent :
    (infos : Infos) (path : Text) (s : State)
    → mem_text path (keys (entries infos s.files s.deleted)) ≡ true
    → IsConsistentState s
    → IsConsistentState (remove_file path s)
unfolding remove_file entries
remove_file-IsConsistent infos path s m h =
    remove-IsConsistent path s.files s.deleted
      (not_document path s.deleted (merge infos (Attachments.infos s.files)) m) h

set_directory-IsConsistent :
    (directory : Text) (s : State)
    → IsConsistentState s
    → IsConsistentState (set_directory directory s)
unfolding set_directory
set_directory-IsConsistent directory s h = if_cases IsConsistentState s.reading (λ _. h) (λ _. h)

some-injective : {t u : Task} → some t ≡ some u → t ≡ u
some-injective e = cc

All-get_elem? :
    (i : ℕ) (tasks : List Task) {task : Task}
    → All IsConsistentTask tasks
    → get_elem? tasks i ≡ some task
    → IsConsistentTask task
All-get_elem? i [] h e = cc
All-get_elem? zero (t ∷ ts) (now, more) e = rw (sym (some-injective e)) now
All-get_elem? (suc i) (t ∷ ts) (now, more) e = All-get_elem? i ts more e

module _ (web : Web) (item : Option MarketplaceItem) where
  event-IsShared : (e : Event) (d : Desk) → IsShared d → IsShared (event web item e d)
  event-IsShared (in_workspace p) d h = record {
    same = refl;
    now = press-IsConsistent web (props_of web item d) d.workspace (rw (h.same) h.now) p;
    later = h.later;
  }
  event-IsShared (choose_files files) d h =
      let both =
        choose-IsConsistent (initial item) (utf8_length (d.workspace.content)) files d.attachments
          d.tasks h.now h.later in
      record { same = refl; now = both.0; later = both.1 }
  event-IsShared (files_read i reads) d h = elim (Option-cases (get_elem? d.tasks i)) [
    | inl e ↦ rw e h
    | inr (task, e) ↦ rw e (record {
      same = refl;
      now = finish-IsConsistent task reads d.attachments (All-get_elem? i d.tasks h.later e) h.now;
      later = h.later;
    })
  ]
  event-IsShared (remove_listed path) d h =
      if_cases IsShared
        (mem_text path
          (keys (entries (initial item) (d.attachments.files) (d.attachments.deleted))))
        (λ m. record {
          same = refl;
          now = remove_file-IsConsistent (initial item) path d.attachments m h.now;
          later = h.later;
        })
        (λ _. h)
  event-IsShared (mark path checked) d h = record {
    same = refl;
    now = set_executable-IsConsistent path checked d.attachments h.now;
    later = h.later;
  }
  event-IsShared (name_directory directory) d h = record {
    same = refl;
    now = set_directory-IsConsistent directory d.attachments h.now;
    later = h.later;
  }

  -- However the handlers of the file workspace and of the attachments follow one another, the reads
  -- ending in any order, both parts keep the same uploads, no path is both uploaded and deleted, and
  -- SKILL.md is neither; also in what every choice under way will publish.
  pub events-IsShared : (es : List Event) (d : Desk) → IsShared d → IsShared (events web item es d)
  events-IsShared [] d h = h
  events-IsShared (e ∷ es) d h = events-IsShared es (event web item e d) (event-IsShared e d h)
