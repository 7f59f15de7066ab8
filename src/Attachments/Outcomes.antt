-- ===== src/Attachments/Outcomes.antt =====
-- What the handlers of the attachments leave behind, on each of their branches.
use plugin_pocket.Base.{
  All, Result-cases, ℕ, ◌+◌, ◌≡◌, ◌≢◌, ◌⊎◌, inl, inr, refl, ap, ◌∙◌, true, false, Option, none,
  some, List, [], ◌∷◌, arith, Text, eq_text, eq_text_iff, eq_text_refl, if◌then◌else◌, ◌==◌, ==_iff,
  keep, keys, ok, err, lookup, merge, lookup-remove, mem_text, mem_text-append, Bool-cases,
}
use plugin_pocket.Attachments.{
  ChosenFile, Problem, read_failed, Uploads, Infos, counts, entries, infos, prepare, read_all,
  State, begun, task_of, failed, Task, choose, finish, remove_file, add_deleted,
}
use plugin_pocket.Attachments.Choosing.{IsFine, IsRefused, prepare_cases}
use plugin_pocket.Attachments.Limits.{IsWithin, prepare-eq-ok, infos-read_all}

read_all_fails :
    (directory : Text) (chosen : List ChosenFile) (reads : List (Option Text)) (next : Uploads)
    {p : Problem}
    → read_all directory chosen reads next ≡ err p
    → p ≡ read_failed
unfolding read_all
read_all_fails directory [] reads next e = cc
read_all_fails directory (f ∷ rest) [] next e = cc
read_all_fails directory (f ∷ rest) (none ∷ reads) next e = cc
read_all_fails directory (f ∷ rest) (some c ∷ reads) next e =
    read_all_fails directory rest reads _ e

IsWithin-infos :
    (initial : Infos) (document_bytes : ℕ) (files next : Uploads) (deleted : List Text)
    → infos files ≡ infos next
    → IsWithin initial document_bytes next deleted
    → IsWithin initial document_bytes files deleted
IsWithin-infos initial document_bytes files next deleted e w = record {
  number = rw (entries-same) w.number;
  bytes = rw entries-same w.bytes;
}
  where
    entries-same : entries initial files deleted ≡ entries initial next deleted
    entries-same = unfold entries in ap (λ (m : Infos). keep (counts deleted) (merge initial m)) e

module _ (initial : Infos) (document_bytes : ℕ) (s : State) (file : ChosenFile)
    (rest : List ChosenFile) where
  pub choose_of_err :
      {problem : Problem}
      → prepare initial s.files document_bytes s.directory (file ∷ rest) s.deleted ≡ err problem
      → choose initial document_bytes (file ∷ rest) s ≡ (failed problem (begun s), none)
  unfolding choose
  choose_of_err e = ground (arith, e)

  pub choose_of_ok :
      {placed : Uploads × List Text}
      → prepare initial s.files document_bytes s.directory (file ∷ rest) s.deleted ≡ ok placed
      → choose initial document_bytes (file ∷ rest) s
        ≡ (begun s, some (task_of s (file ∷ rest) placed))
  unfolding choose
  choose_of_ok e = ground (arith, e)

  -- A choice of files is refused before anything is read for the first of its files with a path that
  -- is not safe or that of SKILL.md, or that is too large, or for a package over its limits: then it
  -- keeps the uploads and the marks of deletion, shows that problem and leaves saving blocked. Else
  -- all its files can be taken, the component is reading with saving blocked and no problem on show,
  -- and its task, for these files in this directory, is the latest and takes a package within the
  -- limits.
  pub choose_cases :
      ((problem : Problem) × (choose initial document_bytes (file ∷ rest) s ≡ (
        record s {
          revision = s.revision + 1;
          error = some problem;
          reading = false;
          blocked = true;
        },
        none,
      ))
        × IsRefused initial s.files document_bytes s.directory (file ∷ rest) s.deleted problem)
      ⊎ ((task : Task) × (choose initial document_bytes (file ∷ rest) s ≡ (
        record s { revision = s.revision + 1; error = none; reading = true; blocked = true },
        some task,
      ))
          × All (IsFine s.directory) (file ∷ rest)
          × (task.current ≡ s.revision + 1)
          × (task.directory ≡ s.directory)
          × (task.chosen ≡ file ∷ rest)
          × IsWithin initial document_bytes task.next task.removed)
  choose_cases =
      elim (prepare_cases initial s.files document_bytes s.directory (file ∷ rest) s.deleted) [
        | inl (problem, e, refused) ↦ inl (problem, choose_of_err e, refused)
        | inr (placed, e, fines) ↦ inr (
          task_of s (file ∷ rest) placed,
          choose_of_ok e,
          fines,
          refl,
          refl,
          refl,
          (prepare-eq-ok initial s.files document_bytes s.directory (file ∷ rest) s.deleted e).0,
        )
      ]

module _ (task : Task) (reads : List (Option Text)) (t : State) where
  pub finish_late : (t.revision == task.current) ≡ false → finish task reads t ≡ t
  unfolding finish
  finish_late late = rw late refl

  module _ (now : (t.revision == task.current) ≡ true) where
    pub finish_of_err :
        {p : Problem}
        → read_all task.directory task.chosen reads task.next ≡ err p
        → finish task reads t ≡ failed p t
    unfolding finish
    finish_of_err e = rw now (ground (arith, e))

    pub finish_of_ok :
        {next : Uploads}
        → read_all task.directory task.chosen reads task.next ≡ ok next
        → finish task reads t
          ≡ record t { files = next; deleted = task.removed; blocked = false; reading = false }
    unfolding finish
    finish_of_ok e = rw now (ground (arith, e))

-- What the end of a choice does to any later state: nothing if the state is not the one of the
-- task's revision; else it shows that a read failed and keeps uploads, deletions and the block, or
-- it lifts the block and publishes the package, which is within the limits if the task's was.
finish_cases :
    (initial : Infos) (document_bytes : ℕ) (task : Task) (reads : List (Option Text)) (t : State)
    → IsWithin initial document_bytes task.next task.removed
    → ((t.revision ≢ task.current) × (finish task reads t ≡ t))
      ⊎ ((t.revision ≡ task.current)
          × (finish task reads t ≡ record t { error = some read_failed; reading = false }))
      ⊎ ((t.revision ≡ task.current)
          × ((finish task reads t).blocked ≡ false)
          × ((finish task reads t).reading ≡ false)
          × IsWithin initial document_bytes
              (finish task reads t).files
              (finish task reads t).deleted)
finish_cases initial document_bytes task reads t w =
    elim (Bool-cases (t.revision == task.current)) [
      | inr late ↦ inl (λ e. ground (arith, late), finish_late task reads t late)
      | inl now ↦ elim (Result-cases (read_all task.directory task.chosen reads task.next)) [
        | inl (p, e) ↦ inr (
            inl (
              (==_iff _ _).0 now,
              finish_of_err task reads t now e
                  ∙ rw (read_all_fails task.directory task.chosen reads task.next e) refl,
            ))
        | inr (next, e) ↦
            let done = finish_of_ok task reads t now e in
            inr (
              inr (
                (==_iff _ _).0 now,
                rw done refl,
                rw done refl,
                rw done (
                    IsWithin-infos initial document_bytes next task.next task.removed
                      (infos-read_all task.directory task.chosen reads task.next e) w),
              ))
      ]
    ]

mem_text-keys-keep :
    (path : Text) (deleted : List Text) (m : Infos)
    → mem_text path deleted ≡ true
    → mem_text path (keys (keep (counts deleted) m)) ≡ false
mem_text-keys-keep path deleted [] h = refl
mem_text-keys-keep path deleted ((k, i) ∷ m) h =
    ground (arith, eq_text_iff k path, mem_text-keys-keep path deleted m h)

mem_text-add_deleted :
    (path : Text) (deleted : List Text) → mem_text path (add_deleted path deleted) ≡ true
mem_text-add_deleted path deleted =
    ground (arith, mem_text-append path deleted (path ∷ []), eq_text_refl path)

-- Removing a file drops its upload, keeps every other upload, and takes the path out of the files
-- that the package counts, whether it was uploaded or published before.
pub remove_file_lem :
    (initial : Infos) (path k : Text) (s : State)
    → (lookup k (remove_file path s).files ≡ (if eq_text path k then none else lookup k s.files))
      × (mem_text path
            (keys (entries initial (remove_file path s).files (remove_file path s).deleted))
          ≡ false)
unfolding remove_file entries
remove_file_lem initial path k s = (
  lookup-remove path k s.files,
  mem_text-keys-keep path (add_deleted path s.deleted)
      (merge initial (infos (remove_file path s).files)) (mem_text-add_deleted path s.deleted),
)
