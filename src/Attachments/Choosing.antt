-- ===== src/Attachments/Choosing.antt =====
-- Which choices of files web/src/components/FileAttachments.tsx refuses, and why.
use mathlib.Core.Bool.{true≢false}
use plugin_pocket.Base.{
  insert, without, ◌++◌, ◌≤◌, ◌<◌, ◌||◌, sym, All, ltb, length, sum_of, ℕ, ◌+◌, ◌≡◌, ◌≢◌, ◌⊎◌, inl,
  inr, refl, ap, ◌∙◌, true, false, List, [], ◌∷◌, arith, Text, eq_text, eq_text_iff, ok, err,
  lookup, Bool-cases,
}
use plugin_pocket.Files.{max_file_bytes, max_package_bytes, safe_file_path}
use plugin_pocket.Attachments.{
  FileUpload, executable_of, skill_md, target, place, place_all, check_total, bad_path,
  file_too_large, package_too_large, ChosenFile, Problem, Uploads, Infos, entries, prepare,
}
use plugin_pocket.Attachments.Limits.{IsWithin}

-- A chosen file that can be taken: its path is safe and not that of SKILL.md, and it is small enough.
abbrev pub IsFine : Text → ChosenFile → Type 0
IsFine directory f =
    (safe_file_path (target directory f) ≡ true)
    × (target directory f ≢ skill_md)
    × (f.size ≤ max_file_bytes)

-- Why a file is refused.
abbrev pub IsFault : Text → ChosenFile → Problem → Type 0
IsFault directory f problem =
    ((problem ≡ bad_path)
      × ((safe_file_path (target directory f) ≡ false) ⊎ (target directory f ≡ skill_md)))
    ⊎ ((problem ≡ file_too_large) × (max_file_bytes < f.size))

module _ (initial : Infos) (files : Uploads) (document_bytes : ℕ) (directory : Text) where
  place_cases :
      (f : ChosenFile) (next : Uploads) (removed : List Text)
      → ((problem : Problem) × (place initial files document_bytes directory f next removed
            ≡ err problem)
          × IsFault directory f problem)
        ⊎ ((placed : Uploads × List Text) × (place initial files document_bytes directory f next
                removed
              ≡ ok placed)
            × IsFine directory f)
  unfolding place
  place_cases f next removed = elim (Bool-cases (safe_file_path (target directory f))) [
    | inr unsafe ↦ inl (bad_path, rw unsafe refl, inl (refl, inl unsafe))
    | inl safe ↦ elim (Bool-cases (eq_text (target directory f) skill_md)) [
      | inl same ↦ inl (
        bad_path,
        rw (safe, same) refl,
        inl (refl, inr ((eq_text_iff (target directory f) skill_md).0 same)),
      )
      | inr other ↦ elim (Bool-cases (ltb max_file_bytes f.size)) [
        | inl large ↦
            inl (file_too_large, rw (safe, other, large) refl, inr (refl, ground (arith, large)))
        | inr small ↦
            let upload : FileUpload = record {
              content = [];
              size = f.size;
              executable =
                  executable_of (lookup (target directory f) files)
                    (lookup (target directory f) initial);
            } in
            inr (
              (insert (target directory f) upload next, without (target directory f) removed),
              rw (safe, other, small) refl,
              (safe, (λ e. other-path (target directory f) other e), ground (arith, small)),
            )
      ]
    ]
  ]
    where
      other-path : (t : Text) → eq_text t skill_md ≡ false → t ≢ skill_md
      other-path t other e = true≢false (sym ((eq_text_iff t skill_md).1 e) ∙ other)

  -- The first file that cannot be taken, with its fault.
  abbrev pub HasFault : List ChosenFile → Problem → Type 0
  HasFault chosen problem =
      (before : List ChosenFile) × (f : ChosenFile) × (after : List ChosenFile) × (chosen
        ≡ before ++ f ∷ after)
      × All (IsFine directory) before
      × IsFault directory f problem

  place_all_fails :
      (chosen : List ChosenFile) (next : Uploads) (removed : List Text)
      → ((problem : Problem) × (place_all initial files document_bytes directory chosen next removed
            ≡ err problem)
          × HasFault chosen problem)
        ⊎ ((placed : Uploads × List Text) × (place_all initial files document_bytes directory chosen
                next removed
              ≡ ok placed)
            × All (IsFine directory) chosen)
  unfolding place_all
  place_all_fails [] next removed = inr ((next, removed), refl, tt)
  place_all_fails (f ∷ rest) next removed = elim (place_cases f next removed) [
    | inl (problem, e, fault) ↦ inl (problem, rw e refl, ([], f, rest, refl, tt, fault))
    | inr (placed, e, fine) ↦ elim (place_all_fails rest placed.0 placed.1) [
      | inl (problem, later, (before, g, after, split, fines, fault)) ↦ inl (
        problem,
        rw (e, later) refl,
        (f ∷ before, g, after, ap (λ (xs : List ChosenFile). f ∷ xs) split, (fine, fines), fault),
      )
      | inr (result, later, fines) ↦ inr (result, rw (e, later) refl, (fine, fines))
    ]
  ]

  -- A choice whose files can be taken is refused only for what the package would come to.
  abbrev pub IsRefused : List ChosenFile → List Text → Problem → Type 0
  IsRefused chosen deleted problem =
      HasFault chosen problem
      ⊎ ((problem ≡ package_too_large)
          × All (IsFine directory) chosen
          × ((next : Uploads) × (removed : List Text) × (place_all initial files document_bytes
                  directory chosen files deleted
                ≡ ok (next, removed))
              × (IsWithin initial document_bytes next removed → ⊥)))

  check_total_cases :
      (next : Uploads) (removed : List Text)
      → ((check_total initial files document_bytes directory next removed ≡ err package_too_large)
          × (IsWithin initial document_bytes next removed → ⊥))
        ⊎ (check_total initial files document_bytes directory next removed ≡ ok tt)
  unfolding check_total
  check_total_cases next removed =
      elim (Bool-cases (
        ltb 32 (length (entries initial next removed) + 1)
        || ltb max_package_bytes
            (document_bytes + sum_of (λ e. e.1.size) (entries initial next removed)))) [
              | inl e ↦ inl (rw e refl, λ w. ground (arith, e, w.number, w.bytes))
              | inr e ↦ inr (rw e refl)
            ]

  pub prepare_cases :
      (chosen : List ChosenFile) (deleted : List Text)
      → ((problem : Problem) × (prepare initial files document_bytes directory chosen deleted
            ≡ err problem)
          × IsRefused chosen deleted problem)
        ⊎ ((placed : Uploads × List Text) × (prepare initial files document_bytes directory chosen
                deleted
              ≡ ok placed)
            × All (IsFine directory) chosen)
  unfolding prepare
  prepare_cases chosen deleted = elim (place_all_fails chosen files deleted) [
    | inl (problem, e, fault) ↦ inl (problem, rw e refl, inl fault)
    | inr ((next, removed), e, fines) ↦ elim (check_total_cases next removed) [
      | inl (f, over) ↦
          inl (package_too_large, rw (e, f) refl, inr (refl, fines, (next, removed, e, over)))
      | inr f ↦ inr ((next, removed), rw (e, f) refl, fines)
    ]
  ]
