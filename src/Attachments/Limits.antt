-- ===== src/Attachments/Limits.antt =====
-- What an accepted choice of files publishes.
use plugin_pocket.Base.{
  ℕ, ◌+◌, ◌≤◌, ◌≡◌, ◌⊎◌, inl, inr, refl, ap, ◌∙◌, true, false, Option, none, some, List, [], ◌∷◌,
  arith, Text, eq_text, eq_text_iff, length, sum_of, any, ok, bind-eq-ok, lookup, insert, mem_text,
  without, lookup-insert, mem_text-without, mem_text-without_self, Option-cases, Bool-cases,
}
use plugin_pocket.Files.{max_file_bytes, max_package_bytes, safe_file_path}
use plugin_pocket.Attachments.{
  FileUpload, ChosenFile, Uploads, Infos, skill_md, info, infos, target, entries, place, place_all,
  executable_of, check_total, prepare, fill, read_all,
}

-- The limits of a package: SKILL.md and the entries that count.
pub record IsWithin (initial : Infos) (document_bytes : ℕ) (files : Uploads) (deleted : List Text)
    : Type 0 where
  pub number : length (entries initial files deleted) + 1 ≤ 32
  pub bytes :
      document_bytes + sum_of (λ e. e.1.size) (entries initial files deleted) ≤ max_package_bytes

infos-insert :
    (path : Text) (u v : FileUpload) (files : Uploads)
    → lookup path files ≡ some u
    → info v ≡ info u
    → infos (insert path v files) ≡ infos files
unfolding lookup insert
infos-insert path u v [] e same = cc
infos-insert path u v ((j, w) ∷ files) e same = elim (Bool-cases (eq_text j path)) [
  | inl here ↦ rw here (let e' : some w ≡ some u = (rw here at e) in cc)
  | inr later ↦ rw later (ap ((j, info w) ∷◌) (infos-insert path u v files (rw later at e) same))
]

pub fill_of_none :
    (path content : Text) (next : Uploads) → lookup path next ≡ none → fill path content next ≡ next
unfolding fill
fill_of_none path content next e = ground arith

pub fill_of_some :
    (path content : Text) (next : Uploads) {u : FileUpload}
    → lookup path next ≡ some u
    → fill path content next ≡ insert path (record u { content = content }) next
unfolding fill
fill_of_some path content next e = ground arith

infos-fill : (path content : Text) (next : Uploads) → infos (fill path content next) ≡ infos next
infos-fill path content next = elim (Option-cases (lookup path next)) [
  | inl missing ↦ ap infos (fill_of_none path content next missing)
  | inr (u, found) ↦
      ap infos (fill_of_some path content next found)
      ∙ infos-insert path u (record u { content = content }) next found refl
]

-- Reading the contents changes no path, size or mark.
pub infos-read_all :
    (directory : Text) (chosen : List ChosenFile) (reads : List (Option Text)) (next : Uploads)
    {files : Uploads}
    → read_all directory chosen reads next ≡ ok files
    → infos files ≡ infos next
unfolding read_all
infos-read_all directory [] reads next e = cc
infos-read_all directory (file ∷ rest) [] next e = cc
infos-read_all directory (file ∷ rest) (none ∷ reads) next e = cc
infos-read_all directory (file ∷ rest) (some content ∷ reads) next e =
    infos-read_all directory rest reads (fill (target directory file) content next) e
    ∙ infos-fill (target directory file) content next

-- What may hold of the path `k` when the files `chosen` are taken: a safe path other than SKILL.md
-- that one of them has.
abbrev pub IsTaken : Text → List ChosenFile → Text → Type 0
IsTaken directory chosen k =
    (safe_file_path k ≡ true)
    × (eq_text k skill_md ≡ false)
    × (any (λ f. eq_text (target directory f) k) chosen ≡ true)

-- One file more: what it does itself, and what the rest does.
cons_cases :
    (directory : Text) (file : ChosenFile) (rest : List ChosenFile) (next : Uploads)
    (removed : List Text) (k : Text) (u : FileUpload) (files : Uploads) (deleted : List Text)
    → safe_file_path (target directory file) ≡ true
    → eq_text (target directory file) skill_md ≡ false
    → ((lookup k files ≡ lookup k (insert (target directory file) u next))
        × (mem_text k deleted ≡ mem_text k (without (target directory file) removed)))
      ⊎ (IsTaken directory rest k × (mem_text k deleted ≡ false))
    → ((lookup k files ≡ lookup k next) × (mem_text k deleted ≡ mem_text k removed))
      ⊎ (IsTaken directory (file ∷ rest) k × (mem_text k deleted ≡ false))
cons_cases directory file rest next removed k u files deleted safe plain (inr (taken, kept)) =
    inr ((taken.0, taken.1, ground arith), kept)
cons_cases directory file rest next removed k u files deleted safe plain (inl (same, kept)) =
    elim (Bool-cases (eq_text (target directory file) k)) [
      | inl e ↦
          let t : target directory file ≡ k = (eq_text_iff _ _).0 e in
          inr (
            (rw t at safe, rw t at plain, rw e refl),
            kept ∙ rw t (mem_text-without_self k removed),
          )
      | inr e ↦ inl (
        same ∙ lookup-insert (target directory file) k u next ∙ rw e refl,
        kept ∙ mem_text-without k (target directory file) removed e,
      )
    ]

module _ (initial : Infos) (files : Uploads) (document_bytes : ℕ) (directory : Text) where
  pub place-eq-ok :
      (file : ChosenFile) (next : Uploads) (removed : List Text) {placed : Uploads × List Text}
      → place initial files document_bytes directory file next removed ≡ ok placed
      → (safe_file_path (target directory file) ≡ true)
        × (eq_text (target directory file) skill_md ≡ false)
        × (file.size ≤ max_file_bytes)
        × ((u : FileUpload) × (placed.0 ≡ insert (target directory file) u next))
        × (placed.1 ≡ without (target directory file) removed)
  unfolding place
  place-eq-ok file next removed e = (
    ground arith,
    ground arith,
    ground arith,
    (
      record {
        content = [];
        size = file.size;
        executable =
            executable_of (lookup (target directory file) files)
              (lookup (target directory file) initial);
      },
      ground arith,
    ),
    ground arith,
  )

  place_all_cases :
      (chosen : List ChosenFile) (next : Uploads) (removed : List Text)
      {placed : Uploads × List Text}
      → place_all initial files document_bytes directory chosen next removed ≡ ok placed
      → (k : Text)
      → ((lookup k placed.0 ≡ lookup k next) × (mem_text k placed.1 ≡ mem_text k removed))
        ⊎ (IsTaken directory chosen k × (mem_text k placed.1 ≡ false))
  unfolding place_all
  place_all_cases [] next removed e k = inl (cc, cc)
  place_all_cases (file ∷ rest) next removed e k =
      let (p, here, later) =
        bind-eq-ok (place initial files document_bytes directory file next removed) _ e in
      let (safe, plain, small, (u, put), cut) = place-eq-ok file next removed here in
      cons_cases directory file rest next removed k u _ _ safe plain
        (rw (put, cut) at (place_all_cases rest p.0 p.1 later k))

  check_total-eq-ok :
      (next : Uploads) (removed : List Text) {done : Unit {0}}
      → check_total initial files document_bytes directory next removed ≡ ok done
      → IsWithin initial document_bytes next removed
  unfolding check_total
  check_total-eq-ok next removed e = ground arith

  -- A choice that passes the checks leaves the package within its limits, and each path keeps its
  -- upload and its mark of deletion, or it is a safe path other than SKILL.md of one of the chosen
  -- files, and then it is not deleted any more.
  pub prepare-eq-ok :
      (chosen : List ChosenFile) (deleted : List Text) {placed : Uploads × List Text}
      → prepare initial files document_bytes directory chosen deleted ≡ ok placed
      → IsWithin initial document_bytes placed.0 placed.1
        × ((k : Text)
            → ((lookup k placed.0 ≡ lookup k files) × (mem_text k placed.1 ≡ mem_text k deleted))
              ⊎ (IsTaken directory chosen k × (mem_text k placed.1 ≡ false)))
  unfolding prepare
  prepare-eq-ok chosen deleted {placed} e =
      let (p, here, later) =
        bind-eq-ok (place_all initial files document_bytes directory chosen files deleted) _ e in
      let (done, within, same) =
        bind-eq-ok (check_total initial files document_bytes directory p.0 p.1) _ later in
      let together : p ≡ placed = cc in
      (
        rw (← together) (check_total-eq-ok p.0 p.1 within),
        λ k. rw (← together) (place_all_cases chosen files deleted here k),
      )
