-- ===== src/Files/Paths.antt =====
-- Where a safe path leads, and what its parts are.
use mathlib.Core.List.{reverse, reverse-cons, append_assoc}
use mathlib.Core.Bool.{false≢true}
use plugin_pocket.Base.{
  ◌<◌, ◌≡◌, refl, sym, ◌∙◌, true, false, not, List, [], ◌∷◌, ◌++◌, arith, Text, codes, eq_text,
  eq_text_iff, ◌||◌, inl, inr, Bool-cases, length-split, split, length, any, all, and_split,
  if◌then◌else◌, empty,
}
use plugin_pocket.Files.{is_special, safe_part, safe_file_path}

-- How a file system resolves one part of a relative path; the innermost directory stands first.
abbrev pub parent : List Text → List Text
parent [] = []
parent (d ∷ ds) = ds

abbrev pub enter : List Text → Text → List Text
enter dirs p =
    if empty p || eq_text p (codes ".")
    then dirs
    else if eq_text p (codes "..")
    then parent dirs
    else p ∷ dirs

abbrev pub resolve : List Text → List Text → List Text
resolve dirs [] = dirs
resolve dirs (p ∷ ps) = resolve (enter dirs p) ps

safe_part-dots : safe_part (codes "..") ≡ false
unfolding safe_part
safe_part-dots = refl

not_dots_of_safe_part : (p : Text) → safe_part p ≡ true → eq_text p (codes "..") ≡ false
not_dots_of_safe_part p h = elim (Bool-cases (eq_text p (codes ".."))) [
  | inl e ↦
      let same : p ≡ codes ".." = (eq_text_iff p (codes "..")).0 e in
      absurd (false≢true (sym safe_part-dots ∙ (rw same at h)))
  | inr e ↦ e
]

enter_of_safe_part : (dirs : List Text) (p : Text) → safe_part p ≡ true → enter dirs p ≡ p ∷ dirs
unfolding safe_part
enter_of_safe_part dirs p h = ground (arith, not_dots_of_safe_part p h)

resolve_of_safe :
    (dirs ps : List Text) → all safe_part ps ≡ true → resolve dirs ps ≡ reverse ps ++ dirs
resolve_of_safe dirs [] h = refl
resolve_of_safe dirs (p ∷ ps) h =
    let (here, later) = and_split (safe_part p) (all safe_part ps) h in
    rw (enter_of_safe_part dirs p here)
      (resolve_of_safe (p ∷ dirs) ps later ∙ simp (reverse-cons, append_assoc))

safe_file_path-all :
    (path : Text) → safe_file_path path ≡ true → all safe_part (split b'/' path) ≡ true
unfolding safe_file_path
safe_file_path-all path h =
    (and_split _ (all safe_part (split b'/' path)) (and_split _ (not (any is_special path)) h).0).1

-- From whatever directory it is resolved, a path that the check accepts leads strictly below that
-- directory: its parts, at least one, are appended to the directory one by one and none is
-- skipped or goes up.
pub safe_file_path-resolve :
    (path : Text) (dirs : List Text)
    → safe_file_path path ≡ true
    → (resolve dirs (split b'/' path) ≡ reverse (split b'/' path) ++ dirs)
      × (0 < length (split b'/' path))
safe_file_path-resolve path dirs h =
    (resolve_of_safe dirs (split b'/' path) (safe_file_path-all path h), length-split b'/' path)
