-- ===== src/Skills/Leaves.antt =====
-- web/src/features/operations/SkillFileTree.tsx: the files that the tree shows are the paths.
use mathlib.Core.List.{append_assoc}
use plugin_pocket.Base.{
  ℕ, zero, suc, ◌+◌, ◌≤◌, ◌<◌, ◌≡◌, ◌⊎◌, inl, inr, refl, sym, ap, ◌∙◌, Bool, true, false, not, ◌&&◌,
  ◌||◌, List, [], ◌∷◌, ◌++◌, map, arith, Text, codes, eq_text, eq_text_iff, eq_text_sound,
  eq_text_refl, Bool-cases, and_split, eq-false_of_not, lookup, any, drop, keep, length,
  length-append, mem_text, mem_text-keep, starts_with, starts_with-append, starts_with_split,
  first-split, distinct, mem_text-distinct, mem_text-sort_by,
}
use plugin_pocket.Skills.{Web, before}
use plugin_pocket.Skills.Tree.{
  Row, folder_row, file_row, Closed, closed_at, name_at, names, is_folder, rows_of, rows_of_all,
  rows, depth, tree,
}

abbrev pub is_row_of : Text → Row → Bool
is_row_of path (folder_row other expanded) = false
is_row_of path (file_row other) = eq_text other path

-- A row for the file is there.
abbrev pub shows : Text → List Row → Bool
shows path rs = any (is_row_of path) rs

any-append :
    (path : Text) (rs ss : List Row) → shows path (rs ++ ss) ≡ (shows path rs || shows path ss)
any-append path [] ss = refl
any-append path (r ∷ rs) ss = ground (arith, any-append path rs ss)

mem_text-map :
    (f : Text → Text) (xs : List Text) (y : Text)
    → mem_text y (map f xs) ≡ true
    → (x : Text) × (mem_text x xs ≡ true) × (f x ≡ y)
mem_text-map f [] y h = cc
mem_text-map f (x ∷ xs) y h = elim (Bool-cases (eq_text (f x) y)) [
  | inl e ↦ (x, rw (eq_text_refl x) refl, eq_text_sound (f x) y e)
  | inr e ↦ let (z, m, same) = mem_text-map f xs y (rw e at h) in (z, ground (arith, m), same)
]

map-mem_text :
    (f : Text → Text) (xs : List Text) (x : Text)
    → mem_text x xs ≡ true
    → mem_text (f x) (map f xs) ≡ true
map-mem_text f [] x h = cc
map-mem_text f (y ∷ ys) x h =
    ground
      (arith, map-mem_text f ys x, eq_text_iff y x, λ (e : y ≡ x). ap f e, eq_text_iff (f y) (f x))

any_of_mem :
    (p : Text → Bool) (xs : List Text) (x : Text)
    → mem_text x xs ≡ true
    → p x ≡ true
    → any p xs ≡ true
any_of_mem p [] x h k = cc
any_of_mem p (y ∷ ys) x h k =
    ground (arith, any_of_mem p ys x, eq_text_iff y x, λ (e : y ≡ x). ap p e)

or_split : (a b : Bool) → (a || b) ≡ true → (a ≡ true) ⊎ (b ≡ true)
or_split true b h = inl refl
or_split false b h = inr h

too_short : (q prefix : Text) → starts_with q prefix ≡ true → length q < 0 + length prefix → ⊥
too_short q prefix starts short =
    let whole = ap (λ (s : Text). length s) (starts_with_split q prefix starts) in
    omega (arith, whole, short, length-append prefix (drop (length prefix) q))

depth_of_mem : (paths : List Text) (q : Text) → mem_text q paths ≡ true → length q ≤ depth paths
depth_of_mem [] q h = cc
depth_of_mem (p ∷ ps) q h =
    ground (arith, depth_of_mem ps q, eq_text_iff p q, λ (e : p ≡ q). ap (λ (s : Text). length s) e)

starts_of :
    (path t entry : Text) → entry ≡ path ++ b'/' ∷ t → starts_with entry (path ++ codes "/") ≡ true
starts_of path t entry e =
    rw (e, sym (append_assoc path (codes "/") t)) (starts_with-append (path ++ codes "/") t)

module _ (web : Web) (paths : List Text) where
  in_names :
      (prefix name : Text)
      → mem_text name (names web paths prefix)
        ≡ mem_text name (map (name_at prefix) (keep (λ path. starts_with path prefix) paths))
  unfolding names
  in_names prefix name =
      mem_text-sort_by (before web) name
        (distinct (map (name_at prefix) (keep (λ path. starts_with path prefix) paths)))
      ∙ mem_text-distinct name (map (name_at prefix) (keep (λ path. starts_with path prefix) paths))

  names_of :
      (prefix name : Text)
      → mem_text name (names web paths prefix) ≡ true
      → (entry : Text) × (mem_text entry paths ≡ true)
        × (starts_with entry prefix ≡ true)
        × (name_at prefix entry ≡ name)
  names_of prefix name h =
      let (entry, m, same) =
        mem_text-map (name_at prefix) (keep (λ path. starts_with path prefix) paths) name
          (sym (in_names prefix name) ∙ h) in
      let both =
        and_split (mem_text entry paths) (starts_with entry prefix)
          (sym (mem_text-keep entry (λ path. starts_with path prefix) paths) ∙ m) in
      (entry, both.0, both.1, same)

  names_there :
      (prefix entry : Text)
      → mem_text entry paths ≡ true
      → starts_with entry prefix ≡ true
      → mem_text (name_at prefix entry) (names web paths prefix) ≡ true
  names_there prefix entry there starts =
      in_names prefix (name_at prefix entry)
      ∙ map-mem_text (name_at prefix) (keep (λ path. starts_with path prefix) paths) entry
          (mem_text-keep entry (λ path. starts_with path prefix) paths ∙ rw (there, starts) refl)

  file_of_name :
      (prefix name entry : Text)
      → starts_with entry prefix ≡ true
      → name_at prefix entry ≡ name
      → (entry ≡ prefix ++ name) ⊎ ((t : Text) × (entry ≡ (prefix ++ name) ++ b'/' ∷ t))
  unfolding name_at
  file_of_name prefix name entry starts same =
      let whole = starts_with_split entry prefix starts in
      elim (first-split b'/' (drop (length prefix) entry)) [
        | inl e ↦ inl (whole ∙ ap (λ (s : Text). prefix ++ s) (sym e ∙ same))
        | inr (t, e) ↦ inr (
          t,
          whole
              ∙ ap (λ (s : Text). prefix ++ s) (e ∙ ap (λ (n : Text). n ++ b'/' ∷ t) same)
              ∙ sym (append_assoc prefix name (b'/' ∷ t)),
        )
      ]

  folder_of :
      (path entry t : Text)
      → mem_text entry paths ≡ true
      → entry ≡ path ++ b'/' ∷ t
      → is_folder paths path ≡ true
  unfolding is_folder
  folder_of path entry t there e =
      any_of_mem (λ other. starts_with other (path ++ codes "/")) paths entry there
        (starts_of path t entry e)

  module _ (closed : Closed) (q : Text) where
    row_sound :
        (below : Text → List Row) (prefix name : Text)
        → mem_text name (names web paths prefix) ≡ true
        → ((at : Text)
            → shows q (below at) ≡ true
            → (mem_text q paths && not (is_folder paths q)) ≡ true)
        → shows q (rows_of paths closed below prefix name) ≡ true
        → (mem_text q paths && not (is_folder paths q)) ≡ true
    unfolding rows_of
    row_sound below prefix name there deeper h =
        elim (Bool-cases (is_folder paths (prefix ++ name))) [
          | inl e ↦ elim (Bool-cases (mem_text (prefix ++ name) (closed_at prefix closed))) [
            | inl c ↦ cc (rw (e, c) at h)
            | inr c ↦ deeper ((prefix ++ name) ++ codes "/") (rw (e, c) at h)
          ]
          | inr e ↦
              let same : prefix ++ name ≡ q =
                eq_text_sound (prefix ++ name) q (ground (arith, rw e at h)) in
              let (entry, m, starts, named) = names_of prefix name there in
              rw (sym same, e)
                (elim (file_of_name prefix name entry starts named) [
                  | inl f ↦ rw (sym f, m) refl
                  | inr (t, f) ↦ cc (e, folder_of (prefix ++ name) entry t m f)
                ])
        ]

    rows_of_all_sound :
        (below : Text → List Row) (prefix : Text)
        → ((at : Text)
            → shows q (below at) ≡ true
            → (mem_text q paths && not (is_folder paths q)) ≡ true)
        → (ns : List Text)
        → ((name : Text) → mem_text name ns ≡ true → mem_text name (names web paths prefix) ≡ true)
        → shows q (rows_of_all paths closed below prefix ns) ≡ true
        → (mem_text q paths && not (is_folder paths q)) ≡ true
    rows_of_all_sound below prefix deeper [] there h = cc
    rows_of_all_sound below prefix deeper (n ∷ ns) there h =
        let here = there n (rw (eq_text_refl n) refl) in
        elim (or_split (shows q (rows_of paths closed below prefix n)) _ (
          sym (
            any-append q (rows_of paths closed below prefix n)
              (rows_of_all paths closed below prefix ns))
          ∙ h)) [
            | inl e ↦ row_sound below prefix n here deeper e
            | inr e ↦
                rows_of_all_sound below prefix deeper ns (λ name m. there name (ground (arith, m)))
                  e
          ]

    rows_sound :
        (n : ℕ) (prefix : Text)
        → shows q (rows web paths n closed prefix) ≡ true
        → (mem_text q paths && not (is_folder paths q)) ≡ true
    unfolding rows
    rows_sound zero prefix h = cc
    rows_sound (suc n) prefix h =
        rows_of_all_sound (rows web paths n closed) prefix (rows_sound n) (names web paths prefix)
          (λ name m. m) h

  -- The rows of a list of names have those of each name.
  row_there :
      (q : Text) (closed : Closed) (below : Text → List Row) (prefix name : Text) (ns : List Text)
      → mem_text name ns ≡ true
      → shows q (rows_of paths closed below prefix name) ≡ true
      → shows q (rows_of_all paths closed below prefix ns) ≡ true
  row_there q closed below prefix name [] m h = cc
  row_there q closed below prefix name (n ∷ ns) m h = ground (
    arith,
    any-append q (rows_of paths closed below prefix n) (rows_of_all paths closed below prefix ns),
    row_there q closed below prefix name ns,
    eq_text_iff n name,
    λ (e : n ≡ name). ap (λ (t : Text). shows q (rows_of paths closed below prefix t)) e,
  )

  module _ (q : Text) (there : mem_text q paths ≡ true) (leaf : is_folder paths q ≡ false) where
    leaf_row :
        (below : Text → List Row) (prefix name : Text)
        → prefix ++ name ≡ q
        → shows q (rows_of paths [] below prefix name) ≡ true
    unfolding rows_of
    leaf_row below prefix name e = rw (e, leaf, eq_text_refl q) refl

    folder_row_below :
        (below : Text → List Row) (prefix name : Text)
        → is_folder paths (prefix ++ name) ≡ true
        → shows q (below ((prefix ++ name) ++ codes "/")) ≡ true
        → shows q (rows_of paths [] below prefix name) ≡ true
    unfolding rows_of lookup
    folder_row_below below prefix name e h = rw e h

    row_complete :
        (n : ℕ) (prefix : Text)
        → starts_with q prefix ≡ true
        → length q < suc n + length prefix
        → ((at : Text)
            → starts_with q at ≡ true
            → length q < n + length at
            → shows q (rows web paths n [] at) ≡ true)
        → shows q (rows_of paths [] (rows web paths n []) prefix (name_at prefix q)) ≡ true
    row_complete n prefix starts enough deeper =
        elim (file_of_name prefix (name_at prefix q) q starts refl) [
          | inl same ↦ leaf_row (rows web paths n []) prefix (name_at prefix q) (sym same)
          | inr (t, same) ↦
              let path = prefix ++ name_at prefix q in
              let longer : length (path ++ codes "/")
                  ≡ length prefix + length (name_at prefix q) + 1 =
                length-append path (codes "/")
                ∙ omega (arith, length-append prefix (name_at prefix q)) in
              folder_row_below (rows web paths n []) prefix (name_at prefix q)
                (folder_of path q t there same)
                (deeper (path ++ codes "/") (starts_of path t q same)
                  (omega (arith, enough, longer)))
        ]

    rows_complete :
        (n : ℕ) (prefix : Text)
        → starts_with q prefix ≡ true
        → length q < n + length prefix
        → shows q (rows web paths n [] prefix) ≡ true
    unfolding rows
    rows_complete zero prefix starts enough = absurd (too_short q prefix starts enough)
    rows_complete (suc n) prefix starts enough =
        row_there q [] (rows web paths n []) prefix (name_at prefix q) (names web paths prefix)
          (names_there prefix q there starts)
          (row_complete n prefix starts enough (rows_complete n))

  -- With no folder closed the tree shows a file for exactly the paths below which there is no
  -- other path.
  pub shows-tree :
      (q : Text) → shows q (tree web paths []) ≡ (mem_text q paths && not (is_folder paths q))
  unfolding tree
  shows-tree q = elim (Bool-cases (mem_text q paths && not (is_folder paths q))) [
    | inl e ↦
        let both = and_split (mem_text q paths) (not (is_folder paths q)) e in
        rows_complete q (both.0) (eq-false_of_not (is_folder paths q) (both.1)) (depth paths + 1) []
          refl (omega (arith, depth_of_mem paths q (both.0)))
        ∙ sym e
    | inr e ↦ elim (Bool-cases (shows q (rows web paths (depth paths + 1) [] []))) [
      | inl h ↦ h ∙ sym (rows_sound [] q (depth paths + 1) [] h)
      | inr h ↦ h ∙ sym e
    ]
  ]

  -- Whatever folders are closed, every file that the tree shows is a path of the package.
  pub tree_sound :
      (q : Text) (closed : Closed)
      → shows q (tree web paths closed) ≡ true
      → mem_text q paths ≡ true
  unfolding tree
  tree_sound q closed h =
      (and_split (mem_text q paths) (not (is_folder paths q))
        (rows_sound closed q (depth paths + 1) [] h)).0
