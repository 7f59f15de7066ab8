-- ===== src/Release/Files.antt =====
-- The files of a directory as scripts/build-updater-manifest.mjs looks for them: those of a platform,
-- and the signatures.
use mathlib.Core.Bool.{true≢false}
use mathlib.Core.List.{reverse, reverse-append, reverse-reverse}
use plugin_pocket.Base.{
  ◌-◌, ◌≡◌, ◌⊎◌, inl, inr, refl, sym, ap, ◌∙◌, Bool, true, false, not, Option, some, List, [], ◌∷◌,
  ◌++◌, arith, Text, codes, eq_text, eq_text_iff, starts_with, starts_with_split,
  starts_with-append, ends_with, keep, drop, length, length-append, take-append, or_else, lookup,
  insert, lookup-insert, and_split, eq-false_of_not, Bool-cases, if_cases,
}
use plugin_pocket.Release.Manifest.{
  Platform, File, sig, is_asset, signed_name, collect, signatures, fits,
}

-- `s.endsWith(p)` in both directions
ends_with_split : (s p : Text) → ends_with s p ≡ true → (front : Text) × (s ≡ front ++ p)
ends_with_split s p h =
    let tail = drop (length (reverse p)) (reverse s) in
    (
      reverse tail,
      sym (reverse-reverse s)
          ∙ ap reverse (starts_with_split (reverse s) (reverse p) h)
          ∙ reverse-append (reverse p) tail
          ∙ ap (λ (t : Text). reverse tail ++ t) (reverse-reverse p),
    )

ends_with-append : (front p : Text) → ends_with (front ++ p) p ≡ true
ends_with-append front p =
    rw (reverse-append front p) (starts_with-append (reverse p) (reverse front))

pub ends_with_of : (s front p : Text) → s ≡ front ++ p → ends_with s p ≡ true
ends_with_of s front p e = rw e (ends_with-append front p)

-- A file of a list.
abbrev pub IsAmong : File → List File → Type 0
IsAmong f [] = ⊥
IsAmong f (g ∷ gs) = (f ≡ g) ⊎ IsAmong f gs

IsAmong-keep :
    (p : File → Bool) (f : File) (gs : List File)
    → IsAmong f (keep p gs)
    → IsAmong f gs × (p f ≡ true)
IsAmong-keep p f [] h = absurd h
IsAmong-keep p f (g ∷ gs) h = elim (Bool-cases (p g)) [
  | inl e ↦ elim (rw e at h) [
    | inl same ↦ (inl same, rw same e)
    | inr more ↦ let (among, good) = IsAmong-keep p f gs more in (inr among, good)
  ]
  | inr e ↦ let (among, good) = IsAmong-keep p f gs (rw e at h) in (inr among, good)
]

keep-IsAmong :
    (p : File → Bool) (f : File) (gs : List File)
    → IsAmong f gs
    → p f ≡ true
    → IsAmong f (keep p gs)
keep-IsAmong p f [] h good = absurd h
keep-IsAmong p f (g ∷ gs) (inl same) good =
    let here : p g ≡ true = (rw same at good) in rw here (inl same)
keep-IsAmong p f (g ∷ gs) (inr more) good =
    if_cases (λ (xs : List File). IsAmong f xs) (p g) (λ _. inr (keep-IsAmong p f gs more good))
      (λ _. keep-IsAmong p f gs more good)

-- An asset of a platform: its name has the platform's prefix and suffix and is neither that of a
-- signature nor that of the checksums.
abbrev pub IsOf : Platform → File → Type 0
IsOf p f =
    ((rest : Text) × (f.name ≡ p.prefix ++ rest))
    × ((front : Text) × (f.name ≡ front ++ p.suffix))
    × ((front : Text) → f.name ≡ front ++ codes ".sig" → ⊥)
    × ((front : Text) → f.name ≡ front ++ codes "SHA256SUMS" → ⊥)

no_end : (s p : Text) → ends_with s p ≡ false → (front : Text) → s ≡ front ++ p → ⊥
no_end s p h front e = true≢false (sym (ends_with_of s front p e) ∙ h)

not_ending : (s p : Text) → ((front : Text) → s ≡ front ++ p → ⊥) → ends_with s p ≡ false
not_ending s p n = elim (Bool-cases (ends_with s p)) [
  | inl e ↦ let (front, same) = ends_with_split s p e in absurd (n front same)
  | inr e ↦ e
]

fits-IsOf : (p : Platform) (f : File) → is_asset f ≡ true → fits p f ≡ true → IsOf p f
fits-IsOf p f asset fit =
    let (starts, ends) = and_split (starts_with f.name p.prefix) (ends_with f.name p.suffix) fit in
    let (unsigned, unsummed) =
      and_split (not (ends_with f.name sig)) (not (ends_with f.name (codes "SHA256SUMS"))) asset in
    (
      (drop (length p.prefix) f.name, starts_with_split f.name p.prefix starts),
      ends_with_split f.name p.suffix ends,
      no_end f.name (codes ".sig") (eq-false_of_not _ unsigned),
      no_end f.name (codes "SHA256SUMS") (eq-false_of_not _ unsummed),
    )

IsOf-fits : (p : Platform) (f : File) → IsOf p f → (is_asset f ≡ true) × (fits p f ≡ true)
IsOf-fits p f ((rest, starts), (front, ends), unsigned, unsummed) =
    let begins : starts_with f.name p.prefix ≡ true =
      rw starts (starts_with-append p.prefix rest) in
    (
      rw
          (
            not_ending f.name (codes ".sig") unsigned,
            not_ending f.name (codes "SHA256SUMS") unsummed,
          )
          refl,
      rw (begins, ends_with_of f.name front p.suffix ends) refl,
    )

-- The only asset of a platform.
pub only-IsOf :
    (files : List File) (p : Platform) (f : File)
    → keep (fits p) (keep is_asset files) ≡ f ∷ []
    → IsAmong f files × IsOf p f × ((g : File) → IsAmong g files → IsOf p g → g ≡ f)
only-IsOf files p f e =
    let (among, fit) = IsAmong-keep (fits p) f (keep is_asset files) (rw e (inl refl)) in
    let (in_files, asset) = IsAmong-keep is_asset f files among in
    (
      in_files,
      fits-IsOf p f asset fit,
      λ g here of_p.
          let (g_asset, g_fits) = IsOf-fits p g of_p in
          let found =
            keep-IsAmong (fits p) g _ (keep-IsAmong is_asset g files here g_asset) g_fits in
          elim (rw e at found) [ inl same ↦ same | inr none_left ↦ absurd none_left ],
    )

signed_name-append : (n : Text) → signed_name (n ++ sig) ≡ n
signed_name-append n =
    let size : length (n ++ sig) - 4 ≡ length n = ground (arith, length-append n sig) in
    rw size (take-append n sig)

-- Where the signature of a name comes from.
collect-IsAmong :
    (files : List File) (m : List (Text × Text)) (n s : Text)
    → lookup n (collect files m) ≡ some s
    → ((g : File) × IsAmong g files × (signed_name g.name ≡ n) × (or_else g.signature [] ≡ s))
      ⊎ (lookup n m ≡ some s)
collect-IsAmong [] m n s h = inr h
collect-IsAmong (g ∷ gs) m n s h =
    elim (collect-IsAmong gs (insert (signed_name g.name) (or_else g.signature []) m) n s h) [
      | inl (f, among, named, signed) ↦ inl (f, inr among, named, signed)
      | inr found ↦ elim (Bool-cases (eq_text (signed_name g.name) n)) [
        | inl same ↦
            let here : some (or_else g.signature []) ≡ some s =
              (rw (lookup-insert (signed_name g.name) n (or_else g.signature []) m, same) at
                found) in
            inl (
              g,
              inl refl,
              (eq_text_iff (signed_name g.name) n).0 same,
              ap (λ (o : Option Text). or_else o []) here,
            )
        | inr other ↦
            inr
              (rw (lookup-insert (signed_name g.name) n (or_else g.signature []) m, other) at found)
      ]
    ]

-- The signature of a name is the text of a file with that name and `.sig` behind it.
pub signatures-IsAmong :
    (files : List File) (n s : Text)
    → lookup n (signatures files) ≡ some s
    → (g : File) × IsAmong g files × (g.name ≡ n ++ codes ".sig") × (or_else g.signature [] ≡ s)
unfolding lookup
signatures-IsAmong files n s h =
    elim (collect-IsAmong (keep (λ f. ends_with f.name sig) files) [] n s h) [
      | inr e ↦ cc
      | inl (g, among, named, signed) ↦
          let (in_files, ends) = IsAmong-keep (λ f. ends_with f.name sig) g files among in
          let (front, same) = ends_with_split g.name sig ends in
          let front_named : front ≡ n =
            sym (signed_name-append front) ∙ ap signed_name (sym same) ∙ named in
          (g, in_files, same ∙ ap (λ (t : Text). t ++ sig) front_named, signed)
    ]
