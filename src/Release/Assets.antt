-- ===== src/Release/Assets.antt =====
-- What a manifest that is built holds: one signed asset of its own for each platform.
use mathlib.Core.Bool.{true≢false}
use plugin_pocket.Base.{
  trim_start, ◌⊎◌, inl, inr, ◌++◌, All, drop, eq_text_refl, starts_with_split, lookup-insert,
  insert, Bool-cases, ℕ, zero, suc, true_of_not, ◌≡◌, refl, ap, sym, ◌∙◌, Bool, true, false, not,
  ◌&&◌, ◌||◌, ◌==◌, Option, none, some, List, [], ◌∷◌, map, arith, Text, codes, eq_text,
  eq_text_iff, starts_with, keep, all, get_elem?, or_else, empty, trim, lookup, and_split, ok,
  reject, reject-eq-ok, bind-eq-ok, ok-injective, err-ne-ok,
}
use plugin_pocket.Release.Files.{IsAmong, IsOf, only-IsOf, signatures-IsAmong}
use plugin_pocket.Release.Manifest.{
  bare, Platform, platform_assets, File, Release, Asset, Manifest, version_mismatch, unsigned,
  missing, is_asset, signatures, fits, asset_url, asset_of, assets_of, build_updater_manifest,
  argument, required, check_required, pairs, parse_args, version_of, read_file, run,
}

none-ne-some : {A : Type 0} {x : A} → ◌≡◌ {A = Option A} none (some x) → ⊥
none-ne-some e = cc

-- A flag is its name with or without dashes in front.
abbrev pub IsFlag : Text → Text → Type 0
IsFlag name flag =
    (flag ≡ codes "--" ++ name) ⊎ ((flag ≡ name) × (starts_with flag (codes "--") ≡ false))

-- Of arguments that alternate between flags and values: none is the flag of that name, and the last
-- that is has that value.
abbrev pub IsAbsent : Text → List Text → Type 0
IsAbsent name [] = Unit {0}
IsAbsent name (flag ∷ []) = IsFlag name flag → ⊥
IsAbsent name (flag ∷ value ∷ argv) = (IsFlag name flag → ⊥) × IsAbsent name argv

abbrev pub IsGiven : Text → List Text → Text → Type 0
IsGiven name [] v = ⊥
IsGiven name (flag ∷ []) v = ⊥
IsGiven name (flag ∷ value ∷ argv) v =
    IsGiven name argv v ⊎ (IsFlag name flag × (value ≡ v) × IsAbsent name argv)

bare-IsFlag : (name flag : Text) → eq_text (bare flag) name ≡ true → IsFlag name flag
bare-IsFlag name flag h = elim (Bool-cases (starts_with flag (codes "--"))) [
  | inl e ↦ inl (
      starts_with_split flag (codes "--") e
      ∙ ap (λ (t : Text). codes "--" ++ t) ((eq_text_iff (drop 2 flag) name).0 (rw e at h)))
  | inr e ↦ inr ((eq_text_iff flag name).0 (rw e at h), e)
]

IsFlag-bare : (name flag : Text) → IsFlag name flag → eq_text (bare flag) name ≡ true
IsFlag-bare name flag (inl e) = rw e (eq_text_refl name)
IsFlag-bare name flag (inr (e, plain)) = rw plain ((eq_text_iff flag name).1 e)

other-flag : (name flag : Text) → eq_text (bare flag) name ≡ false → IsFlag name flag → ⊥
other-flag name flag h f = true≢false (sym (IsFlag-bare name flag f) ∙ h)

-- What the arguments hold of a name, and what was known of it before.
pairs-IsGiven :
    (name : Text) (argv : List Text) (m : List (Text × Option Text)) (v : Text)
    → lookup name (pairs argv m) ≡ some (some v)
    → IsGiven name argv v ⊎ (IsAbsent name argv × (lookup name m ≡ some (some v)))
unfolding pairs
pairs-IsGiven name [] m v e = inr (tt, e)
pairs-IsGiven name (flag ∷ []) m v e = elim (Bool-cases (eq_text (bare flag) name)) [
  | inl same ↦
      let wrong : some none ≡ some (some v) =
        (rw (lookup-insert (bare flag) name none m, same) at e) in
      absurd (none-ne-some (ap (λ (o : Option (Option Text)). or_else o none) wrong))
  | inr other ↦
      inr (other-flag name flag other, rw (lookup-insert (bare flag) name none m, other) at e)
]
pairs-IsGiven name (flag ∷ value ∷ argv) m v e =
    elim (pairs-IsGiven name argv (insert (bare flag) (some value) m) v e) [
      | inl later ↦ inl (inl later)
      | inr (absent, found) ↦ elim (Bool-cases (eq_text (bare flag) name)) [
        | inl same ↦
            let right : some (some value) ≡ some (some v) =
              (rw (lookup-insert (bare flag) name (some value) m, same) at found) in
            inl (
              inr (
                bare-IsFlag name flag same,
                ap (λ (o : Option (Option Text)). or_else (or_else o none) v) right,
                absent,
              ))
        | inr other ↦ inr (
          (other-flag name flag other, absent),
          rw (lookup-insert (bare flag) name (some value) m, other) at found,
        )
      ]
    ]

given_cases :
    (o : Option (Option Text))
    → empty (or_else (or_else o none) []) ≡ false
    → o ≡ some (some (or_else (or_else o none) []))
given_cases none h = cc
given_cases (some none) h = cc
given_cases (some (some v)) h = refl

argument-IsGiven :
    (name : Text) (argv : List Text)
    → empty (argument (pairs argv []) name) ≡ false
    → IsGiven name argv (argument (pairs argv []) name)
unfolding lookup
argument-IsGiven name argv h =
    elim (pairs-IsGiven name argv [] _ (given_cases (lookup name (pairs argv [])) h)) [
      | inl given ↦ given
      | inr (absent, e) ↦ absurd (none-ne-some e)
    ]

-- The signature of a file is the text of the file with `.sig` behind its name, and is not blank.
abbrev pub IsSigned : List File → File → Text → Type 0
IsSigned files f signature =
    (empty signature ≡ false)
    × ((g : File) × IsAmong g files
        × (g.name ≡ f.name ++ codes ".sig")
        × (signature ≡ trim (or_else g.signature [])))

lookup-IsSigned :
    (files : List File) (f : File) (o : Option Text)
    → lookup f.name (signatures files) ≡ o
    → empty (trim (or_else o [])) ≡ false
    → IsSigned files f (trim (or_else o []))
unfolding trim trim_start
lookup-IsSigned files f none e h = cc
lookup-IsSigned files f (some s) e h =
    let (g, among, named, signed) = signatures-IsAmong files f.name s e in
    (h, (g, among, named, ap trim (sym signed)))

module _ (encode : Text → Text) where
  -- The platform's entry is the only file that is an asset of it, with its address and signature.
  abbrev pub IsServed : List File → Release → Platform → Text × Asset → Type 0
  IsServed files r p entry =
      (entry.0 ≡ p.key)
      × ((f : File) × IsAmong f files
          × IsOf p f
          × ((g : File) → IsAmong g files → IsOf p g → g ≡ f)
          × IsSigned files f entry.1.signature
          × (entry.1.url
              ≡ codes "https://github.com/"
                ++ (r.repo
                    ++ (codes "/releases/download/" ++ (r.tag ++ (codes "/" ++ encode f.name))))))

  abbrev pub AreServed : List File → Release → List Platform → List (Text × Asset) → Type 0
  AreServed files r [] [] = Unit
  AreServed files r (p ∷ ps) (e ∷ es) = IsServed files r p e × AreServed files r ps es
  AreServed files r [] (e ∷ es) = ⊥
  AreServed files r (p ∷ ps) [] = ⊥

  asset_of-IsServed :
      (files : List File) (r : Release) (p : Platform) (found : List File) (e : Text × Asset)
      → keep (fits p) (keep is_asset files) ≡ found
      → asset_of encode r (signatures files) p found ≡ ok e
      → IsServed files r p e
  unfolding asset_url
  asset_of-IsServed files r p [] e same h = absurd (err-ne-ok h)
  asset_of-IsServed files r p (f ∷ []) e same h =
      let (u, signed, rest) =
        bind-eq-ok
          (reject (empty (trim (or_else (lookup f.name (signatures files)) []))) (unsigned p.key)) _
          h in
      let entry = sym (ok-injective rest) in
      let (in_files, of_p, only) = only-IsOf files p f same in
      (
        ap (λ (x : Text × Asset). x.0) entry,
        (
          f,
          in_files,
          of_p,
          only,
          rw (ap (λ (x : Text × Asset). x.1.signature) entry) (
              lookup-IsSigned files f (lookup f.name (signatures files)) refl
                (reject-eq-ok _ _ signed)),
          ap (λ (x : Text × Asset). x.1.url) entry,
        ),
      )
  asset_of-IsServed files r p (f ∷ g ∷ fs) e same h = absurd (err-ne-ok h)

  assets_of-AreServed :
      (files : List File) (r : Release) (ps : List Platform) (es : List (Text × Asset))
      → assets_of encode r files ps ≡ ok es
      → AreServed files r ps es
  unfolding assets_of
  assets_of-AreServed files r [] es h = rw (← ok-injective h) tt
  assets_of-AreServed files r (p ∷ ps) es h =
      let (e, one, h) = bind-eq-ok (asset_of encode r (signatures files) p _) _ h in
      let (rest, others, h) = bind-eq-ok (assets_of encode r files ps) _ h in
      rw (← ok-injective h)
        (asset_of-IsServed files r p _ e refl one, assets_of-AreServed files r ps rest others)

  -- A manifest is built only if the tag is `v` and the version. Then it serves the five platforms in
  -- the table's order, each with the only file that has its prefix and suffix, the address of that
  -- file, and its signature, which is not blank.
  pub build_updater_manifest-AreServed :
      (files : List File) (r : Release) (m : Manifest)
      → build_updater_manifest encode files r ≡ ok m
      → (r.tag ≡ b'v' ∷ m.version) × AreServed files r platform_assets m.platforms
  unfolding build_updater_manifest
  build_updater_manifest-AreServed files r m h =
      let (u, same, h) =
        bind-eq-ok (reject (not (eq_text r.tag (b'v' ∷ r.version))) version_mismatch) _ h in
      let (platforms, served, h) = bind-eq-ok (assets_of encode r files platform_assets) _ h in
      let tag = (eq_text_iff r.tag (b'v' ∷ r.version)).0 (true_of_not _ (reject-eq-ok _ _ same)) in
      rw (← ok-injective h) (tag, assets_of-AreServed files r platform_assets platforms served)

  check_required-given :
      (args : List (Text × Option Text)) (names : List Text) {u : Unit {0}}
      → check_required args names ≡ ok u
      → All (λ name. empty (argument args name) ≡ false) names
  check_required-given args [] h = tt
  check_required-given args (name ∷ names) h =
      let (u, given, h) = bind-eq-ok (reject (empty (argument args name)) (missing name)) _ h in
      (reject-eq-ok _ _ given, check_required-given args names h)

  version_of-cons : (tag : Text) → tag ≡ b'v' ∷ version_of tag → starts_with tag (codes "v") ≡ true
  version_of-cons tag e = rw e refl

  -- The script yields a manifest only if its arguments name a directory, a tag that begins with `v`,
  -- a repository and a file to write it to, each by the last flag of that name and none of them
  -- empty; the version is the rest of the tag, and each of the five platforms, in order, is served
  -- from the address of the release by the only file of the directory that has its prefix and suffix,
  -- with the trimmed text of that file's signature file, which is not blank.
  pub run-eq-ok :
      (list : Text → List Text) (read : Text → Text → Text) (now : Text) (argv : List Text)
      (out : Text) (m : Manifest)
      → run encode list read now argv ≡ ok (out, m)
      → (dir : Text) × (tag : Text) × (repo : Text) × (IsGiven (codes "assets") argv dir
          × (empty dir ≡ false))
        × (IsGiven (codes "tag") argv tag × (tag ≡ b'v' ∷ m.version))
        × (IsGiven (codes "repo") argv repo × (empty repo ≡ false))
        × (IsGiven (codes "out") argv out × (empty out ≡ false))
        × AreServed
            (map (read_file (read dir)) (list dir))
            (record {
              version = version_of tag;
              repo = repo;
              tag = tag;
              pub_date = now;
              notes = none;
            })
            platform_assets
            m.platforms
  unfolding run parse_args
  run-eq-ok list read now argv out m h =
      let (args, parsed, h) = bind-eq-ok (parse_args argv) _ h in
      let (u, given, parsed) = bind-eq-ok (check_required (pairs argv []) required) _ parsed in
      let (manifest, built, h) = bind-eq-ok (build_updater_manifest encode _ _) _ h in
      let (tag, served) = build_updater_manifest-AreServed _ _ manifest built in
      let all_given = check_required-given (pairs argv []) required given in
      let dir_given = all_given.0 in
      let tag_given = all_given.1.0 in
      let repo_given = all_given.1.1.0 in
      let out_given = all_given.1.1.1.0 in
      let same_args : pairs argv [] ≡ args = ok-injective parsed in
      let last = ok-injective h in
      let same : manifest ≡ m = ap (λ (x : Text × Manifest). x.1) last in
      let same_out : argument args (codes "out") ≡ out = ap (λ (x : Text × Manifest). x.0) last in
      (
        argument args (codes "assets"),
        argument args (codes "tag"),
        argument args (codes "repo"),
        rw (← same_args) (argument-IsGiven (codes "assets") argv dir_given, dir_given),
        (rw same_args at (argument-IsGiven (codes "tag") argv tag_given), rw (← same) tag),
        rw (← same_args) (argument-IsGiven (codes "repo") argv repo_given, repo_given),
        rw (← same_out, ← same_args) (argument-IsGiven (codes "out") argv out_given, out_given),
        rw (← same) served,
      )

-- One of two texts begins with the other.
abbrev compatible : Text → Text → Bool
compatible [] q = true
compatible (c ∷ p) [] = true
compatible (c ∷ p) (d ∷ q) = c == d && compatible p q

starts_with-compatible :
    (s p q : Text) → starts_with s p ≡ true → starts_with s q ≡ true → compatible p q ≡ true
starts_with-compatible s [] q h k = refl
starts_with-compatible s (c ∷ p) [] h k = refl
starts_with-compatible [] (c ∷ p) (d ∷ q) h k = cc
starts_with-compatible (x ∷ s) (c ∷ p) (d ∷ q) h k =
    let (one, more) = and_split (x == c) (starts_with s p) h in
    let (two, others) = and_split (x == d) (starts_with s q) k in
    ground (arith, starts_with-compatible s p q more others)

all-get_elem? {ℓ} :
    {A : Type ℓ} (p : A → Bool) (xs : List A) (i : ℕ) {x : A}
    → all p xs ≡ true
    → get_elem? xs i ≡ some x
    → p x ≡ true
all-get_elem? p [] i h e = cc
all-get_elem? {A = A} p (y ∷ xs) zero h e =
    rw (← ap (λ (o : Option A). or_else o y) e) (and_split (p y) (all p xs) h).0
all-get_elem? p (y ∷ xs) (suc i) h e = all-get_elem? p xs i (and_split (p y) (all p xs) h).1 e

abbrev apart : Platform → Platform → Bool
apart p q = not (compatible p.prefix q.prefix) || eq_text p.key q.key

-- No file fits two of the platforms, so none is served to both.
pub fits-fits :
    (f : File) (i j : ℕ) {p q : Platform}
    → get_elem? platform_assets i ≡ some p
    → get_elem? platform_assets j ≡ some q
    → fits p f ≡ true
    → fits q f ≡ true
    → p.key ≡ q.key
fits-fits f i j {p} {q} at_i at_j one two =
    let all_apart =
      all-get_elem? (λ x. all (apart x) platform_assets) platform_assets i refl at_i in
    let both = all-get_elem? (apart p) platform_assets j all_apart at_j in
    let met =
      starts_with-compatible f.name p.prefix q.prefix
        (and_split (starts_with f.name p.prefix) _ one).0
        (and_split (starts_with f.name q.prefix) _ two).0 in
    (eq_text_iff p.key q.key).0 (rw met at both)
