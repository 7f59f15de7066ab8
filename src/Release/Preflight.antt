-- ===== src/Release/Preflight.antt =====
-- What a release that passes the preflight is known to have.
use plugin_pocket.Base.{
  ◌≤◌, leb, or_cases, ℕ, true_of_not, ◌≡◌, refl, ap, sym, ◌∙◌, Bool, true, false, not, ◌&&◌, Option,
  none, some, List, [], ◌∷◌, ◌++◌, arith, ◌⊎◌, inl, inr, Text, codes, eq_text_iff, starts_with,
  starts_with_split, any, all, drop, length, or_else, empty, trim, join, split, join-split, ==_iff,
  ◌==◌, All, ok, reject, reject-eq-ok, bind-eq-ok, and_split,
}
use plugin_pocket.Release.Lines.{HasLine, Declares, first_match-Declares, any-lines_from}
use plugin_pocket.Release.{
  is_digit, lines_from, is_base64, is_key_line, is_number, are_three, is_stable, differs,
  validate_release, Updater, is_minisign, none_given, is_passive, validate_updater, Inputs,
  preflight, unstable_tag, version_mismatch, no_endpoints, insecure_endpoint, bad_pubkey,
}

-- A number without a leading zero.
abbrev pub IsNumber : Text → Type 0
IsNumber s =
    (s ≡ codes "0")
    ⊎ ((c : ℕ) × (rest : Text) × (s ≡ c ∷ rest)
        × (b'1' ≤ c)
        × (c ≤ b'9')
        × All (λ d. (b'0' ≤ d) × (d ≤ b'9')) rest)

-- A version of three numbers without leading zeros, with dots between.
abbrev pub IsVersion : Text → Type 0
IsVersion v =
    (a : Text) × (b : Text) × (c : Text) × (v ≡ join b'.' (a ∷ b ∷ c ∷ []))
    × IsNumber a
    × IsNumber b
    × IsNumber c

all-All :
    {A : Type 0} {P : A → Type 0} (p : A → Bool)
    → ((x : A) → p x ≡ true → P x)
    → (xs : List A) → all p xs ≡ true
    → All P xs
all-All p step [] h = tt
all-All p step (x ∷ xs) h =
    let (here, more) = and_split (p x) (all p xs) h in (step x here, all-All p step xs more)

is_number-IsNumber : (s : Text) → is_number s ≡ true → IsNumber s
unfolding is_number
is_number-IsNumber [] h = cc
is_number-IsNumber (c ∷ s) h = elim (or_cases (c == b'0' && empty s) _ h) [
  | inl nought ↦
      let (is_nought, alone) = and_split (c == b'0') (empty s) nought in
      inl (nought_alone c s ((==_iff c b'0').0 is_nought) alone)
  | inr other ↦
      let (range, digits) = and_split (leb b'1' c && leb c b'9') (all is_digit s) other in
      let (low, high) = and_split (leb b'1' c) (leb c b'9') range in
      inr (
        c,
        s,
        refl,
        ground (arith, low),
        ground (arith, high),
        all-All is_digit (λ d e. (ground (arith, e), ground (arith, e))) s digits,
      )
]
  where
    nought_alone : (c : ℕ) (s : Text) → c ≡ b'0' → empty s ≡ true → c ∷ s ≡ codes "0"
    nought_alone c [] e h = ap (λ (d : ℕ). d ∷ []) e
    nought_alone c (d ∷ s) e h = cc

are_three-parts :
    (parts : List Text)
    → are_three parts ≡ true
    → (a : Text) × (b : Text) × (c : Text) × (parts ≡ a ∷ b ∷ c ∷ [])
      × (is_number a ≡ true)
      × (is_number b ≡ true)
      × (is_number c ≡ true)
are_three-parts [] h = cc
are_three-parts (a ∷ []) h = cc
are_three-parts (a ∷ b ∷ []) h = cc
are_three-parts (a ∷ b ∷ c ∷ []) h =
    let (front, last) = and_split (is_number a && is_number b) (is_number c) h in
    let (one, two) = and_split (is_number a) (is_number b) front in (a, b, c, refl, one, two, last)
are_three-parts (a ∷ b ∷ c ∷ d ∷ more) h = cc

is_stable-IsVersion :
    (tag : Text) → is_stable tag ≡ true → (tag ≡ b'v' ∷ drop 1 tag) × IsVersion (drop 1 tag)
unfolding is_stable
is_stable-IsVersion [] h = cc
is_stable-IsVersion (c ∷ s) h =
    let (v, three) = and_split (c == b'v') (are_three (split b'.' s)) h in
    let (x, y, z, e, p, q, r) = are_three-parts (split b'.' s) three in
    (
      ap (λ (d : ℕ). d ∷ s) ((==_iff c b'v').0 v),
      (
        x,
        y,
        z,
        sym (join-split b'.' s) ∙ ap (join b'.') e,
        is_number-IsNumber x p,
        is_number-IsNumber y q,
        is_number-IsNumber z r,
      ),
    )

any-differs :
    (v : Text) (found : List (Option Text))
    → any (differs v) found ≡ false
    → All (λ o. o ≡ some v) found
any-differs v [] h = tt
any-differs v (none ∷ os) h = cc
any-differs v (some x ∷ os) h = ground (arith, any-differs v os, eq_text_iff x v)

-- A release that passes has a tag of `v` and a version of three numbers, every version found is
-- that of the tag, and a signing key that is not blank; so all versions found agree.
pub validate_release-eq-ok :
    (tag : Text) (versions : List (Option Text)) (key : Option Text) {u : Unit {0}}
    → validate_release tag versions key ≡ ok u
    → (tag ≡ b'v' ∷ drop 1 tag)
      × IsVersion (drop 1 tag)
      × All (λ o. o ≡ some (drop 1 tag)) versions
      × (empty (trim (or_else key [])) ≡ false)
unfolding validate_release
validate_release-eq-ok tag versions key h =
    let (u, stable, h) = bind-eq-ok (reject (not (is_stable tag)) unstable_tag) _ h in
    let (w, same, signed) =
      bind-eq-ok (reject (any (differs (drop 1 tag)) versions) version_mismatch) _ h in
    let version = is_stable-IsVersion tag (true_of_not _ (reject-eq-ok _ _ stable)) in
    (
      version.0,
      version.1,
      any-differs (drop 1 tag) versions (reject-eq-ok _ _ same),
      reject-eq-ok _ _ signed,
    )

-- A character of base64.
abbrev pub IsBase64 : ℕ → Type 0
IsBase64 c =
    ((b'A' ≤ c) × (c ≤ b'Z'))
    ⊎ ((b'a' ≤ c) × (c ≤ b'z'))
    ⊎ ((b'0' ≤ c) × (c ≤ b'9'))
    ⊎ (c ≡ b'+')
    ⊎ (c ≡ b'/')

is_base64-IsBase64 : (c : ℕ) → is_base64 c ≡ true → IsBase64 c
is_base64-IsBase64 c h = elim (or_cases _ (c == b'/') h) [
  | inr e ↦ inr (inr (inr (inr ((==_iff c b'/').0 e))))
  | inl h ↦ elim (or_cases _ (c == b'+') h) [
    | inr e ↦ inr (inr (inr (inl ((==_iff c b'+').0 e))))
    | inl h ↦ elim (or_cases _ (is_digit c) h) [
      | inr e ↦ inr (inr (inl (ground (arith, e), ground (arith, e))))
      | inl h ↦ elim (or_cases (leb b'A' c && leb c b'Z') (leb b'a' c && leb c b'z') h) [
        | inl e ↦ inl (ground (arith, e), ground (arith, e))
        | inr e ↦ inr (inl (ground (arith, e), ground (arith, e)))
      ]
    ]
  ]
]

-- A public key of minisign: one line names it, and one holds it.
abbrev pub IsMinisign : Text → Type 0
IsMinisign s =
    ((name : Text) × HasLine (codes "untrusted comment: minisign public key:" ++ name) s)
    × ((key : Text) × (50 ≤ length key) × All IsBase64 key × HasLine (codes "RW" ++ key) s)

is_minisign-IsMinisign : (s : Text) → is_minisign s ≡ true → IsMinisign s
unfolding is_minisign is_key_line
is_minisign-IsMinisign s h =
    let (named, held) = and_split (any _ (lines_from [] s)) (any is_key_line (lines_from [] s)) h in
    let (line, front, at_line) = any-lines_from _ [] [] s (inl refl) named in
    let (held_line, good, at_held) = any-lines_from is_key_line [] [] s (inl refl) held in
    let (both, chars) =
      and_split (starts_with held_line (codes "RW") && leb 50 (length (drop 2 held_line))) _ good in
    let (begins, enough) = and_split (starts_with held_line (codes "RW")) _ both in
    (
      (
        drop 39 line,
        rw (starts_with_split line (codes "untrusted comment: minisign public key:") front) at
            at_line,
      ),
      (
        drop 2 held_line,
        ground (arith, enough),
        all-All is_base64 is_base64-IsBase64 (drop 2 held_line) chars,
        rw (starts_with_split held_line (codes "RW") begins) at at_held,
      ),
    )

-- Endpoints, all of them by `https://`, a key of minisign and the passive installation.
abbrev pub IsSafe : (Text → Text) → Updater → Type 0
IsSafe decode updater =
    ((e : Text) × (es : List Text) × (updater.endpoints ≡ some (e ∷ es))
      × All (λ x. (rest : Text) × (x ≡ codes "https://" ++ rest)) (e ∷ es))
    × IsMinisign (decode (or_else updater.pubkey []))
    × (updater.install_mode ≡ some (codes "passive"))

endpoints_lem :
    (o : Option (List Text))
    → none_given (or_else o []) ≡ false
    → all (λ e. starts_with e (codes "https://")) (or_else o []) ≡ true
    → (e : Text) × (es : List Text) × (o ≡ some (e ∷ es))
      × All (λ x. (rest : Text) × (x ≡ codes "https://" ++ rest)) (e ∷ es)
endpoints_lem none h k = cc
endpoints_lem (some []) h k = cc
endpoints_lem (some (e ∷ es)) h k = (
  e,
  es,
  refl,
  all-All (λ x. starts_with x (codes "https://"))
      (λ x begins. (drop 8 x, starts_with_split x (codes "https://") begins)) (e ∷ es) k,
)

is_passive_lem : (o : Option Text) → is_passive o ≡ true → o ≡ some (codes "passive")
is_passive_lem none h = cc
is_passive_lem (some mode) h = ap some ((eq_text_iff mode (codes "passive")).0 h)

validate_updater-IsSafe :
    (decode : Text → Text) (updater : Updater) {u : Unit {0}}
    → validate_updater decode updater ≡ ok u
    → IsSafe decode updater
unfolding validate_updater
validate_updater-IsSafe decode updater h =
    let (u, given, h) =
      bind-eq-ok (reject (none_given (or_else updater.endpoints [])) no_endpoints) _ h in
    let (w, secure, h) =
      bind-eq-ok
        (reject (not (all (λ e. starts_with e (codes "https://")) (or_else updater.endpoints [])))
          insecure_endpoint)
        _ h in
    let (x, key, passive) =
      bind-eq-ok (reject (not (is_minisign (decode (or_else updater.pubkey [])))) bad_pubkey) _ h in
    (
      endpoints_lem updater.endpoints (reject-eq-ok _ _ given)
          (true_of_not _ (reject-eq-ok _ _ secure)),
      is_minisign-IsMinisign _ (true_of_not _ (reject-eq-ok _ _ key)),
      is_passive_lem updater.install_mode (true_of_not _ (reject-eq-ok _ _ passive)),
    )

-- A release passes the preflight only if its tag is `v` and a version of three numbers, both JSON
-- manifests have that version, both Cargo manifests and the Go source declare it in a line of their
-- own form, a signing key is given that is not blank, and the settings of the updater are safe: there
-- are endpoints, all by `https://`, the public key decodes to the two lines of a minisign key, and
-- the installation is passive.
pub preflight-eq-ok :
    (decode : Text → Text) (i : Inputs) (tag : Text) {u : Unit {0}}
    → i.tag ≡ some tag
    → preflight decode i ≡ ok u
    → (v : Text) × (tag ≡ b'v' ∷ v)
      × IsVersion v
      × (i.tauri_version ≡ some v)
      × (i.ui_version ≡ some v)
      × Declares (codes "version = \"") v i.desktop_cargo
      × Declares (codes "version = \"") v i.cli_cargo
      × Declares (codes "const Version = \"") v i.version_go
      × (empty (trim (or_else i.signing_key [])) ≡ false)
      × IsSafe decode i.updater
unfolding preflight
preflight-eq-ok decode i tag e h =
    let (u, released, updater) = bind-eq-ok (validate_release _ _ i.signing_key) _ (rw e at h) in
    let (front, version, found, signed) = validate_release-eq-ok tag _ i.signing_key released in
    let v = drop 1 tag in
    (
      v,
      front,
      version,
      found.0,
      found.1.0,
      first_match-Declares (codes "version = \"") [] true i.desktop_cargo v (λ _. inl refl)
          found.1.1.0,
      first_match-Declares (codes "version = \"") [] true i.cli_cargo v (λ _. inl refl)
          found.1.1.1.0,
      first_match-Declares (codes "const Version = \"") [] true i.version_go v (λ _. inl refl)
          found.1.1.1.1.0,
      signed,
      validate_updater-IsSafe decode i.updater updater,
    )
