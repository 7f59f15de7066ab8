-- ===== src/Base/Trimming.antt =====
-- `trim` takes nothing more when it is applied again, and makes no text longer.
use Prim.Native.Nat.{◌≤◌}
use mathlib.Core.Path.{◌≡◌, refl, sym, ap, ◌∙◌}
use mathlib.Core.Logic.{inl, inr}
use mathlib.Core.List.{[], ◌∷◌, ◌++◌, reverse, reverse-append, reverse-reverse}
use native.Mathlib.Omega.{arith}
use plugin_pocket.Base.Tests.{Bool-cases}
use plugin_pocket.Base.Lists.{length, length-append}
use plugin_pocket.Base.Strings.{Text, is_space, trim_start, trim}

trim_start-suffix : (s : Text) → (w : Text) × (s ≡ w ++ trim_start s)
unfolding trim_start
trim_start-suffix [] = ([], refl)
trim_start-suffix (c ∷ s) = elim (Bool-cases (is_space c)) [
  | inl e ↦ let (w, split) = trim_start-suffix s in (c ∷ w, rw e (ap (c ∷◌) split))
  | inr e ↦ ([], rw e refl)
]

length-trim_start : (s : Text) → length (trim_start s) ≤ length s
unfolding trim_start
length-trim_start [] = omega arith
length-trim_start (c ∷ s) = ground (arith, length-trim_start s)

trim_start_idem : (s : Text) → trim_start (trim_start s) ≡ trim_start s
unfolding trim_start
trim_start_idem [] = refl
trim_start_idem (c ∷ s) = ground (arith, trim_start_idem s)

-- A text that begins with no space has no prefix that begins with one.
trim_start-prefix : (s t : Text) → trim_start (s ++ t) ≡ s ++ t → trim_start s ≡ s
unfolding trim_start
trim_start-prefix [] t h = refl
trim_start-prefix (c ∷ s) t h = elim (Bool-cases (is_space c)) [
  | inr e ↦ rw e refl
  | inl e ↦
      let short = length-trim_start (s ++ t) in
      let same : length (trim_start (s ++ t)) ≡ length (c ∷ (s ++ t)) = ap length (rw e at h) in
      absurd (omega arith)
]

length-reverse : (s : Text) → length (reverse s) ≡ length s
length-reverse [] = refl
length-reverse (c ∷ s) =
    ap length (reverse-append (c ∷ []) s)
    ∙ length-append (reverse s) (c ∷ [])
    ∙ (let same = length-reverse s in omega arith)

-- `reverse (trim_start (reverse u))` is a prefix of `u`.
trim_end-prefix : (u : Text) → (w : Text) × (u ≡ reverse (trim_start (reverse u)) ++ w)
trim_end-prefix u =
    let (w, cut) = trim_start-suffix (reverse u) in
    (
      reverse w,
      sym (reverse-reverse u) ∙ ap reverse cut ∙ reverse-append w (trim_start (reverse u)),
    )

trim_end-fixed :
    (u : Text)
    → trim_start u ≡ u
    → trim_start (reverse (trim_start (reverse u))) ≡ reverse (trim_start (reverse u))
trim_end-fixed u fixed =
    let (w, e) = trim_end-prefix u in
    trim_start-prefix (reverse (trim_start (reverse u))) w (ap trim_start (sym e) ∙ fixed ∙ e)

pub trim_idem : (s : Text) → trim (trim s) ≡ trim s
unfolding trim
trim_idem s =
    let u = trim_start s in
    ap (λ (t : Text). reverse (trim_start (reverse t))) (trim_end-fixed u (trim_start_idem s))
    ∙ ap (λ (t : Text). reverse (trim_start t)) (reverse-reverse (trim_start (reverse u)))
    ∙ ap reverse (trim_start_idem (reverse u))

pub length-trim : (s : Text) → length (trim s) ≤ length s
unfolding trim
length-trim s =
    let a = length-trim_start s in
    let b = length-trim_start (reverse (trim_start s)) in
    let c = length-reverse (trim_start s) in
    let d = length-reverse (trim_start (reverse (trim_start s))) in omega arith
