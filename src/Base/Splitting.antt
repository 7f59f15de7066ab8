-- ===== src/Base/Splitting.antt =====
-- `split` and `join` by one code unit.
use Prim.Native.Nat.{ℕ, ◌<◌}
use mathlib.Core.Path.{◌≡◌, refl, ap, sym, ◌∙◌}
use mathlib.Core.Logic.{◌⊎◌, inl, inr}
use mathlib.Core.Bool.{Bool, false}
use mathlib.Core.Option.{some}
use mathlib.Core.List.{List, [], ◌∷◌, ◌++◌, append_assoc, append-nil}
use native.Mathlib.Omega.{arith}
use plugin_pocket.Base.Tests.{◌==◌, ==_iff, Bool-cases}
use plugin_pocket.Base.Lists.{any, last, length}
use plugin_pocket.Base.Strings.{Text, split_from, split}

-- `parts.join(c)`
abbrev pub join : ℕ → List Text → Text
join sep [] = []
join sep (p ∷ []) = p
join sep (p ∷ q ∷ ps) = p ++ sep ∷ join sep (q ∷ ps)

abbrev pub has_unit : ℕ → Text → Bool
has_unit sep s = any (λ c. c == sep) s

split_from-cons :
    (sep : ℕ) (cur s : Text) → (p : Text) × (ps : List Text) × (split_from sep cur s ≡ p ∷ ps)
unfolding split_from
split_from-cons sep cur [] = (cur, [], refl)
split_from-cons sep cur (c ∷ s) = elim (Bool-cases (c == sep)) [
  | inl e ↦ (cur, split_from sep [] s, rw e refl)
  | inr e ↦ rw e (split_from-cons sep (cur ++ c ∷ []) s)
]

join-split_from : (sep : ℕ) (cur s : Text) → join sep (split_from sep cur s) ≡ cur ++ s
unfolding split_from
join-split_from sep cur [] = sym (append-nil cur)
join-split_from sep cur (c ∷ s) = elim (Bool-cases (c == sep)) [
  | inl e ↦
      rw e (join-closed (split_from-cons sep [] s) (join-split_from sep [] s) ((==_iff c sep).0 e))
  | inr e ↦ rw e (join-split_from sep (cur ++ c ∷ []) s ∙ append_assoc cur (c ∷ []) s)
]
  where
    join-closed :
        ((p : Text) × (ps : List Text) × (split_from sep [] s ≡ p ∷ ps))
        → join sep (split_from sep [] s) ≡ s
        → c ≡ sep
        → join sep (cur ∷ split_from sep [] s) ≡ cur ++ c ∷ s
    join-closed (p, ps, e) h same = rw (e, same) (ap (λ (t : Text). cur ++ sep ∷ t) (rw e at h))

-- Joining the parts of a split gives the text back.
pub join-split : (sep : ℕ) (s : Text) → join sep (split sep s) ≡ s
unfolding split
join-split sep s = join-split_from sep [] s

split_from_of_no_unit :
    (sep : ℕ) (cur s : Text) → has_unit sep s ≡ false → split_from sep cur s ≡ (cur ++ s) ∷ []
unfolding split_from
split_from_of_no_unit sep cur [] h = rw append-nil refl
split_from_of_no_unit sep cur (c ∷ s) h = elim (Bool-cases (c == sep)) [
  | inl e ↦ absurd (ground arith)
  | inr e ↦ rw e (
      split_from_of_no_unit sep (cur ++ c ∷ []) s (rw e at h)
      ∙ ap (λ (t : Text). t ∷ []) (append_assoc cur (c ∷ []) s))
]

last-cons :
    (x : Text) {xs : List Text}
    → ((p : Text) × (ps : List Text) × (xs ≡ p ∷ ps))
    → last (x ∷ xs) ≡ last xs
last-cons x (p, ps, e) = rw e refl

last-split_from :
    (sep : ℕ) (cur s t : Text)
    → has_unit sep t ≡ false
    → last (split_from sep cur (s ++ sep ∷ t)) ≡ some t
unfolding split_from
last-split_from sep cur [] t h = rw ((==_iff sep sep).1 refl, split_from_of_no_unit sep [] t h) refl
last-split_from sep cur (c ∷ s) t h = elim (Bool-cases (c == sep)) [
  | inl e ↦
      rw e (last-cons cur (split_from-cons sep [] (s ++ sep ∷ t)) ∙ last-split_from sep [] s t h)
  | inr e ↦ rw e (last-split_from sep (cur ++ c ∷ []) s t h)
]

-- The last part of a split is what stands behind the last separator.
pub last-split :
    (sep : ℕ) (s t : Text) → has_unit sep t ≡ false → last (split sep (s ++ sep ∷ t)) ≡ some t
unfolding split
last-split sep s t h = last-split_from sep [] s t h

pub split_of_no_unit : (sep : ℕ) (s : Text) → has_unit sep s ≡ false → split sep s ≡ s ∷ []
unfolding split
split_of_no_unit sep s h = split_from_of_no_unit sep [] s h

pub length-split : (sep : ℕ) (s : Text) → 0 < length (split sep s)
unfolding split
length-split sep s = positive (split_from-cons sep [] s)
  where
    positive :
        ((p : Text) × (ps : List Text) × (split_from sep [] s ≡ p ∷ ps))
        → 0 < length (split_from sep [] s)
    positive (p, ps, e) = rw e (omega arith)

abbrev pub first_part : List Text → Text
first_part [] = []
first_part (p ∷ ps) = p

first-split_from :
    (sep : ℕ) (cur s : Text)
    → (first_part (split_from sep cur s) ≡ cur ++ s)
      ⊎ ((n : Text) × (t : Text) × (s ≡ n ++ sep ∷ t)
          × (first_part (split_from sep cur s) ≡ cur ++ n))
unfolding split_from
first-split_from sep cur [] = inl (sym (append-nil cur))
first-split_from sep cur (c ∷ s) = elim (Bool-cases (c == sep)) [
  | inl e ↦ inr ([], s, ap (λ (d : ℕ). d ∷ s) ((==_iff c sep).0 e), rw e (sym (append-nil cur)))
  | inr e ↦ elim (first-split_from sep (cur ++ c ∷ []) s) [
    | inl h ↦ inl (rw e (h ∙ append_assoc cur (c ∷ []) s))
    | inr (n, t, same, h) ↦ inr (c ∷ n, t, ap (c ∷◌) same, rw e (h ∙ append_assoc cur (c ∷ []) n))
  ]
]

-- The first part of a split is the whole text, or a separator stands behind it.
pub first-split :
    (sep : ℕ) (s : Text)
    → (first_part (split sep s) ≡ s) ⊎ ((t : Text) × (s ≡ first_part (split sep s) ++ sep ∷ t))
unfolding split
first-split sep s = elim (first-split_from sep [] s) [
  | inl h ↦ inl h
  | inr (n, t, same, h) ↦ inr (t, rw h same)
]
