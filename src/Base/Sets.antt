-- ===== src/Base/Sets.antt =====
-- `[...new Set(xs)]`, and sorting by a comparison, on texts.
use Prim.Native.Nat.{◌+◌}
use mathlib.Core.Path.{◌≡◌, refl, ap, ◌∙◌}
use mathlib.Core.Logic.{inl, inr}
use mathlib.Core.Bool.{Bool, true, false, ◌&&◌, ◌||◌}
use mathlib.Core.List.{List, [], ◌∷◌, ◌++◌, append-nil}
use native.Mathlib.Omega.{arith}
use plugin_pocket.Base.Tests.{if_cases, if◌then◌else◌, Bool-cases}
use plugin_pocket.Base.Lists.{length, keep}
use plugin_pocket.Base.Strings.{Text, eq_text, eq_text_iff}
use plugin_pocket.Base.Maps.{
  keys, insert, mem_text, mem_text-append, without, mem_text-without, mem_text-without_self,
}

-- The first of equal texts stays.
unfoldable pub distinct : List Text → List Text
distinct [] = []
distinct (x ∷ xs) = x ∷ without x (distinct xs)

-- No text stands twice.
abbrev pub AreDistinct : List Text → Type 0
AreDistinct [] = Unit
AreDistinct (x ∷ xs) = (mem_text x xs ≡ false) × AreDistinct xs

pub mem_text-distinct : (y : Text) (xs : List Text) → mem_text y (distinct xs) ≡ mem_text y xs
unfolding distinct
mem_text-distinct y [] = refl
mem_text-distinct y (x ∷ xs) =
    ground (arith, mem_text-distinct y xs, mem_text-without y x (distinct xs), eq_text_iff x y)

pub mem_text-keep :
    (y : Text) (p : Text → Bool) (xs : List Text) → mem_text y (keep p xs) ≡ (mem_text y xs && p y)
mem_text-keep y p [] = refl
mem_text-keep y p (x ∷ xs) =
    ground (arith, mem_text-keep y p xs, λ (e : x ≡ y). ap p e, eq_text_iff x y)

pub keep-AreDistinct : (p : Text → Bool) (xs : List Text) → AreDistinct xs → AreDistinct (keep p xs)
keep-AreDistinct p [] h = tt
keep-AreDistinct p (x ∷ xs) (one, more) =
    ground (arith, keep-AreDistinct p xs more, mem_text-keep x p xs)

pub without-AreDistinct : (x : Text) (xs : List Text) → AreDistinct xs → AreDistinct (without x xs)
without-AreDistinct x [] h = tt
without-AreDistinct x (y ∷ ys) (one, more) = ground (
  arith,
  without-AreDistinct x ys more,
  mem_text-without y x ys,
  eq_text_iff x y,
  eq_text_iff y x,
)

pub distinct-AreDistinct : (xs : List Text) → AreDistinct (distinct xs)
unfolding distinct
distinct-AreDistinct [] = tt
distinct-AreDistinct (x ∷ xs) = (
  mem_text-without_self x (distinct xs),
  without-AreDistinct x (distinct xs) (distinct-AreDistinct xs),
)

pub without_of_not_mem : (x : Text) (xs : List Text) → mem_text x xs ≡ false → without x xs ≡ xs
without_of_not_mem x [] h = refl
without_of_not_mem x (y ∷ ys) h = ground (arith, without_of_not_mem x ys)

pub distinct_of_distinct : (xs : List Text) → AreDistinct xs → distinct xs ≡ xs
unfolding distinct
distinct_of_distinct [] h = refl
distinct_of_distinct (x ∷ xs) (one, more) =
    rw (distinct_of_distinct xs more) (ap (x ∷◌) (without_of_not_mem x xs one))

pub without-append :
    (x : Text) (xs ys : List Text) → without x (xs ++ ys) ≡ without x xs ++ without x ys
without-append x [] ys = refl
without-append x (z ∷ zs) ys = ground (arith, without-append x zs ys)

same_head :
    (y : Text) (ds : List Text) (x : Text)
    → eq_text x y ≡ true
    → (b : Bool) → without y (if b then ds else ds ++ x ∷ []) ≡ without y ds
same_head y ds x e true = refl
same_head y ds x e false = without-append y ds (x ∷ []) ∙ rw e (append-nil (without y ds))

other_head :
    (y : Text) (ds : List Text) (x : Text)
    → eq_text x y ≡ false
    → (b : Bool)
    → without y (if b then ds else ds ++ x ∷ [])
      ≡ (if b then without y ds else without y ds ++ x ∷ [])
other_head y ds x e true = refl
other_head y ds x e false = without-append y ds (x ∷ []) ∙ rw e refl

cons_if :
    (y : Text) (b : Bool) (xs ys : List Text)
    → y ∷ (if b then xs else ys) ≡ (if b then y ∷ xs else y ∷ ys)
cons_if y true xs ys = refl
cons_if y false xs ys = refl

-- A text at the end is kept if it is new.
pub distinct-snoc :
    (xs : List Text) (x : Text)
    → distinct (xs ++ x ∷ []) ≡ (if mem_text x xs then distinct xs else distinct xs ++ x ∷ [])
unfolding distinct
distinct-snoc [] x = refl
distinct-snoc (y ∷ ys) x = elim (Bool-cases (eq_text x y)) [
  | inl e ↦
      let same : eq_text y x ≡ true = ground (arith, eq_text_iff x y, eq_text_iff y x) in
      rw (distinct-snoc ys x, same) (ap (y ∷◌) (same_head y (distinct ys) x e (mem_text x ys)))
  | inr e ↦
      let other : eq_text y x ≡ false = ground (arith, eq_text_iff x y, eq_text_iff y x) in
      rw (distinct-snoc ys x, other)
        (ap (y ∷◌) (other_head y (distinct ys) x e (mem_text x ys))
          ∙ cons_if y (mem_text x ys) (without y (distinct ys)) (without y (distinct ys) ++ x ∷ []))
]

pub keep-append : (p : Text → Bool) (xs ys : List Text) → keep p (xs ++ ys) ≡ keep p xs ++ keep p ys
keep-append p [] ys = refl
keep-append p (x ∷ xs) ys = ground (arith, keep-append p xs ys)

-- The comparison says whether its first text may stand before its second.
unfoldable pub insert_by : (Text → Text → Bool) → Text → List Text → List Text
insert_by before x [] = x ∷ []
insert_by before x (y ∷ ys) = if before x y then x ∷ y ∷ ys else y ∷ insert_by before x ys

unfoldable pub sort_by : (Text → Text → Bool) → List Text → List Text
unfolding insert_by
sort_by before [] = []
sort_by before (x ∷ xs) = insert_by before x (sort_by before xs)

module _ (before : Text → Text → Bool) where
  mem_text-insert_by :
      (y x : Text) (xs : List Text)
      → mem_text y (insert_by before x xs) ≡ (eq_text x y || mem_text y xs)
  unfolding insert_by
  mem_text-insert_by y x [] = ground arith
  mem_text-insert_by y x (z ∷ zs) = ground (arith, mem_text-insert_by y x zs)

  pub mem_text-sort_by :
      (y : Text) (xs : List Text) → mem_text y (sort_by before xs) ≡ mem_text y xs
  unfolding sort_by
  mem_text-sort_by y [] = refl
  mem_text-sort_by y (x ∷ xs) =
      ground (arith, mem_text-insert_by y x (sort_by before xs), mem_text-sort_by y xs)

  length-insert_by : (x : Text) (xs : List Text) → length (insert_by before x xs) ≡ length xs + 1
  unfolding insert_by
  length-insert_by x [] = omega arith
  length-insert_by x (y ∷ ys) = ground (arith, length-insert_by x ys)

  pub length-sort_by : (xs : List Text) → length (sort_by before xs) ≡ length xs
  unfolding sort_by
  length-sort_by [] = refl
  length-sort_by (x ∷ xs) = omega (arith, length-insert_by x (sort_by before xs), length-sort_by xs)

-- The keys of a map.
module _ {ℓ} {V : Type ℓ} where
  pub keys-insert :
      (k : Text) (v : V) (m : List (Text × V))
      → keys (insert k v m) ≡ (if mem_text k (keys m) then keys m else keys m ++ k ∷ [])
  unfolding insert
  keys-insert k v [] = refl
  keys-insert k v ((j, w) ∷ m) = ground (arith, keys-insert k v m)

  pub mem_text-keys-insert :
      (q k : Text) (v : V) (m : List (Text × V))
      → mem_text q (keys (insert k v m)) ≡ (eq_text k q || mem_text q (keys m))
  mem_text-keys-insert q k v m =
      rw (keys-insert k v m) (ground (arith, mem_text-append q (keys m) (k ∷ []), eq_text_iff k q))

  pub insert-AreDistinct :
      (k : Text) (v : V) (m : List (Text × V))
      → AreDistinct (keys m)
      → AreDistinct (keys (insert k v m))
  unfolding insert
  insert-AreDistinct k v [] h = (refl, tt)
  insert-AreDistinct k v ((j, w) ∷ m) (one, more) =
      if_cases (λ (n : List (Text × V)). AreDistinct (keys n)) (eq_text j k) (λ _. (one, more))
        (λ (e : eq_text j k ≡ false). (
          mem_text-keys-insert j k v m ∙ ground (arith, one, e, eq_text_iff j k, eq_text_iff k j),
          insert-AreDistinct k v m more,
        ))
