-- ===== src/Base/Maps.antt =====
-- A plain object used as a dictionary: an association list in insertion order. (An engine lists
-- keys that look like array indices first; no definition here depends on that order.)
use mathlib.Core.Path.{◌≡◌, refl}
use mathlib.Core.Bool.{Bool, false, ◌||◌}
use mathlib.Core.Option.{Option, none, some}
use mathlib.Core.List.{List, [], ◌∷◌, ◌++◌}
use native.Mathlib.Omega.{arith}
use plugin_pocket.Base.Tests.{if◌then◌else◌}
use plugin_pocket.Base.Strings.{Text, eq_text, eq_text_iff}

-- `xs.includes(x)`
abbrev pub mem_text : Text → List Text → Bool
mem_text x [] = false
mem_text x (y ∷ ys) = eq_text y x || mem_text x ys

pub mem_text-append :
    (x : Text) (xs ys : List Text) → mem_text x (xs ++ ys) ≡ (mem_text x xs || mem_text x ys)
mem_text-append x [] ys = refl
mem_text-append x (y ∷ xs) ys = ground (arith, mem_text-append x xs ys)

-- `xs.filter((y) => y !== x)`
abbrev pub without : Text → List Text → List Text
without x [] = []
without x (y ∷ ys) = if eq_text y x then without x ys else y ∷ without x ys

pub mem_text-without_self : (x : Text) (xs : List Text) → mem_text x (without x xs) ≡ false
mem_text-without_self x [] = refl
mem_text-without_self x (y ∷ ys) = ground (arith, mem_text-without_self x ys)

pub mem_text-without :
    (z x : Text) (xs : List Text) → eq_text x z ≡ false → mem_text z (without x xs) ≡ mem_text z xs
mem_text-without z x [] h = refl
mem_text-without z x (y ∷ ys) h =
    ground (arith, mem_text-without z x ys, eq_text_iff y x, eq_text_iff y z, eq_text_iff x z)

module _ {ℓ} {V : Type ℓ} where
  unfoldable pub lookup : Text → List (Text × V) → Option V
  lookup name [] = none
  lookup name ((key, value) ∷ rest) = if eq_text key name then some value else lookup name rest

  -- `m[k] = v`
  unfoldable pub insert : Text → V → List (Text × V) → List (Text × V)
  insert name new [] = (name, new) ∷ []
  insert name new ((key, value) ∷ rest) =
      if eq_text key name then (key, new) ∷ rest else (key, value) ∷ insert name new rest

  -- `delete m[k]`
  unfoldable pub remove : Text → List (Text × V) → List (Text × V)
  remove k [] = []
  remove k ((j, w) ∷ m) = if eq_text j k then remove k m else (j, w) ∷ remove k m

  -- `{ ...m, ...n }`
  unfoldable pub merge : List (Text × V) → List (Text × V) → List (Text × V)
  unfolding insert
  merge m [] = m
  merge m ((k, v) ∷ n) = merge (insert k v m) n

  -- `Object.keys(m)`
  abbrev pub keys : List (Text × V) → List Text
  keys [] = []
  keys ((k, v) ∷ m) = k ∷ keys m

  pub lookup-insert :
      (name other : Text) (new : V) (dict : List (Text × V))
      → lookup other (insert name new dict)
        ≡ (if eq_text name other then some new else lookup other dict)
  unfolding lookup insert
  lookup-insert name other new [] = refl
  lookup-insert name other new ((key, value) ∷ rest) = ground (
    arith,
    lookup-insert name other new rest,
    eq_text_iff key name,
    eq_text_iff key other,
    eq_text_iff name other,
  )

  pub lookup-remove :
      (k j : Text) (m : List (Text × V))
      → lookup j (remove k m) ≡ (if eq_text k j then none else lookup j m)
  unfolding lookup remove
  lookup-remove k j [] = ground arith
  lookup-remove k j ((i, w) ∷ m) =
      ground (arith, eq_text_iff k j, eq_text_iff i k, eq_text_iff i j, lookup-remove k j m)
