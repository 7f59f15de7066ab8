-- ===== src/Market/Including.antt =====
-- web/src/features/operations/MarketplaceEditor.tsx: the components of a bundle.
use plugin_pocket.Base.{
  ℕ, zero, suc, ◌≤◌, ◌<◌, not, Option, none, some, get_elem?, eq_text_refl, ◌≡◌, inl, inr, refl,
  sym, ◌∙◌, Bool, true, ◌||◌, ◌&&◌, List, [], ◌∷◌, ◌++◌, arith, Text, eq_text, eq_text_sound,
  if_cases, Bool-cases, and_split, any, ltb, ltb→lt, length, length-append, mem_text,
  mem_text-append, mem_text-without, mem_text-without_self, without,
}
use plugin_pocket.Market.{MarketplaceItem, Editor, can_serve, can_toggle, toggle}

-- A click on the check box of an item turns it over.
abbrev pub click_on : Option MarketplaceItem → Editor → Editor
click_on none e = e
click_on (some entry) e = toggle entry (not (mem_text entry.slug e.includes)) e

abbrev pub clicks : List MarketplaceItem → List ℕ → Editor → Editor
clicks items [] e = e
clicks items (i ∷ rest) e = clicks items rest (click_on (get_elem? items i) e)

-- At most 32 components, each of which was there at first or can serve.
pub record IsBundle (items : List MarketplaceItem) (first : List Text) (includes : List Text)
    : Type 0 where
  pub few : length includes ≤ 32
  pub each :
      (slug : Text)
      → mem_text slug includes ≡ true
      → (mem_text slug first || any (λ i. can_serve i && eq_text i.slug slug) items) ≡ true

or_true : (b : Bool) → (b || true) ≡ true
or_true b = ground arith

some-injective : {x y : MarketplaceItem} → some x ≡ some y → x ≡ y
some-injective e = cc

length-without : (x : Text) (xs : List Text) → length (without x xs) ≤ length xs
length-without x [] = omega arith
length-without x (y ∷ ys) = ground (arith, length-without x ys)

mem_text_of_without :
    (q x : Text) (xs : List Text) → mem_text q (without x xs) ≡ true → mem_text q xs ≡ true
mem_text_of_without q x xs m = elim (Bool-cases (eq_text x q)) [
  | inl e ↦ cc (eq_text_sound x q e, mem_text-without_self x xs, m)
  | inr e ↦ sym (mem_text-without q x xs e) ∙ m
]

any_of_get_elem? :
    (p : MarketplaceItem → Bool) (items : List MarketplaceItem) (i : ℕ) {entry : MarketplaceItem}
    → get_elem? items i ≡ some entry
    → p entry ≡ true
    → any p items ≡ true
any_of_get_elem? p [] i e h = cc
any_of_get_elem? p (x ∷ xs) zero {entry} e h =
    let same : p x ≡ true = rw (some-injective e) h in rw same refl
any_of_get_elem? p (x ∷ xs) (suc i) e h = ground (arith, any_of_get_elem? p xs i e h)

module _ (items : List MarketplaceItem) (first : List Text) where
  without-IsBundle :
      (slug : Text) (includes : List Text)
      → IsBundle items first includes
      → IsBundle items first (without slug includes)
  without-IsBundle slug includes h = record {
    few = omega (arith, h.few, length-without slug includes);
    each = λ q m. h.each q (mem_text_of_without q slug includes m);
  }

  snoc-IsBundle :
      (entry : MarketplaceItem) (includes : List Text)
      → length includes < 32
      → any (λ i. can_serve i && eq_text i.slug entry.slug) items ≡ true
      → IsBundle items first includes
      → IsBundle items first (includes ++ entry.slug ∷ [])
  snoc-IsBundle entry includes few serves h = record {
    few = omega (arith, few, length-append includes (entry.slug ∷ []));
    each = λ q m. elim (Bool-cases (eq_text entry.slug q)) [
      | inl e ↦
          rw (sym (eq_text_sound entry.slug q e), serves) (or_true (mem_text entry.slug first))
      | inr n ↦ h.each q (ground (arith, mem_text-append q includes (entry.slug ∷ []), m, n))
    ];
  }

  toggle-IsBundle :
      (i : ℕ) (entry : MarketplaceItem) (e : Editor)
      → get_elem? items i ≡ some entry
      → IsBundle items first e.includes
      → IsBundle items first (toggle entry (not (mem_text entry.slug e.includes)) e).includes
  unfolding toggle can_toggle
  toggle-IsBundle i entry e there h = elim (Bool-cases (mem_text entry.slug e.includes)) [
    | inl m ↦ rw m (without-IsBundle entry.slug e.includes h)
    | inr n ↦ rw n (
        if_cases (λ (d : Editor). IsBundle items first d.includes)
          (ltb (length e.includes) 32 && can_serve entry)
          (λ (on : (ltb (length e.includes) 32 && can_serve entry) ≡ true).
            let both = and_split (ltb (length e.includes) 32) (can_serve entry) on in
            snoc-IsBundle entry e.includes (ltb→lt (length e.includes) 32 (both.0))
              (any_of_get_elem? (λ j. can_serve j && eq_text j.slug entry.slug) items i there
                (rw (both.1, eq_text_refl entry.slug) refl))
              h)
          (λ _. h))
  ]

  click_on-IsBundle :
      (i : ℕ) (o : Option MarketplaceItem) (e : Editor)
      → get_elem? items i ≡ o
      → IsBundle items first e.includes
      → IsBundle items first (click_on o e).includes
  click_on-IsBundle i none e there h = h
  click_on-IsBundle i (some entry) e there h = toggle-IsBundle i entry e there h

  -- Whatever check boxes are clicked, a bundle of at most 32 components stays one, and each of its
  -- components was in it at first or is a listed item that can serve, which a server can only
  -- behind the gateway or with an HTTP endpoint.
  pub clicks-IsBundle :
      (presses : List ℕ) (e : Editor)
      → IsBundle items first e.includes
      → IsBundle items first (clicks items presses e).includes
  clicks-IsBundle [] e h = h
  clicks-IsBundle (i ∷ rest) e h =
      clicks-IsBundle rest (click_on (get_elem? items i) e)
        (click_on-IsBundle i (get_elem? items i) e refl h)
