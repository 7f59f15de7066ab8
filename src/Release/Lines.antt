-- ===== src/Release/Lines.antt =====
-- The lines of a text that scripts/release-preflight.mjs looks for with `^` and `$`.
use mathlib.Core.Bool.{true≢false}
use mathlib.Core.List.{append_assoc}
use plugin_pocket.Base.{
  or_cases, ◌||◌, ℕ, ◌≡◌, refl, ap, sym, ◌∙◌, Bool, true, false, not, ◌&&◌, Option, none, some, [],
  ◌∷◌, ◌++◌, arith, ◌⊎◌, inl, inr, Text, codes, starts_with, starts_with_split, if◌then◌else◌, any,
  drop, length, or_else, empty, ==_iff, ◌==◌, Bool-cases, and_split,
}
use plugin_pocket.Release.{
  ends_line, lines_from, to_quote, closes, value_of, match_here, first_some, first_match,
  is_line_end,
}

to_quote_append : (s : Text) → s ≡ (to_quote s).0 ++ (to_quote s).1
unfolding to_quote
to_quote_append [] = refl
to_quote_append (c ∷ s) = ground (arith, to_quote_append s)

-- Where the lines of a text begin and end, as `^` and `$` find them under the flag `m`.
abbrev pub IsLineEnd : ℕ → Type 0
IsLineEnd c = (c ≡ 10) ⊎ (c ≡ 13) ⊎ (c ≡ 0x2028) ⊎ (c ≡ 0x2029)

abbrev pub StartsLine : Text → Type 0
StartsLine before =
    (before ≡ []) ⊎ ((earlier : Text) × (c : ℕ) × (before ≡ earlier ++ c ∷ []) × IsLineEnd c)

abbrev pub EndsLine : Text → Type 0
EndsLine after = (after ≡ []) ⊎ ((c : ℕ) × (rest : Text) × (after ≡ c ∷ rest) × IsLineEnd c)

-- One of the lines of a text.
abbrev pub HasLine : Text → Text → Type 0
HasLine line s =
    (before : Text) × (after : Text) × (s ≡ before ++ (line ++ after))
    × StartsLine before
    × EndsLine after

is_line_end-IsLineEnd : (c : ℕ) → is_line_end c ≡ true → IsLineEnd c
is_line_end-IsLineEnd c h = elim (or_cases (c == 10 || c == 13 || c == 0x2028) (c == 0x2029) h) [
  | inr e ↦ inr (inr (inr ((==_iff c 0x2029).0 e)))
  | inl h ↦ elim (or_cases (c == 10 || c == 13) (c == 0x2028) h) [
    | inr e ↦ inr (inr (inl ((==_iff c 0x2028).0 e)))
    | inl h ↦ elim (or_cases (c == 10) (c == 13) h) [
      | inl e ↦ inl ((==_iff c 10).0 e)
      | inr e ↦ inr (inl ((==_iff c 13).0 e))
    ]
  ]
]

ends_line-EndsLine : (s : Text) → ends_line s ≡ true → EndsLine s
ends_line-EndsLine [] h = inl refl
ends_line-EndsLine (c ∷ s) h = inr (c, s, refl, is_line_end-IsLineEnd c h)

closes-EndsLine :
    (s : Text) → closes s ≡ true → (after : Text) × (s ≡ b'"' ∷ after) × EndsLine after
closes-EndsLine [] h = cc
closes-EndsLine (c ∷ s) h =
    let (quote, ends) = and_split (c == b'"') (ends_line s) h in
    (s, ap (λ (d : ℕ). d ∷ s) ((==_iff c b'"').0 quote), ends_line-EndsLine s ends)

-- The line in which a version is declared.
abbrev pub Declares : Text → Text → Text → Type 0
Declares prefix v s = HasLine (prefix ++ (v ++ codes "\"")) s

value_of-eq-some :
    (p : Text × Text) (v : Text)
    → value_of p ≡ some v
    → (after : Text) × (p.0 ++ p.1 ≡ v ++ b'"' ∷ after) × EndsLine after
value_of-eq-some (value, rest) v h = elim (Bool-cases (not (empty value) && closes rest)) [
  | inr bad ↦ absurd (ground arith)
  | inl good ↦
      let (full, close) = and_split (not (empty value)) (closes rest) good in
      let (after, e, ends) = closes-EndsLine rest close in
      let same : value ≡ v = ap (λ (o : Option Text). or_else o []) (rw good at h) in
      (after, rw (e, same) refl, ends)
]

match_here-eq-some :
    (prefix s v : Text)
    → match_here prefix s ≡ some v
    → (after : Text) × (s ≡ (prefix ++ (v ++ codes "\"")) ++ after) × EndsLine after
unfolding match_here
match_here-eq-some prefix s v h = elim (Bool-cases (starts_with s prefix)) [
  | inr other ↦ absurd (ground arith)
  | inl front ↦
      let (after, e, ends) =
        value_of-eq-some (to_quote (drop (length prefix) s)) v (rw front at h) in
      let tail = to_quote_append (drop (length prefix) s) ∙ e in
      (
        after,
        starts_with_split s prefix front
            ∙ ap (λ (t : Text). prefix ++ t) (tail ∙ sym (append_assoc v (codes "\"") after))
            ∙ sym (append_assoc prefix (v ++ codes "\"") after),
        ends,
      )
]

first_some-eq-some :
    (o p : Option Text) {v : Text} → first_some o p ≡ some v → (o ≡ some v) ⊎ (p ≡ some v)
first_some-eq-some none p h = inr h
first_some-eq-some (some x) p h = inl h

here-eq-some :
    (starts : Bool) (o : Option Text) {v : Text}
    → (if starts then o else none) ≡ some v
    → (starts ≡ true) × (o ≡ some v)
here-eq-some true o h = (refl, h)
here-eq-some false o h = cc

-- A version that is found behind `before` stands in a line of its own form.
pub first_match-Declares :
    (prefix before : Text) (starts : Bool) (s v : Text)
    → (starts ≡ true → StartsLine before)
    → first_match prefix starts s ≡ some v
    → Declares prefix v (before ++ s)
unfolding first_match
first_match-Declares prefix before starts [] v begins h = cc
first_match-Declares prefix before starts (c ∷ s) v begins h =
    elim (first_some-eq-some _ (first_match prefix (is_line_end c) s) h) [
      | inl now ↦
          let (starting, found) = here-eq-some starts _ now in
          let (after, e, ends) = match_here-eq-some prefix (c ∷ s) v found in
          (before, after, ap (λ (t : Text). before ++ t) e, begins starting, ends)
      | inr later ↦ rw (append_assoc before (c ∷ []) s) at (
          first_match-Declares prefix (before ++ c ∷ []) (is_line_end c) s v
            (λ e. inr (before, c, refl, is_line_end-IsLineEnd c e)) later)
    ]

-- A line that a test finds among the lines is a line of the text.
pub any-lines_from :
    (p : Text → Bool) (before cur s : Text)
    → StartsLine before
    → any p (lines_from cur s) ≡ true
    → (line : Text) × (p line ≡ true) × HasLine line (before ++ (cur ++ s))
unfolding lines_from
any-lines_from p before cur [] starts h = elim (or_cases (p cur) false h) [
  | inl e ↦ (cur, e, (before, [], refl, starts, inl refl))
  | inr e ↦ absurd (true≢false (sym e))
]
any-lines_from p before cur (c ∷ s) starts h = elim (Bool-cases (is_line_end c)) [
  | inl ends ↦ elim (or_cases (p cur) (any p (lines_from [] s)) (rw ends at h)) [
    | inl e ↦
        (cur, e, (before, c ∷ s, refl, starts, inr (c, s, refl, is_line_end-IsLineEnd c ends)))
    | inr more ↦
        rw (append_assoc before (cur ++ c ∷ []) s, append_assoc cur (c ∷ []) s) at
          (any-lines_from p (before ++ (cur ++ c ∷ [])) [] s
            (inr (
              before ++ cur,
              c,
              sym (append_assoc before cur (c ∷ [])),
              is_line_end-IsLineEnd c ends,
            ))
            more)
  ]
  | inr goes ↦
      rw (append_assoc cur (c ∷ []) s) at
        (any-lines_from p before (cur ++ c ∷ []) s starts (rw goes at h))
]
