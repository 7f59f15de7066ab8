-- ===== src/Preview/Metadata.antt =====
-- web/src/features/operations/SkillFilePreview.tsx: the metadata block and the body of a document.
use plugin_pocket.Base.{
  ◌≤◌, suc, length, ℕ, ◌≡◌, ◌⊎◌, inl, inr, refl, sym, ap, ◌∙◌, Bool, true, false, ◌&&◌, ◌==◌,
  ==_iff, Option, none, some, [], ◌∷◌, ◌++◌, arith, Text, codes, if◌then◌else◌, and_split,
  Option-cases, or_else, drop, starts_with, starts_with_split,
}
use plugin_pocket.Files.{image_type}
use plugin_pocket.Attachments.{FileUpload}
use plugin_pocket.Preview.Document.{
  after_newline, line_end, dashes, bind, closes, longer, found_or, block, front_matter, document,
  preview,
}

-- A line end of a document.
abbrev pub IsNewline : Text → Type 0
IsNewline s = (s ≡ 10 ∷ []) ⊎ (s ≡ 13 ∷ 10 ∷ [])

some-injective : {A : Type 0} {x y : A} → some x ≡ some y → x ≡ y
some-injective {A = A} {x = x} e = ap (λ (o : Option A). or_else o x) e

none-ne-some : {A : Type 0} {x : A} → ◌≡◌ {A = Option A} none (some x) → ⊥
none-ne-some e = cc

bind-eq-some :
    {A B : Type 0} (o : Option A) (next : A → Option B) {b : B}
    → bind o next ≡ some b
    → (a : A) × (o ≡ some a) × (next a ≡ some b)
bind-eq-some none next e = absurd (none-ne-some e)
bind-eq-some (some a) next e = (a, refl, e)

if-eq-some :
    {A : Type 0} (b : Bool) (x y : Option A) {a : A}
    → (if b then x else y) ≡ some a
    → ((b ≡ true) × (x ≡ some a)) ⊎ ((b ≡ false) × (y ≡ some a))
if-eq-some true x y e = inl (refl, e)
if-eq-some false x y e = inr (refl, e)

after_newline_lem :
    (s : Text) {t : Text} → after_newline s ≡ some t → (n : Text) × IsNewline n × (s ≡ n ++ t)
unfolding after_newline
after_newline_lem [] e = absurd (none-ne-some e)
after_newline_lem (c ∷ []) e = elim (if-eq-some (c == 10) (some []) none e) [
  | inl (b, h) ↦ (10 ∷ [], inl refl, ground (arith, (==_iff c 10).0 b, some-injective h))
  | inr (b, h) ↦ absurd (none-ne-some h)
]
after_newline_lem (c ∷ d ∷ s) e = elim (if-eq-some (c == 10) (some (d ∷ s)) _ e) [
  | inl (b, h) ↦ (10 ∷ [], inl refl, ground (arith, (==_iff c 10).0 b, some-injective h))
  | inr (b, rest) ↦ elim (if-eq-some (c == 13 && d == 10) (some s) none rest) [
    | inl (two_units, h) ↦
        let both = and_split (c == 13) (d == 10) two_units in
        (
          13 ∷ 10 ∷ [],
          inr refl,
          ground (arith, (==_iff c 13).0 (both.0), (==_iff d 10).0 (both.1), some-injective h),
        )
    | inr (other, h) ↦ absurd (none-ne-some h)
  ]
]

dashes_lem : (s : Text) {t : Text} → dashes s ≡ some t → s ≡ codes "---" ++ t
dashes_lem s e = elim (if-eq-some (starts_with s (codes "---")) (some (drop 3 s)) none e) [
  | inl (b, h) ↦
      starts_with_split s (codes "---") b ∙ ap (λ (u : Text). codes "---" ++ u) (some-injective h)
  | inr (b, h) ↦ absurd (none-ne-some h)
]

-- The end of the closing line.
abbrev pub IsLineEnd : Text → Text → Type 0
IsLineEnd n rest = IsNewline n ⊎ ((n ≡ []) × (rest ≡ []))

line_end_lem :
    (s : Text) {t : Text} → line_end s ≡ some t → (n : Text) × IsLineEnd n t × (s ≡ n ++ t)
line_end_lem [] e = ([], inr (refl, sym (some-injective e)), some-injective e)
line_end_lem (c ∷ s) e =
    let (n, is_newline, same) = after_newline_lem (c ∷ s) e in (n, inl is_newline, same)

-- A text that begins with a closing line.
abbrev pub IsClosing : Text → Text → Type 0
IsClosing s body =
    (n : Text) × (m : Text) × IsNewline n
    × IsLineEnd m body
    × (s ≡ n ++ (codes "---" ++ (m ++ body)))

closes_lem : (s : Text) {body : Text} → closes s ≡ some body → IsClosing s body
unfolding closes
closes_lem s e =
    let (t, line, e) = bind-eq-some (after_newline s) (λ t. bind (dashes t) line_end) e in
    let (u, dashed, e) = bind-eq-some (dashes t) line_end e in
    let (n, is_newline, same) = after_newline_lem s line in
    let (m, ends, rest) = line_end_lem u e in
    (
      n,
      m,
      is_newline,
      ends,
      same
          ∙ ap (λ (v : Text). n ++ v)
              (dashes_lem t dashed ∙ ap (λ (v : Text). codes "---" ++ v) rest),
    )

-- A text with metadata up to a closing line.
abbrev pub IsBlock : Text → Text → Text → Type 0
IsBlock s meta body = (rest : Text) × (s ≡ meta ++ rest) × IsClosing rest body

cons-IsBlock :
    (c : ℕ) (s : Text) (o : Option Text) (later : Option (Text × Text)) {meta body : Text}
    → closes (c ∷ s) ≡ o
    → ((m b : Text) → later ≡ some (m, b) → IsBlock s m b)
    → found_or o (longer c later) ≡ some (meta, body)
    → IsBlock (c ∷ s) meta body
cons-IsBlock c s (some found) later here shorter e =
    let pair = some-injective e in
    rw (sym (ap (λ (r : Text × Text). r.0) pair), sym (ap (λ (r : Text × Text). r.1) pair))
      (c ∷ s, refl, closes_lem (c ∷ s) here)
cons-IsBlock c s none none here shorter e = absurd (none-ne-some e)
cons-IsBlock c s none (some (m, b)) here shorter e =
    let pair = some-injective e in
    let (rest, same, closing) = shorter m b refl in
    rw (sym (ap (λ (r : Text × Text). r.0) pair), sym (ap (λ (r : Text × Text). r.1) pair))
      (rest, ap (c ∷◌) same, closing)

block_lem : (s : Text) (meta body : Text) → block s ≡ some (meta, body) → IsBlock s meta body
unfolding block
block_lem [] meta body e = absurd (none-ne-some e)
block_lem (c ∷ s) meta body e =
    cons-IsBlock c s (closes (c ∷ s)) (block s) refl (λ m b. block_lem s m b) e

-- A text that is a metadata block with a body.
abbrev pub HasMetadata : Text → Text → Text → Type 0
HasMetadata text meta body =
    (n : Text) × (block_text : Text) × IsNewline n
    × IsBlock block_text meta body
    × (text ≡ codes "---" ++ (n ++ block_text))

front_matter-HasMetadata :
    (text meta body : Text) → front_matter text ≡ some (meta, body) → HasMetadata text meta body
unfolding front_matter
front_matter-HasMetadata text meta body e =
    let (t, dashed, e) = bind-eq-some (dashes text) (λ s. bind (after_newline s) block) e in
    let (u, line, e) = bind-eq-some (after_newline t) block e in
    let (n, is_newline, same) = after_newline_lem t line in
    (
      n,
      u,
      is_newline,
      block_lem u meta body e,
      dashes_lem text dashed ∙ ap (λ (v : Text). codes "---" ++ v) same,
    )

-- A line end in front of any text is read as one.
after_newline-append : (n s : Text) → IsNewline n → after_newline (n ++ s) ≡ some s
unfolding after_newline
after_newline-append n [] (inl e) = rw e refl
after_newline-append n (c ∷ s) (inl e) = rw e refl
after_newline-append n s (inr e) = rw e refl

line_end-append : (m body : Text) → IsLineEnd m body → line_end (m ++ body) ≡ some body
unfolding after_newline
line_end-append m body (inr (e, f)) = rw (e, f) refl
line_end-append m [] (inl (inl e)) = rw e refl
line_end-append m (c ∷ body) (inl (inl e)) = rw e refl
line_end-append m body (inl (inr e)) = rw e refl

closes_of : (s body : Text) → IsClosing s body → closes s ≡ some body
unfolding closes
closes_of s body (n, m, newline, ends, same) =
    rw (same, after_newline-append n (codes "---" ++ (m ++ body)) newline)
      (line_end-append m body ends)

-- Wherever a text can be taken as a block, it is, and up to the first closing line.
abbrev IsLeast : Text → ℕ → Type 0
IsLeast s n = (meta : Text) × (body : Text) × (block s ≡ some (meta, body)) × (length meta ≤ n)

later-IsLeast :
    (c : ℕ) (s : Text) (o : Option Text) (n : ℕ)
    → closes (c ∷ s) ≡ o
    → IsLeast s n
    → IsLeast (c ∷ s) (suc n)
unfolding block
later-IsLeast c s none n e (meta, body, found, short) =
    (c ∷ meta, body, rw (e, found) refl, ground (arith, short))
later-IsLeast c s (some here) n e (meta, body, found, short) = ([], here, rw e refl, omega arith)

block-IsLeast : (meta s body : Text) → IsBlock s meta body → IsLeast s (length meta)
unfolding block closes after_newline
block-IsLeast [] [] body (rest, same, closing) =
    absurd (none-ne-some (closes_of [] body (rw (← same) at closing)))
block-IsLeast [] (c ∷ s) body (rest, same, closing) =
    ([], body, rw (closes_of (c ∷ s) body (rw (← same) at closing)) refl, omega arith)
block-IsLeast (d ∷ meta) [] body (rest, same, closing) = cc
block-IsLeast (d ∷ meta) (c ∷ s) body (rest, same, closing) =
    later-IsLeast c s (closes (c ∷ s)) (length meta) refl
      (block-IsLeast meta s body (rest, ap (drop 1) same, closing))

front_matter-block : (n s : Text) → IsNewline n → front_matter (codes "---" ++ (n ++ s)) ≡ block s
unfolding front_matter
front_matter-block n s newline = rw (after_newline-append n s newline) refl

front_matter-least :
    (text m b : Text)
    → HasMetadata text m b
    → (meta : Text) × (body : Text) × (front_matter text ≡ some (meta, body))
      × (length meta ≤ length m)
front_matter-least text m b (n, s, newline, is_block, same) =
    let (meta, body, found, short) = block-IsLeast m s b is_block in
    (meta, body, ap front_matter same ∙ front_matter-block n s newline ∙ found, short)

-- What is shown of a text file that is no image: if the text is in no way `---`, a line end, the
-- metadata, a line end, `---` and the body behind a line end or at the end, then all of it, without
-- metadata; else exactly such metadata and body, with the shortest metadata.
pub preview_cases :
    (path text : Text) (file : Option FileUpload)
    → image_type path ≡ none
    → (((m b : Text) → HasMetadata text m b → ⊥)
        × (preview path (some text) file ≡ document none text))
      ⊎ ((meta : Text) × (body : Text) × (preview path (some text) file ≡ document (some meta) body)
          × HasMetadata text meta body
          × ((m b : Text) → HasMetadata text m b → length meta ≤ length m))
unfolding preview
preview_cases path text file no_image = elim (Option-cases (front_matter text)) [
  | inl e ↦ inl (
    (λ m b h.
        let (meta, body, found, short) = front_matter-least text m b h in
        none-ne-some (sym e ∙ found)),
    rw (no_image, e) refl,
  )
  | inr ((meta, body), e) ↦ inr (
    meta,
    body,
    rw (no_image, e) refl,
    front_matter-HasMetadata text meta body e,
    λ m b h.
        let (other, rest, found, short) = front_matter-least text m b h in
        let same = some-injective (sym e ∙ found) in rw (ap (λ (r : Text × Text). r.0) same) short,
  )
]
