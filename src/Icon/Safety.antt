-- ===== src/Icon/Safety.antt =====
-- What an accepted icon cannot do.
use plugin_pocket.Base.{
  ◌≤◌, ◌≡◌, refl, ap, sym, ◌⊎◌, inl, inr, Bool, true, false, not, ◌||◌, Option, none, some, List,
  [], ◌∷◌, ◌++◌, arith, Text, codes, eq_text, eq_text_iff, ltb, length, any, empty, trim,
  starts_with, includes, mem_text, All, true_of_not, ltb→le, Bool-cases, or_false, ok, reject,
  reject-eq-ok, bind-eq-ok, ok-injective, err-ne-ok,
}
use plugin_pocket.Settlement.{utf8_length}
use plugin_pocket.Icon.{
  Attribute, Element, Document, Url, Web, invalid, upload, max_bytes, lower, forbidden,
  has_outside_url, is_bad_attribute, is_bad_element, check_document, svg_data, has_declaration,
  types, data_url, or_throw, of_data, of_url, of_address, of_trimmed, parse_icon,
}

-- An attribute that runs no code and points nowhere outside.
pub record IsHarmless (a : Attribute) : Type 0 where
  pub no_handler : starts_with (lower a.local_name) (codes "on") ≡ false
  pub no_base : eq_text a.local_name (codes "base") ≡ false
  pub inside : a.local_name ≡ codes "href" → starts_with a.value (codes "#") ≡ true
  pub no_url : has_outside_url (lower a.value) ≡ false
  pub no_code : includes (lower a.value) (codes "javascript:") ≡ false

abbrev pub IsInert : Element → Type 0
IsInert e = (mem_text (lower e.local_name) forbidden ≡ false) × All IsHarmless e.attributes

is_bad_attribute-IsHarmless : (a : Attribute) → is_bad_attribute a ≡ false → IsHarmless a
unfolding is_bad_attribute
is_bad_attribute-IsHarmless a h = record {
  no_handler = ground arith;
  no_base = ground arith;
  inside = λ e. ground (arith, (eq_text_iff a.local_name (codes "href")).1 e);
  no_url = ground arith;
  no_code = ground arith;
}

any-All {ℓ κ} :
    {A : Type ℓ} (P : A → Type κ) (p : A → Bool) (xs : List A)
    → ((x : A) → p x ≡ false → P x)
    → any p xs ≡ false
    → All P xs
any-All P p [] f h = tt
any-All P p (x ∷ xs) f h =
    let (one, more) = or_false (p x) (any p xs) h in (f x one, any-All P p xs f more)

is_bad_element-IsInert : (e : Element) → is_bad_element e ≡ false → IsInert e
unfolding is_bad_element
is_bad_element-IsInert e h =
    let (name, attributes) =
      or_false (mem_text (lower e.local_name) forbidden) (any is_bad_attribute e.attributes) h in
    (name, any-All IsHarmless is_bad_attribute e.attributes is_bad_attribute-IsHarmless attributes)

module _ (web : Web) where
  -- A drawing of at most 64 KiB whose document is of `svg` and whose elements are all inert.
  abbrev pub IsDrawing : Text → Text → Type 0
  IsDrawing source icon =
      (icon ≡ codes "data:image/svg+xml;base64," ++ web.base64_of source)
      × (utf8_length source ≤ max_bytes)
      × ((d : Document) × (web.parse_svg source ≡ some d)
          × (d.root ≡ codes "svg")
          × All IsInert d.elements)

  check_document-IsInert :
      (o : Option Document) {u : Unit {0}}
      → check_document o ≡ ok u
      → (d : Document) × (o ≡ some d) × (d.root ≡ codes "svg") × All IsInert d.elements
  check_document-IsInert none h = absurd (err-ne-ok h)
  check_document-IsInert (some d) h =
      let (u, root, h) = bind-eq-ok (reject (not (eq_text d.root (codes "svg"))) invalid) _ h in
      (
        d,
        refl,
        (eq_text_iff d.root (codes "svg")).0 (true_of_not _ (reject-eq-ok _ _ root)),
        any-All IsInert is_bad_element d.elements is_bad_element-IsInert (reject-eq-ok _ _ h),
      )

  svg_data-IsDrawing : (source icon : Text) → svg_data web source ≡ ok icon → IsDrawing source icon
  unfolding svg_data
  svg_data-IsDrawing source icon h =
      let (u, sized, h) =
        bind-eq-ok (reject (ltb max_bytes (utf8_length source) || has_declaration source) invalid) _
          h in
      let (w, drawn, h) = bind-eq-ok (check_document (web.parse_svg source)) _ h in
      let (short, plain) =
        or_false (ltb max_bytes (utf8_length source)) (has_declaration source)
          (reject-eq-ok _ _ sized) in
      (
        sym (ok-injective h),
        ltb→le max_bytes (utf8_length source) short,
        check_document-IsInert (web.parse_svg source) drawn,
      )

  -- What an icon may be.
  abbrev pub IsIcon : Text → Type 0
  IsIcon icon =
      (icon ≡ [])
      ⊎ ((source : Text) × IsDrawing source icon)
      ⊎ ((type : Text) × (payload : Text) × (bytes : Text) × (data_url types icon
            ≡ some (type, payload))
          × (web.bytes_of payload ≡ some bytes)
          × (length bytes ≤ max_bytes)
          × (eq_text type (codes "svg+xml") ≡ false))
      ⊎ ((url : Url) × (web.parse_url icon ≡ some url)
          × (url.protocol ≡ codes "https:")
          × (empty url.username ≡ true)
          × (empty url.password ≡ true)
          × (length icon ≤ 2048))

  or_throw-eq-ok {ℓ} : {A : Type ℓ} (o : Option A) {a : A} → or_throw o ≡ ok a → o ≡ some a
  or_throw-eq-ok none h = absurd (err-ne-ok h)
  or_throw-eq-ok (some x) h = ap some (ok-injective h)

  of_url-IsIcon : (value icon : Text) → of_url web value ≡ ok icon → IsIcon icon
  of_url-IsIcon value icon h =
      let (url, read, h) = bind-eq-ok (or_throw (web.parse_url value)) _ h in
      let (u, fine, h) =
        bind-eq-ok
          (reject
            (not (eq_text url.protocol (codes "https:"))
              || not (empty url.username)
              || not (empty url.password)
              || ltb 2048 (length value))
            invalid)
          _ h in
      let safe = reject-eq-ok _ _ fine in
      rw (← ok-injective h) (
        inr (
          inr (
            inr (
              url,
              or_throw-eq-ok (web.parse_url value) read,
              (eq_text_iff url.protocol (codes "https:")).0 (ground arith),
              ground arith,
              ground arith,
              ground arith,
            ))))

  of_data-IsIcon :
      (value : Text) (type payload icon : Text)
      → data_url types value ≡ some (type, payload)
      → of_data web value (type, payload) ≡ ok icon
      → IsIcon icon
  of_data-IsIcon value type payload icon e h =
      let (bytes, read, h) = bind-eq-ok (or_throw (web.bytes_of payload)) _ h in
      let (u, sized, h) =
        bind-eq-ok (reject (empty bytes || ltb max_bytes (length bytes)) upload) _ h in
      let (full, short) = or_false (empty bytes) _ (reject-eq-ok _ _ sized) in
      elim (Bool-cases (eq_text type (codes "svg+xml"))) [
        | inl drawing ↦
            let (source, decoded, h) =
              bind-eq-ok (or_throw (web.utf8_of bytes)) (svg_data web) (rw drawing at h) in
            inr (inl (source, svg_data-IsDrawing source icon h))
        | inr raster ↦ rw (← ok-injective (rw raster at h)) (
            inr (
              inr (
                inl (
                  type,
                  payload,
                  bytes,
                  e,
                  or_throw-eq-ok (web.bytes_of payload) read,
                  ltb→le max_bytes (length bytes) short,
                  raster,
                ))))
      ]

  of_address-IsIcon :
      (value icon : Text) (o : Option (Text × Text))
      → data_url types value ≡ o
      → of_address web value o ≡ ok icon
      → IsIcon icon
  of_address-IsIcon value icon none e h = of_url-IsIcon value icon h
  of_address-IsIcon value icon (some (type, payload)) e h =
      of_data-IsIcon value type payload icon e h

  -- An icon that is accepted is empty; or a drawing of at most 64 KiB, given as text or as a data
  -- URL, in whose document no element is a script, a style sheet, an animation or an embedded page or
  -- object, and no attribute is a handler, a base, a link or a `url(…)` to the outside, or has
  -- `javascript:`; or a data URL of another image type with at most 64 KiB; or an address by HTTPS of
  -- at most 2048 code units without a user name or password.
  pub parse_icon-IsIcon : (source icon : Text) → parse_icon web source ≡ ok icon → IsIcon icon
  unfolding parse_icon
  parse_icon-IsIcon source icon h = trimmed (trim source) h
    where
      trimmed : (value : Text) → of_trimmed web value ≡ ok icon → IsIcon icon
      trimmed [] h = inl (sym (ok-injective h))
      trimmed (c ∷ s) h = elim (Bool-cases (starts_with (c ∷ s) (codes "<"))) [
        | inl drawing ↦ inr (inl (c ∷ s, svg_data-IsDrawing (c ∷ s) icon (rw drawing at h)))
        | inr other ↦ of_address-IsIcon (c ∷ s) icon (data_url types (c ∷ s)) refl (rw other at h)
      ]
