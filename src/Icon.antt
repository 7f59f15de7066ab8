-- ===== src/Icon.antt =====
-- web/src/features/operations/ToolIcon.tsx: which icons are accepted. The browser's parsers, encoders and canvas are the argument
-- `web`; sizes in floating point are its `fit`. A regular expression without regard to case
-- compares ASCII letters in lower case.
pub mod Editor
pub mod Safety
pub mod Editing
mod Tests
use plugin_pocket.Base.{
  ℕ, ◌+◌, ◌*◌, max, Bool, true, false, not, ◌&&◌, ◌||◌, ◌==◌, Option, none, some, List, [], ◌∷◌,
  ◌++◌, map, Text, codes, eq_text, if◌then◌else◌, leb, ltb, length, any, drop, or_else, empty, trim,
  trim_start, starts_with, ends_with, includes, mem_text, lower_unit, Result, ok, err, ◌>>=◌, ◌>>◌,
  reject,
}
use plugin_pocket.Settlement.{utf8_length}

pub record Attribute : Type 0 where
  pub local_name : Text
  pub value : Text

pub record Element : Type 0 where
  pub local_name : Text
  pub attributes : List Attribute

-- A parsed document: its root's name and all its elements; none where the parser reports an error.
pub record Document : Type 0 where
  pub root : Text
  pub elements : List Element

pub record Url : Type 0 where
  pub protocol : Text
  pub username : Text
  pub password : Text

pub record Web : Type 0 where
  pub parse_svg : Text → Option Document
  pub parse_url : Text → Option Url
  pub base64_of : Text → Text
  pub bytes_of : Text → Option Text
  pub utf8_of : Text → Option Text
  pub fit : ℕ → ℕ → ℕ → ℕ
  pub draw : ℕ → ℕ → Text

-- `invalid` and `upload` are the two messages; the others are what else is thrown.
pub data Problem : Type 0 where
  invalid upload thrown dimensions no_size unreadable unprocessed : Problem

abbrev pub max_bytes : ℕ
max_bytes = 65536

abbrev pub lower : Text → Text
lower = map lower_unit

abbrev pub forbidden : List Text
forbidden =
    codes "script"
    ∷ codes "foreignobject"
    ∷ codes "iframe"
    ∷ codes "object"
    ∷ codes "embed"
    ∷ codes "style"
    ∷ codes "animate"
    ∷ codes "animatemotion"
    ∷ codes "animatetransform"
    ∷ codes "set"
    ∷ []

-- `\(\s*[^#]`: white space behind the parenthesis is itself no `#`.
abbrev pub opens_outside : Text → Bool
opens_outside (c ∷ d ∷ s) = c == b'(' && not (d == b'#')
opens_outside _ = false

-- `/url\s*\(\s*[^#]/` on a text in lower case
unfoldable pub has_outside_url : Text → Bool
has_outside_url [] = false
has_outside_url (c ∷ s) =
    (starts_with (c ∷ s) (codes "url") && opens_outside (trim_start (drop 3 (c ∷ s))))
    || has_outside_url s

unfoldable pub is_bad_attribute : Attribute → Bool
is_bad_attribute a =
    starts_with (lower a.local_name) (codes "on")
    || eq_text a.local_name (codes "base")
    || (eq_text a.local_name (codes "href") && not (starts_with a.value (codes "#")))
    || has_outside_url (lower a.value)
    || includes (lower a.value) (codes "@import")
    || includes (lower a.value) (codes "javascript:")

unfoldable pub is_bad_element : Element → Bool
is_bad_element e = mem_text (lower e.local_name) forbidden || any is_bad_attribute e.attributes

abbrev pub check_document : Option Document → Result Problem (Unit {0})
check_document none = err invalid
check_document (some d) =
    reject (not (eq_text d.root (codes "svg"))) invalid
    >> reject (any is_bad_element d.elements) invalid

-- `/<!DOCTYPE|<!ENTITY/i`
abbrev pub has_declaration : Text → Bool
has_declaration source =
    includes (lower source) (codes "<!doctype") || includes (lower source) (codes "<!entity")

unfoldable pub svg_data : Web → Text → Result Problem Text
svg_data web source = do
  reject (ltb max_bytes (utf8_length source) || has_declaration source) invalid
  check_document (web.parse_svg source)
  ok (codes "data:image/svg+xml;base64," ++ web.base64_of source)

abbrev pub is_base64 : ℕ → Bool
is_base64 c =
    (leb b'A' c && leb c b'Z')
    || (leb b'a' c && leb c b'z')
    || (leb b'0' c && leb c b'9')
    || c == b'+'
    || c == b'/'

-- `[A-Za-z0-9+/]*={0,2}$`
abbrev pub is_payload : Text → Bool
is_payload [] = true
is_payload (c ∷ s) =
    if is_base64 c
    then is_payload s
    else eq_text (c ∷ s) (codes "=") || eq_text (c ∷ s) (codes "==")

abbrev pub types : List Text
types = codes "svg+xml" ∷ codes "png" ∷ codes "jpeg" ∷ codes "webp" ∷ []

abbrev pub head_of : Text → Text
head_of type = codes "data:image/" ++ (type ++ codes ";base64,")

-- The type and the payload of a data URL of one of these types.
unfoldable pub data_url : List Text → Text → Option (Text × Text)
data_url [] value = none
data_url (type ∷ ts) value =
    if starts_with value (head_of type) && is_payload (drop (length (head_of type)) value)
    then some (type, drop (length (head_of type)) value)
    else data_url ts value

abbrev pub or_throw {ℓ} : {A : Type ℓ} → Option A → Result Problem A
or_throw none = err thrown
or_throw (some a) = ok a

abbrev pub of_data : Web → Text → Text × Text → Result Problem Text
of_data web value (type, payload) = do
  bytes ← or_throw (web.bytes_of payload)
  reject (empty bytes || ltb max_bytes (length bytes)) upload
  if eq_text type (codes "svg+xml")
      then (or_throw (web.utf8_of bytes) >>= svg_data web)
      else ok value

abbrev pub of_url : Web → Text → Result Problem Text
of_url web value = do
  url ← or_throw (web.parse_url value)
  reject
      (not (eq_text url.protocol (codes "https:"))
        || not (empty url.username)
        || not (empty url.password)
        || ltb 2048 (length value))
      invalid
  ok value

abbrev pub of_address : Web → Text → Option (Text × Text) → Result Problem Text
of_address web value none = of_url web value
of_address web value (some data_parts) = of_data web value data_parts

abbrev pub of_trimmed : Web → Text → Result Problem Text
of_trimmed web value =
    if empty value
    then ok []
    else if starts_with value (codes "<")
    then svg_data web value
    else of_address web value (data_url types value)

unfoldable pub parse_icon : Web → Text → Result Problem Text
parse_icon web source = of_trimmed web (trim source)

-- One size that the image is drawn in; the payload of what is drawn stands behind its comma.
abbrev pub is_small : ℕ → ℕ → Bool
is_small side bytes = not (bytes == 0) && (leb bytes 16384 || (side == 64 && leb bytes max_bytes))

abbrev pub to_comma : Text → Text
to_comma [] = []
to_comma (c ∷ s) = if c == b',' then [] else c ∷ to_comma s

-- `source.split(',')[1] ?? ''`
abbrev pub behind_comma : Text → Text
behind_comma [] = []
behind_comma (c ∷ s) = if c == b',' then to_comma s else behind_comma s

unfoldable pub try_sizes : Web → ℕ → ℕ → List ℕ → Result Problem Text
try_sizes web width height [] = err no_size
try_sizes web width height (side ∷ sides) = do
  let longest = max width height
  let source = web.draw (max 1 (web.fit side longest width)) (max 1 (web.fit side longest height))
  bytes ← or_throw (web.bytes_of (behind_comma source))
  let rest = try_sizes web width height sides
  if is_small side (length bytes) then parse_icon web source else rest

-- `compressImage`, from the size of the bitmap; none where the browser cannot decode it.
unfoldable pub compress_image : Web → Option (ℕ × ℕ) → Result Problem Text
compress_image web none = err thrown
compress_image web (some (width, height)) = do
  reject (width == 0 || height == 0 || ltb 20000000 (width * height)) dimensions
  try_sizes web width height (256 ∷ 128 ∷ 64 ∷ [])
