-- ===== src/Files.antt =====
-- web/src/lib/files.ts: limits, the image types, and which paths a skill file may have. A path is
-- a list of UTF-16 code units, so `length` is the source's. `readFileBase64` is the browser's file
-- reader: its result is an argument where it is used.
pub mod Paths
pub mod Images
mod Tests
use plugin_pocket.Base.{
  ℕ, ◌+◌, ◌*◌, Bool, true, false, not, ◌&&◌, ◌||◌, Option, none, some, List, [], ◌∷◌, ◌++◌, map,
  Text, codes, eq_text, starts_with, ends_with, includes, empty, split, lower_unit, if◌then◌else◌,
  leb, ltb, ◌==◌, length, drop, any, all, last, or_else,
}

abbrev pub max_file_bytes : ℕ
max_file_bytes = 8 * 1024 * 1024

abbrev pub max_package_bytes : ℕ
max_package_bytes = 32 * 1024 * 1024

unfoldable pub lower : Text → Text
unfolding lower_unit
lower s = map lower_unit s

-- What the object literal of `imageType` holds under a name: a media type, or what every object
-- inherits under that name (of those names only two have no capital letter).
pub data Image : Type 0 where
  media : Text → Image
  inherited : Image

abbrev media_types : List (Text × Text)
media_types =
    (codes "png", codes "image/png")
    ∷ (codes "jpg", codes "image/jpeg")
    ∷ (codes "jpeg", codes "image/jpeg")
    ∷ (codes "gif", codes "image/gif")
    ∷ (codes "webp", codes "image/webp")
    ∷ (codes "avif", codes "image/avif")
    ∷ (codes "svg", codes "image/svg+xml")
    ∷ (codes "ico", codes "image/x-icon")
    ∷ []

media_type : Text → List (Text × Text) → Option Image
media_type name [] =
    if eq_text name (codes "constructor") || eq_text name (codes "__proto__")
    then some inherited
    else none
media_type name ((k, m) ∷ ms) = if eq_text k name then some (media m) else media_type name ms

-- `path.split('.').pop()?.toLowerCase()`; ASCII lower case suffices, since no other letter has an
-- image in the lower-case ASCII letters that the names use.
extension : Text → Text
unfolding split lower
extension path = lower (or_else (last (split b'.' path)) [])

unfoldable pub image_type : Text → Option Image
unfolding media_type extension
image_type path = media_type (extension path) media_types

-- `/[\\\p{Cc}]/u` and `/[<>:"|?*]/` on one code unit.
unfoldable pub is_control : ℕ → Bool
is_control c = c == b'\\' || leb c 31 || (leb 127 c && leb c 159)

unfoldable pub is_special : ℕ → Bool
is_special c =
    c == b'<' || c == b'>' || c == b':' || c == b'"' || c == b'|' || c == b'?' || c == b'*'

-- The device names of `/^(con|prn|aux|nul|com[1-9]|lpt[1-9])(?:\.|$)/i`.
abbrev numbered : Text → List Text
numbered stem = map (λ (d : ℕ). stem ++ d ∷ []) (codes "123456789")

abbrev devices : List Text
devices =
    codes "con"
    ∷ codes "prn"
    ∷ codes "aux"
    ∷ codes "nul"
    ∷ (numbered (codes "com") ++ numbered (codes "lpt"))

-- `(?:\.|$)` at the rest of the part.
abbrev at_dot_or_end : Text → Bool
at_dot_or_end [] = true
at_dot_or_end (c ∷ s) = c == b'.'

unfoldable pub is_device : Text → Bool
unfolding lower
is_device part =
    any (λ d. starts_with (lower part) d && at_dot_or_end (drop (length d) (lower part))) devices

-- `/[. ]$/`
abbrev ends_badly : Text → Bool
ends_badly part = ends_with part (codes ".") || ends_with part (codes " ")

unfoldable pub safe_part : Text → Bool
safe_part part =
    not (empty part)
    && not (eq_text part (codes "."))
    && not (ends_badly part)
    && not (is_device part)

unfoldable pub safe_file_path : Text → Bool
safe_file_path path =
    ltb 0 (length path)
    && leb (length path) 128
    && not (includes path (codes ".."))
    && not (any is_control path)
    && all safe_part (split b'/' path)
    && not (any is_special path)
