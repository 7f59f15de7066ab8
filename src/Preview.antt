-- ===== src/Preview.antt =====
-- web/src/features/operations/SkillFilePreview.tsx: where a link or an image of a skill's document
-- leads. `decodeURIComponent` is an argument, none where it throws.
pub mod Links
pub mod Document
pub mod Metadata
mod Tests
use plugin_pocket.Base.{
  ℕ, Bool, true, false, not, ◌&&◌, ◌||◌, ◌==◌, Option, none, some, List, [], ◌∷◌, Text, codes,
  eq_text, leb, if◌then◌else◌, empty, split, join, lower_unit, map, starts_with, mem_text,
}
use mathlib.Core.List.{reverse}
use plugin_pocket.Files.{safe_file_path}

-- `target.split(/[?#]/)[0]`
abbrev pub before_query : Text → Text
before_query [] = []
before_query (c ∷ s) = if c == b'?' || c == b'#' then [] else c ∷ before_query s

abbrev pub is_letter : ℕ → Bool
is_letter c = leb b'a' c && leb c b'z'

-- `[a-z\d+.-]*:` in lower case
abbrev pub ends_scheme : Text → Bool
ends_scheme [] = false
ends_scheme (c ∷ s) =
    c == b':'
    || ((is_letter c || (leb b'0' c && leb c b'9') || c == b'+' || c == b'.' || c == b'-')
        && ends_scheme s)

-- `/^[a-z][a-z\d+.-]*:|^[/\\]/i`
abbrev pub has_scheme : Text → Bool
has_scheme [] = false
has_scheme (c ∷ s) = is_letter c && ends_scheme s

abbrev pub is_rooted : Text → Bool
is_rooted [] = false
is_rooted (c ∷ s) = c == b'/' || c == b'\\'

abbrev pub is_outside : Text → Bool
is_outside value = empty value || has_scheme (map lower_unit value) || is_rooted value

-- `from.split('/').slice(0, -1)`, with the innermost folder first
abbrev pub without_first : List Text → List Text
without_first [] = []
without_first (p ∷ ps) = ps

abbrev pub folder : Text → List Text
folder from = without_first (reverse (split b'/' from))

-- The loop over the parts of the target; none where it goes above the package.
unfoldable pub walk : List Text → List Text → Option (List Text)
walk parts [] = some parts
walk [] (p ∷ ps) =
    let down = walk (p ∷ []) ps in
    let same = walk [] ps in
    if eq_text p (codes "..") then none else if not (eq_text p (codes ".")) then down else same
walk (d ∷ ds) (p ∷ ps) =
    let up = walk ds ps in
    let down = walk (p ∷ d ∷ ds) ps in
    let same = walk (d ∷ ds) ps in
    if eq_text p (codes "..") then up else if not (eq_text p (codes ".")) then down else same

abbrev pub if_safe : Text → Text
if_safe path = if safe_file_path path then path else []

abbrev pub joined : Option (List Text) → Text
joined none = []
joined (some parts) = if_safe (join b'/' (reverse parts))

abbrev pub led : Text → Option Text → Text
led from none = []
led from (some value) =
    if is_outside value then [] else joined (walk (folder from) (split b'/' value))

unfoldable pub relative_path : (Text → Option Text) → Text → Text → Text
relative_path decode from target = led from (decode (before_query target))

-- What stands in the place of a link or of an image.
pub data Link : Type 0 where
  opens external : Text → Link
  plain : Link

-- `/^https?:\/\//i`
abbrev pub is_web : Text → Bool
is_web href =
    starts_with (map lower_unit href) (codes "http://")
    || starts_with (map lower_unit href) (codes "https://")

unfoldable pub link : (Text → Option Text) → List Text → Text → Text → Link
link decode paths path href =
    let local = relative_path decode path href in
    if mem_text local paths then opens local else if is_web href then external href else plain
