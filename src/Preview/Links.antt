-- ===== src/Preview/Links.antt =====
-- A link of a document leads into the package, or to the web where it says so.
use plugin_pocket.Base.{
  ℕ, zero, suc, ◌≡◌, Bool, true, false, Option, some, List, [], ◌∷◌, Text, codes, eq_text,
  if◌then◌else◌, length, split,
}
use plugin_pocket.Files.{safe_file_path}
use plugin_pocket.Preview.{before_query, is_outside, folder}

-- Whether parts never go up more often than there is a folder, counted by depth alone.
abbrev pub stays : ℕ → List Text → Bool
stays depth [] = true
stays zero (p ∷ ps) =
    let down = stays 1 ps in
    let same = stays 0 ps in
    if eq_text p (codes "..") then false else if eq_text p (codes ".") then same else down
stays (suc depth) (p ∷ ps) =
    let up = stays depth ps in
    let down = stays (suc (suc depth)) ps in
    let same = stays (suc depth) ps in
    if eq_text p (codes "..") then up else if eq_text p (codes ".") then same else down

-- A path that a target may lead to.
abbrev pub IsInside : (Text → Option Text) → Text → Text → Text → Type 0
IsInside decode from target path =
    (safe_file_path path ≡ true)
    × ((value : Text) × (decode (before_query target) ≡ some value)
        × (is_outside value ≡ false)
        × (stays (length (folder from)) (split b'/' value) ≡ true))
