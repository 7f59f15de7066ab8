-- ===== src/Files/Tests.antt =====
-- Runs of the path checks, and the theorems at concrete paths.
use mathlib.Core.List.{reverse}
use plugin_pocket.Base.{
  ◌<◌, ◌≡◌, refl, true, false, none, some, [], ◌∷◌, ◌++◌, codes, split, length,
}
use plugin_pocket.Files.{
  media, inherited, lower, image_type, safe_file_path, is_control, is_special, safe_part, is_device,
}
use plugin_pocket.Files.Paths.{resolve, safe_file_path-resolve}
use plugin_pocket.Files.Images.{image_type-constructor}

runs : Unit {0}
unfolding safe_file_path is_control is_special safe_part is_device split
runs = tt

path_tests :
    (safe_file_path (codes "references/guide.md") ≡ true)
    × (safe_file_path (codes "/etc/passwd") ≡ false)
    × (safe_file_path (codes "a//b") ≡ false)
    × (safe_file_path (codes "a/../b") ≡ false)
    × (safe_file_path (codes "docs/CON.txt") ≡ false)
    × (safe_file_path (codes "console.log") ≡ true)
    × (safe_file_path (codes "a:b") ≡ false)
unfolding runs
path_tests = (refl, refl, refl, refl, refl, refl, refl)

image_tests :
    (image_type (codes "a.b.PNG") ≡ some (media (codes "image/png")))
    × (image_type (codes "notes.md") ≡ none)
unfolding image_type
image_tests = (refl, refl)

safe_file_path-resolve_example :
    (resolve (codes "skill" ∷ []) (split b'/' (codes "a/b.md"))
      ≡ reverse (split b'/' (codes "a/b.md")) ++ codes "skill" ∷ [])
    × (0 < length (split b'/' (codes "a/b.md")))
unfolding runs
safe_file_path-resolve_example = safe_file_path-resolve (codes "a/b.md") (codes "skill" ∷ []) refl

image_type-constructor_example :
    image_type (codes "a" ++ b'.' ∷ codes "Constructor") ≡ some inherited
unfolding lower
image_type-constructor_example = image_type-constructor (codes "a") (codes "Constructor") refl refl
