-- ===== src/Files/Images.antt =====
-- What `imageType` reads of a path.
use plugin_pocket.Base.{
  ◌≡◌, refl, false, some, ◌∷◌, ◌++◌, Text, codes, has_unit, last-split, split_of_no_unit,
}
use plugin_pocket.Files.{inherited, lower, image_type}

-- Only what stands behind the last dot counts: the rest of the path, dots included, changes nothing.
pub image_type-append :
    (stem ext : Text) → has_unit b'.' ext ≡ false → image_type (stem ++ b'.' ∷ ext) ≡ image_type ext
unfolding image_type
image_type-append stem ext h = rw (last-split b'.' stem ext h, split_of_no_unit b'.' ext h) refl

-- Every path whose last extension is `constructor` in any spelling by case counts as an image,
-- though no media type is listed for it.
pub image_type-constructor :
    (stem ext : Text)
    → has_unit b'.' ext ≡ false
    → lower ext ≡ codes "constructor"
    → image_type (stem ++ b'.' ∷ ext) ≡ some inherited
unfolding image_type
image_type-constructor stem ext h e = rw (last-split b'.' stem ext h, e) refl
