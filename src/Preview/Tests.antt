-- ===== src/Preview/Tests.antt =====
-- Runs of the links of a document, and the theorem at a concrete link.
use plugin_pocket.Base.{
  ◌≤◌, length, ◌≡◌, ◌⊎◌, refl, Option, none, some, [], lookup, ◌∷◌, Text, codes, split, split_from,
  lower_unit,
}
use plugin_pocket.Files.{
  safe_file_path, is_control, is_special, safe_part, is_device, image_type, lower,
}
use plugin_pocket.Preview.{walk, relative_path, link, opens}
use plugin_pocket.Preview.Document.{
  after_newline, closes, block, front_matter, preview, document, picture_of, placeholder,
}
use plugin_pocket.Preview.Metadata.{HasMetadata, preview_cases}

runs : Unit {0}
unfolding walk relative_path link split split_from lower_unit safe_file_path is_control is_special
    safe_part is_device
runs = tt

abbrev decode : Text → Option Text
decode s = some s

sibling : relative_path decode (codes "docs/a.md") (codes "../img/b.png?x") ≡ codes "img/b.png"
unfolding runs
sibling = refl

above : relative_path decode (codes "a.md") (codes "../b.md") ≡ []
unfolding runs
above = refl

opened : link decode (codes "b.md" ∷ []) (codes "a.md") (codes "./b.md#top") ≡ opens (codes "b.md")
unfolding runs
opened = refl

more_runs : Unit {0}
unfolding runs after_newline closes block front_matter preview picture_of image_type lookup lower
more_runs = tt

abbrev with_metadata : Text
with_metadata = codes "---\nname: a\n---\n# A"

preview_test :
    preview (codes "a.md") (some with_metadata) none
    ≡ document (some (codes "name: a")) (codes "# A")
unfolding more_runs
preview_test = refl

no_metadata :
    preview (codes "a.md") (some (codes "# A\n---\n")) none ≡ document none (codes "# A\n---\n")
unfolding more_runs
no_metadata = refl

outside_image :
    picture_of decode [] (codes "a.md") (codes "https://a.example/b.png") none ≡ placeholder []
unfolding more_runs
outside_image = refl

preview_cases_example :
    (((m b : Text) → HasMetadata with_metadata m b → ⊥)
      × (preview (codes "a.md") (some with_metadata) none ≡ document none with_metadata))
    ⊎ ((meta : Text) × (body : Text) × (preview (codes "a.md") (some with_metadata) none
          ≡ document (some meta) body)
        × HasMetadata with_metadata meta body
        × ((m b : Text) → HasMetadata with_metadata m b → length meta ≤ length m))
unfolding more_runs
preview_cases_example = preview_cases (codes "a.md") with_metadata none refl
