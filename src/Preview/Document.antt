-- ===== src/Preview/Document.antt =====
-- web/src/features/operations/SkillFilePreview.tsx: the metadata block in front of a document, what
-- is shown of a file, and the images of a document.
use plugin_pocket.Base.{
  ℕ, Bool, true, false, ◌&&◌, ◌==◌, Option, none, some, [], ◌∷◌, Text, codes, eq_text,
  if◌then◌else◌, is_some, or_else, drop, last, lookup, split, starts_with,
}
use plugin_pocket.Files.{image_type}
use plugin_pocket.Attachments.{FileUpload, Uploads}
use plugin_pocket.Preview.{relative_path}

-- `\r?\n`
unfoldable pub after_newline : Text → Option Text
after_newline [] = none
after_newline (c ∷ []) = if c == 10 then some [] else none
after_newline (c ∷ d ∷ s) =
    if c == 10 then some (d ∷ s) else if c == 13 && d == 10 then some s else none

-- `---`, and then a line end or the end.
abbrev pub line_end : Text → Option Text
line_end [] = some []
line_end (c ∷ s) = after_newline (c ∷ s)

abbrev pub dashes : Text → Option Text
dashes s = if starts_with s (codes "---") then some (drop 3 s) else none

abbrev pub bind {ℓ κ} : {A : Type ℓ} {B : Type κ} → Option A → (A → Option B) → Option B
bind none next = none
bind (some a) next = next a

-- The closing line.
unfoldable pub closes : Text → Option Text
closes s = bind (after_newline s) (λ t. bind (dashes t) line_end)

abbrev pub longer : ℕ → Option (Text × Text) → Option (Text × Text)
longer c none = none
longer c (some (meta, body)) = some (c ∷ meta, body)

-- The shortest text in front of a closing line, and what is behind that.
abbrev pub found_or : Option Text → Option (Text × Text) → Option (Text × Text)
found_or (some body) later = some ([], body)
found_or none later = later

unfoldable pub block : Text → Option (Text × Text)
block [] = none
block (c ∷ s) = found_or (closes (c ∷ s)) (longer c (block s))

-- The metadata of a document and its body.
unfoldable pub front_matter : Text → Option (Text × Text)
front_matter text = bind (dashes text) (λ s. bind (after_newline s) block)

abbrev pub body_of : Text → Option (Text × Text) → Text
body_of text none = text
body_of text (some (meta, body)) = body

abbrev pub metadata_of : Option (Text × Text) → Option Text
metadata_of none = none
metadata_of (some (meta, body)) = some meta

pub data Preview : Type 0 where
  image : Text → Preview
  document : Option Text → Text → Preview
  binary : Text → ℕ → Preview

abbrev pub size_of : Option FileUpload → ℕ
size_of none = 0
size_of (some u) = u.size

abbrev pub document_or : Option Text → Preview → Preview
document_or none other = other
document_or (some text) other =
    document (metadata_of (front_matter text)) (body_of text (front_matter text))

abbrev pub image_or : Bool → Option FileUpload → Preview → Preview
image_or true (some u) other = image u.content
image_or _ _ other = other

-- `text` is there for a text file.
unfoldable pub preview : Text → Option Text → Option FileUpload → Preview
preview path text file =
    image_or (is_some (image_type path)) file
      (document_or text (binary (or_else (last (split b'/' path)) []) (size_of file)))

-- An image of a document: a picture of the package with its content and text, or a placeholder.
pub data Picture : Type 0 where
  picture : Text → Text → Text → Picture
  placeholder : Text → Picture

abbrev pub picture_or : Text → Option Text → Bool → Option FileUpload → Picture
picture_or local alt true (some u) = picture local u.content (or_else alt local)
picture_or local alt _ _ = placeholder (or_else alt [])

unfoldable pub picture_of : (Text → Option Text) → Uploads → Text → Text → Option Text → Picture
picture_of decode files path src alt =
    let local = relative_path decode path src in
    picture_or local alt (is_some (image_type local)) (lookup local files)

-- A picture whose content failed to load is a notice, until other content comes.
abbrev pub failed_is : Option Text → Text → Bool
failed_is none content = false
failed_is (some failed) content = eq_text failed content

unfoldable pub shows_failure : Option Text → Text → Bool
shows_failure failed content = failed_is failed content

abbrev pub image_failed : Text → Option Text
image_failed content = some content
