-- ===== src/Skills/Tree.antt =====
-- web/src/features/operations/SkillFileTree.tsx: the tree of a skill's files. Every list of the
-- tree is a component of its own at a prefix, with its own closed folders; a folder that is closed
-- drops the components below it. A row is what a list shows, its folders before what is in them.
use plugin_pocket.Base.{
  ℕ, zero, suc, ◌+◌, Bool, not, List, [], ◌∷◌, ◌++◌, map, Text, codes, if◌then◌else◌, any, drop,
  keep, length, or_else, lookup, insert, mem_text, without, starts_with, split, first_part,
  distinct, sort_by, max, is_some, ends_with, lower_unit, ◌||◌,
}
use plugin_pocket.Files.{image_type}
use plugin_pocket.Skills.{Web, before}

pub data Row : Type 0 where
  folder_row : Text → Bool → Row
  file_row : Text → Row

-- The closed folders of the list at each prefix, where one was ever closed.
abbrev pub Closed : Type 0
Closed = List (Text × List Text)

abbrev pub closed_at : Text → Closed → List Text
closed_at prefix closed = or_else (lookup prefix closed) []

-- `path.slice(prefix.length).split('/')[0]`
unfoldable pub name_at : Text → Text → Text
name_at prefix path = first_part (split b'/' (drop (length prefix) path))

module _ (paths : List Text) where
  unfoldable pub is_folder : Text → Bool
  is_folder path = any (λ entry. starts_with entry (path ++ codes "/")) paths

  -- The rows of one name, given those of a list at a prefix.
  unfoldable pub rows_of : Closed → (Text → List Row) → Text → Text → List Row
  rows_of closed rows_at prefix name =
      let path = prefix ++ name in
      let expanded = not (mem_text path (closed_at prefix closed)) in
      let below = rows_at (path ++ codes "/") in
      if is_folder path
      then folder_row path expanded ∷ (if expanded then below else [])
      else file_row path ∷ []

  abbrev pub rows_of_all : Closed → (Text → List Row) → Text → List Text → List Row
  rows_of_all closed rows_at prefix [] = []
  rows_of_all closed rows_at prefix (name ∷ rest) =
      rows_of closed rows_at prefix name ++ rows_of_all closed rows_at prefix rest

module _ (web : Web) (paths : List Text) where
  unfoldable pub names : Text → List Text
  names prefix =
      sort_by (before web)
        (distinct (map (name_at prefix) (keep (λ path. starts_with path prefix) paths)))

  -- The list at a prefix; the fuel bounds the depth.
  unfoldable pub rows : ℕ → Closed → Text → List Row
  rows zero closed prefix = []
  rows (suc n) closed prefix = rows_of_all paths closed (rows n closed) prefix (names prefix)

-- A level takes at least the slash of its folder.
abbrev pub depth : List Text → ℕ
depth [] = 0
depth (path ∷ rest) = max (length path) (depth rest)

unfoldable pub tree : Web → List Text → Closed → List Row
tree web paths closed = rows web paths (depth paths + 1) closed []

-- What a press on a folder does to the list at `prefix`: the lists below a closed folder are
-- dropped with their state.
unfoldable pub toggle : Text → Text → Closed → Closed
toggle prefix path closed =
    let current = closed_at prefix closed in
    if mem_text path current
    then insert prefix (without path current) closed
    else insert prefix (current ++ path ∷ [])
        (keep (λ e. not (starts_with e.0 (path ++ codes "/"))) closed)

-- The icon of a file.
pub data Icon : Type 0 where
  image markdown text code : Icon

unfoldable pub file_icon : Text → Icon
file_icon path =
    if is_some (image_type path)
    then image
    else if ends_with (map lower_unit path) (codes ".md")
    then markdown
    else if ends_with (map lower_unit path) (codes ".txt")
        || ends_with (map lower_unit path) (codes ".markdown")
    then text
    else code
