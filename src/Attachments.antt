-- ===== src/Attachments.antt =====
-- web/src/components/FileAttachments.tsx: choosing, validating, reading and removing the
-- attachments of a skill. The parent's `files` and `deleted` are part of the state here; a read of a file is
-- the browser's, and its outcome is an argument. A handler works on the `files`, `deleted` and
-- `initial` of the render that it belongs to, as a closure does. Paths
-- that every object inherits, such as `__proto__`, are taken for ordinary keys.
pub mod Limits
pub mod Choosing
pub mod Outcomes
pub mod Staleness
mod Tests
use plugin_pocket.Base.{
  ℕ, suc, ◌+◌, Bool, true, false, not, ◌&&◌, ◌||◌, Option, none, some, List, [], ◌∷◌, ◌++◌, Text,
  codes, eq_text, empty, if◌then◌else◌, leb, ltb, ◌==◌, length, sum_of, keep, or_else, Result, ok,
  err, ◌>>=◌, ◌>>◌, reject, lookup, insert, remove, merge, mem_text, without,
}
use plugin_pocket.Files.{max_file_bytes, max_package_bytes, safe_file_path}

pub record FileInfo : Type 0 where
  pub size : ℕ
  pub executable : Bool

pub record FileUpload : Type 0 where
  pub content : Text
  pub size : ℕ
  pub executable : Bool

-- A chosen file, as far as it is known before it is read.
pub record ChosenFile : Type 0 where
  pub name : Text
  pub size : ℕ

-- The messages that the handler throws.
pub data Problem : Type 0 where
  bad_path file_too_large package_too_large read_failed : Problem

abbrev pub Uploads : Type 0
Uploads = List (Text × FileUpload)

abbrev pub Infos : Type 0
Infos = List (Text × FileInfo)

abbrev pub skill_md : Text
skill_md = codes "SKILL.md"

abbrev pub info : FileUpload → FileInfo
info u = record { size = u.size; executable = u.executable }

abbrev pub infos : Uploads → Infos
infos [] = []
infos ((path, u) ∷ us) = (path, info u) ∷ infos us

-- `directory ? `${directory}/${file.name}` : file.name`
unfoldable pub target : Text → ChosenFile → Text
target directory file = if empty directory then file.name else directory ++ b'/' ∷ file.name

-- The entries that count: neither SKILL.md nor deleted.
abbrev pub counts : List Text → Text × FileInfo → Bool
counts deleted e = not (eq_text e.0 skill_md) && not (mem_text e.0 deleted)

unfoldable pub entries : Infos → Uploads → List Text → Infos
entries initial files deleted = keep (counts deleted) (merge initial (infos files))

-- `files[path]?.executable ?? initial[path]?.executable ?? false`
abbrev executable_of : Option FileUpload → Option FileInfo → Bool
executable_of (some u) i = u.executable
executable_of none (some i) = i.executable
executable_of none none = false

-- `next[path].content = …` at a path that the first loop has filled in.
unfoldable pub fill : Text → Text → Uploads → Uploads
fill path content next = elim (lookup path next) [
  | none ↦ next
  | some u ↦ insert path (record u { content = content }) next
]

-- The second loop: the outcomes of the reads, in order; none is a read that failed.
unfoldable pub read_all :
    Text → List ChosenFile → List (Option Text) → Uploads → Result Problem Uploads
read_all directory [] reads next = ok next
read_all directory (file ∷ rest) [] next = err read_failed
read_all directory (file ∷ rest) (none ∷ reads) next = err read_failed
read_all directory (file ∷ rest) (some content ∷ reads) next =
    read_all directory rest reads (fill (target directory file) content next)

module _ (initial : Infos) (files : Uploads) (document_bytes : ℕ) (directory : Text) where
  -- One round of the first loop over the chosen files.
  unfoldable pub place : ChosenFile → Uploads → List Text → Result Problem (Uploads × List Text)
  place file next removed = do
    let path = target directory file
    reject (not (safe_file_path path) || eq_text path skill_md) bad_path
    reject (ltb max_file_bytes file.size) file_too_large
    let upload : FileUpload = record {
      content = [];
      size = file.size;
      executable = executable_of (lookup path files) (lookup path initial);
    }
    ok (insert path upload next, without path removed)

  unfoldable pub place_all :
      List ChosenFile → Uploads → List Text → Result Problem (Uploads × List Text)
  place_all [] next removed = ok (next, removed)
  place_all (file ∷ rest) next removed = do
    placed ← place file next removed
    place_all rest placed.0 placed.1

  -- The check of the number of files, SKILL.md included, and of their total size.
  unfoldable pub check_total : Uploads → List Text → Result Problem (Unit {0})
  check_total next removed =
      let total = entries initial next removed in
      reject
        (ltb 32 (length total + 1)
          || ltb max_package_bytes (document_bytes + sum_of (λ e. e.1.size) total))
        package_too_large

  -- Everything before the first read; an error here is thrown before anything is awaited.
  unfoldable pub prepare : List ChosenFile → List Text → Result Problem (Uploads × List Text)
  prepare chosen deleted = do
    placed ← place_all chosen files deleted
    check_total placed.0 placed.1
    ok placed

-- The component with the part of its parent's state that it sets.
pub record State : Type 0 where
  pub files : Uploads
  pub deleted : List Text
  pub directory : Text
  pub reading : Bool
  pub error : Option Problem
  pub blocked : Bool
  pub revision : ℕ

-- What a handler still has to do when its reads are done, with what its closure holds.
pub record Task : Type 0 where
  pub current : ℕ
  pub directory : Text
  pub chosen : List ChosenFile
  pub next : Uploads
  pub removed : List Text

abbrev pub failed : Problem → State → State
failed problem s = record s { error = some problem; reading = false }

abbrev pub begun : State → State
begun s = record s { revision = s.revision + 1; error = none; reading = true; blocked = true }

abbrev pub task_of : State → List ChosenFile → Uploads × List Text → Task
task_of s chosen placed = record {
  current = s.revision + 1;
  directory = s.directory;
  chosen = chosen;
  next = placed.0;
  removed = placed.1;
}

-- The file input's `onChange`, up to its first `await`.
unfoldable pub choose : Infos → ℕ → List ChosenFile → State → State × Option Task
choose initial document_bytes [] s = (s, none)
choose initial document_bytes (file ∷ rest) s =
    elim (prepare initial s.files document_bytes s.directory (file ∷ rest) s.deleted) [
      | err problem ↦ (failed problem (begun s), none)
      | ok placed ↦ (begun s, some (task_of s (file ∷ rest) placed))
    ]

-- The rest of the handler, when its reads have come in.
unfoldable pub finish : Task → List (Option Text) → State → State
finish task reads s =
    if not (s.revision == task.current)
    then s
    else elim (read_all task.directory task.chosen reads task.next) [
      | err problem ↦ failed problem s
      | ok next ↦ record s {
        files = next;
        deleted = task.removed;
        blocked = false;
        reading = false;
      }
    ]

-- The effect's clean-up: no handler of an unmounted component publishes anything.
unfoldable pub unmount : State → State
unmount s = record s { revision = s.revision + 1 }

unfoldable pub clear_error : State → State
clear_error s = record s { error = none; blocked = false }

-- The input of the directory, which is off while files are read.
unfoldable pub set_directory : Text → State → State
set_directory directory s = if s.reading then s else record s { directory = directory }

-- The check box of an uploaded file.
unfoldable pub set_executable : Text → Bool → State → State
set_executable path checked s = elim (lookup path s.files) [
  | none ↦ s
  | some u ↦ record s { files = insert path (record u { executable = checked }) s.files }
]

-- `[...new Set([...deleted, path])]`, where `deleted` has no repetition.
abbrev pub add_deleted : Text → List Text → List Text
add_deleted path deleted = if mem_text path deleted then deleted else deleted ++ path ∷ []

unfoldable pub remove_file : Text → State → State
remove_file path s = record s { files = remove path s.files; deleted = add_deleted path s.deleted }
