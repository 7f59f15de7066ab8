-- ===== src/Market/Saving.antt =====
-- web/src/features/operations/MarketplaceEditor.tsx: what a save does with each file of a skill.
use plugin_pocket.Base.{
  ◌≡◌, refl, sym, ap, ◌∙◌, Bool, true, false, not, ◌&&◌, ◌||◌, Option, none, some, List, [], ◌∷◌,
  arith, Text, eq_text, eq_text_iff, eq_text_sound, if◌then◌else◌, is_some, or_else, Bool-cases,
  inl, inr, keep, keys, lookup, insert, lookup-insert, mem_text,
}
use plugin_pocket.Attachments.{FileUpload, Uploads, skill_md}
use plugin_pocket.Skills
use plugin_pocket.Skills.{Web, encode_skill_text, paths, all_paths}
use plugin_pocket.Skills.Paths.{mem_text-paths, mem_text-all_paths}
use plugin_pocket.Market.{
  MarketplaceItem, Spec, manifest_in, spec_of, files_of, manifest_of, workspace_item, is_executable,
  Editor, Package, package_of,
}

-- What becomes of a path.
pub data Fate : Type 0 where
  written : Text → Fate
  uploaded : FileUpload → Fate
  removed kept : Fate

abbrev fate_of_upload : Option FileUpload → Fate → Fate
fate_of_upload none other = other
fate_of_upload (some u) other = uploaded u

abbrev fate_of_text : Option Text → Fate → Fate
fate_of_text none other = other
fate_of_text (some s) other = written s

-- As the server (server/internal/app/marketplace.go) takes a package: it writes the texts, then
-- the uploads, and deletes last.
unfoldable pub fate : Package → Text → Fate
fate p q =
    if mem_text q p.delete_files
    then removed
    else fate_of_upload (lookup q p.files_v2) (fate_of_text (lookup q p.files) kept)

-- As the editor means it.
unfoldable pub meant : Web → Option MarketplaceItem → Editor → Text → Fate
meant web item e q =
    if eq_text skill_md q
    then if is_executable (lookup skill_md (manifest_of (spec_of item)))
      then uploaded (encode_skill_text web e.content true)
      else written e.content
    else if mem_text q e.deleted
    then removed
    else fate_of_upload (lookup q e.uploads)
        (fate_of_text (lookup q (files_of (spec_of item))) kept)

-- No path is both uploaded and deleted, and SKILL.md is neither.
pub record IsConsistent (uploads : Uploads) (deleted : List Text) : Type 0 where
  pub apart : (q : Text) → mem_text q deleted ≡ true → lookup q uploads ≡ none
  pub document : lookup skill_md uploads ≡ none
  pub present : mem_text skill_md deleted ≡ false

lookup-keep :
    {V : Type 0} (p : Text → Bool) (m : List (Text × V)) (q : Text)
    → lookup q (keep (λ (f : Text × V). p f.0) m) ≡ (if p q then lookup q m else none)
unfolding lookup
lookup-keep p [] q = ground arith
lookup-keep p ((k, v) ∷ m) q =
    ground (arith, lookup-keep p m q, eq_text_iff k q, λ (e : k ≡ q). ap p e)

lookup-insert_if :
    (b : Bool) (k q : Text) (u : FileUpload) (m : Uploads)
    → lookup q (if b then insert k u m else m) ≡ (if eq_text k q && b then some u else lookup q m)
lookup-insert_if true k q u m = lookup-insert k q u m ∙ ground arith
lookup-insert_if false k q u m = ground arith

document_fate :
    (b : Bool) (u : FileUpload) (s : Text)
    → fate_of_upload (if b then some u else none) (written s)
      ≡ (if b then uploaded u else written s)
document_fate true u s = refl
document_fate false u s = refl

file_fate :
    (d : Bool) (o : Option FileUpload) (s : Option Text)
    → (if d
        then removed
        else fate_of_upload o (fate_of_text (if not d && not (is_some o) then s else none) kept))
      ≡ (if d then removed else fate_of_upload o (fate_of_text s kept))
file_fate true o s = refl
file_fate false none s = refl
file_fate false (some u) s = refl

module _ (web : Web) (item : Option MarketplaceItem) (e : Editor)
    (h : IsConsistent e.uploads e.deleted) where
  lookup-uploads :
      (q : Text)
      → lookup q (package_of web item e).files_v2 ≡ (
          if eq_text skill_md q && is_executable (lookup skill_md (manifest_of (spec_of item)))
          then some (encode_skill_text web e.content true)
          else lookup q e.uploads)
  unfolding package_of
  lookup-uploads q =
      lookup-insert_if (is_executable (lookup skill_md (manifest_of (spec_of item)))) skill_md q
        (encode_skill_text web e.content true) e.uploads

  lookup-files :
      (q : Text)
      → lookup q (package_of web item e).files ≡ (
          if eq_text skill_md q
          then some e.content
          else if not (mem_text q e.deleted) && not (is_some (lookup q e.uploads))
          then lookup q (files_of (spec_of item))
          else none)
  unfolding package_of
  lookup-files q =
      lookup-insert skill_md q e.content _
      ∙ rw
          (lookup-keep
            (λ name. not (mem_text name e.deleted) && not (is_some (lookup name e.uploads)))
            (files_of (spec_of item)) q)
          refl

  deletes : (q : Text) → mem_text q (package_of web item e).delete_files ≡ mem_text q e.deleted
  unfolding package_of
  deletes q = refl

  -- In a consistent editor the package says of every path what the editor means: SKILL.md has the
  -- text on show, an upload if it is executable; a deleted path is removed; an upload is sent as
  -- it is; a published text that was not touched is sent again; anything else is left alone.
  pub fate-package_of : (q : Text) → fate (package_of web item e) q ≡ meant web item e q
  unfolding fate meant
  fate-package_of q = elim (Bool-cases (eq_text skill_md q)) [
    | inl s ↦
        let same = eq_text_sound skill_md q s in
        let none_there : lookup q e.uploads ≡ none = rw (sym same) h.document in
        let not_deleted : mem_text q e.deleted ≡ false = rw (sym same) h.present in
        rw (lookup-uploads q, lookup-files q, deletes q, s, not_deleted, none_there)
          (document_fate (is_executable (lookup skill_md (manifest_of (spec_of item))))
            (encode_skill_text web e.content true) e.content)
    | inr n ↦
        rw (lookup-uploads q, lookup-files q, deletes q, n)
          (file_fate (mem_text q e.deleted) (lookup q e.uploads)
            (lookup q (files_of (spec_of item))))
  ]

is_some-lookup :
    {V : Type 0} (q : Text) (m : List (Text × V)) → is_some (lookup q m) ≡ mem_text q (keys m)
unfolding lookup
is_some-lookup q [] = refl
is_some-lookup q ((k, v) ∷ m) = ground (arith, is_some-lookup q m)

-- A published file that is left alone stays.
abbrev pub stays : Fate → Bool → Bool
stays (written s) published = true
stays (uploaded u) published = true
stays removed published = false
stays kept published = published

abbrev pub is_published : Option MarketplaceItem → Text → Bool
is_published item q =
    mem_text q (keys (files_of (spec_of item))) || mem_text q (keys (manifest_of (spec_of item)))

workspace_files :
    (item : Option MarketplaceItem)
    → Skills.files_of (workspace_item item) ≡ files_of (spec_of item)
workspace_files none = refl
workspace_files (some i) = refl

workspace_manifest :
    (item : Option MarketplaceItem)
    → Skills.manifest_of (workspace_item item) ≡ manifest_of (spec_of item)
workspace_manifest none = refl
workspace_manifest (some i) = with_spec i.spec
  where
    with_spec : (s : Option Spec) → or_else (manifest_in s) [] ≡ manifest_of s
    with_spec none = refl
    with_spec (some s) = refl

stays_file :
    (d : Bool) (o : Option FileUpload) (s : Option Text) (f m u : Bool)
    → is_some s ≡ f
    → is_some o ≡ u
    → stays (if d then removed else fate_of_upload o (fate_of_text s kept)) (f || m)
      ≡ ((f || (m || u)) && not d)
stays_file true o s f m u e h = ground arith
stays_file false none none f m u e h = ground arith
stays_file false none (some t) f m u e h = ground arith
stays_file false (some v) s f m u e h = ground arith

stays_document :
    (b : Bool) (u : FileUpload) (s : Text) (published : Bool)
    → stays (if b then uploaded u else written s) published ≡ true
stays_document true u s published = refl
stays_document false u s published = refl

-- In a consistent editor a file is in the skill after the save exactly if the workspace lists it.
pub stays-package_of :
    (web : Web) (item : Option MarketplaceItem) (e : Editor) (q : Text)
    → IsConsistent e.uploads e.deleted
    → stays (fate (package_of web item e) q) (is_published item q)
      ≡ mem_text q (paths web (workspace_item item) e.uploads e.deleted)
unfolding meant
stays-package_of web item e q h =
    rw
      (
        fate-package_of web item e h q,
        mem_text-paths web (workspace_item item) e.uploads e.deleted q,
        mem_text-all_paths (workspace_item item) e.uploads q,
        workspace_files item,
        workspace_manifest item,
      )
      (elim (Bool-cases (eq_text skill_md q)) [
        | inl s ↦
            rw
              (
                s,
                stays_document (is_executable (lookup skill_md (manifest_of (spec_of item))))
                    (encode_skill_text web e.content true) e.content (is_published item q),
              )
              (rw (sym (eq_text_sound skill_md q s), h.present) refl)
        | inr n ↦ rw n (
            stays_file (mem_text q e.deleted) (lookup q e.uploads)
              (lookup q (files_of (spec_of item))) (mem_text q (keys (files_of (spec_of item))))
              (mem_text q (keys (manifest_of (spec_of item)))) (mem_text q (keys e.uploads))
              (is_some-lookup q (files_of (spec_of item))) (is_some-lookup q e.uploads))
      ])
