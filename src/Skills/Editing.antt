-- ===== src/Skills/Editing.antt =====
-- web/src/features/operations/SkillFileEditor.tsx: an edit comes back to the editor that made it.
use plugin_pocket.Base.{
  ◌≡◌, refl, sym, ap, ◌∙◌, Bool, true, false, some, Text, eq_text, eq_text_refl, Bool-cases, inl,
  inr, any, is_some, or_false, lookup, insert, lookup-insert, mem_text,
}
use plugin_pocket.Attachments.{skill_md}
use plugin_pocket.Files.{image_type}
use plugin_pocket.Skills.{Web, is_binary_unit, decode, encode_skill_text, active, manifest_of}
use plugin_pocket.Skills.Workspace.{Props, Workspace, paths_in, active_in, change_text}
use plugin_pocket.Skills.Soundness.{change_text-paths}
use plugin_pocket.Skills.View.{
  Loaded, plain, is_plain, mark, file, shown, executable, binary, visible_mode, pane,
}

-- Text that the editor can hold comes back from an upload.
decode-encode_skill_text :
    (web : Web) (value : Text) (flag : Bool)
    → web.of_base64 (web.to_base64 value) ≡ some value
    → any is_binary_unit value ≡ false
    → decode web (encode_skill_text web value flag).content ≡ some value
unfolding decode encode_skill_text
decode-encode_skill_text web value flag back clean = rw (back, clean) refl

module _ (web : Web) (props : Props) (loaded : Loaded) where
  -- A workspace that shows a text of the same file in the same way.
  pub record IsEdited (w : Workspace) (value : Text) (v : Workspace) : Type 0 where
    pub same_file : active_in web props v ≡ active_in web props w
    pub same_paths : paths_in web props v ≡ paths_in web props w
    pub text : shown web props loaded v ≡ plain value
    pub same_mark : executable web props loaded v ≡ executable web props loaded w
    pub others :
        (q : Text)
        → eq_text (active_in web props w) q ≡ false
        → lookup q v.uploads ≡ lookup q w.uploads
    pub same_pane : pane web props loaded v ≡ pane web props loaded w

  editor_pane :
      (v w : Workspace) (value : Text)
      → active_in web props v ≡ active_in web props w
      → v.mode ≡ w.mode
      → shown web props loaded v ≡ plain value
      → is_plain (shown web props loaded w) ≡ true
      → binary web props loaded w ≡ false
      → pane web props loaded v ≡ pane web props loaded w
  unfolding pane visible_mode binary
  editor_pane v w value same_file same_mode text was_plain was_text =
      let no_image = or_false (is_some (image_type (active_in web props w))) _ was_text in
      rw (text, same_file, same_mode, was_plain, no_image.0, no_image.1) refl

  module _ (w : Workspace) (value : Text) (there : mem_text skill_md props.deleted ≡ false) where
    abbrev document : Workspace
    document = record w { content = value }

    document-text :
        eq_text (active_in web props w) skill_md ≡ true
        → shown web props loaded document ≡ plain value
    unfolding shown active_in paths_in
    document-text e = rw e refl

    document-IsEdited :
        eq_text (active_in web props w) skill_md ≡ true
        → is_plain (shown web props loaded w) ≡ true
        → binary web props loaded w ≡ false
        → IsEdited w value document
    unfolding active_in paths_in executable file
    document-IsEdited e was_plain was_text = record {
      same_file = refl;
      same_paths = refl;
      text = document-text e;
      same_mark = refl;
      others = λ q _. refl;
      same_pane = editor_pane document w value refl refl (document-text e) was_plain was_text;
    }

    abbrev with_upload : Workspace
    with_upload = record w {
      uploads =
          insert (active_in web props w)
            (encode_skill_text web value (executable web props loaded w)) w.uploads;
    }

    changed_file :
        eq_text (active_in web props w) skill_md ≡ false
        → change_text web props (executable web props loaded w) value w ≡ with_upload
    unfolding change_text
    changed_file e = rw e refl

    changed_document :
        eq_text (active_in web props w) skill_md ≡ true
        → change_text web props (executable web props loaded w) value w ≡ document
    unfolding change_text
    changed_document e = rw e refl

    with_upload-paths :
        eq_text (active_in web props w) skill_md ≡ false
        → paths_in web props with_upload ≡ paths_in web props w
    with_upload-paths e =
        ap (paths_in web props) (sym (changed_file e))
        ∙ change_text-paths web props (executable web props loaded w) value w there

    with_upload-active :
        eq_text (active_in web props w) skill_md ≡ false
        → active_in web props with_upload ≡ active_in web props w
    unfolding active_in
    with_upload-active e = ap (active w.selected) (with_upload-paths e)

    with_upload-file :
        eq_text (active_in web props w) skill_md ≡ false
        → file web props loaded with_upload
          ≡ some (encode_skill_text web value (executable web props loaded w))
    unfolding file
    with_upload-file e =
        rw
          (
            with_upload-active e,
            lookup-insert (active_in web props w) (active_in web props w)
                (encode_skill_text web value (executable web props loaded w)) w.uploads,
            eq_text_refl (active_in web props w),
          )
          refl

    module _ (back : web.of_base64 (web.to_base64 value) ≡ some value)
        (clean : any is_binary_unit value ≡ false) where
      with_upload-text :
          eq_text (active_in web props w) skill_md ≡ false
          → shown web props loaded with_upload ≡ plain value
      unfolding shown
      with_upload-text e =
          rw
            (
              with_upload-active e,
              e,
              with_upload-file e,
              decode-encode_skill_text web value (executable web props loaded w) back clean,
            )
            refl

      with_upload-mark :
          eq_text (active_in web props w) skill_md ≡ false
          → executable web props loaded with_upload ≡ executable web props loaded w
      unfolding executable encode_skill_text
      with_upload-mark e =
          ap (λ u. mark u (lookup (active_in web props with_upload) (manifest_of props.item)))
            (with_upload-file e)

      with_upload-IsEdited :
          eq_text (active_in web props w) skill_md ≡ false
          → is_plain (shown web props loaded w) ≡ true
          → binary web props loaded w ≡ false
          → IsEdited w value with_upload
      with_upload-IsEdited e was_plain was_text = record {
        same_file = with_upload-active e;
        same_paths = with_upload-paths e;
        text = with_upload-text e;
        same_mark = with_upload-mark e;
        others = λ q ne. lookup-insert (active_in web props w) q _ w.uploads ∙ rw ne refl;
        same_pane =
            editor_pane with_upload w value (with_upload-active e) refl (with_upload-text e)
              was_plain was_text;
      }

      -- While SKILL.md is not deleted and the browser's base64 can be read back, a text without
      -- binary control characters that is typed into the editor of a file is what the editor shows
      -- of that file from then on: the paths, the file on show, its mark of being executable, the
      -- pane and the uploads of all other files stay.
      pub change_text-IsEdited :
          is_plain (shown web props loaded w) ≡ true
          → binary web props loaded w ≡ false
          → IsEdited w value (change_text web props (executable web props loaded w) value w)
      change_text-IsEdited was_plain was_text =
          elim (Bool-cases (eq_text (active_in web props w) skill_md)) [
            | inl e ↦ rw (changed_document e) (document-IsEdited e was_plain was_text)
            | inr e ↦ rw (changed_file e) (with_upload-IsEdited e was_plain was_text)
          ]
