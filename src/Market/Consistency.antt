-- ===== src/Market/Consistency.antt =====
-- web/src/features/operations/MarketplaceEditor.tsx: no run of the workspace and the attachments
-- uploads a path that it deletes.
use plugin_pocket.Base.{
  ℕ, ◌≡◌, inl, inr, refl, sym, ap, ◌∙◌, Bool, true, false, ◌||◌, Option, none, some, List, [], ◌∷◌,
  arith, Text, eq_text, eq_text_iff, eq_text_sound, if_cases, Bool-cases, and_split,
  eq-false_of_not, lookup, insert, remove, lookup-insert, lookup-remove, mem_text, mem_text-append,
  mem_text-without, mem_text-without_self, without, ok, bind-eq-ok, ok-injective, err-ne-ok,
  Option-cases,
}
use plugin_pocket.Attachments.{
  FileUpload, Uploads, Infos, ChosenFile, skill_md, target, place, place_all, fill, read_all,
  add_deleted,
}
use plugin_pocket.Attachments.Limits.{fill_of_none, fill_of_some, place-eq-ok}
use plugin_pocket.Skills.{Web, encode_skill_text, all_paths}
use plugin_pocket.Skills.Paths.{mem_text-document, mem_text-active, mem_text-paths}
use plugin_pocket.Skills.Workspace.{
  Props, Workspace, paths_in, active_in, open_file, create_file, change_text,
}
use plugin_pocket.Skills.Creating.{not_there, create_file_cases}
use plugin_pocket.Skills.Soundness.{
  Press, show_file, close, create, write, type_path, pick_mode, sidebar, creating, wrap, cursor,
  press, close_tab-uploads,
}
use plugin_pocket.Market.Saving.{IsConsistent}

insert-IsConsistent :
    (k : Text) (v : FileUpload) (u : Uploads) (d : List Text)
    → mem_text k d ≡ false
    → eq_text k skill_md ≡ false
    → IsConsistent u d
    → IsConsistent (insert k v u) d
insert-IsConsistent k v u d new other h = record {
  apart = λ q m.
      lookup-insert k q v u
      ∙ if_cases (λ (o : Option FileUpload). o ≡ none) (eq_text k q)
          (λ (e : eq_text k q ≡ true). cc (eq_text_sound k q e, new, m)) (λ _. h.apart q m);
  document = lookup-insert k skill_md v u ∙ rw other h.document;
  present = h.present;
}

-- A file that is placed is no longer deleted.
place-IsConsistent :
    (k : Text) (v : FileUpload) (u : Uploads) (d : List Text)
    → eq_text k skill_md ≡ false
    → IsConsistent u d
    → IsConsistent (insert k v u) (without k d)
place-IsConsistent k v u d other h =
    insert-IsConsistent k v u (without k d) (mem_text-without_self k d) other (record {
      apart = λ q m. h.apart q (of_without q m);
      document = h.document;
      present = mem_text-without skill_md k d other ∙ h.present;
    })
  where
    of_without : (q : Text) → mem_text q (without k d) ≡ true → mem_text q d ≡ true
    of_without q m = elim (Bool-cases (eq_text k q)) [
      | inl e ↦ cc (eq_text_sound k q e, mem_text-without_self k d, m)
      | inr e ↦ sym (mem_text-without q k d e) ∙ m
    ]

mem_text-add_deleted :
    (q k : Text) (d : List Text) → mem_text q (add_deleted k d) ≡ (eq_text k q || mem_text q d)
mem_text-add_deleted q k d = ground (
  arith,
  mem_text-append q d (k ∷ []),
  λ (e : k ≡ q). ap (λ (t : Text). mem_text t d) e,
  eq_text_iff k q,
)

pub remove-IsConsistent :
    (k : Text) (u : Uploads) (d : List Text)
    → eq_text k skill_md ≡ false
    → IsConsistent u d
    → IsConsistent (remove k u) (add_deleted k d)
remove-IsConsistent k u d other h = record {
  apart = λ q m.
      lookup-remove k q u
      ∙ if_cases (λ (o : Option FileUpload). o ≡ none) (eq_text k q) (λ _. refl)
          (λ (e : eq_text k q ≡ false).
            h.apart q (ground (arith, mem_text-add_deleted q k d, e, m)));
  document = lookup-remove k skill_md u ∙ rw other h.document;
  present = mem_text-add_deleted skill_md k d ∙ rw (other, h.present) refl;
}

-- What the reads and the marks put where an upload is already.
pub update-IsConsistent :
    (k : Text) (old v : FileUpload) (u : Uploads) (d : List Text)
    → lookup k u ≡ some old
    → IsConsistent u d
    → IsConsistent (insert k v u) d
update-IsConsistent k old v u d there h =
    insert-IsConsistent k v u d
      (elim (Bool-cases (mem_text k d)) [ inl m ↦ cc (h.apart k m, there) | inr m ↦ m ])
      (elim (Bool-cases (eq_text k skill_md)) [
        | inl e ↦ cc (eq_text_sound k skill_md e, h.document, there)
        | inr e ↦ e
      ])
      h

fill-IsConsistent :
    (path content : Text) (u : Uploads) (d : List Text)
    → IsConsistent u d
    → IsConsistent (fill path content u) d
fill-IsConsistent path content u d h = elim (Option-cases (lookup path u)) [
  | inl e ↦ rw (fill_of_none path content u e) h
  | inr (old, e) ↦
      rw (fill_of_some path content u e)
        (update-IsConsistent path old (record old { content = content }) u d e h)
]

pub read_all-IsConsistent :
    (directory : Text) (chosen : List ChosenFile) (reads : List (Option Text)) (u : Uploads)
    (d : List Text) {v : Uploads}
    → read_all directory chosen reads u ≡ ok v
    → IsConsistent u d
    → IsConsistent v d
unfolding read_all
read_all-IsConsistent directory [] reads u d e h = rw (sym (ok-injective e)) h
read_all-IsConsistent directory (file ∷ rest) [] u d e h = absurd (err-ne-ok e)
read_all-IsConsistent directory (file ∷ rest) (none ∷ reads) u d e h = absurd (err-ne-ok e)
read_all-IsConsistent directory (file ∷ rest) (some content ∷ reads) u d e h =
    read_all-IsConsistent directory rest reads (fill (target directory file) content u) d e
      (fill-IsConsistent (target directory file) content u d h)

module _ (initial : Infos) (files : Uploads) (document_bytes : ℕ) (directory : Text) where
  pub place_all-IsConsistent :
      (chosen : List ChosenFile) (u : Uploads) (d : List Text) {placed : Uploads × List Text}
      → place_all initial files document_bytes directory chosen u d ≡ ok placed
      → IsConsistent u d
      → IsConsistent placed.0 placed.1
  unfolding place_all
  place_all-IsConsistent [] u d e h = rw (sym (ok-injective e)) h
  place_all-IsConsistent (file ∷ rest) u d e h =
      let (p, here, later) =
        bind-eq-ok (place initial files document_bytes directory file u d)
          (λ p. place_all initial files document_bytes directory rest p.0 p.1) e in
      let (safe, plain, small, (v, put), cut) =
        place-eq-ok initial files document_bytes directory file u d here in
      place_all-IsConsistent rest p.0 p.1 later
        (rw (put, cut) (place-IsConsistent (target directory file) v u d plain h))

pub other_of_mem :
    (k q : Text) (d : List Text) → mem_text k d ≡ false → mem_text q d ≡ true → eq_text k q ≡ false
other_of_mem k q d a b = elim (Bool-cases (eq_text k q)) [
  | inl e ↦ cc (eq_text_sound k q e, a, b)
  | inr e ↦ e
]

-- The handlers of the workspace.
module _ (web : Web) (props : Props) (w : Workspace)
    (h : IsConsistent w.uploads props.deleted) where
  document_listed : mem_text skill_md (paths_in web props w) ≡ true
  unfolding paths_in
  document_listed = mem_text-document web props.item w.uploads props.deleted h.present

  create-IsConsistent : IsConsistent (create_file web props w).uploads props.deleted
  create-IsConsistent = elim (create_file_cases web props w) [
    | inl e ↦ rw e h
    | inr (fit, made) ↦ record {
      apart =
          λ q m. made.others q (other_of_mem w.new_path q props.deleted fit.kept m) ∙ h.apart q m;
      document =
          made.others skill_md (
            other_of_mem w.new_path skill_md (paths_in web props w) (not_there web props w fit)
              document_listed)
          ∙ h.document;
      present = h.present;
    }
  ]

  active_not_deleted : mem_text (active_in web props w) props.deleted ≡ false
  unfolding active_in paths_in
  active_not_deleted =
      let both = and_split (mem_text (active_in web props w) (all_paths props.item w.uploads)) _ (
        sym (mem_text-paths web props.item w.uploads props.deleted (active_in web props w))
        ∙ mem_text-active web props.item w.uploads props.deleted w.selected h.present) in
      eq-false_of_not (mem_text (active_in web props w) props.deleted) (both.1)

  write-IsConsistent :
      (executable : Bool) (value : Text)
      → IsConsistent (change_text web props executable value w).uploads props.deleted
  unfolding change_text
  write-IsConsistent executable value =
      if_cases (λ (v : Workspace). IsConsistent v.uploads props.deleted)
        (eq_text (active_in web props w) skill_md) (λ _. h)
        (λ (other : eq_text (active_in web props w) skill_md ≡ false).
          insert-IsConsistent (active_in web props w) (encode_skill_text web value executable)
            w.uploads props.deleted active_not_deleted other h)

  pub press-IsConsistent : (p : Press) → IsConsistent (press web props p w).uploads props.deleted
  unfolding open_file
  press-IsConsistent (show_file path) = h
  press-IsConsistent (close path) = rw (close_tab-uploads web props path w) h
  press-IsConsistent create = create-IsConsistent
  press-IsConsistent (write executable value) = write-IsConsistent executable value
  press-IsConsistent (type_path value) = h
  press-IsConsistent (pick_mode mode) = h
  press-IsConsistent sidebar = h
  press-IsConsistent creating = h
  press-IsConsistent wrap = h
  press-IsConsistent (cursor line column) = h
