-- ===== src/Skills/Creating.antt =====
-- web/src/features/operations/SkillFileEditor.tsx: what the creation of a file and the other
-- handlers keep of a package.
use plugin_pocket.Base.{
  ℕ, ◌+◌, ◌≤◌, ◌≡◌, ◌⊎◌, inl, inr, refl, ap, ◌∙◌, Bool, true, false, not, ◌||◌, some, List, [], ◌∷◌,
  arith, Text, eq_text, eq_text_iff, eq_text_refl, Bool-cases, leb, or_false, true_of_not, any,
  length, lookup, insert, lookup-insert, mem_text,
}
use plugin_pocket.Files.{safe_file_path}
use plugin_pocket.Skills.{Web, encode_skill_text, paths, active}
use plugin_pocket.Skills.Paths.{length-paths-insert, mem_text-paths-insert}
use plugin_pocket.Skills.Workspace.{
  edit, Props, Workspace, clashes, paths_in, active_in, open_file, refuses, created, create_file,
}

any-false_of_mem :
    (p : Text → Bool) (xs : List Text) (q : Text)
    → any p xs ≡ false
    → mem_text q xs ≡ true
    → p q ≡ false
any-false_of_mem p [] q h k = cc
any-false_of_mem p (x ∷ xs) q h k =
    ground (arith, any-false_of_mem p xs q, eq_text_iff x q, λ (e : x ≡ q). ap p e)

clashes_self : (web : Web) (path : Text) → clashes web path path ≡ true
unfolding clashes
clashes_self web path = rw (eq_text_refl (web.to_lower path)) refl

pub active_of_mem : (path : Text) (ps : List Text) → mem_text path ps ≡ true → active path ps ≡ path
unfolding active
active_of_mem path ps h = rw h refl

module _ (web : Web) (props : Props) where
  pub record IsFitting (w : Workspace) : Type 0 where
    pub safe : safe_file_path w.new_path ≡ true
    pub apart :
        (q : Text) → mem_text q (paths_in web props w) ≡ true → clashes web w.new_path q ≡ false
    pub kept : mem_text w.new_path props.deleted ≡ false
    pub fewer : length (paths_in web props w) + 1 ≤ 32

  refuses-false : (w : Workspace) → refuses web props w ≡ false → IsFitting w
  unfolding refuses
  refuses-false w h =
      let one = or_false (not (safe_file_path w.new_path)) _ h in
      let two = or_false (any (clashes web w.new_path) (paths_in web props w)) _ (one.1) in
      let three = or_false (mem_text w.new_path props.deleted) _ (two.1) in
      record {
        safe = true_of_not (safe_file_path w.new_path) (one.0);
        apart = λ q. any-false_of_mem (clashes web w.new_path) (paths_in web props w) q (two.0);
        kept = three.0;
        fewer = few (length (paths_in web props w)) (three.1);
      }
    where
      few : (n : ℕ) → leb 32 n ≡ false → n + 1 ≤ 32
      few n e = ground arith

  pub not_there : (w : Workspace) → IsFitting w → mem_text w.new_path (paths_in web props w) ≡ false
  not_there w fit = elim (Bool-cases (mem_text w.new_path (paths_in web props w))) [
    | inl e ↦ cc (fit.apart w.new_path e, clashes_self web w.new_path)
    | inr e ↦ e
  ]

  -- The package after a file was created.
  pub record IsCreated (before after : Workspace) : Type 0 where
    pub one_more : length (paths_in web props after) ≡ length (paths_in web props before) + 1
    pub these :
        (q : Text)
        → mem_text q (paths_in web props after)
          ≡ (eq_text before.new_path q || mem_text q (paths_in web props before))
    pub shown : active_in web props after ≡ before.new_path
    pub in_editor : after.mode ≡ edit
    pub blank : lookup before.new_path after.uploads ≡ some (encode_skill_text web [] false)
    pub others :
        (q : Text)
        → eq_text before.new_path q ≡ false
        → lookup q after.uploads ≡ lookup q before.uploads

  created-IsCreated : (w : Workspace) → IsFitting w → IsCreated w (created web props w)
  unfolding paths_in active_in open_file insert
  created-IsCreated w fit =
      let blank_file = encode_skill_text web [] false in
      let new = mem_text-paths-insert web props.item w.uploads props.deleted in
      record {
        one_more =
            length-paths-insert web props.item w.uploads props.deleted w.new_path blank_file
              (not_there w fit) fit.kept;
        these = λ q. new q w.new_path blank_file fit.kept;
        shown =
            active_of_mem w.new_path
              (paths web props.item (insert w.new_path blank_file w.uploads) props.deleted)
              (new w.new_path w.new_path blank_file fit.kept ∙ rw (eq_text_refl w.new_path) refl);
        in_editor = refl;
        blank =
            lookup-insert w.new_path w.new_path blank_file w.uploads
            ∙ rw (eq_text_refl w.new_path) refl;
        others = λ q e. lookup-insert w.new_path q blank_file w.uploads ∙ rw e refl;
      }

  -- What the button that creates a file does: either the path is refused, and only the message is
  -- new; or the path is safe, clashes with none of the package and was not deleted, and the package
  -- has exactly that path more, at most 32 in all, the file blank and on show for editing, and
  -- every other upload as before.
  pub create_file_cases :
      (w : Workspace)
      → (create_file web props w ≡ record w { refused = true })
        ⊎ (IsFitting w × IsCreated w (create_file web props w))
  unfolding create_file
  create_file_cases w = elim (Bool-cases (refuses web props w)) [
    | inl e ↦ inl (rw e refl)
    | inr e ↦ let fit = refuses-false w e in inr (fit, rw e (created-IsCreated w fit))
  ]
