-- ===== src/Skills/Paths.antt =====
-- The paths of a skill under changes of its uploads.
use mathlib.Core.List.{append_assoc}
use plugin_pocket.Base.{
  ◌+◌, ◌≡◌, refl, sym, ap, ◌∙◌, Bool, true, false, not, ◌&&◌, ◌||◌, Option, List, [], ◌∷◌, ◌++◌,
  arith, Text, eq_text, eq_text_refl, eq_text_sound, if◌then◌else◌, if_cases, Bool-cases, inl, inr,
  keep, keys, length, insert, mem_text-keys-insert, keys-insert, and_split, mem_text,
  mem_text-append, distinct, distinct-snoc, mem_text-distinct, mem_text-keep, mem_text-sort_by,
  length-sort_by,
}
use plugin_pocket.Attachments.{FileUpload, Uploads, skill_md}
use plugin_pocket.Skills.{Web, Item, files_of, manifest_of, all_paths, before, paths, active}

module _ (item : Option Item) (uploads : Uploads) where
  pub mem_text-all_paths :
      (q : Text)
      → mem_text q (all_paths item uploads) ≡ (
          eq_text skill_md q
          || (mem_text q (keys (files_of item))
              || (mem_text q (keys (manifest_of item)) || mem_text q (keys uploads))))
  mem_text-all_paths q =
      rw
        (
          mem_text-append q (keys (files_of item)) (keys (manifest_of item) ++ keys uploads),
          mem_text-append q (keys (manifest_of item)) (keys uploads),
        )
        refl

  all_paths-append :
      (k : Text)
      → all_paths item uploads ++ k ∷ []
        ≡ skill_md ∷ (keys (files_of item) ++ (keys (manifest_of item) ++ (keys uploads ++ k ∷ [])))
  all_paths-append k = ap (skill_md ∷◌) (
      append_assoc (keys (files_of item)) (keys (manifest_of item) ++ keys uploads) (k ∷ [])
      ∙ ap (λ (xs : List Text). keys (files_of item) ++ xs)
          (append_assoc (keys (manifest_of item)) (keys uploads) (k ∷ [])))

  all_paths-insert :
      (k : Text) (u : FileUpload)
      → distinct (all_paths item (insert k u uploads)) ≡ (
          if mem_text k (all_paths item uploads)
          then distinct (all_paths item uploads)
          else distinct (all_paths item uploads) ++ k ∷ [])
  all_paths-insert k u = elim (Bool-cases (mem_text k (keys uploads))) [
    | inl e ↦
        let there : mem_text k (all_paths item uploads) ≡ true =
          mem_text-all_paths k ∙ ground (arith, e) in
        rw (keys-insert k u uploads, e, there) refl
    | inr e ↦
        rw (keys-insert k u uploads, e)
          (ap distinct (sym (all_paths-append k)) ∙ distinct-snoc (all_paths item uploads) k)
  ]

length-keep-snoc :
    (p : Text → Bool) (xs : List Text) (k : Text)
    → p k ≡ true
    → length (keep p (xs ++ k ∷ [])) ≡ length (keep p xs) + 1
length-keep-snoc p [] k h = rw h (omega arith)
length-keep-snoc p (x ∷ xs) k h = ground (arith, length-keep-snoc p xs k h)

module _ (web : Web) (item : Option Item) (uploads : Uploads) (deleted : List Text) where
  pub mem_text-paths :
      (q : Text)
      → mem_text q (paths web item uploads deleted)
        ≡ (mem_text q (all_paths item uploads) && not (mem_text q deleted))
  unfolding paths
  mem_text-paths q =
      mem_text-sort_by (before web) q
        (keep (λ path. not (mem_text path deleted)) (distinct (all_paths item uploads)))
      ∙ mem_text-keep q (λ path. not (mem_text path deleted)) (distinct (all_paths item uploads))
      ∙ ap (λ b. b && not (mem_text q deleted)) (mem_text-distinct q (all_paths item uploads))

shuffle :
    (a b c d e f : Bool)
    → (d ≡ true → f ≡ false)
    → ((a || (b || (c || (d || e)))) && not f) ≡ (d || ((a || (b || (c || e))) && not f))
shuffle a b c d e f h = ground arith

module _ (web : Web) (item : Option Item) (uploads : Uploads) (deleted : List Text) where
  -- A new upload at a path that is not deleted adds that path, unless it is there.
  pub paths-insert_of_mem :
      (k : Text) (u : FileUpload)
      → mem_text k (paths web item uploads deleted) ≡ true
      → paths web item (insert k u uploads) deleted ≡ paths web item uploads deleted
  unfolding paths
  paths-insert_of_mem k u h =
      let both =
        and_split (mem_text k (all_paths item uploads)) (not (mem_text k deleted))
          (sym (mem_text-paths web item uploads deleted k) ∙ h) in
      rw (all_paths-insert item uploads k u, both.0) refl

  pub mem_text-paths-insert :
      (q k : Text) (u : FileUpload)
      → mem_text k deleted ≡ false
      → mem_text q (paths web item (insert k u uploads) deleted)
        ≡ (eq_text k q || mem_text q (paths web item uploads deleted))
  mem_text-paths-insert q k u kept =
      mem_text-paths web item (insert k u uploads) deleted q
      ∙ ap (λ b. b && not (mem_text q deleted))
          (mem_text-all_paths item (insert k u uploads) q
            ∙ rw (mem_text-keys-insert q k u uploads) refl)
      ∙ shuffle (eq_text skill_md q) (mem_text q (keys (files_of item)))
          (mem_text q (keys (manifest_of item))) (eq_text k q) (mem_text q (keys uploads))
          (mem_text q deleted) (λ (e : eq_text k q ≡ true). rw (sym (eq_text_sound k q e)) kept)
      ∙ ap (eq_text k q ||◌) (
          sym (
            mem_text-paths web item uploads deleted q
            ∙ ap (λ b. b && not (mem_text q deleted)) (mem_text-all_paths item uploads q)))

  pub length-paths-insert :
      (k : Text) (u : FileUpload)
      → mem_text k (paths web item uploads deleted) ≡ false
      → mem_text k deleted ≡ false
      → length (paths web item (insert k u uploads) deleted)
        ≡ length (paths web item uploads deleted) + 1
  unfolding paths
  length-paths-insert k u h kept =
      let absent : mem_text k (all_paths item uploads) ≡ false =
        ground (arith, mem_text-paths web item uploads deleted k) in
      let kept_paths = λ (path : Text). not (mem_text path deleted) in
      let old = distinct (all_paths item uploads) in
      rw
        (
          length-sort_by (before web)
              (keep kept_paths (distinct (all_paths item (insert k u uploads)))),
          all_paths-insert item uploads k u,
          absent,
          length-sort_by (before web) (keep kept_paths old),
        )
        (length-keep-snoc kept_paths old k (rw kept refl))

  pub mem_text-document :
      mem_text skill_md deleted ≡ false → mem_text skill_md (paths web item uploads deleted) ≡ true
  mem_text-document h =
      mem_text-paths web item uploads deleted skill_md
      ∙ ground (arith, h, mem_text-all_paths item uploads skill_md, eq_text_refl skill_md)

  pub mem_text-active :
      (selected : Text)
      → mem_text skill_md deleted ≡ false
      → mem_text (active selected (paths web item uploads deleted)) (paths web item uploads deleted)
        ≡ true
  unfolding active
  mem_text-active selected h =
      if_cases (λ (path : Text). mem_text path (paths web item uploads deleted) ≡ true)
        (mem_text selected (paths web item uploads deleted))
        (λ (e : mem_text selected (paths web item uploads deleted) ≡ true). e)
        (λ _. mem_text-document h)
