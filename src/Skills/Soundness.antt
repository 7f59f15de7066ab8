-- ===== src/Skills/Soundness.antt =====
-- web/src/features/operations/SkillFileEditor.tsx: what every run of the handlers keeps.
use plugin_pocket.Base.{
  ℕ, ◌≤◌, ◌≡◌, inl, inr, refl, sym, ap, ◌∙◌, Bool, true, false, ◌||◌, List, [], ◌∷◌, arith, Text,
  eq_text, eq_text_iff, eq_text_sound, eq_text_refl, if_cases, Bool-cases, ltb, length, mem_text,
}
use plugin_pocket.Attachments.{skill_md}
use plugin_pocket.Skills.{Web, encode_skill_text, paths}
use plugin_pocket.Skills.Paths.{paths-insert_of_mem, mem_text-active}
use plugin_pocket.Skills.Workspace.{
  Mode, Props, Workspace, clashes, paths_in, active_in, opened_in, open_file, create_file,
  close_tab, change_text, toggle_sidebar, toggle_creating, set_new_path, set_mode, toggle_wrap,
  move_cursor,
}
use plugin_pocket.Skills.Creating.{IsFitting, IsCreated, create_file_cases}

-- What the user can do in the workspace.
pub data Press : Type 0 where
  show_file close : Text → Press
  create : Press
  write : Bool → Text → Press
  type_path : Text → Press
  pick_mode : Mode → Press
  sidebar creating wrap : Press
  cursor : ℕ → ℕ → Press

or_right : (a b : Bool) → a ≡ false → (a || b) ≡ true → b ≡ true
or_right a b h k = ground arith

module _ (web : Web) (props : Props) where
  abbrev pub press : Press → Workspace → Workspace
  press (show_file path) w = open_file path w
  press (close path) w = close_tab web props path w
  press create w = create_file web props w
  press (write executable value) w = change_text web props executable value w
  press (type_path value) w = set_new_path value w
  press (pick_mode mode) w = set_mode mode w
  press sidebar w = toggle_sidebar w
  press creating w = toggle_creating w
  press wrap w = toggle_wrap w
  press (cursor line column) w = move_cursor line column w

  abbrev pub press_all : List Press → Workspace → Workspace
  press_all [] w = w
  press_all (p ∷ ps) w = press_all ps (press p w)

  -- At most 32 files, and no two that differ at most by case or with one in the place of the
  -- other's folder.
  pub record IsSound (ps : List Text) : Type 0 where
    pub few : length ps ≤ 32
    pub apart :
        (a b : Text)
        → mem_text a ps ≡ true
        → mem_text b ps ≡ true
        → eq_text a b ≡ false
        → clashes web a b ≡ false

  IsSound-same :
      (v w : Workspace)
      → w.uploads ≡ v.uploads
      → IsSound (paths_in web props v)
      → IsSound (paths_in web props w)
  unfolding paths_in
  IsSound-same v w e h = rw e h

  clashes_comm : (a b : Text) → clashes web a b ≡ clashes web b a
  unfolding clashes
  clashes_comm a b = ground (
    arith,
    eq_text_iff (web.to_lower a) (web.to_lower b),
    eq_text_iff (web.to_lower b) (web.to_lower a),
  )

  one_more-apart :
      (n : Text) (ps : List Text)
      → ((q : Text) → mem_text q ps ≡ true → clashes web n q ≡ false)
      → ((a b : Text)
          → mem_text a ps ≡ true
          → mem_text b ps ≡ true
          → eq_text a b ≡ false
          → clashes web a b ≡ false)
      → (a b : Text) → (eq_text n a || mem_text a ps) ≡ true
      → (eq_text n b || mem_text b ps) ≡ true
      → eq_text a b ≡ false
      → clashes web a b ≡ false
  one_more-apart n ps new old a b ma mb ne = elim (Bool-cases (eq_text n a)) [
    | inl ea ↦ elim (Bool-cases (eq_text n b)) [
      | inl eb ↦ cc (eq_text_sound n a ea, eq_text_sound n b eb, eq_text_refl a, ne)
      | inr eb ↦
          rw (sym (eq_text_sound n a ea)) (new b (or_right (eq_text n b) (mem_text b ps) eb mb))
    ]
    | inr ea ↦ elim (Bool-cases (eq_text n b)) [
      | inl eb ↦
          clashes_comm a b
          ∙ rw (sym (eq_text_sound n b eb)) (new a (or_right (eq_text n a) (mem_text a ps) ea ma))
      | inr eb ↦
          old a b (or_right (eq_text n a) (mem_text a ps) ea ma)
            (or_right (eq_text n b) (mem_text b ps) eb mb) ne
    ]
  ]

  IsSound-created :
      (before after : Workspace)
      → IsFitting web props before
      → IsCreated web props before after
      → IsSound (paths_in web props before)
      → IsSound (paths_in web props after)
  IsSound-created before after fit made h = record {
    few = rw made.one_more fit.fewer;
    apart = λ a b ma mb.
        one_more-apart before.new_path (paths_in web props before) fit.apart h.apart a b
          (sym (made.these a) ∙ ma) (sym (made.these b) ∙ mb);
  }

  create_file-IsSound :
      (w : Workspace)
      → IsSound (paths_in web props w)
      → IsSound (paths_in web props (create_file web props w))
  create_file-IsSound w h = elim (create_file_cases web props w) [
    | inl e ↦ IsSound-same w (create_file web props w) (ap (λ (v : Workspace). v.uploads) e) h
    | inr (fit, made) ↦ IsSound-created w (create_file web props w) fit made h
  ]

  pub close_tab-uploads :
      (path : Text) (w : Workspace) → (close_tab web props path w).uploads ≡ w.uploads
  unfolding close_tab open_file
  close_tab-uploads path w =
      let same = λ (v : Workspace). v.uploads ≡ w.uploads in
      if_cases same (ltb 1 (length (opened_in web props w)))
        (λ _. if_cases same (eq_text path (active_in web props w)) (λ _. refl) (λ _. refl))
        (λ _. refl)

  -- An edit changes no path.
  pub change_text-paths :
      (executable : Bool) (value : Text) (w : Workspace)
      → mem_text skill_md props.deleted ≡ false
      → paths_in web props (change_text web props executable value w) ≡ paths_in web props w
  unfolding change_text paths_in active_in
  change_text-paths executable value w there =
      if_cases
        (λ (v : Workspace). paths web props.item v.uploads props.deleted ≡ paths_in web props w)
        (eq_text (active_in web props w) skill_md) (λ _. refl)
        (λ _.
          paths-insert_of_mem web props.item w.uploads props.deleted (active_in web props w)
            (encode_skill_text web value executable)
            (mem_text-active web props.item w.uploads props.deleted w.selected there))

  press-IsSound :
      (p : Press) (w : Workspace)
      → mem_text skill_md props.deleted ≡ false
      → IsSound (paths_in web props w)
      → IsSound (paths_in web props (press p w))
  unfolding open_file
  press-IsSound (show_file path) w there h = IsSound-same w (open_file path w) refl h
  press-IsSound (close path) w there h =
      IsSound-same w (close_tab web props path w) (close_tab-uploads path w) h
  press-IsSound create w there h = create_file-IsSound w h
  press-IsSound (write executable value) w there h =
      rw (change_text-paths executable value w there) h
  press-IsSound (type_path value) w there h = IsSound-same w (set_new_path value w) refl h
  press-IsSound (pick_mode mode) w there h = IsSound-same w (set_mode mode w) refl h
  press-IsSound sidebar w there h = IsSound-same w (toggle_sidebar w) refl h
  press-IsSound creating w there h = IsSound-same w (toggle_creating w) refl h
  press-IsSound wrap w there h = IsSound-same w (toggle_wrap w) refl h
  press-IsSound (cursor line column) w there h = IsSound-same w (move_cursor line column w) refl h

  -- While SKILL.md is not deleted, whatever is pressed and written in the workspace, a package of
  -- at most 32 files without clashes stays one.
  pub press_all-IsSound :
      (ps : List Press) (w : Workspace)
      → mem_text skill_md props.deleted ≡ false
      → IsSound (paths_in web props w)
      → IsSound (paths_in web props (press_all ps w))
  press_all-IsSound [] w there h = h
  press_all-IsSound (p ∷ ps) w there h =
      press_all-IsSound ps (press p w) there (press-IsSound p w there h)
