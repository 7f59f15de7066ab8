-- ===== src/Skills/Tabs.antt =====
-- web/src/features/operations/SkillFileEditor.tsx: the tabs, and which of them a close leaves.
use plugin_pocket.Base.{
  ℕ, ◌+◌, ◌≤◌, ◌<◌, ◌≡◌, inl, inr, refl, sym, ap, ◌∙◌, Bool, true, false, List, [], ◌∷◌, ◌++◌,
  arith, Text, eq_text, eq_text_iff, eq_text_sound, eq_text_refl, Bool-cases, ltb, keep, length,
  or_else, last, mem_text, mem_text-append, mem_text-keep, without, mem_text-without,
  mem_text-without_self, AreDistinct, mem_text-distinct, distinct-AreDistinct, without-AreDistinct,
  without_of_not_mem, distinct-snoc, distinct_of_distinct,
}
use plugin_pocket.Attachments.{skill_md}
use plugin_pocket.Skills.{Web, opened}
use plugin_pocket.Skills.Paths.{mem_text-active}
use plugin_pocket.Skills.Workspace.{
  Props, Workspace, paths_in, active_in, opened_in, open_file, close_tab,
}
use plugin_pocket.Skills.Creating.{active_of_mem}

length-without :
    (x : Text) (xs : List Text) → AreDistinct xs → length xs ≤ length (without x xs) + 1
length-without x [] h = omega arith
length-without x (y ∷ ys) (one, more) =
    ground (arith, length-without x ys more, without_of_not_mem x ys, eq_text_iff y x)

mem_text-last :
    (xs : List Text) (d : Text) → 0 < length xs → mem_text (or_else (last xs) d) xs ≡ true
mem_text-last [] d h = ground arith
mem_text-last (x ∷ []) d h = rw (eq_text_refl x) refl
mem_text-last (x ∷ y ∷ ys) d h = ground (arith, mem_text-last (y ∷ ys) d)

keep_of_all :
    (p : Text → Bool) (xs : List Text)
    → ((q : Text) → mem_text q xs ≡ true → p q ≡ true)
    → keep p xs ≡ xs
keep_of_all p [] h = refl
keep_of_all p (x ∷ xs) h =
    let here : p x ≡ true = h x (rw (eq_text_refl x) refl) in
    rw here (ap (x ∷◌) (keep_of_all p xs (λ q m. h q (ground (arith, m)))))

-- Tabs of which all are there show as they are.
opened_of_mem :
    (rest ps : List Text) (now : Text)
    → AreDistinct rest
    → ((q : Text) → mem_text q rest ≡ true → mem_text q ps ≡ true)
    → mem_text now rest ≡ true
    → opened rest ps now ≡ rest
unfolding opened
opened_of_mem rest ps now one all_there h =
    rw (keep_of_all (λ path. mem_text path ps) rest all_there, distinct-snoc rest now, h)
      (distinct_of_distinct rest one)

opened-there :
    (tabs ps : List Text) (now q : Text)
    → mem_text now ps ≡ true
    → mem_text q (opened tabs ps now) ≡ true
    → mem_text q ps ≡ true
unfolding opened
opened-there tabs ps now q h k = ground (
  arith,
  mem_text-distinct q (keep (λ path. mem_text path ps) tabs ++ now ∷ []),
  mem_text-append q (keep (λ path. mem_text path ps) tabs) (now ∷ []),
  mem_text-keep q (λ path. mem_text path ps) tabs,
  λ (e : now ≡ q). ap (λ (t : Text). mem_text t ps) e,
  eq_text_iff now q,
)

opened-active : (tabs ps : List Text) (now : Text) → mem_text now (opened tabs ps now) ≡ true
unfolding opened
opened-active tabs ps now = ground (
  arith,
  mem_text-distinct now (keep (λ path. mem_text path ps) tabs ++ now ∷ []),
  mem_text-append now (keep (λ path. mem_text path ps) tabs) (now ∷ []),
  eq_text_refl now,
)

positive : (m n : ℕ) → ltb 1 n ≡ true → n ≤ m + 1 → 0 < m
positive m n more le = ground arith

module _ (web : Web) (props : Props) (w : Workspace)
    (there : mem_text skill_md props.deleted ≡ false) where
  active-there : mem_text (active_in web props w) (paths_in web props w) ≡ true
  unfolding active_in paths_in
  active-there = mem_text-active web props.item w.uploads props.deleted w.selected there

  opened_in-there :
      (q : Text)
      → mem_text q (opened_in web props w) ≡ true
      → mem_text q (paths_in web props w) ≡ true
  unfolding opened_in
  opened_in-there q =
      opened-there w.tabs (paths_in web props w) (active_in web props w) q active-there

  rest_there :
      (path q : Text)
      → mem_text q (without path (opened_in web props w)) ≡ true
      → mem_text q (paths_in web props w) ≡ true
  rest_there path q m = elim (Bool-cases (eq_text path q)) [
    | inl e ↦ cc (eq_text_sound path q e, mem_text-without_self path (opened_in web props w), m)
    | inr e ↦ opened_in-there q (sym (mem_text-without q path (opened_in web props w) e) ∙ m)
  ]

  distinct_tabs : AreDistinct (opened_in web props w)
  unfolding opened_in opened
  distinct_tabs =
      distinct-AreDistinct
        (keep (λ path. mem_text path (paths_in web props w)) w.tabs ++ active_in web props w ∷ [])

  -- The tabs of a workspace with the same uploads, whose tabs are the rest and whose active
  -- file is among them.
  rest_opened :
      (path now : Text)
      → mem_text now (without path (opened_in web props w)) ≡ true
      → opened (without path (opened_in web props w)) (paths_in web props w) now
        ≡ without path (opened_in web props w)
  rest_opened path now =
      opened_of_mem (without path (opened_in web props w)) (paths_in web props w) now
        (without-AreDistinct path (opened_in web props w) distinct_tabs) (rest_there path)

  closed_active :
      (path : Text)
      → ltb 1 (length (opened_in web props w)) ≡ true
      → opened_in web props (
          open_file
            (or_else (last (without path (opened_in web props w))) skill_md)
            (record w { tabs = without path (opened_in web props w) }))
        ≡ without path (opened_in web props w)
  unfolding opened_in active_in open_file paths_in
  closed_active path more =
      let rest = without path (opened_in web props w) in
      let next = or_else (last rest) skill_md in
      let chosen : mem_text next rest ≡ true = mem_text-last rest skill_md (
        positive (length rest) (length (opened_in web props w)) more
          (length-without path (opened_in web props w) distinct_tabs)) in
      rw (chosen, active_of_mem next (paths_in web props w) (rest_there path next chosen))
        (rest_opened path next chosen)

  closed_other :
      (path : Text)
      → eq_text path (active_in web props w) ≡ false
      → opened_in web props (record w { tabs = without path (opened_in web props w) })
        ≡ without path (opened_in web props w)
  unfolding opened_in active_in paths_in
  closed_other path other = rest_opened path (active_in web props w) (
      mem_text-without (active_in web props w) path (opened_in web props w) other
      ∙ opened-active w.tabs (paths_in web props w) (active_in web props w))

  closed_other_active :
      (path : Text)
      → active_in web props (record w { tabs = without path (opened_in web props w) })
        ≡ active_in web props w
  unfolding active_in paths_in
  closed_other_active path = refl

  -- While SKILL.md is not deleted, closing one of several tabs leaves exactly the other tabs, in
  -- their order, and the file on show stays on show unless its tab was the one closed.
  pub close_tab-opened :
      (path : Text)
      → ltb 1 (length (opened_in web props w)) ≡ true
      → (opened_in web props (close_tab web props path w) ≡ without path (opened_in web props w))
        × (eq_text path (active_in web props w) ≡ false
            → active_in web props (close_tab web props path w) ≡ active_in web props w)
  unfolding close_tab
  close_tab-opened path more = elim (Bool-cases (eq_text path (active_in web props w))) [
    | inl e ↦ (rw (more, e) (closed_active path more), λ other. cc (e, other))
    | inr e ↦ (rw (more, e) (closed_other path e), λ other. rw (more, e) (closed_other_active path))
  ]
