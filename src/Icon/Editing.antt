-- ===== src/Icon/Editing.antt =====
-- The icon's editor: a reading that was overtaken changes nothing.
use plugin_pocket.Base.{
  ◌+◌, ◌≤◌, ◌<◌, ◌≡◌, refl, ◌∙◌, Bool, true, false, Option, none, some, arith, Text, if_cases, ◌==◌,
  Result, ok, err,
}
use plugin_pocket.Icon.{Web, Problem, parse_icon}
use plugin_pocket.Icon.Editor.{
  Editor, Task, File, report, accepted, accept, is_refused, choose, named, taken, finish, clear,
  typed, set_draft,
}

module _ (web : Web) where
  -- What happens to an editor.
  pub data Event : Type 0 where
    choosing : Option File → Event
    ending : Task → Problem → Option Text → Event
    clearing : Event
    typing : Text → Event

  abbrev pub happen : Event → Editor → Editor
  happen (choosing f) e = (choose f e).0
  happen (ending t p source) e = finish web t p source e
  happen clearing e = clear e
  happen (typing text) e = set_draft web text e

  pub data Reach (e : Editor) : Editor → Type 0 where
    here : Reach e e
    step : {f : Editor} → Reach e f → (v : Event) → Reach e (happen v f)

  accepted-revision :
      (r : Result Problem Text) (e : Editor) → (accepted r e).0.revision ≡ e.revision
  unfolding report
  accepted-revision (err p) e = refl
  accepted-revision (ok next) e = refl

  named-revision : (name : Text) (r : Editor × Bool) → (named name r).revision ≡ r.0.revision
  named-revision name (e, true) = refl
  named-revision name (e, false) = refl

  typed-revision : (r : Editor × Bool) → (typed r).revision ≡ r.0.revision
  typed-revision (e, true) = refl
  typed-revision (e, false) = refl

  taken-revision :
      (name : Text) (p : Problem) (source : Option Text) (e : Editor)
      → (taken web name p source e).revision ≡ e.revision
  unfolding report accept
  taken-revision name p none e = refl
  taken-revision name p (some source) e =
      named-revision name (accepted (parse_icon web source) e)
      ∙ accepted-revision (parse_icon web source) e

  -- A use of the field, the file input with a file or the remove button.
  abbrev pub IsUse : Event → Type 0
  IsUse (choosing (some f)) = Unit
  IsUse clearing = Unit
  IsUse (typing text) = Unit
  IsUse _ = ⊥

  choose-revision : (f : File) (e : Editor) → (choose (some f) e).0.revision ≡ e.revision + 1
  unfolding choose report
  choose-revision f e =
      if_cases (λ (r : Editor × Option Task). r.0.revision ≡ e.revision + 1) (is_refused f)
        (λ _. refl) (λ _. refl)

  set_draft-revision : (text : Text) (e : Editor) → (set_draft web text e).revision ≡ e.revision + 1
  unfolding set_draft accept
  set_draft-revision text e =
      typed-revision (accepted (parse_icon web text) _) ∙ accepted-revision (parse_icon web text) _

  happen-uses : (v : Event) (e : Editor) → IsUse v → (happen v e).revision ≡ e.revision + 1
  unfolding clear report
  happen-uses (choosing none) e u = absurd u
  happen-uses (choosing (some f)) e u = choose-revision f e
  happen-uses (ending t p source) e u = absurd u
  happen-uses clearing e u = refl
  happen-uses (typing text) e u = set_draft-revision text e

  happen-keeps : (v : Event) (e : Editor) → e.revision ≤ (happen v e).revision
  unfolding choose finish
  happen-keeps (choosing none) e = omega arith
  happen-keeps (choosing (some f)) e = omega (arith, choose-revision f e)
  happen-keeps (ending t p source) e =
      if_cases (λ (f : Editor). e.revision ≤ f.revision) (e.revision == t.current)
        (λ _. omega (arith, taken-revision t.name p source e)) (λ _. omega arith)
  happen-keeps clearing e = omega (arith, happen-uses clearing e tt)
  happen-keeps (typing text) e = omega (arith, set_draft-revision text e)

  Reach-revision : {e f : Editor} → Reach e f → e.revision ≤ f.revision
  Reach-revision here = omega arith
  Reach-revision {e} (step {f} r v) = omega (arith, Reach-revision r, happen-keeps v f)

  -- Once the field was typed in, the icon removed or a file chosen, the end of an earlier reading
  -- changes nothing, however it ends and whatever has happened since.
  finish-overtaken :
      (e f : Editor) (t : Task) (v : Event) (p : Problem) (source : Option Text)
      → t.current ≤ e.revision
      → IsUse v
      → Reach (happen v e) f
      → finish web t p source f ≡ f
  unfolding finish
  finish-overtaken e f t v p source known u r =
      let later : t.current < f.revision = omega (arith, Reach-revision r, happen-uses v e u) in
      if_cases (λ (g : Editor). g ≡ f) (f.revision == t.current) (λ same. absurd (ground arith))
        (λ _. refl)
