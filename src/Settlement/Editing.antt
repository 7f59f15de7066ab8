-- ===== src/Settlement/Editing.antt =====
-- Changing a rule's mode, and the preview.
use plugin_pocket.Base.{
  ◌≤◌, ◌≡◌, ◌≢◌, refl, ap, sym, ◌∙◌, ◌⊎◌, inl, inr, Bool, true, false, Option, none, some, arith,
  ltb, empty, trim, Result, ok, err, reject, reject-eq-ok, bind-eq-ok, ok-injective,
}
use plugin_pocket.Settlement.{
  Json, object, Members, Engine, Mode, default, path, pattern, script, json, RuleDraft, rule_draft,
  Problem, long_text, utf8_length, checked, settlement_at, settlement_value,
}
use plugin_pocket.Settlement.Editor.{
  PreviewBody, not_sent, pending, Editor, reset, change, leave, change_mode, body_of, sent,
  press_preview, preview_done, form,
}
use plugin_pocket.Settlement.Rules.{IsRule, settlement_at-IsRule, settlement_value-rule_draft}

module _ (js : Engine) where
  -- A rule of another mode passes the check of its script as it is.
  checked-IsRule :
      (mode : Mode) (d : RuleDraft) (m : Members)
      → IsRule js mode d m
      → mode ≢ json
      → checked js m ≡ ok m
  checked-IsRule default d m same n = rw same refl
  checked-IsRule path d m (e, same, parsed, full, short, fine) n = rw same refl
  checked-IsRule pattern d m (same, full, short) n = rw same refl
  checked-IsRule script d m (same, (full, short, compiles)) n =
      let fits : ltb 8192 (utf8_length d.script) ≡ false = ground arith in
      rw same (rw (full, fits, compiles) refl)
  checked-IsRule json d m e n = absurd (n refl)

  -- What the JSON mode reads of a rule that it was given.
  json_value :
      (m : Members) (d : RuleDraft)
      → js.parse (js.pretty (object m)) ≡ some (object m)
      → empty (trim (js.pretty (object m))) ≡ false
      → checked js m ≡ ok m
      → settlement_value js (record d { mode = json; json = js.pretty (object m) }) ≡ ok m
  unfolding settlement_value settlement_at
  json_value m d parsed full sound = rw (full, parsed, sound) refl

  settlement_at_mode :
      (mode other : Mode) (d : RuleDraft)
      → settlement_at js mode (record d { mode = other }) ≡ settlement_at js mode d
  unfolding settlement_at
  settlement_at_mode default other d = refl
  settlement_at_mode path other d = refl
  settlement_at_mode pattern other d = refl
  settlement_at_mode script other d = refl
  settlement_at_mode json other d = refl

  change_mode-json :
      (e : Editor) (m : Members)
      → settlement_value js e.value ≡ ok m
      → change_mode js json e
        ≡ change (record e.value { mode = json; json = js.pretty (object m) }) e
  unfolding change_mode
  change_mode-json e m h = rw h refl

  change_mode-leave :
      (mode : Mode) (e : Editor)
      → mode ≢ json
      → change_mode js mode e ≡ leave js mode e.value.mode e
  unfolding change_mode
  change_mode-leave default e n = refl
  change_mode-leave path e n = refl
  change_mode-leave pattern e n = refl
  change_mode-leave script e n = refl
  change_mode-leave json e n = absurd (n refl)

  -- If the draft's value is read back from how it is written, and its rule from how that is laid
  -- out, which is not blank: a draft that can be saved, taken to the JSON mode and back to its own,
  -- still gives the same rule, without a complaint.
  change_mode-change_mode :
      (e : Editor) (m : Members)
      → ((j : Json) → js.parse e.value.equals ≡ some j → js.parse (js.stringify j) ≡ some j)
      → js.parse (js.pretty (object m)) ≡ some (object m)
      → empty (trim (js.pretty (object m))) ≡ false
      → e.value.mode ≢ json
      → settlement_value js e.value ≡ ok m
      → (settlement_value js (change_mode js e.value.mode (change_mode js json e)).value ≡ ok m)
        × ((change_mode js e.value.mode (change_mode js json e)).value.mode ≡ e.value.mode)
        × ((change_mode js e.value.mode (change_mode js json e)).local_error ≡ none)
  unfolding settlement_value change reset
  change_mode-change_mode e m read read_pretty full n h =
      let rule = settlement_at-IsRule js e.value.mode e.value m h in
      let back =
        json_value m e.value read_pretty full (checked-IsRule e.value.mode e.value m rule n) in
      let (same, again) = settlement_value-rule_draft js e.value m read n h in
      rw (change_mode-json e m h) (
        rw (change_mode-leave e.value.mode _ n) (
          rw back (
            settlement_at_mode e.value.mode e.value.mode (rule_draft js m)
                ∙ ap (λ (x : Mode). settlement_at js x (rule_draft js m)) (sym same)
                ∙ again,
            refl,
            refl,
          )))

  -- What a press shows or sends: a complaint and nothing else, or a request within the limits.
  abbrev pub IsPressed : Editor → Bool → Option Bool → Editor → Type 0
  IsPressed e disabled answer f =
      (f.value ≡ e.value)
      × (f.text ≡ e.text)
      × (((p : Problem) × (body_of js e ≡ err p)
            × (f.preview ≡ not_sent)
            × (f.local_error ≡ some p))
          ⊎ ((b : PreviewBody) × (settlement_value js e.value ≡ ok b.settlement)
              × (utf8_length b.text ≤ 65536)
              × (f.preview ≡ pending b)
              × (f.local_error ≡ none)
              × ((form disabled f).button_disabled ≡ true)
              × ((form false (preview_done answer f)).button_disabled ≡ false)
              × ((form disabled (preview_done answer f)).charge ≡ answer)))

  body_of-eq-ok :
      (e : Editor) (b : PreviewBody)
      → body_of js e ≡ ok b
      → (settlement_value js e.value ≡ ok b.settlement) × (utf8_length b.text ≤ 65536)
  body_of-eq-ok e b h =
      let (m, settled, h) = bind-eq-ok (settlement_value js e.value) _ h in
      let (u, short, h) = bind-eq-ok (reject (ltb 65536 (utf8_length e.text)) long_text) _ h in
      let bound = reject-eq-ok _ _ short in
      let fits : utf8_length e.text ≤ 65536 = ground arith in
      let same = ok-injective h in
      (
        settled ∙ ap (λ (c : PreviewBody). ok c.settlement) same,
        rw (← ap (λ (c : PreviewBody). c.text) same) fits,
      )

  sent-IsPressed :
      (e : Editor) (disabled : Bool) (answer : Option Bool) (r : Result Problem PreviewBody)
      → body_of js e ≡ r
      → IsPressed e disabled answer (sent r (reset e))
  unfolding reset form preview_done
  sent-IsPressed e disabled answer (err p) h = (refl, refl, inl (p, h, refl, refl))
  sent-IsPressed e disabled none (ok b) h =
      let (settled, fits) = body_of-eq-ok e b h in
      (refl, refl, inr (b, settled, fits, refl, refl, ground arith, refl, refl))
  sent-IsPressed e disabled (some charge) (ok b) h =
      let (settled, fits) = body_of-eq-ok e b h in
      (refl, refl, inr (b, settled, fits, refl, refl, ground arith, refl, refl))

  -- A press of the preview button keeps the draft and the sample. It sends nothing and shows a
  -- complaint, or it complains of nothing and sends a rule that could be saved with a sample of at
  -- most 64 KiB; and then the button is disabled until the answer, which is shown, or its failure.
  press_preview-IsPressed :
      (e : Editor) (disabled : Bool) (answer : Option Bool)
      → IsPressed e disabled answer (press_preview js e)
  unfolding press_preview
  press_preview-IsPressed e disabled answer = sent-IsPressed e disabled answer (body_of js e) refl
