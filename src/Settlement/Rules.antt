-- ===== src/Settlement/Rules.antt =====
-- The rules that `settlementValue` lets through, and a rule that is opened again.
use plugin_pocket.Base.{
  ◌≤◌, ◌≡◌, ◌≢◌, refl, ap, sym, ◌∙◌, true, false, not, ◌||◌, Option, none, some, [], ◌∷◌, arith,
  Text, codes, if◌then◌else◌, ltb, length, empty, trim, trim_idem, length-trim, true_of_not, ok,
  reject, reject-eq-ok, or_false, bind-eq-ok, ok-injective,
}
use plugin_pocket.Settlement.{
  Json, object, Members, no_members, Engine, get, Mode, default, path, pattern, script, json,
  RuleDraft, mode_of, draft_of, rule_draft, Problem, bad_path, bad_equals, bad_pattern, bad_script,
  utf8_length, is_comparable, of_option, as_object, strict, check_script, checked, path_rule,
  pattern_rule, script_rule, settlement_at, settlement_value, string, boolean, number, null, array,
}

-- A script that is not blank, of at most 8192 bytes and of right syntax, or no script.
abbrev pub IsScript : Engine → Option Json → Type 0
IsScript js (some (string s)) =
    (empty (trim s) ≡ false) × (utf8_length s ≤ 8192) × (js.compiles (strict s) ≡ true)
IsScript js _ = Unit

check_script-IsScript :
    (js : Engine) (o : Option Json) {u : Unit {0}} → check_script js o ≡ ok u → IsScript js o
check_script-IsScript js none h = tt
check_script-IsScript js (some null) h = tt
check_script-IsScript js (some (boolean b)) h = tt
check_script-IsScript js (some (number n)) h = tt
check_script-IsScript js (some (array xs)) h = tt
check_script-IsScript js (some (object ms)) h = tt
check_script-IsScript js (some (string s)) h =
    let (u, sized, h) =
      bind-eq-ok (reject (empty (trim s) || ltb 8192 (utf8_length s)) bad_script) _ h in
    let (full, short) = or_false (empty (trim s)) _ (reject-eq-ok _ _ sized) in
    (full, ground arith, true_of_not _ (reject-eq-ok _ _ h))

checked-IsScript :
    (js : Engine) (value m : Members)
    → checked js value ≡ ok m
    → (value ≡ m) × IsScript js (get (codes "script") value)
checked-IsScript js value m h =
    let (u, sound, h) = bind-eq-ok (check_script js (get (codes "script") value)) _ h in
    (ok-injective h, check_script-IsScript js _ sound)

-- What is known of a rule that a draft of each mode gives.
abbrev pub IsRule : Engine → Mode → RuleDraft → Members → Type 0
IsRule js default d m = m ≡ no_members
IsRule js path d m =
    (equals : Json) × (m ≡ path_rule (trim d.path) equals)
    × (js.parse d.equals ≡ some equals)
    × (empty (trim d.path) ≡ false)
    × (length (trim d.path) ≤ 64)
    × (is_comparable equals ≡ true)
IsRule js pattern d m =
    (m ≡ pattern_rule d.pattern) × (empty d.pattern ≡ false) × (utf8_length d.pattern ≤ 256)
IsRule js script d m = (m ≡ script_rule d.script) × IsScript js (some (string d.script))
IsRule js json d m = IsScript js (get (codes "script") m)

of_option-eq-ok : (p : Problem) (o : Option Json) {j : Json} → of_option p o ≡ ok j → o ≡ some j
of_option-eq-ok p none h = cc
of_option-eq-ok p (some x) h = ap some (ok-injective h)

pub settlement_at-IsRule :
    (js : Engine) (mode : Mode) (d : RuleDraft) (m : Members)
    → settlement_at js mode d ≡ ok m
    → IsRule js mode d m
unfolding settlement_at
settlement_at-IsRule js default d m h = sym (ok-injective h)
settlement_at-IsRule js path d m h =
    let (u, sized, h) =
      bind-eq-ok (reject (empty (trim d.path) || ltb 64 (length d.path)) bad_path) _ h in
    let (e, parsed, h) = bind-eq-ok (of_option bad_equals (js.parse d.equals)) _ h in
    let (w, fine, h) = bind-eq-ok (reject (not (is_comparable e)) bad_equals) _ h in
    let (full, short) = or_false (empty (trim d.path)) _ (reject-eq-ok _ _ sized) in
    let trimmed = length-trim d.path in
    (
      e,
      sym (ok-injective h),
      of_option-eq-ok _ _ parsed,
      full,
      ground arith,
      true_of_not _ (reject-eq-ok _ _ fine),
    )
settlement_at-IsRule js pattern d m h =
    let (u, sized, h) =
      bind-eq-ok (reject (empty d.pattern || ltb 256 (utf8_length d.pattern)) bad_pattern) _ h in
    let (full, short) = or_false (empty d.pattern) _ (reject-eq-ok _ _ sized) in
    (sym (ok-injective h), full, ground arith)
settlement_at-IsRule js script d m h =
    let (same, sound) = checked-IsScript js (script_rule d.script) m h in (sym same, sound)
settlement_at-IsRule js json d m h =
    let (parsed, read, h) = bind-eq-ok (if empty (trim d.json) then _ else _) _ h in
    let (value, given, h) = bind-eq-ok (as_object parsed) _ h in
    let (same, sound) = checked-IsScript js value m h in rw (← same) sound

-- A rule that can be saved is of its mode's form and within the limits: a trimmed path of 1 to 64
-- code units with a value that can be compared with, a pattern of at most 256 bytes that is not
-- empty, or, also where it was written as JSON, a script of at most 8192 bytes that is not blank
-- and whose syntax is right.
pub settlement_value-IsRule :
    (js : Engine) (d : RuleDraft) (m : Members)
    → settlement_value js d ≡ ok m
    → IsRule js d.mode d m
unfolding settlement_value
settlement_value-IsRule js d m h = settlement_at-IsRule js d.mode d m h

module _ (js : Engine) where
  -- The draft of a rule has its mode, and gives the rule again.
  abbrev pub Reopens : Mode → Members → Type 0
  Reopens mode m =
      ((rule_draft js m).mode ≡ mode) × (settlement_at js mode (rule_draft js m) ≡ ok m)

  path_rule-Reopens :
      (p : Text) (e : Json)
      → empty p ≡ false
      → trim p ≡ p
      → length p ≤ 64
      → is_comparable e ≡ true
      → js.parse (js.stringify e) ≡ some e
      → Reopens path (path_rule p e)
  unfolding rule_draft draft_of mode_of settlement_at
  path_rule-Reopens p e full trimmed short fine read =
      let fits : ltb 64 (length p) ≡ false = ground arith in
      (rw full refl, rw (trimmed, full, fits, read, fine) refl)

  pattern_rule-Reopens :
      (p : Text) → empty p ≡ false → utf8_length p ≤ 256 → Reopens pattern (pattern_rule p)
  unfolding rule_draft draft_of mode_of settlement_at
  pattern_rule-Reopens p full short =
      let fits : ltb 256 (utf8_length p) ≡ false = ground arith in
      (rw full refl, rw (full, fits) refl)

  empty-trim : (s : Text) → empty (trim s) ≡ false → empty s ≡ false
  unfolding trim
  empty-trim [] h = h
  empty-trim (c ∷ s) h = refl

  script_rule-Reopens : (s : Text) → IsScript js (some (string s)) → Reopens script (script_rule s)
  unfolding rule_draft draft_of mode_of settlement_at
  script_rule-Reopens s (full, short, compiles) =
      let fits : ltb 8192 (utf8_length s) ≡ false = ground arith in
      let some_text = empty-trim s full in
      (rw some_text refl, rw (some_text, full, fits, compiles) refl)

  pub IsRule-Reopens :
      (mode : Mode) (d : RuleDraft) (m : Members)
      → IsRule js mode d m
      → mode ≢ json
      → ((j : Json) → js.parse d.equals ≡ some j → js.parse (js.stringify j) ≡ some j)
      → Reopens mode m
  unfolding rule_draft draft_of mode_of settlement_at
  IsRule-Reopens default d m e n read = rw e (refl, refl)
  IsRule-Reopens path d m (e, same, parsed, full, short, fine) n read =
      rw same (path_rule-Reopens (trim d.path) e full (trim_idem d.path) short fine (read e parsed))
  IsRule-Reopens pattern d m (same, full, short) n read =
      rw same (pattern_rule-Reopens d.pattern full short)
  IsRule-Reopens script d m (same, sound) n read = rw same (script_rule-Reopens d.script sound)
  IsRule-Reopens json d m e n read = absurd (n refl)

  -- If what the reader makes of the draft's value is read back from how it is written: a rule that
  -- was saved in any mode but the JSON one is opened in that mode again, and saving it again gives
  -- the same rule.
  pub settlement_value-rule_draft :
      (d : RuleDraft) (m : Members)
      → ((j : Json) → js.parse d.equals ≡ some j → js.parse (js.stringify j) ≡ some j)
      → d.mode ≢ json
      → settlement_value js d ≡ ok m
      → ((rule_draft js m).mode ≡ d.mode) × (settlement_value js (rule_draft js m) ≡ ok m)
  unfolding settlement_value
  settlement_value-rule_draft d m read n h =
      let (mode, again) = IsRule-Reopens d.mode d m (settlement_at-IsRule js d.mode d m h) n read in
      (mode, ap (λ (x : Mode). settlement_at js x (rule_draft js m)) mode ∙ again)
