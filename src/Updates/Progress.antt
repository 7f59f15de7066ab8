-- ===== src/Updates/Progress.antt =====
-- What a check accepts, and the progress of a download.
use plugin_pocket.Base.{
  ℕ, ◌+◌, ◌≤◌, ◌<◌, min, ◌≡◌, refl, ap, ◌∙◌, ◌⊎◌, inl, inr, false, not, ◌&&◌, Option, none, some,
  List, [], ◌∷◌, map, arith, Text, ltb, empty, sum_of, Bool-cases, and_split, eq-false_of_not,
  Result, ok, err, err-ne-ok,
}
use plugin_pocket.Updates.{
  UpdateProgress, Update, Checked, update_available, no_update, current_version, parse_update,
  check, DownloadEvent, started, progressed, on_event, fresh, percent_of, percent,
}

-- The progress reported last in a run of events, if any, and the state of the download behind them.
abbrev pub run_events :
    List DownloadEvent
    → UpdateProgress × Option UpdateProgress
    → UpdateProgress × Option UpdateProgress
run_events [] s = s
run_events (e ∷ es) s = run_events es (on_event e s.0)

chunks_run :
    (d : UpdateProgress) (o : Option UpdateProgress) (chunk : ℕ) (cs : List ℕ)
    → (run_events (map progressed (chunk ∷ cs)) (d, o)).1
      ≡ some (record d { received = d.received + sum_of (λ c. c) (chunk ∷ cs) })
unfolding on_event
chunks_run d o chunk [] =
    let e : d.received + chunk ≡ d.received + (chunk + 0) = omega arith in rw (← e) refl
chunks_run d o chunk (c ∷ cs) =
    let again =
      chunks_run (record d { received = d.received + chunk })
        (some (record d { received = d.received + chunk })) c cs in
    let e : d.received + chunk + sum_of (λ x. x) (c ∷ cs)
        ≡ d.received + sum_of (λ x. x) (chunk ∷ c ∷ cs) =
      omega arith in
    rw e at again

-- Behind the start of a download, what was reported last after any chunks is their sum, of the
-- length that the start gave.
pub run_events-started :
    (length : Option ℕ) (chunk : ℕ) (cs : List ℕ)
    → (run_events (started length ∷ map progressed (chunk ∷ cs)) (fresh, none)).1
      ≡ some (record { received = sum_of (λ c. c) (chunk ∷ cs); total = length })
unfolding on_event
run_events-started length chunk cs =
    let e : 0 + sum_of (λ c. c) (chunk ∷ cs) ≡ sum_of (λ c. c) (chunk ∷ cs) = omega arith in
    chunks_run (record { received = 0; total = length })
      (some (record { received = 0; total = length })) chunk cs
    ∙ ap (λ (n : ℕ). some (record { received = n; total = length })) e

module _ (scale : ℕ → ℕ → ℕ)
    (rises : (a b total : ℕ) → a ≤ b → 0 < total → scale a total ≤ scale b total) where
  -- With a scale that never falls when more is received: a percentage that is shown is at most 100,
  -- and after more chunks of the same download one is shown again and is no smaller.
  percent-bounds :
      (d : UpdateProgress) (chunk : ℕ) (cs : List ℕ) (n : ℕ)
      → percent scale (some d) ≡ some n
      → (n ≤ 100)
        × ((m : ℕ) × (percent scale (run_events (map progressed (chunk ∷ cs)) (d, none)).1 ≡ some m)
            × (n ≤ m))
  unfolding percent
  percent-bounds d chunk cs n e = rw (chunks_run d none chunk cs) (bounds d.total e)
    where
      bounds :
          (total : Option ℕ)
          → percent_of scale d.received total ≡ some n
          → (n ≤ 100)
            × ((m : ℕ) × (percent_of scale (d.received + sum_of (λ c. c) (chunk ∷ cs)) total
                  ≡ some m)
                × (n ≤ m))
      bounds none e = cc
      bounds (some total) e = elim (Bool-cases (ltb 0 total)) [
        | inr bad ↦ absurd (ground arith)
        | inl some_total ↦
            let up =
              rises d.received (d.received + sum_of (λ c. c) (chunk ∷ cs)) total (omega arith)
                (ground arith) in
            let same : min 100 (scale d.received total) ≡ n = ground arith in
            (
              omega arith,
              (
                min 100 (scale (d.received + sum_of (λ c. c) (chunk ∷ cs)) total),
                rw some_total refl,
                omega arith,
              ),
            )
      ]

-- A check that ends well either found no update, and names the running version, or found one whose
-- two versions are not empty; what the panel gets is what the update says.
pub check_cases :
    (answer : Result (Unit {0}) (Option Update)) (running : Option Text) (bundled : Text)
    (r : Checked)
    → check answer running bundled ≡ ok r
    → ((answer ≡ ok none) × (r ≡ no_update (current_version running bundled)))
      ⊎ ((u : Update) × (answer ≡ ok (some u))
          × (empty u.current_version ≡ false)
          × (empty u.version ≡ false)
          × (r
              ≡ update_available (record {
                current_version = u.current_version;
                version = u.version;
                notes = u.body;
              })))
unfolding check parse_update
check_cases (err e) running bundled r h = cc
check_cases (ok none) running bundled r h = inl (refl, cc)
check_cases (ok (some u)) running bundled r h =
    elim (Bool-cases (not (empty u.current_version) && not (empty u.version))) [
      | inr bad ↦ absurd (err-ne-ok (rw bad at h))
      | inl good ↦
          let (a, b) = and_split (not (empty u.current_version)) (not (empty u.version)) good in
          inr (
            u,
            refl,
            eq-false_of_not (empty u.current_version) a,
            eq-false_of_not (empty u.version) b,
            cc,
          )
    ]
