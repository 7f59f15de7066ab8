-- ===== src/Updates/Runs.antt =====
-- The panel as its checks, its downloads and its buttons change it, in whatever order they end.
use plugin_pocket.Base.{
  ℕ, ◌+◌, suc, ◌≡◌, ◌≢◌, refl, ◌⊎◌, inl, inr, Bool, true, false, Option, none, some, List, [], ◌∷◌,
  arith, Text, Result, ok, err, is_some,
}
use plugin_pocket.Updates.{
  UpdateInfo, UpdateProgress, Checked, update_available, no_update, Phase, idle, available,
  uptodate, ready, error, checking, downloading, Panel, opened, silent_done, version_done,
  check_start, check_done, install_start, install_progress, install_done, put_off, Action,
  check_now, install, later, shown, buttons, nothing, offered, restart,
}

-- The panel, with what is under way: the check at the start, checks and downloads.
pub record World : Type 0 where
  pub panel : Panel
  pub silent : Bool
  pub checks : ℕ
  pub installs : ℕ

abbrev pub start : World
start = record { panel = opened; silent = true; checks = 0; installs = 0 }

-- Whether an action's button is on show.
abbrev pub Has : Action → List Action → Type 0
Has a [] = ⊥
Has a (b ∷ bs) = (b ≡ a) ⊎ Has a bs

module _ (scale : ℕ → ℕ → ℕ) where
  abbrev pub Offers : Panel → Action → Type 0
  Offers p a = Has a (buttons (shown scale p))

  -- One event while the panel is mounted.
  pub data Step (w : World) : World → Type 0 where
    silent_ended :
        (r : Result (Unit {0}) Checked)
        → w.silent ≡ true
        → Step w (record w { panel = silent_done false r w.panel; silent = false })
    version_ended : (v : Text) → Step w (record w { panel = version_done false v w.panel })
    check_pressed :
        Offers w.panel check_now
        → Step w (record w { panel = check_start w.panel; checks = w.checks + 1 })
    check_ended :
        (n : ℕ) (r : Result (Unit {0}) Checked)
        → w.checks ≡ suc n
        → Step w (record w { panel = check_done r w.panel; checks = n })
    install_pressed :
        Offers w.panel install
        → Step w (record w { panel = install_start w.panel; installs = w.installs + 1 })
    install_reported :
        (d : UpdateProgress) → Step w (record w { panel = install_progress d w.panel })
    install_ended :
        (n : ℕ) (r : Result (Unit {0}) (Unit {0}))
        → w.installs ≡ suc n
        → Step w (record w { panel = install_done r w.panel; installs = n })
    later_pressed : Offers w.panel later → Step w (record w { panel = put_off w.panel })

  pub data Reach (w : World) : World → Type 0 where
    here : Reach w w
    step : {u v : World} → Reach w u → Step u v → Reach w v

-- An update on offer is known.
abbrev pub IsKnown : Phase → Option UpdateInfo → Type 0
IsKnown available info = is_some info ≡ true
IsKnown _ info = Unit

-- What is under way when the panel says so.
abbrev pub IsBusy : Phase → ℕ → ℕ → Type 0
IsBusy checking checks installs = (n : ℕ) × (checks ≡ suc n)
IsBusy downloading checks installs = (n : ℕ) × (installs ≡ suc n)
IsBusy _ checks installs = Unit

abbrev pub IsSound : World → Type 0
IsSound w = IsKnown w.panel.phase w.panel.info × IsBusy w.panel.phase w.checks w.installs

silent_done-IsSound :
    (r : Result (Unit {0}) Checked) (w : World)
    → IsSound w
    → IsSound (record w { panel = silent_done false r w.panel; silent = false })
unfolding silent_done
silent_done-IsSound (err e) w s = s
silent_done-IsSound (ok (update_available i)) w s = (refl, tt)
silent_done-IsSound (ok (no_update v)) w s = s

check_done-IsSound :
    (r : Result (Unit {0}) Checked) (w : World) (n : ℕ)
    → IsSound (record w { panel = check_done r w.panel; checks = n })
unfolding check_done
check_done-IsSound (err e) w n = (tt, tt)
check_done-IsSound (ok (update_available i)) w n = (refl, tt)
check_done-IsSound (ok (no_update v)) w n = (tt, tt)

install_done-IsSound :
    (r : Result (Unit {0}) (Unit {0})) (w : World) (n : ℕ)
    → IsSound (record w { panel = install_done r w.panel; installs = n })
unfolding install_done
install_done-IsSound (err e) w n = (tt, tt)
install_done-IsSound (ok done) w n = (tt, tt)

-- Once a panel is gone, the end of its first check and of its reading of the version change nothing;
-- while it is there, the first check takes it out of any phase when it finds an update, and
-- otherwise leaves its phase and what it offers.
pub silent_done_cases :
    (cancelled : Bool) (r : Result (Unit {0}) Checked) (v : Text) (p : Panel)
    → ((cancelled ≡ true) × (silent_done cancelled r p ≡ p) × (version_done cancelled v p ≡ p))
      ⊎ ((i : UpdateInfo) × (r ≡ ok (update_available i))
          × ((silent_done cancelled r p).phase ≡ available)
          × ((silent_done cancelled r p).info ≡ some i))
      ⊎ (((silent_done cancelled r p).phase ≡ p.phase)
          × ((silent_done cancelled r p).info ≡ p.info))
unfolding silent_done version_done
silent_done_cases true (err e) v p = inl (refl, refl, refl)
silent_done_cases true (ok r) v p = inl (refl, refl, refl)
silent_done_cases false (err e) v p = inr (inr (refl, refl))
silent_done_cases false (ok (update_available i)) v p = inr (inl (i, refl, refl, refl))
silent_done_cases false (ok (no_update version)) v p = inr (inr (refl, refl))

module _ (scale : ℕ → ℕ → ℕ) where
  Step-IsSound : {w x : World} → Step scale w x → IsSound w → IsSound x
  unfolding version_done check_start install_start install_progress put_off
  Step-IsSound {w} (silent_ended r e) s = silent_done-IsSound r w s
  Step-IsSound (version_ended v) s = s
  Step-IsSound {w} (check_pressed o) s = (tt, (w.checks, omega arith))
  Step-IsSound {w} (check_ended n r e) s = check_done-IsSound r w n
  Step-IsSound {w} (install_pressed o) s = (tt, (w.installs, omega arith))
  Step-IsSound (install_reported d) s = s
  Step-IsSound {w} (install_ended n r e) s = install_done-IsSound r w n
  Step-IsSound (later_pressed o) s = (tt, tt)

  Reach-IsSound : {w x : World} → Reach scale w x → IsSound w → IsSound x
  Reach-IsSound here s = s
  Reach-IsSound (step r s) h = Step-IsSound s (Reach-IsSound r h)

  -- The panel offers something to do, or what it waits for is under way.
  abbrev pub IsAlive : World → Type 0
  IsAlive w =
      ((a : Action) × Offers scale w.panel a)
      ⊎ ((shown scale w.panel ≢ nothing) × (w.checks + w.installs ≢ 0))

  IsKnown-IsAlive :
      (p : Phase) (w : World)
      → w.panel.phase ≡ p
      → IsKnown p w.panel.info
      → IsBusy p w.checks w.installs
      → IsAlive w
  unfolding shown
  IsKnown-IsAlive idle w e k b = inl (check_now, rw e (inl refl))
  IsKnown-IsAlive checking w e k (n, b) = inr (rw e (λ q. cc), λ q. omega arith)
  IsKnown-IsAlive available w e k b = inl (install, rw e (offer_has w.panel w.panel.info k))
    where
      offer_has :
          (p : Panel) (o : Option UpdateInfo)
          → is_some o ≡ true
          → Has install (buttons (offered p o))
      offer_has p none h = cc
      offer_has p (some i) h = inl refl
  IsKnown-IsAlive uptodate w e k b = inl (check_now, rw e (inl refl))
  IsKnown-IsAlive downloading w e k (n, b) = inr (rw e (λ q. cc), λ q. omega arith)
  IsKnown-IsAlive ready w e k b = inl (restart, rw e (inl refl))
  IsKnown-IsAlive error w e k b = retry w.panel.info refl
    where
      retry : (o : Option UpdateInfo) → w.panel.info ≡ o → IsAlive w
      retry none f = inl (check_now, rw (e, f) (inl refl))
      retry (some i) f = inl (install, rw (e, f) (inl refl))

  -- From the panel as it opens, after any run of the buttons it offers and of checks, downloads and
  -- reports that end in any order: it has a button to press, or it shows a block and a check or a
  -- download is under way, whose end changes it. It is never left empty.
  pub Reach-IsAlive : {w : World} → Reach scale start w → IsAlive w
  Reach-IsAlive {w} r =
      let (known, busy) = Reach-IsSound r (tt, tt) in
      IsKnown-IsAlive w.panel.phase w refl known busy

  -- In whatever phase the panel is, a download under way included, a first check that is still
  -- running can end with an update and offer its installation, and pressing that starts one more
  -- download beside those under way.
  pub silent_ended-install_pressed :
      (w : World) (i : UpdateInfo)
      → w.silent ≡ true
      → (x : World) × Reach scale w x
        × (x.installs ≡ w.installs + 1)
        × (x.panel.phase ≡ downloading)
  unfolding silent_done shown install_start
  silent_ended-install_pressed w i e = (
    _,
    step (step here (silent_ended (ok (update_available i)) e)) (install_pressed (inl refl)),
    refl,
    refl,
  )
