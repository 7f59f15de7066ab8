-- ===== src/Api/Refresh.antt =====
-- All calls together: the refresh of an expired session is shared, and no call is left waiting.
use plugin_pocket.Base.{
  ℕ, ◌+◌, ◌≤◌, ◌≡◌, ◌≢◌, refl, Bool, true, false, ◌⊎◌, inl, inr, List, [], ◌∷◌, ◌++◌, map, arith,
  if◌then◌else◌, Result, ok, err, All, All-append, All-split, All-map, Bool-cases, ◌==◌,
}
use plugin_pocket.Api.{
  ApiError, first_result, resume_at, Response, Reply, Shared, Phase, first, refreshing, second,
  settled, Call, recovers, fetch_once, start_call, again, join_refresh, first_done, second_done,
  resume, refresh_settled, refresh_result, refreshed, refresh_failed,
}
use plugin_pocket.Api.World.{
  World, Step, Reach, IsValid, PhaseFits, CallFits, started, first_ended, second_ended,
  refresh_ended, here, step,
}

join_refresh-in_flight : (g : Shared) → (join_refresh g).in_flight ≡ true
join_refresh-in_flight g = ground arith

join_refresh-generation : (g : Shared) → (join_refresh g).generation ≡ g.generation
join_refresh-generation g = ground arith

join_refresh-refreshes :
    (g : Shared)
    → g.refreshes ≡ g.generation + g.failures + (if g.in_flight then 1 else 0)
    → (join_refresh g).refreshes
      ≡ (join_refresh g).generation
        + (join_refresh g).failures
        + (if (join_refresh g).in_flight then 1 else 0)
join_refresh-refreshes g e = ground arith

module _ {ℓ} {B : Type ℓ} where
  PhaseFits-mono :
      (g h : Shared) (sent : ℕ) (p : Phase B)
      → g.generation ≤ h.generation
      → (g.in_flight ≡ true → h.in_flight ≡ true)
      → PhaseFits g sent p
      → PhaseFits h sent p
  PhaseFits-mono g h sent (first n) a b (e, l) = (e, omega arith)
  PhaseFits-mono g h sent refreshing a b (e, f) = (e, b f)
  PhaseFits-mono g h sent second a b e = e
  PhaseFits-mono g h sent (settled r) a b e = e

  again-fits :
      (g : Shared) (aborted : Bool) (c : Call B) → c.sent ≡ 1 → CallFits g (again aborted c)
  unfolding again
  again-fits g true c e = omega arith
  again-fits g false c e = omega arith

  abbrev Done : Shared → Shared × Call B → Type 0
  Done g d = CallFits d.0 d.1 × ((d.0 ≡ g) ⊎ (d.0 ≡ join_refresh g))

  -- The end of a first fetch at its call, and what it does to the shared state.
  first_result-fits :
      (n : ℕ) (r : Result ApiError (Response B)) (aborted : Bool) (g : Shared) (c : Call B)
      → c.sent ≡ 1
      → Done g (first_result n r aborted g c)
  unfolding first_result
  first_result-fits n (ok r) aborted g c e = (omega arith, inl refl)
  first_result-fits n (err x) aborted g c e = elim (Bool-cases (recovers x c.path aborted)) [
    | inr stays ↦ rw stays (omega arith, inl refl)
    | inl goes ↦ elim (Bool-cases (n == g.generation)) [
      | inl same ↦ rw (goes, same) ((e, join_refresh-in_flight g), inr refl)
      | inr late ↦ rw (goes, late) (again-fits g aborted c e, inl refl)
    ]
  ]

  resume_at-fits :
      (g h : Shared) (p : Phase B) (r : Result ApiError (Unit {0})) (aborted : Call B → Bool)
      (c : Call B)
      → g.generation ≤ h.generation
      → c.phase ≡ p
      → PhaseFits g c.sent p
      → CallFits h (resume_at p r aborted c)
  unfolding resume_at
  resume_at-fits g h (first n) r aborted c l e (one, old) = rw e (one, omega arith)
  resume_at-fits g h refreshing (ok done) aborted c l e (one, f) = again-fits h (aborted c) c one
  resume_at-fits g h refreshing (err x) aborted c l e (one, f) = omega arith
  resume_at-fits g h second r aborted c l e two = rw e two
  resume_at-fits g h (settled s) r aborted c l e most = rw e most

  resume-fits :
      (g h : Shared) (r : Result ApiError (Unit {0})) (aborted : Call B → Bool) (c : Call B)
      → g.generation ≤ h.generation
      → CallFits g c
      → CallFits h (resume r aborted c)
  unfolding resume
  resume-fits g h r aborted c l fits = resume_at-fits g h c.phase r aborted c l refl fits

  first_end-IsValid :
      (before after : List (Call B)) (c : Call B) (g : Shared) (d : Shared × Call B)
      → Done g d
      → IsValid (record { shared = g; calls = before ++ c ∷ after })
      → IsValid (record { shared = d.0; calls = before ++ d.1 ∷ after })
  first_end-IsValid before after c g d (fits, same) v =
      let (b, at_c, a) = All-split (CallFits g) before after v.fits in
      let mono = grown same in
      record {
        counted = counted_of same;
        fits =
            All-append (CallFits d.0) before (d.1 ∷ after) (All-mono mono before b)
              (fits, All-mono mono after a);
      }
    where
      grown :
          (d.0 ≡ g) ⊎ (d.0 ≡ join_refresh g)
          → (g.generation ≤ d.0.generation) × (g.in_flight ≡ true → d.0.in_flight ≡ true)
      grown (inl e) = rw e (omega arith, λ f. f)
      grown (inr e) = rw e (omega (arith, join_refresh-generation g), λ f. join_refresh-in_flight g)

      counted_of :
          (d.0 ≡ g) ⊎ (d.0 ≡ join_refresh g)
          → d.0.refreshes ≡ d.0.generation + d.0.failures + (if d.0.in_flight then 1 else 0)
      counted_of (inl e) = rw e v.counted
      counted_of (inr e) = rw e (join_refresh-refreshes g v.counted)

      All-mono :
          (g.generation ≤ d.0.generation) × (g.in_flight ≡ true → d.0.in_flight ≡ true)
          → (cs : List (Call B)) → All (CallFits g) cs
          → All (CallFits d.0) cs
      All-mono m [] h = tt
      All-mono m (x ∷ cs) (p, h) = (PhaseFits-mono g d.0 x.sent x.phase m.0 m.1 p, All-mono m cs h)

  refresh_result-IsValid :
      (r : Result ApiError (Response (Unit {0}))) (aborted : Call B → Bool) (g : Shared)
      (cs : List (Call B))
      → g.in_flight ≡ true
      → IsValid (record { shared = g; calls = cs })
      → IsValid (record {
        shared = (refresh_result r aborted g cs).0;
        calls = (refresh_result r aborted g cs).1;
      })
  unfolding refresh_result
  refresh_result-IsValid (ok r) aborted g cs f v = record {
    counted = let c = v.counted in ground arith;
    fits =
        All-map (CallFits g) (CallFits (refreshed g)) (resume (ok tt) aborted)
          (λ c p. resume-fits g (refreshed g) (ok tt) aborted c (omega arith) p) cs v.fits;
  }
  refresh_result-IsValid (err e) aborted g cs f v = record {
    counted = let c = v.counted in ground arith;
    fits =
        All-map (CallFits g) (CallFits (refresh_failed g)) (resume (err e) aborted)
          (λ c p. resume-fits g (refresh_failed g) (err e) aborted c (omega arith) p) cs v.fits;
  }

  at_most_two : (g : Shared) (c : Call B) → c.phase ≡ second → CallFits g c → c.sent ≤ 2
  at_most_two g c e fits = two (rw e at fits)
    where
      two : c.sent ≡ 2 → c.sent ≤ 2
      two e = omega arith

  Step-IsValid : {w x : World B} → Step w x → IsValid w → IsValid x
  unfolding start_call first_done second_done refresh_settled
  Step-IsValid (started path) v = record {
    counted = v.counted;
    fits = ((refl, omega arith), v.fits);
  }
  Step-IsValid {w} (first_ended before after c n reply aborted e p) v =
      let fits : All (CallFits w.shared) (before ++ c ∷ after) = rw e at v.fits in
      let (b, at_c, a) = All-split (CallFits w.shared) before after fits in
      let fit : PhaseFits {B = B} w.shared c.sent (first n) = rw p at at_c in
      first_end-IsValid before after c w.shared
        (first_result n (fetch_once reply) aborted w.shared c)
        (first_result-fits n (fetch_once reply) aborted w.shared c fit.0)
        (record { counted = v.counted; fits = fits })
  Step-IsValid {w} (second_ended before after c reply e p) v =
      let fits : All (CallFits w.shared) (before ++ c ∷ after) = rw e at v.fits in
      let (b, at_c, a) = All-split (CallFits w.shared) before after fits in
      record {
        counted = v.counted;
        fits =
            All-append (CallFits w.shared) before (second_done reply c ∷ after) b
              (at_most_two w.shared c p at_c, a);
      }
  Step-IsValid {w} (refresh_ended reply aborted f) v =
      refresh_result-IsValid (fetch_once reply) aborted w.shared w.calls f v

  -- Whatever calls start and in whatever order their fetches and the refresh end: from a valid
  -- state every reachable state is valid. So the refreshes sent are those that succeeded, those
  -- that failed and at most one under way; no call has sent more than two requests of its own; and
  -- a call that waits for a refresh always has one under way.
  pub Reach-IsValid : {w x : World B} → Reach w x → IsValid w → IsValid x
  Reach-IsValid here v = v
  Reach-IsValid (step r s) v = Step-IsValid s (Reach-IsValid r v)

  resume_at-moves :
      (p : Phase B) (r : Result ApiError (Unit {0})) (aborted : Call B → Bool) (c : Call B)
      → c.phase ≡ p
      → (resume_at p r aborted c).phase ≢ refreshing
  unfolding resume_at again
  resume_at-moves (first n) r aborted c e = λ q. cc
  resume_at-moves refreshing (ok done) aborted c e = λ q. ground arith
  resume_at-moves refreshing (err x) aborted c e = λ q. cc
  resume_at-moves second r aborted c e = λ q. cc
  resume_at-moves (settled s) r aborted c e = λ q. cc

  map-resume :
      (r : Result ApiError (Unit {0})) (aborted : Call B → Bool) (cs : List (Call B))
      → All (λ c. c.phase ≢ refreshing) (map (resume r aborted) cs)
  unfolding resume
  map-resume r aborted [] = tt
  map-resume r aborted (c ∷ cs) =
      (resume_at-moves c.phase r aborted c refl, map-resume r aborted cs)

  refresh_result-moves :
      (r : Result ApiError (Response (Unit {0}))) (aborted : Call B → Bool) (g : Shared)
      (cs : List (Call B))
      → ((refresh_result r aborted g cs).0.in_flight ≡ false)
        × All (λ c. c.phase ≢ refreshing) (refresh_result r aborted g cs).1
  unfolding refresh_result
  refresh_result-moves (ok r) aborted g cs = (refl, map-resume (ok tt) aborted cs)
  refresh_result-moves (err e) aborted g cs = (refl, map-resume (err e) aborted cs)

  -- When the refresh ends, well or not, none is under way and no call waits for one any more.
  pub refresh_settled-moves :
      (reply : Reply (Unit {0})) (aborted : Call B → Bool) (g : Shared) (cs : List (Call B))
      → ((refresh_settled reply aborted g cs).0.in_flight ≡ false)
        × All (λ c. c.phase ≢ refreshing) (refresh_settled reply aborted g cs).1
  unfolding refresh_settled
  refresh_settled-moves reply = refresh_result-moves (fetch_once reply)
