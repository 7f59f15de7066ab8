-- ===== src/Api/Answers.antt =====
-- What one call makes of the answers that it gets.
use mathlib.Core.Bool.{true≢false}
use plugin_pocket.Base.{
  err-injective, ◌∙◌, ℕ, ◌+◌, ◌≤◌, ◌<◌, ◌≡◌, ◌≢◌, refl, sym, ap, Bool, true, false, not, ◌&&◌, ◌⊎◌,
  inl, inr, Option, none, some, [], arith, Text, codes, Result, ok, err, or_else, Bool-cases,
  and_split, eq-false_of_not, starts_with, eq_text, eq_text_iff, ◌==◌, ==_iff, all, ok-injective,
  err-ne-ok,
}
use plugin_pocket.Api.{
  settled, ApiError, Response, Reply, answer, no_answer, is_ok, Shared, refreshing, second, Call,
  expired, recovers, fetch_once, again, first_result, first_done, accept, judge, csv_page, request,
  request_csv, CsvBody, is_digit,
}

recovers-true :
    (e : ApiError) (path : Text) (aborted : Bool)
    → recovers e path aborted ≡ true
    → (e.status ≡ 401)
      × (e.code ≡ codes "unauthorized")
      × (starts_with path (codes "/auth/") ≡ false)
      × (aborted ≡ false)
unfolding recovers
recovers-true e path aborted h =
    let (both, live) =
      and_split (expired e && not (starts_with path (codes "/auth/"))) (not aborted) h in
    let (gone, other) = and_split (expired e) (not (starts_with path (codes "/auth/"))) both in
    let (status, code) = and_split (e.status == 401) (eq_text e.code (codes "unauthorized")) gone in
    (
      (==_iff e.status 401).0 status,
      (eq_text_iff e.code (codes "unauthorized")).0 code,
      eq-false_of_not (starts_with path (codes "/auth/")) other,
      eq-false_of_not aborted live,
    )

named_problem :
    (o : Option Text)
    → or_else o (codes "unknown") ≡ codes "unauthorized"
    → o ≡ some (codes "unauthorized")
named_problem none e = cc
named_problem (some code) e = ap some e

module _ {ℓ} {B : Type ℓ} where
  -- A fetch succeeds only with an answer whose status lies from 200 to 299, and gives that answer.
  pub fetch_once-eq-ok :
      (reply : Reply B) (r : Response B)
      → fetch_once reply ≡ ok r
      → (reply ≡ answer r) × (200 ≤ r.status) × (r.status < 300)
  unfolding fetch_once
  fetch_once-eq-ok no_answer r e = cc
  fetch_once-eq-ok (answer s) r e = elim (Bool-cases (is_ok s.status)) [
    | inl fine ↦
        let same : s ≡ r = ok-injective (rw fine at e) in
        (ap answer same, rw (← same) (ground arith), rw (← same) (ground arith))
    | inr bad ↦ absurd (err-ne-ok (rw bad at e))
  ]

  -- What a fetch gives: the answer, if its status lies from 200 to 299; else an error with its status
  -- and the problem that the body names; and an unknown error where no answer came.
  abbrev pub Gives : Reply B → Result ApiError (Response B) → Type ℓ
  Gives reply result =
      ((reply ≡ no_answer) × (result ≡ err (record { status = 0; code = codes "unknown" })))
      ⊎ ((r : Response B) × (reply ≡ answer r)
          × (((200 ≤ r.status) × (r.status < 300) × (result ≡ ok r))
              ⊎ (((200 ≤ r.status) → (r.status < 300) → ⊥)
                  × (result
                      ≡ err (record {
                        status = r.status;
                        code = or_else r.problem (codes "unknown");
                      })))))

  fetch_once-Gives : (reply : Reply B) → Gives reply (fetch_once reply)
  unfolding fetch_once
  fetch_once-Gives no_answer = inl (refl, refl)
  fetch_once-Gives (answer r) = elim (Bool-cases (is_ok r.status)) [
    | inl fine ↦ inr (r, refl, inl (ground (arith, fine), ground (arith, fine), rw fine refl))
    | inr bad ↦ inr (r, refl, inr (λ low high. ground (arith, bad, low, high), rw bad refl))
  ]

  -- The answer to a request that needs a new session: an expired one, on a path that is not one of
  -- `/auth/`, with a signal that is not aborted.
  abbrev pub IsExpired : Text → Bool → Reply B → Type ℓ
  IsExpired path aborted reply =
      ((r : Response B) × (reply ≡ answer r)
        × (r.status ≡ 401)
        × (r.problem ≡ some (codes "unauthorized")))
      × (starts_with path (codes "/auth/") ≡ false)
      × (aborted ≡ false)

  expired_reply :
      (reply : Reply B) (e : ApiError)
      → fetch_once reply ≡ err e
      → e.status ≡ 401
      → e.code ≡ codes "unauthorized"
      → (r : Response B) × (reply ≡ answer r)
        × (r.status ≡ 401)
        × (r.problem ≡ some (codes "unauthorized"))
  unfolding fetch_once
  expired_reply no_answer e h status code = cc
  expired_reply (answer r) e h status code = elim (Bool-cases (is_ok r.status)) [
    | inl fine ↦ absurd (err-ne-ok (sym (rw fine at h)))
    | inr bad ↦
        let same : record { status = r.status; code = or_else r.problem (codes "unknown") } ≡ e =
          err-injective (rw bad at h) in
        (
          r,
          refl,
          ap (λ (x : ApiError). x.status) same ∙ status,
          named_problem r.problem (ap (λ (x : ApiError). x.code) same ∙ code),
        )
  ]

  IsExpired-recovers :
      (path : Text) (aborted : Bool) (reply : Reply B)
      → IsExpired path aborted reply
      → (e : ApiError) × (fetch_once reply ≡ err e) × (recovers e path aborted ≡ true)
  unfolding fetch_once recovers
  IsExpired-recovers path aborted reply ((r, same, status, problem), other, live) = (
    record { status = 401; code = codes "unauthorized" },
    rw (same, status, problem) refl,
    rw (other, live) refl,
  )

  module _ (n : ℕ) (reply : Reply B) (aborted : Bool) (g : Shared) (c : Call B) where
    -- The end of a first fetch, where `r` is what it gives: with an expired session, a call that began
    -- before the last refresh that succeeded sends its request again, and another one waits for a
    -- refresh, which it starts if none is under way; otherwise the call is over with that result.
    abbrev pub Leads : Result ApiError (Response B) → Shared × Call B → Type ℓ
    Leads r after =
        (IsExpired c.path aborted reply
          × (((n ≢ g.generation) × (after ≡ (g, record c { phase = second; sent = c.sent + 1 })))
              ⊎ ((n ≡ g.generation)
                  × (g.in_flight ≡ true)
                  × (after ≡ (g, record c { phase = refreshing })))
              ⊎ ((n ≡ g.generation)
                  × (g.in_flight ≡ false)
                  × (after ≡ (
                    record g { in_flight = true; refreshes = g.refreshes + 1 },
                    record c { phase = refreshing },
                  )))))
        ⊎ ((IsExpired c.path aborted reply → ⊥) × (after ≡ (g, record c { phase = settled r })))

    first_result-Leads :
        (r : Result ApiError (Response B))
        → fetch_once reply ≡ r
        → Leads r (first_result n r aborted g c)
    unfolding first_result again
    first_result-Leads (ok r) given = inr (
      (λ x.
          let (e, failed, _) = IsExpired-recovers c.path aborted reply x in
          err-ne-ok (sym failed ∙ given)),
      refl,
    )
    first_result-Leads (err e) given = elim (Bool-cases (recovers e c.path aborted)) [
      | inr stays ↦ inr (
        (λ x.
            let (f, failed, goes) = IsExpired-recovers c.path aborted reply x in
            let same : f ≡ e = err-injective (sym failed ∙ given) in
            true≢false (sym (rw same at goes) ∙ stays)),
        rw stays refl,
      )
      | inl goes ↦
          let (status, code, other, live) = recovers-true e c.path aborted goes in
          inl ((expired_reply reply e given status code, other, live), where_to e goes live)
    ]
      where
        where_to :
            (e : ApiError)
            → recovers e c.path aborted ≡ true
            → aborted ≡ false
            → ((n ≢ g.generation)
                × (first_result n (err e) aborted g c
                    ≡ (g, record c { phase = second; sent = c.sent + 1 })))
              ⊎ ((n ≡ g.generation)
                  × (g.in_flight ≡ true)
                  × (first_result n (err e) aborted g c ≡ (g, record c { phase = refreshing })))
              ⊎ ((n ≡ g.generation)
                  × (g.in_flight ≡ false)
                  × (first_result n (err e) aborted g c ≡ (
                    record g { in_flight = true; refreshes = g.refreshes + 1 },
                    record c { phase = refreshing },
                  )))
        where_to e goes live = elim (Bool-cases (n == g.generation)) [
          | inr late ↦ inl (λ e. ground (arith, late), rw (goes, late, live) refl)
          | inl same ↦ elim (Bool-cases g.in_flight) [
            | inl busy ↦
                inr (inl ((==_iff n g.generation).0 same, busy, rw (goes, same, busy) refl))
            | inr idle ↦
                inr (inr ((==_iff n g.generation).0 same, idle, rw (goes, same, idle) refl))
          ]
        ]

    -- What the end of a first fetch leads to: the call is over with what the fetch gives, unless the
    -- session has expired, on a path that is not one of `/auth/` and with a signal that is not aborted.
    -- Then the call sends its request again if a refresh succeeded since it began, and else it waits
    -- for the refresh under way, or starts one; nothing else that is shared changes.
    pub first_done_cases :
        (r : Result ApiError (Response B)) × Gives reply r
        × Leads r (first_done n reply aborted g c)
    unfolding first_done
    first_done_cases =
        (fetch_once reply, fetch_once-Gives reply, first_result-Leads (fetch_once reply) refl)

accept-eq-ok {ℓ} : {T : Type ℓ} (o : Option T) {t : T} → accept o ≡ ok t → o ≡ some t
accept-eq-ok none h = absurd (err-ne-ok h)
accept-eq-ok (some x) h = ap some (ok-injective h)

judge-eq-ok {ℓ κ} :
    {J : Type ℓ} {T : Type κ} (parse : J → Option T) (o : Option J) {t : T}
    → judge parse o ≡ ok t
    → (j : J) × (o ≡ some j) × (parse j ≡ some t)
judge-eq-ok parse none h = absurd (err-ne-ok h)
judge-eq-ok parse (some j) h = (j, refl, accept-eq-ok (parse j) h)

module _ {ℓ κ μ} {B : Type ℓ} {J : Type κ} {T : Type μ} (null : J) (json : B → Option J)
    (parse : J → Option T) where
  -- The value that the schema judges.
  abbrev pub IsJudged : Response B → J → Type κ
  IsJudged r j = ((r.status ≡ 204) × (j ≡ null)) ⊎ ((r.status ≢ 204) × (json r.body ≡ some j))

  -- `request` gives a value only if the call succeeded and the schema accepted it for the body's
  -- JSON, or for `null` where the status is 204.
  request-eq-ok :
      (result : Result ApiError (Response B)) (t : T)
      → request null json parse result ≡ ok t
      → (r : Response B) × (j : J) × (result ≡ ok r) × IsJudged r j × (parse j ≡ some t)
  unfolding request
  request-eq-ok (err e) t h = absurd (err-ne-ok h)
  request-eq-ok (ok r) t h = elim (Bool-cases (r.status == 204)) [
    | inl none_sent ↦
        let (j, found, fine) = judge-eq-ok parse (some null) (rw none_sent at h) in
        (
          r,
          j,
          refl,
          inl (
            (==_iff r.status 204).0 none_sent,
            ap (λ (o : Option J). or_else o null) (sym found),
          ),
          fine,
        )
    | inr sent ↦
        let (j, found, fine) = judge-eq-ok parse (json r.body) (rw sent at h) in
        (r, j, refl, inr (λ e. ground (arith, sent), found), fine)
  ]

csv_page-eq-ok :
    (o : Option Text) (next : Text) {text cursor : Text}
    → csv_page o next ≡ ok (text, cursor)
    → (o ≡ some text) × (all is_digit cursor ≡ true)
csv_page-eq-ok none next h = absurd (err-ne-ok h)
csv_page-eq-ok (some x) next h = elim (Bool-cases (all is_digit next)) [
  | inr bad ↦ absurd (err-ne-ok (rw bad at h))
  | inl fine ↦
      let same = ok-injective (rw fine at h) in
      (ap (λ (p : Text × Text). some p.0) same, rw (← ap (λ (p : Text × Text). p.1) same) fine)
]

-- A page of CSV is given only with a content type of `text/csv`, and the cursor that comes with it
-- is digits only: it can be put into the next address as it is.
pub request_csv-eq-ok :
    (result : Result ApiError (Response CsvBody)) {text cursor : Text}
    → request_csv result ≡ ok (text, cursor)
    → (all is_digit cursor ≡ true)
      × ((r : Response CsvBody) × (result ≡ ok r)
          × (r.body.text ≡ some text)
          × (starts_with (or_else r.body.content_type []) (codes "text/csv") ≡ true))
unfolding request_csv
request_csv-eq-ok (err e) h = absurd (err-ne-ok h)
request_csv-eq-ok (ok r) h =
    elim (Bool-cases (starts_with (or_else r.body.content_type []) (codes "text/csv"))) [
      | inr other ↦ absurd (err-ne-ok (rw other at h))
      | inl csv ↦
          let (text, digits) = csv_page-eq-ok r.body.text _ (rw csv at h) in
          (digits, (r, refl, text, csv))
    ]
