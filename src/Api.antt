-- ===== src/Api.antt =====
-- web/src/features/account/api.ts: one call of the server (`fetchOnce`), the shared refresh of an
-- expired session (`fetchResponse`), and what `request` and `requestCSV` make of an answer. `fetch`,
-- the reader of a JSON body and the schema are not modelled: a `Reply` is what they yield. A call
-- that is under way is a `Call` with the point that it has reached. That the refresh settles, its
-- two callbacks run and the calls which await it go on is one event, `refresh_settled`.
pub mod World
pub mod Refresh
pub mod Answers
mod Tests
use plugin_pocket.Base.{
  ℕ, ◌+◌, Bool, true, false, not, ◌&&◌, ◌||◌, Option, none, some, List, [], ◌∷◌, ◌++◌, map, Text,
  codes, eq_text, starts_with, if◌then◌else◌, leb, ltb, ◌==◌, all, or_else, Result, ok, err, ◌>>=◌,
}

pub record ApiError : Type 0 where
  pub status : ℕ
  pub code : Text

abbrev pub unknown : ApiError
unknown = record { status = 0; code = codes "unknown" }

-- What a server sends, with a body of type `B`; `problem` is the `error` that the body names, if it
-- can be read as such.
pub record Response {ℓ} (B : Type ℓ) : Type ℓ where
  pub status : ℕ
  pub problem : Option Text
  pub body : B

pub data Reply {ℓ} (B : Type ℓ) : Type ℓ where
  no_answer : Reply B
  answer : Response B → Reply B

-- `response.ok`
abbrev pub is_ok : ℕ → Bool
is_ok status = leb 200 status && ltb status 300

unfoldable pub fetch_once {ℓ} : {B : Type ℓ} → Reply B → Result ApiError (Response B)
fetch_once no_answer = err unknown
fetch_once (answer r) =
    if is_ok r.status
    then ok r
    else err (record { status = r.status; code = or_else r.problem (codes "unknown") })

-- The module's variables, with the number of refreshes sent and of those that failed so far.
pub record Shared : Type 0 where
  pub generation : ℕ
  pub in_flight : Bool
  pub refreshes : ℕ
  pub failures : ℕ

-- Where a call of `fetchResponse` stands; the first fetch remembers the generation at its start.
pub data Phase {ℓ} (B : Type ℓ) : Type ℓ where
  first : ℕ → Phase B
  refreshing second : Phase B
  settled : Result ApiError (Response B) → Phase B

-- `sent` counts the requests that the call has made for its own path.
pub record Call {ℓ} (B : Type ℓ) : Type ℓ where
  pub path : Text
  pub phase : Phase B
  pub sent : ℕ

abbrev pub expired : ApiError → Bool
expired e = e.status == 401 && eq_text e.code (codes "unauthorized")

-- Whether the error of a first fetch is answered by a refresh or a second fetch.
unfoldable pub recovers : ApiError → Text → Bool → Bool
recovers e path aborted = expired e && not (starts_with path (codes "/auth/")) && not aborted

-- `refreshInFlight ??= …`
abbrev pub join_refresh : Shared → Shared
join_refresh g =
    if g.in_flight then g else record g { in_flight = true; refreshes = g.refreshes + 1 }

-- `.then(() => { refreshGeneration++; })` and `.finally(() => { refreshInFlight = undefined; })`
abbrev pub refreshed : Shared → Shared
refreshed g = record g { generation = g.generation + 1; in_flight = false }

abbrev pub refresh_failed : Shared → Shared
refresh_failed g = record g { in_flight = false; failures = g.failures + 1 }

module _ {ℓ} {B : Type ℓ} where
  unfoldable pub start_call : Text → Shared → Call B
  start_call path g = record { path = path; phase = first g.generation; sent = 1 }

  abbrev pub settle : Call B → Result ApiError (Response B) → Call B
  settle c r = record c { phase = settled r }

  -- `if (init.signal?.aborted) throw …; return fetchOnce(path, init)`
  unfoldable pub again : Bool → Call B → Call B
  again aborted c =
      if aborted then settle c (err unknown) else record c { phase = second; sent = c.sent + 1 }

  -- The first fetch of a call ends; `aborted` is the state of its signal then.
  unfoldable pub first_result :
      ℕ → Result ApiError (Response B) → Bool → Shared → Call B → Shared × Call B
  first_result generation (ok r) aborted g c = (g, settle c (ok r))
  first_result generation (err e) aborted g c =
      if not (recovers e c.path aborted)
      then (g, settle c (err e))
      else if generation == g.generation
      then (join_refresh g, record c { phase = refreshing })
      else (g, again aborted c)

  unfoldable pub first_done : ℕ → Reply B → Bool → Shared → Call B → Shared × Call B
  first_done generation reply = first_result generation (fetch_once reply)

  -- The second fetch of a call ends: whatever it gives is the result.
  unfoldable pub second_done : Reply B → Call B → Call B
  second_done reply c = settle c (fetch_once reply)

  -- What a call that awaits the refresh does when that has ended.
  unfoldable pub resume_at :
      Phase B → Result ApiError (Unit {0}) → (Call B → Bool) → Call B → Call B
  resume_at refreshing (ok done) aborted c = again (aborted c) c
  resume_at refreshing (err e) aborted c = settle c (err e)
  resume_at (first n) result aborted c = c
  resume_at second result aborted c = c
  resume_at (settled r) result aborted c = c

  unfoldable pub resume : Result ApiError (Unit {0}) → (Call B → Bool) → Call B → Call B
  resume result aborted c = resume_at c.phase result aborted c

  unfoldable pub refresh_result :
      Result ApiError (Response (Unit {0}))
      → (Call B → Bool)
      → Shared
      → List (Call B)
      → Shared × List (Call B)
  refresh_result (ok r) aborted g cs = (refreshed g, map (resume (ok tt) aborted) cs)
  refresh_result (err e) aborted g cs = (refresh_failed g, map (resume (err e) aborted) cs)

  unfoldable pub refresh_settled :
      Reply (Unit {0}) → (Call B → Bool) → Shared → List (Call B) → Shared × List (Call B)
  refresh_settled reply = refresh_result (fetch_once reply)

abbrev pub accept {ℓ} : {T : Type ℓ} → Option T → Result ApiError T
accept none = err unknown
accept (some t) = ok t

abbrev pub judge {ℓ κ} : {J : Type ℓ} {T : Type κ} → (J → Option T) → Option J → Result ApiError T
judge parse none = err unknown
judge parse (some j) = accept (parse j)

-- `request`: the schema's verdict on the body, or on `null` where the status is 204. `parse` and
-- `json` are the schema and the JSON reader; either may refuse.
unfoldable pub request {ℓ κ μ} :
    {B : Type ℓ} {J : Type κ} {T : Type μ}
    → (null : J) → (B → Option J)
    → (J → Option T)
    → Result ApiError (Response B)
    → Result ApiError T
request null json parse result = do
  response ← result
  judge parse (if response.status == 204 then some null else json response.body)

abbrev pub is_digit : ℕ → Bool
is_digit c = leb b'0' c && leb c b'9'

-- What `requestCSV` reads of an answer; `text` is none if the body cannot be read.
pub record CsvBody : Type 0 where
  pub content_type : Option Text
  pub next_cursor : Option Text
  pub text : Option Text

abbrev pub csv_page : Option Text → Text → Result ApiError (Text × Text)
csv_page none cursor = err unknown
csv_page (some text) cursor = if all is_digit cursor then ok (text, cursor) else err unknown

unfoldable pub request_csv : Result ApiError (Response CsvBody) → Result ApiError (Text × Text)
request_csv result = do
  response ← result
  if starts_with (or_else response.body.content_type []) (codes "text/csv")
      then csv_page response.body.text (or_else response.body.next_cursor [])
      else err unknown
