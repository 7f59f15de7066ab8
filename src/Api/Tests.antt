-- ===== src/Api/Tests.antt =====
-- Runs of the calls and of what they make of an answer, and the theorems at concrete states.
use plugin_pocket.Base.{ℕ, ◌+◌, ◌≡◌, refl, true, false, none, some, [], ◌∷◌, codes, Result, ok}
use plugin_pocket.Api.{
  ApiError, Response, Reply, answer, Shared, refreshing, second, Call, recovers, fetch_once, again,
  first_result, first_done, second_done, resume_at, resume, refresh_result, refresh_settled,
  start_call, request, request_csv, CsvBody,
}
use plugin_pocket.Api.World.{World, started, first_ended, Reach, here, step, IsValid}
use plugin_pocket.Api.Refresh.{Reach-IsValid}
use plugin_pocket.Api.Answers.{Gives, Leads, first_done_cases}

runs : Unit {0}
unfolding recovers fetch_once again first_result first_done second_done resume_at resume
    refresh_result refresh_settled start_call request request_csv
runs = tt

abbrev quiet : Shared
quiet = record { generation = 0; in_flight = false; refreshes = 0; failures = 0 }

abbrev w0 : World ℕ
w0 = record { shared = quiet; calls = [] }

abbrev session_expired : Reply ℕ
session_expired = answer (record { status = 401; problem = some (codes "unauthorized"); body = 0 })

abbrev one_call : Call ℕ
one_call = start_call (codes "/tokens") quiet

abbrev w1 : World ℕ
w1 = record { shared = quiet; calls = one_call ∷ [] }

abbrev w2 : World ℕ
w2 = record {
  shared = (first_done 0 session_expired false quiet one_call).0;
  calls = (first_done 0 session_expired false quiet one_call).1 ∷ [];
}

waits_test :
    (first_done 0 session_expired false quiet one_call)
    ≡ (record quiet { in_flight = true; refreshes = 1 }, record one_call { phase = refreshing })
unfolding runs
waits_test = refl

late_test :
    (first_done 0 session_expired false (record quiet { generation = 1 }) one_call).1.phase ≡ second
unfolding runs
late_test = refl

w2-Reach : Reach w0 w2
unfolding runs
w2-Reach =
    step (step here (started (codes "/tokens")))
      (first_ended [] [] one_call 0 session_expired false refl refl)

w0-IsValid : IsValid w0
w0-IsValid = record { counted = refl; fits = tt }

Reach-IsValid_example : IsValid w2
Reach-IsValid_example = Reach-IsValid w2-Reach w0-IsValid

first_done_cases_example :
    (r : Result ApiError (Response ℕ)) × Gives session_expired r
    × Leads 0 session_expired false quiet one_call r
        (first_done 0 session_expired false quiet one_call)
first_done_cases_example = first_done_cases 0 session_expired false quiet one_call

abbrev fine : Response ℕ
fine = record { status = 200; problem = none; body = 7 }

fine_fetched : fetch_once (answer fine) ≡ ok fine
unfolding runs
fine_fetched = refl

fine_judged : request 0 (λ b. some b) (λ j. some (j + 1)) (ok fine) ≡ ok 8
unfolding runs
fine_judged = refl

abbrev csv : Result ApiError (Response CsvBody)
csv = ok (record {
  status = 200;
  problem = none;
  body = record {
    content_type = some (codes "text/csv; charset=utf-8");
    next_cursor = some (codes "42");
    text = some (codes "a,b");
  };
})

csv_given : request_csv csv ≡ ok (codes "a,b", codes "42")
unfolding runs
csv_given = refl
