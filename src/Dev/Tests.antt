-- ===== src/Dev/Tests.antt =====
-- Runs of the development script, and the theorems at concrete supervisors.
use plugin_pocket.Base.{◌≡◌, refl, true, false, none, some, codes, ok, err}
use plugin_pocket.Dev.{
  crashed, starting, running, Status, no_socket, replied, control, up, reported, launched, main,
  Supervisor, alive, probing, begun, stop, child_closed, child_failed, disconnected, fail, failed,
  listened, ports_checked, loop_top, probed, not_running,
}
use plugin_pocket.Dev.Steps.{
  Reach, here, step, disconnecting, probe_ended, listen_ended, ports_ended,
}

runs : Unit {0}
unfolding control main stop child_closed child_failed disconnected fail failed listened
    ports_checked loop_top probed
runs = tt

abbrev services : Status
services = record { stage = running; api = codes "http://a"; web = codes "http://w" }

abbrev probing_now : Supervisor
probing_now = ports_checked true true (listened begun)

stopping_refused :
    main up
      (replied (some (record services { stage = starting })))
      no_socket
      (reported services)
      none
    ≡ err not_running
unfolding runs
stopping_refused = refl

healthy_stage : (probed true services probing_now).stage ≡ running
unfolding runs
healthy_stage = refl

probing_now-Reach : Reach begun probing_now
unfolding runs
probing_now-Reach = step (step here (listen_ended refl)) (ports_ended true true refl)

-- The parent goes during a round of requests that turns out healthy.
abbrev crash : Supervisor
crash = probed true services (disconnected probing_now)

crash-Reach : Reach begun crash
unfolding runs
crash-Reach =
    step (step probing_now-Reach (disconnecting (λ e. cc) (λ e. cc) refl))
      (probe_ended true services refl)

crash_test : (crash.point ≡ crashed) × (crash.server_open ≡ false) × (crash.child ≡ alive)
unfolding runs
crash_test = (refl, refl, refl)

abbrev healthy : Supervisor
healthy = record {
  stage = starting;
  stopping_set = false;
  failure = false;
  child = alive;
  signalled = false;
  server_open = true;
  connected = true;
  point = probing;
  message = none;
}

launches : main up no_socket no_socket (reported services) none ≡ ok (launched services)
unfolding runs
launches = refl
