-- ===== src/Dev/Steps.antt =====
-- The events that a supervisor of scripts/dev.mjs meets, and what is to hold between them.
use plugin_pocket.Base.{◌≡◌, ◌≢◌, ◌⊎◌, Bool, true, false}
use plugin_pocket.Dev.{
  crashed, starting, running, Status, Problem, Child, no_child, alive, closed, Point, listening,
  checking, probing, failing, returned, Supervisor, stop, child_closed, child_failed, disconnected,
  fail, failed, listened, ports_checked, loop_top, probed,
}

-- One event. A round of the loop is two: its top, and the end of its requests. The handlers are
-- there while the process is; its services live on without it.
pub data Step (s : Supervisor) : Supervisor → Type 0 where
  stop_asked : s.point ≢ listening → s.point ≢ crashed → Step s (stop s)
  disconnecting :
      s.point ≢ listening → s.point ≢ crashed → s.connected ≡ true → Step s (disconnected s)
  child_failing : s.point ≢ crashed → s.child ≡ alive → Step s (child_failed s)
  child_closing : s.point ≢ crashed → s.child ≡ alive → Step s (child_closed s)
  listen_ended : s.point ≡ listening → Step s (listened s)
  listen_failed : (p : Problem) → s.point ≡ listening → Step s (fail p s)
  ports_ended : (free spawned : Bool) → s.point ≡ checking → Step s (ports_checked free spawned s)
  loop_begun : (late : Bool) → s.point ≡ probing → Step s (loop_top late s)
  probe_ended :
      (healthy : Bool) (report : Status) → s.point ≡ probing → Step s (probed healthy report s)
  stop_awaited : (p : Problem) → s.point ≡ failing p → s.server_open ≡ false → Step s (failed p s)
  services_ended : s.point ≡ crashed → s.child ≡ alive → Step s (record s { child = closed })

pub data Reach (s : Supervisor) : Supervisor → Type 0 where
  here : Reach s s
  step : {t u : Supervisor} → Reach s t → Step t u → Reach s u

-- Points at which no child can have been started.
abbrev pub NoChildAt : Point → Child → Type 0
NoChildAt listening c = c ≡ no_child
NoChildAt checking c = c ≡ no_child
NoChildAt _ c = Unit

-- Points at which nothing of `supervise` is left to do.
abbrev pub IsOver : Point → Type 0
IsOver returned = Unit
IsOver crashed = Unit
IsOver _ = ⊥

-- Why the socket is given up with the services alive: the report to a parent that had gone.
abbrev pub IsCrash : Supervisor → Type 0
IsCrash s = (s.point ≡ crashed) × (s.connected ≡ false) × (s.signalled ≡ true)

pub record IsSafe (s : Supervisor) : Type 0 where
  pub gone : s.server_open ≡ false → s.child ≡ alive → IsCrash s
  pub told : s.stopping_set ≡ true → s.child ≡ alive → s.signalled ≡ true
  pub set : s.server_open ≡ false → s.stopping_set ≡ true
  pub ends : s.stopping_set ≡ true → s.child ≢ alive → s.server_open ≡ false
  pub unstarted : NoChildAt s.point s.child
  pub over : s.stage ≡ running → IsOver s.point
  pub going : s.stopping_set ≡ false → (s.stage ≡ starting) ⊎ (s.stage ≡ running)
  pub parted : s.connected ≡ false → s.stopping_set ≡ false → s.stage ≡ running
  pub left : s.point ≡ crashed → s.server_open ≡ false
