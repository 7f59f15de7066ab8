-- ===== src/Dev.antt =====
-- scripts/dev.mjs: the commands `up`, `down`, `status` and `logs`, and the process that supervises the
-- development services. What the control socket, the ports, the child process and the health
-- checks yield are arguments; each piece of `supervise` between two awaits is a function. The time
-- of a watchdog or deadline is not modelled, that it is reached is an event.
pub mod Steps
pub mod Supervising
pub mod Commands
mod Tests
use plugin_pocket.Base.{
  ℕ, Bool, true, false, not, ◌&&◌, ◌||◌, Option, none, some, Text, if◌then◌else◌, or_else, Result,
  ok, err, ◌>>=◌,
}

pub data Stage : Type 0 where
  starting running stopping stopped : Stage

pub record Status : Type 0 where
  pub stage : Stage
  pub api : Text
  pub web : Text

pub data Problem : Type 0 where
  timed_out unreachable bad_status usage not_running exited port_taken cancelled startup_timeout :
      Problem

-- What a request on the control socket meets.
pub data Contact : Type 0 where
  no_socket refused silent broken : Contact
  replied : Option Status → Contact

-- `control`: the status, or null where there is no socket.
unfoldable pub control : Contact → Result Problem (Option Status)
control no_socket = ok none
control refused = err unreachable
control silent = err timed_out
control broken = err bad_status
control (replied none) = err bad_status
control (replied (some s)) = ok (some s)

pub data Action : Type 0 where
  supervise logs up down status other : Action

-- What the supervisor that was forked sends, or that it ended or could not start.
pub data Message : Type 0 where
  reported : Status → Message
  failed_with : Problem → Message
  ended : Message

pub data Outcome : Type 0 where
  supervises : Outcome
  exit_code : ℕ → Outcome
  printed : Option Status → Outcome
  already_running launched : Status → Outcome

abbrev pub is_running : Stage → Bool
is_running running = true
is_running _ = false

abbrev pub launch : Message → Result Problem Outcome
launch (reported s) = ok (launched s)
launch (failed_with p) = err p
launch ended = err exited

-- `up` with what `control` gave: a supervisor is forked only where there is none.
abbrev pub up_with : Message → Option Status → Result Problem Outcome
up_with message none = launch message
up_with message (some s) = if is_running s.stage then ok (already_running s) else err not_running

abbrev pub print : Option Status → Result Problem Outcome
print current = ok (printed current)

-- `main`; `at_status` and `at_down` are what the requests for `/status` and `/down` meet.
unfoldable pub main : Action → Contact → Contact → Message → Option ℕ → Result Problem Outcome
main supervise at_status at_down message tail = ok supervises
main logs at_status at_down message tail = ok (exit_code (or_else tail 1))
main up at_status at_down message tail = control at_status >>= up_with message
main down at_status at_down message tail = control at_down >>= print
main status at_status at_down message tail = control at_status >>= print
main other at_status at_down message tail = err usage

-- The child process, in the order of its life.
pub data Child : Type 0 where
  no_child alive closed : Child

-- Where `supervise` stands: at one of its awaits, at its end, or ended by an error that nothing
-- catches.
pub data Point : Type 0 where
  listening checking probing : Point
  failing : Problem → Point
  returned crashed : Point

pub record Supervisor : Type 0 where
  pub stage : Stage
  pub stopping_set : Bool
  pub failure : Bool
  pub child : Child
  pub signalled : Bool
  pub server_open : Bool
  pub connected : Bool
  pub point : Point
  pub message : Option Message

abbrev pub begun : Supervisor
begun = record {
  stage = starting;
  stopping_set = false;
  failure = false;
  child = no_child;
  signalled = false;
  server_open = true;
  connected = true;
  point = listening;
  message = none;
}

-- The end of `stop`, when nothing is left to wait for.
abbrev pub ended_stop : Supervisor → Supervisor
ended_stop s = record s { stage = stopped; server_open = false }

abbrev pub stop_child : Child → Supervisor → Supervisor
stop_child no_child s = ended_stop (record s { stopping_set = true })
stop_child alive s = record s { stage = stopping; stopping_set = true; signalled = true }
stop_child closed s = ended_stop (record s { stopping_set = true; signalled = true })

-- `stop`, which does its work once
unfoldable pub stop : Supervisor → Supervisor
stop s = if s.stopping_set then s else stop_child s.child s

-- `child.on('close', …)`, on which a `stop` waits
unfoldable pub child_closed : Supervisor → Supervisor
child_closed s =
    if s.stopping_set then ended_stop (record s { child = closed }) else record s { child = closed }

-- `child.on('error', …)` and `child.on('exit', …)`
unfoldable pub child_failed : Supervisor → Supervisor
child_failed s =
    if is_running s.stage then stop (record s { failure = true }) else record s { failure = true }

abbrev pub is_starting : Stage → Bool
is_starting starting = true
is_starting _ = false

-- `process.on('disconnect', …)`
unfoldable pub disconnected : Supervisor → Supervisor
disconnected s =
    if is_starting s.stage
    then stop (record s { connected = false })
    else record s { connected = false }

-- `catch (error) { await stop(); …`
unfoldable pub fail : Problem → Supervisor → Supervisor
fail p s = stop (record s { point = failing p })

-- The rest of the `catch`, once `stop` has ended.
unfoldable pub failed : Problem → Supervisor → Supervisor
failed p s = record s {
  point = returned;
  message = (if s.connected then some (failed_with p) else s.message);
}

unfoldable pub listened : Supervisor → Supervisor
listened s = record s { point = checking }

-- The ports are free, or one is taken; then the child is spawned, which may fail.
unfoldable pub ports_checked : Bool → Bool → Supervisor → Supervisor
ports_checked free spawned s =
    if not free then fail port_taken s else if s.stopping_set then fail cancelled s else record s {
      point = probing;
      child = (if spawned then alive else no_child);
      failure = not spawned;
    }

-- The top of the loop: `late` says that the deadline has passed.
unfoldable pub loop_top : Bool → Supervisor → Supervisor
loop_top late s =
    if late
    then fail startup_timeout s
    else if s.failure
    then fail exited s
    else if s.stopping_set
    then fail cancelled s
    else s

-- `process.send({ state, api, web }); return;`. To a parent that has gone Node raises the event `error`
-- on the process, which has no handler for it: that ends the process, and its socket with it.
abbrev pub send_report : Status → Supervisor → Supervisor
send_report report s =
    if s.connected
    then record s {
      point = returned;
      message = some (reported (record report { stage = running }));
    }
    else record s { point = crashed; server_open = false }

-- A round's three requests end; `healthy` says that all of them answer as they should.
unfoldable pub probed : Bool → Status → Supervisor → Supervisor
probed healthy report s =
    if healthy && not s.failure then send_report report (record s { stage = running }) else s
