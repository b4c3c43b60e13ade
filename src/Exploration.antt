-- ===== src/Exploration.antt =====
-- adapters/exploration.py: the exploration session of one robot, between the operator, the MGG
-- planner and the robot's own navigation.
--
-- `self` is the record `Session`. What a handler does to the outside (ROS services, the bridge's
-- `cancel_goal`, `drive` and `navigate_to`, warnings) is prepended to `log`. What the outside
-- answers while the handler runs is the record `Env`. Times of `time.monotonic()` are milliseconds.
-- A future is named by a number; the message of a warning is left out.
pub mod Motion
pub mod Interleavings
pub mod Paths
pub mod Ending
mod Samples
use Prim.Native.Char.{code}
use swarmdeck.Prelude.{
  ℕ, zero, suc, ◌+◌, ◌-◌, ◌*◌, String, Bool, true, false, not, ◌&&◌, ◌||◌, Option, none, some, List,
  [], ◌∷◌, ltb, ◌==◌, str_eq, if◌then◌else◌,
}
use swarmdeck.Prelude.Int.{ℤ, pos, ltb_ℤ}
use swarmdeck.Prelude.Float.{Float, is_finite}

pub record Goal : Type 0 where
  pub x : Float
  pub y : Float
  pub yaw : Float

pub data Status : Type 0 where
  idle starting exploring stopped complete blocked : Status

pub data Effect : Type 0 where
  warn cancel_goal drive_zero : Effect
  call_start call_stop drop_request : ℕ → Effect
  navigate_to : Goal → Effect

pub record Session : Type 0 where
  pub awaiting_terminal : Bool
  pub status : Status
  pub active : Bool
  pub generation : ℕ
  pub started_ns : ℕ
  pub pending : Option ℕ
  pub pending_stop : Option ℕ
  pub deadline : ℕ
  pub stop_deadline : ℕ
  pub last_link : ℕ
  pub frame : String
  pub link_timeout : ℕ
  pub log : List Effect

-- `now` is the handler's first reading of the clock, `stop_now` the one that a call of `stop`
-- makes, `link_now` the one of the link test. A call that returns no future has raised.
pub record Env : Type 0 where
  pub now : ℕ
  pub stop_now : ℕ
  pub link_now : ℕ
  pub clock_ns : ℕ
  pub done : ℕ → Bool
  pub start_ready : Bool
  pub stop_ready : Bool
  pub start_future : Option ℕ
  pub stop_future : Option ℕ

-- `__init__`, where `exploration.frame` matched the navigation frame.
unfoldable pub init : String → ℕ → ℕ → Session
init frame link_timeout now = record {
  awaiting_terminal = false;
  status = idle;
  active = false;
  generation = 0;
  started_ns = 0;
  pending = none;
  pending_stop = none;
  deadline = 0;
  stop_deadline = 0;
  last_link = now;
  frame = frame;
  link_timeout = link_timeout;
  log = [];
}

abbrev pub emit : Effect → Session → Session
emit e s = record s { log = e ∷ s.log }

-- The request to the planner's stop service, inside the `try` of `stop`.
notify : Bool → Env → Session → Session
notify false env s = s
notify true env s =
    if env.stop_ready
    then elim env.stop_future [
      | none ↦ emit warn s
      | some f ↦ record s {
        pending_stop = some f;
        stop_deadline = env.stop_now + 30000;
        log = call_stop f ∷ s.log;
      }
    ]
    else emit warn s

-- `stop(notify_planner=…, status=…)`
unfoldable pub stop_with : Bool → Status → Env → Session → Session
unfolding notify
stop_with notify_planner status env s =
    let s' = record s {
      status = status;
      awaiting_terminal = false;
      active = false;
      generation = s.generation + 1;
    } in
    if s.active then emit drive_zero (emit cancel_goal (notify notify_planner env s')) else s'

-- `stop()`
abbrev pub stop : Env → Session → Session
stop env s = stop_with true stopped env s

abbrev pub is_busy : Env → Option ℕ → Bool
is_busy env none = false
is_busy env (some f) = not (env.done f)

begin : Env → Session → Session
begin env s = record s {
  generation = s.generation + 1;
  started_ns = env.clock_ns;
  awaiting_terminal = false;
  status = starting;
  active = true;
  deadline = env.now + 30000;
  log = cancel_goal ∷ s.log;
}

-- `start()`
unfoldable pub start : Env → Session → Session
unfolding begin stop_with
start env s =
    if s.active
    then s
    else if is_busy env s.pending || is_busy env s.pending_stop
    then emit warn s
    else if not env.start_ready || not env.stop_ready
    then emit warn s
    else elim env.start_future [
      | none ↦ stop env (emit warn (begin env s))
      | some f ↦ emit (call_start f) (record (begin env s) { pending = some f })
    ]

abbrev pub holds : Option ℕ → ℕ → Bool
holds none f = false
holds (some g) f = g == f

-- What `future.result()` gives in the callback of the start request.
pub data Response : Type 0 where
  accepted rejected raised : Response

-- `started(future, generation)`
unfoldable pub started : Env → ℕ → ℕ → Response → Session → Session
unfolding stop_with
started env f generation response s =
    let s' = record s { pending = if holds s.pending f then none else s.pending } in
    if not (generation == s.generation) then s' else elim response [
      | accepted ↦ s'
      | rejected ↦ stop env (emit warn s')
      | raised ↦ stop env (emit warn s')
    ]

-- The three parts of `tick()`.
expire_start : Env → Option ℕ → Session → Session
unfolding stop_with
expire_start env none s = s
expire_start env (some f) s =
    if ltb s.deadline env.now
    then (let s' = record s { pending = none } in
        emit (drop_request f) (if s'.active then stop env (emit warn s') else s'))
    else s

expire_stop : Env → Option ℕ → Session → Session
expire_stop env none s = s
expire_stop env (some f) s =
    if ltb s.stop_deadline env.now
    then emit (drop_request f) (record s { pending_stop = none })
    else s

watch_link : Env → Session → Session
unfolding stop_with
watch_link env s =
    if s.active && ltb s.link_timeout (env.link_now - s.last_link)
    then stop env (emit warn s)
    else s

unfoldable pub tick : Env → Session → Session
unfolding expire_start expire_stop watch_link
tick env s =
    let s₁ = expire_start env s.pending s in
    let s₂ = expire_stop env s₁.pending_stop s₁ in watch_link env s₂

-- A status message of the planner, as far as its text can be read.
pub data Report : Type 0 where
  malformed : Report
  report : (stamp_ns : ℤ) (state : String) → Report

-- `on_status(message)`
unfoldable pub on_status : Env → Report → Session → Session
unfolding stop_with
on_status env malformed s = s
on_status env (report stamp state) s =
    if ltb_ℤ stamp (pos s.started_ns) || s.started_ns == 0
    then s
    else if str_eq state "complete" || str_eq state "blocked"
    then (if s.active || s.awaiting_terminal
        then record (stop_with false (if str_eq state "complete" then complete else blocked) env
            s) { awaiting_terminal = false }
        else s)
    else if (str_eq state "starting" || str_eq state "exploring") && s.active
    then record s { status = if str_eq state "starting" then starting else exploring }
    else s

-- `text.lstrip("/")`
unfoldable pub lstrip : String → String
lstrip String.[] = String.[]
lstrip (String.◌∷◌ c s) = let rest = lstrip s in if code c == b'/' then rest else String.◌∷◌ c s

-- A path of the planner; the yaw of a pose is that of its quaternion.
pub record PathMessage : Type 0 where
  pub sec : ℕ
  pub nanosec : ℕ
  pub frame_id : String
  pub poses : List Goal

abbrev pub stamp_of : PathMessage → ℕ
stamp_of m = m.sec * 1000000000 + m.nanosec

-- `poses[-1]`, after the test `not path.poses`.
unfoldable pub last : List Goal → Option Goal
last [] = none
last (g ∷ []) = some g
last (g ∷ h ∷ gs) = last (h ∷ gs)

abbrev pub is_finite_goal : Goal → Bool
is_finite_goal g = is_finite g.x && is_finite g.y && is_finite g.yaw

-- `on_path` up to the call of `bridge.navigate_to`: the state, and the goal of that call with the
-- generation that was read before it, where the call is made.
use_pose : Env → PathMessage → Option Goal → Session → Session × Option (ℕ × Goal)
unfolding stop_with lstrip
use_pose env m none s = (record (stop_with false stopped env s) { awaiting_terminal = true }, none)
use_pose env m (some g) s =
    if not (str_eq (lstrip m.frame_id) s.frame)
    then (stop env (emit warn s), none)
    else if not (is_finite_goal g)
    then (stop env (emit warn s), none)
    else (record s { status = exploring }, some (s.generation, g))

unfoldable pub on_path : Env → PathMessage → Session → Session × Option (ℕ × Goal)
unfolding use_pose last
on_path env m s =
    if not s.active
    then (s, none)
    else if ltb (stamp_of m) s.started_ns
    then (s, none)
    else use_pose env m (last m.poses) s

-- `on_path` from the return of `navigate_to` on, which may have raised.
unfoldable pub on_path_end : Env → ℕ → Bool → Session → Session
unfolding stop_with
on_path_end env generation failed s =
    let s' = if failed then stop env (emit warn s) else s in
    if not s'.active || not (generation == s'.generation)
    then emit drive_zero (emit cancel_goal s')
    else s'
