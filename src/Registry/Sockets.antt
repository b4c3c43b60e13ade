-- ===== src/Registry/Sockets.antt =====
-- Which socket the commands for a robot go to, over any history of connections.
use swarmdeck.Prelude.{
  ℕ, ◌≡◌, refl, String, false, Option, none, some, List, [], ◌∷◌, arith, ◌==◌, str_eq, str_eq_iff,
  str_eq_refl, inl, inr, Option-cases, if◌then◌else◌,
}
use swarmdeck.Prelude.Dict
use swarmdeck.Prelude.Dict.{Dict, absent-put, get-put, get-remove}
use swarmdeck.Prelude.Float.{Float}
use swarmdeck.Registry.{
  Registry, HelloMessage, StateMessage, hello, update_state, attend, disconnect, remove, send,
  get_or,
}

-- What happens to a registry. `gone` is the cleanup of one socket, `drop` that without a socket.
pub data Event : Type 0 where
  greets : ℕ → HelloMessage → ℕ → String → Event
  reports : ℕ → StateMessage → Event
  attends : ℕ → String → Event
  gone : String → ℕ → Event
  drop : String → Event
  removed : String → Event

module _ (read : String → Option Float) where
  pub apply : Event → Registry → Registry
  apply (greets now m sink peer) g = hello read now m sink peer g
  apply (reports now m) g = (update_state read now m g).0
  apply (attends now rid) g = attend now rid g
  apply (gone rid sink) g = disconnect rid (some sink) g
  apply (drop rid) g = disconnect rid none g
  apply (removed rid) g = (remove rid g).0

  pub run : List Event → Registry → Registry
  run [] g = g
  run (e ∷ es) g = run es (apply e g)

-- The promise, for one robot: its last greeting is its socket, until that very socket is cleaned up
-- or the robot is dropped or removed.
pub socket_after : String → Event → Option ℕ → Option ℕ
socket_after rid (greets now m sink peer) current =
    if str_eq m.robot_id rid then some sink else current
socket_after rid (gone r sink) none = none
socket_after rid (gone r sink) (some t) =
    if str_eq r rid then (if t == sink then none else some t) else some t
socket_after rid (drop r) current = if str_eq r rid then none else current
socket_after rid (removed r) current = if str_eq r rid then none else current
socket_after rid _ current = current

unfoldable pub socket : String → List Event → Option ℕ → Option ℕ
unfolding socket_after
socket rid [] current = current
socket rid (e ∷ es) current = socket rid es (socket_after rid e current)

disconnect-get :
    (rid r : String) (s : ℕ) (g : Registry)
    → Dict.get rid (disconnect r (some s) g).sinks
      ≡ socket_after rid (gone r s) (Dict.get rid g.sinks)
unfolding disconnect socket_after
disconnect-get rid r s g =
    ground (arith, get-remove r rid g.sinks, str_eq_iff r rid, str_eq_iff rid r)

apply-socket :
    (read : String → Option Float) (rid : String) (e : Event) (g : Registry)
    → Dict.get rid (apply read e g).sinks ≡ socket_after rid e (Dict.get rid g.sinks)
unfolding apply socket_after hello update_state attend disconnect remove
apply-socket read rid (greets now m sink peer) g = get-put m.robot_id rid sink g.sinks
apply-socket read rid (reports now m) g = ground arith
apply-socket read rid (attends now r) g = ground arith
apply-socket read rid (gone r s) g = disconnect-get rid r s g
apply-socket read rid (drop r) g = get-remove r rid g.sinks
apply-socket read rid (removed r) g = get-remove r rid g.sinks

-- After any sequence of greetings, reports, cleanups and removals, the socket that the registry
-- holds for a robot is the one that the promise gives: a late cleanup of an old socket never
-- unbinds a newer one.
pub run-socket :
    (read : String → Option Float) (rid : String) (es : List Event) (g : Registry)
    → Dict.get rid (run read es g).sinks ≡ socket rid es (Dict.get rid g.sinks)
unfolding run socket
run-socket read rid [] g = refl
run-socket read rid (e ∷ es) g =
    rw (run-socket read rid es (apply read e g), apply-socket read rid e g) refl

-- A send that fails unbinds the socket that it used and no other: if the robot is bound to another
-- socket when the failure is noticed, it stays bound to that one.
pub send_failed_keeps_new :
    (meanwhile : Registry → Registry) (rid : String) (g : Registry) (old new : ℕ)
    → Dict.get rid g.sinks ≡ some old
    → Dict.get rid (meanwhile g).sinks ≡ some new
    → (((send meanwhile false rid g).2 ≡ false) × ((send meanwhile false rid g).1 ≡ some old))
      × (Dict.get rid (send meanwhile false rid g).0.sinks
          ≡ (if new == old then none else some new))
unfolding send disconnect
send_failed_keeps_new meanwhile rid g old new e f =
    ground (arith, get-remove rid rid (meanwhile g).sinks, str_eq_refl rid)

-- A robot that is not in the registry has no socket.
pub record IsBound (g : Registry) : Type 0 where
  pub absent : (rid : String) → Dict.get rid g.robots ≡ none → Dict.get rid g.sinks ≡ none

update_state-IsBound :
    (read : String → Option Float) (now : ℕ) (m : StateMessage) (g : Registry)
    → IsBound g
    → IsBound (update_state read now m g).0
unfolding update_state
update_state-IsBound read now m g b =
    elim (Option-cases (Dict.get (get_or m.robot_id "") g.robots)) [
      | inl e ↦ rw (e, update_state) b
      | inr (r, e) ↦
          rw (e, update_state)
            (record {
              absent = λ rid h. b.absent rid (absent-put (get_or m.robot_id "") rid _ g.robots h).1;
            })
    ]

attend-IsBound : (now : ℕ) (r : String) (g : Registry) → IsBound g → IsBound (attend now r g)
unfolding attend
attend-IsBound now r g b = elim (Option-cases (Dict.get r g.robots)) [
  | inl e ↦ rw (e, attend) b
  | inr (x, e) ↦
      rw (e, attend) (record { absent = λ rid h. b.absent rid (absent-put r rid _ g.robots h).1 })
]

apply-IsBound :
    (read : String → Option Float) (e : Event) (g : Registry) → IsBound g → IsBound (apply read e g)
unfolding apply hello disconnect remove
apply-IsBound read (greets now m sink peer) g b = record {
  absent = λ rid h.
      let (other, before) = absent-put m.robot_id rid _ g.robots h in
      simp (get-put, other) (b.absent rid before);
}
apply-IsBound read (reports now m) g b = update_state-IsBound read now m g b
apply-IsBound read (attends now r) g b = attend-IsBound now r g b
apply-IsBound read (gone r s) g b = record {
  absent = λ rid h. ground (arith, b.absent rid, get-remove r rid g.sinks);
}
apply-IsBound read (drop r) g b = record {
  absent = λ rid h. ground (arith, b.absent rid, get-remove r rid g.sinks);
}
apply-IsBound read (removed r) g b = record {
  absent =
      λ rid h. ground (arith, b.absent rid, get-remove r rid g.sinks, get-remove r rid g.robots);
}

abbrev pub empty : Registry
empty = record { robots = []; sinks = [] }

-- From an empty registry on, after any sequence of greetings, reports, cleanups and removals, a
-- robot that is not in the registry has no socket: no command is sent to a robot that was removed.
pub run-IsBound : (read : String → Option Float) (es : List Event) → IsBound (run read es empty)
unfolding run
run-IsBound read es = go es empty (record { absent = λ rid h. unfold Dict.get in refl })
  where
    go : (es : List Event) (g : Registry) → IsBound g → IsBound (run read es g)
    go [] g b = b
    go (e ∷ es) g b = go es (apply read e g) (apply-IsBound read e g b)
