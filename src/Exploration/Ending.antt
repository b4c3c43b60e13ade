-- ===== src/Exploration/Ending.antt =====
-- The end of an exploration: the empty path and the final status, in either order.
use swarmdeck.Prelude.{ℕ, ◌≤◌, ◌<◌, ◌≡◌, String, true, false, [], arith, str_eq, ◌⊎◌}
use swarmdeck.Prelude.Int.{pos}
use swarmdeck.Exploration.{
  Env, Status, complete, blocked, Session, report, PathMessage, on_path, on_status, stamp_of,
}

abbrev pub IsFinal : String → Status → Type 0
IsFinal state st =
    ((str_eq state "complete" ≡ true) × (st ≡ complete))
    ⊎ ((str_eq state "complete" ≡ false) × (str_eq state "blocked" ≡ true) × (st ≡ blocked))

-- An active session whose planner reports the end in two messages, an empty path and a final
-- status, has that status afterwards, is inactive and waits for nothing, whichever of the two
-- arrives first.
pub end_in_either_order :
    (e₁ e₂ : Env) (m : PathMessage) (stamp : ℕ) (state : String) (st : Status) (s : Session)
    → s.active ≡ true
    → 0 < s.started_ns
    → s.started_ns ≤ stamp
    → s.started_ns ≤ stamp_of m
    → m.poses ≡ []
    → IsFinal state st
    → let a = on_status e₂ (report (pos stamp) state) (on_path e₁ m s).0 in
      let b = (on_path e₁ m (on_status e₂ (report (pos stamp) state) s)).0 in
      ((a.status ≡ st) × (a.active ≡ false) × (a.awaiting_terminal ≡ false))
      × ((b.status ≡ st) × (b.active ≡ false) × (b.awaiting_terminal ≡ false))
unfolding on_path on_status
end_in_either_order e₁ e₂ m stamp state st s a z h k p f = ground arith
