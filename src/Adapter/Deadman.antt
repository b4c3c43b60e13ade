-- ===== src/Adapter/Deadman.antt =====
-- adapters/runtime.py: whatever happens, a robot that moves is under one of the two watchdogs.
use swarmdeck.Prelude.{ℕ, suc, ◌≡◌, false, String, Option, none, some, List, [], ◌∷◌, ◌⊎◌}
use swarmdeck.Registry.{Pose}
use swarmdeck.Prelude.Float.{Float}
use swarmdeck.Adapter.{
  Bridge, Callees, Config, Twist, zero_twist, cancel_goal, drive, on_nav_cmd_vel,
  note_drive_command, note_link_activity, apply_pending_drive, watchdogs, start_goal,
  dispatch_command, Message, stop, stop_on_disconnect,
}
use Message.{set_mode}
use swarmdeck.Adapter.Guards.{keeps_moving, IsGuarded}

-- What happens to a bridge: the ticks of the watchdogs, what other code of the adapter does, and the
-- messages that `dispatch_command` takes. Not among these: the end or failure of a goal. The times are
-- not 0.
pub data Happening : Type 0 where
  ticks driven_later : ℕ → Happening
  drives relays : ℕ → Twist → Happening
  hears : ℕ → Happening
  cancels : Happening
  stops disconnects : ℕ → Happening
  starts : Pose → Happening
  receives : ℕ → Message → Happening

abbrev pub newest : List Twist → Option Twist
newest [] = none
newest (t ∷ ts) = some t

-- Nothing was published, or a velocity of zero is the newest.
abbrev IsSettled : Bridge → Bridge → Type 0
IsSettled b c = (c.published ≡ b.published) ⊎ (newest c.published ≡ some zero_twist)

-- A velocity of zero is the newest; or nothing was published, and what was the newest before, if
-- anything, is no motion for the code.
abbrev pub IsHalted : Bridge → Bridge → Type 0
IsHalted b c =
    (newest c.published ≡ some zero_twist)
    ⊎ ((c.published ≡ b.published) × (keeps_moving b.published ≡ false))

module _ (cfg : Config) (calls : Callees) where
  unfoldable pub happen : Happening → Bridge → Bridge
  unfolding watchdogs drive on_nav_cmd_vel cancel_goal stop stop_on_disconnect apply_pending_drive
      dispatch_command
  happen (ticks n) b = watchdogs cfg (suc n) b
  happen (driven_later n) b = apply_pending_drive (suc n) b
  happen (drives n t) b = drive (suc n) t (note_drive_command (suc n) t b)
  happen (relays n t) b = on_nav_cmd_vel cfg (suc n) t b
  happen (hears n) b = note_link_activity (suc n) b
  happen cancels b = cancel_goal b
  happen (stops n) b = stop calls (suc n) b
  happen (disconnects n) b = stop_on_disconnect calls (suc n) b
  happen (starts goal) b = start_goal goal b
  happen (receives n m) b = dispatch_command calls (suc n) m b

  unfoldable pub happen_all : List Happening → Bridge → Bridge
  unfolding happen
  happen_all [] b = b
  happen_all (h ∷ hs) b = happen_all hs (happen h b)

  -- Every message but `set_mode`, which changes the mode under a moving robot.
  abbrev pub IsWatched : Happening → Type 0
  IsWatched (receives n (set_mode mode)) = ⊥
  IsWatched h = Unit

  abbrev KeepsGuarded : (Bridge → Bridge) → Type 0
  KeepsGuarded f = (b : Bridge) → IsGuarded b → IsGuarded (f b)

  -- The callees keep a robot guarded.
  pub record AreGuarded : Type 0 where
    pub starts_exploring : KeepsGuarded calls.explore_start
    pub stops_exploring : KeepsGuarded calls.explore_stop
    pub navigates : (goal : Pose) (path : List Pose) → KeepsGuarded (calls.navigate_to goal path)
    pub poses :
        (action : String) (height : Option Float) → KeepsGuarded (calls.body_command action height)
    pub resets : KeepsGuarded calls.reset
