-- ===== src/Adapter/Samples.antt =====
-- A drive after which the operator's link falls silent.
use swarmdeck.Prelude.{none, true, false, List, [], ◌∷◌}
use swarmdeck.Prelude.Int.{pos}
use swarmdeck.Prelude.Float.{fin, zero_float}
use swarmdeck.Adapter.{Bridge, Callees, Config, Twist, Message}
use swarmdeck.Adapter.Deadman.{Happening}
use Happening.{receives, ticks}

abbrev limits : Config
limits = record { drive_timeout = 500; link_timeout = 3000 }

abbrev no_exploration : Callees
no_exploration = record {
  has_exploration = false;
  explore_start = λ b. b;
  explore_stop = λ b. b;
  navigate_to = λ goal path b. b;
  body_command = λ action height b. b;
  reset = λ b. b;
}

abbrev parked : Bridge
parked = record {
  nav_status = "idle";
  mode = "idle";
  goal = none;
  pending_drive = none;
  last_drive_at = 0;
  last_link_at = 1;
  has_cmd = true;
  has_trajectory = true;
  published = [];
}

abbrev ahead : Twist
ahead = record { linear = fin (pos 500); angular = zero_float }

abbrev silence : List Happening
silence = receives 99 (Message.to_drive ahead) ∷ ticks 199 ∷ []
