-- ===== src/Missions/Samples.antt =====
-- A small mission, and what the module does with it.
use swarmdeck.Prelude.{
  ℕ, ◌≡◌, refl, String, true, List, [], ◌∷◌, arith, returns, raises, is_nodup, All, str_eq,
  if◌then◌else◌,
}
use swarmdeck.Missions.{
  MissionAction, MissionTask, MissionPlan, TaskStatus, Scan, Wave, ids, doctor, navigate, stop,
  pending, ready, succeeded, with_status, cycle, validate_graph, ready_wave, scan,
}
use swarmdeck.Missions.Graph.{IsKnown, IsRanked}
use swarmdeck.Missions.Sound.{Schedule, validate_graph_sound}
use swarmdeck.Missions.Complete.{validate_graph_complete}
use swarmdeck.Missions.Waves.{In, IsReady, ready_wave_ready}
use swarmdeck.Missions.Robots.{robots, IsServed, ready_wave_one_per_robot, ready_wave_serves}
use swarmdeck.Missions.Total.{ready_wave_total}

abbrev task : String → String → MissionAction → List String → TaskStatus → MissionTask
task id robot action deps status = record {
  task_id = id;
  robot_id = robot;
  action = action;
  depends_on = deps;
  requires_approval = true;
  approved = true;
  status = status;
}

abbrev checkup : MissionTask
checkup = task "checkup" "aslan_0" doctor [] succeeded

abbrev travel : MissionTask
travel = task "travel" "aslan_0" navigate ("checkup" ∷ []) pending

abbrev halt : MissionTask
halt = task "halt" "aslan_0" stop [] pending

abbrev patrol : MissionTask
patrol = task "patrol" "botman_0" navigate ("checkup" ∷ []) pending

abbrev home : MissionTask
home = task "home" "botman_0" navigate ("patrol" ∷ []) pending

abbrev plan : MissionPlan
plan = record {
  mission_id = "m";
  objective = "look around";
  tasks = home ∷ travel ∷ halt ∷ patrol ∷ checkup ∷ [];
}

abbrev first_wave : Wave
first_wave = record {
  tasks = home ∷ travel ∷ with_status ready halt ∷ with_status ready patrol ∷ checkup ∷ [];
  wave = with_status ready halt ∷ with_status ready patrol ∷ [];
}

plan_accepted : validate_graph plan ≡ returns plan
unfolding validate_graph
plan_accepted = refl

plan_wave : ready_wave plan ≡ returns first_wave
unfolding ready_wave
plan_wave = refl

abbrev candidates : Scan
candidates = record { tasks = plan.tasks; candidates = travel ∷ halt ∷ patrol ∷ [] }

plan_scan : scan [] plan.tasks ≡ returns candidates
unfolding scan
plan_scan = refl

loop_rejected :
    validate_graph (record plan {
      tasks = task "a" "r" doctor ("b" ∷ []) pending ∷ task "b" "r" doctor ("a" ∷ []) pending ∷ [];
    })
    ≡ raises cycle
unfolding validate_graph
loop_rejected = refl

validate_graph_sound_example : (plan ≡ plan) × Schedule plan.tasks
validate_graph_sound_example = validate_graph_sound plan plan plan_accepted

abbrev rank : String → ℕ
rank id = if str_eq id "home" then 2 else if str_eq id "checkup" then 0 else 1

plan-IsKnown : IsKnown (ids plan.tasks) plan.tasks
plan-IsKnown = ((refl, tt), ((refl, tt), (tt, ((refl, tt), (tt, tt)))))

plan-IsRanked : IsRanked rank plan.tasks
plan-IsRanked = omega arith

validate_graph_complete_example : validate_graph plan ≡ returns plan
validate_graph_complete_example = validate_graph_complete rank plan refl plan-IsKnown plan-IsRanked

ready_wave_ready_example :
    All
      (λ t.
        (o : MissionTask) × (t ≡ with_status ready o) × (In o plan.tasks × IsReady plan.tasks o))
      first_wave.wave
ready_wave_ready_example = ready_wave_ready plan first_wave plan_wave

ready_wave_one_per_robot_example : is_nodup (robots first_wave.wave) ≡ true
ready_wave_one_per_robot_example = ready_wave_one_per_robot plan first_wave plan_wave

ready_wave_serves_example : All (IsServed first_wave.wave) candidates.candidates
ready_wave_serves_example = ready_wave_serves plan candidates first_wave plan_scan plan_wave

ready_wave_total_example : (w : Wave) × (ready_wave plan ≡ returns w)
ready_wave_total_example = ready_wave_total plan plan plan_accepted
