-- ===== src/Missions.antt =====
-- agent/agent_cortex/missions.py: mission plans, their validation, and the waves of ready tasks.
-- A `MissionTask` object is its record. Inside `ready_wave` the plan's tasks are mutated in place:
-- the list of tasks is handed on, and a task that another one names is looked up in it by its id,
-- which `validate_graph` makes unique. `parameters` is never read by this module and is left out.
mod Graph
pub mod Sound
pub mod Complete
pub mod Waves
pub mod Robots
pub mod Total
mod Samples
use swarmdeck.Prelude.{
  ℕ, zero, suc, String, Bool, true, false, not, ◌&&◌, ◌||◌, Option, none, some, List, [], ◌∷◌, ◌++◌,
  map, contains, discard, is_nodup, any, all, length, leb, Outcome, returns, raises, ◌>>=◌, str_eq,
  if◌then◌else◌,
}

pub data TaskStatus : Type 0 where
  pending ready running succeeded failed blocked cancelled : TaskStatus

pub data MissionAction : Type 0 where
  doctor deploy drive navigate cancel stop body : MissionAction

pub record MissionTask : Type 0 where
  pub task_id : String
  pub robot_id : String
  pub action : MissionAction
  pub depends_on : List String
  pub requires_approval : Bool
  pub approved : Bool
  pub status : TaskStatus

pub record MissionPlan : Type 0 where
  pub mission_id : String
  pub objective : String
  pub tasks : List MissionTask

-- The `ValueError`s, by the check that raises them; `key_error` is Python's `KeyError`, and
-- `no_fuel` stands for a recursion that the model gave up, which `Complete` shows never to happen.
pub data PlanError : Type 0 where
  duplicate_ids cycle key_error no_fuel not_running : PlanError
  unknown_dependencies self_dependency : String → PlanError

abbrev pub Checked {ℓ} : Type ℓ → Type ℓ
Checked A = Outcome PlanError A

abbrev pub ids : List MissionTask → List String
ids [] = []
ids (t ∷ ts) = t.task_id ∷ ids ts

-- `{task.task_id: task for task in tasks}[id]`, where no id stands twice.
unfoldable pub find : String → List MissionTask → Option MissionTask
find id [] = none
find id (t ∷ ts) = if str_eq t.task_id id then some t else find id ts

-- The loop over the tasks that checks each `depends_on`.
unfoldable pub check_dependencies : List String → List MissionTask → Checked (Unit {0})
check_dependencies known [] = returns tt
check_dependencies known (t ∷ ts) =
    let rest = check_dependencies known ts in
    if not (all (λ d. contains d known) t.depends_on)
    then raises (unknown_dependencies t.task_id)
    else if contains t.task_id t.depends_on
    then raises (self_dependency t.task_id)
    else rest

-- The two sets that `visit` mutates, each as a list with the newest member first.
pub record Marks : Type 0 where
  pub visiting : List String
  pub visited : List String

-- The inner `for` loop of `visit`, over what a call of `visit` does.
unfoldable pub visit_all : (String → Marks → Checked Marks) → List String → Marks → Checked Marks
visit_all go [] m = returns m
visit_all go (d ∷ ds) m = go d m >>= visit_all go ds

finish : String → Marks → Checked Marks
finish id m = returns (record { visiting = discard id m.visiting; visited = id ∷ m.visited })

visit_new : (String → Marks → Checked Marks) → String → Option MissionTask → Marks → Checked Marks
visit_new go id none m = raises key_error
visit_new go id (some t) m =
    visit_all go t.depends_on (record m { visiting = id ∷ m.visiting }) >>= finish id

-- `visit(task_id)`; the fuel bounds the depth of the recursion.
unfoldable pub visit : List MissionTask → ℕ → String → Marks → Checked Marks
unfolding visit_new finish visit_all find
visit tasks zero id m = raises no_fuel
visit tasks (suc n) id m =
    if contains id m.visiting
    then raises cycle
    else if contains id m.visited
    then returns m
    else visit_new (visit tasks n) id (find id tasks) m

abbrev pub no_marks : Marks
no_marks = record { visiting = []; visited = [] }

-- `MissionPlan.validate_graph`: the plan itself, or the `ValueError`.
unfoldable pub validate_graph : MissionPlan → Checked MissionPlan
unfolding check_dependencies visit
validate_graph p =
    if not (is_nodup (ids p.tasks))
    then raises duplicate_ids
    else check_dependencies (ids p.tasks) p.tasks >>= λ _.
        visit_all (visit p.tasks (suc (length p.tasks))) (ids p.tasks) no_marks >>= λ _. returns p

-- `status in {"pending", "ready"}` and the other sets of statuses.
abbrev pub is_open : TaskStatus → Bool
is_open pending = true
is_open ready = true
is_open _ = false

abbrev pub is_lost : TaskStatus → Bool
is_lost failed = true
is_lost blocked = true
is_lost cancelled = true
is_lost _ = false

abbrev pub is_succeeded : TaskStatus → Bool
is_succeeded succeeded = true
is_succeeded _ = false

abbrev pub is_stop : MissionAction → Bool
is_stop stop = true
is_stop _ = false

abbrev pub or_key_error : Option MissionTask → Checked MissionTask
or_key_error none = raises key_error
or_key_error (some t) = returns t

-- `[by_id[task_id] for task_id in task.depends_on]`
unfoldable pub dependencies : List MissionTask → List String → Checked (List MissionTask)
unfolding find
dependencies tasks [] = returns []
dependencies tasks (d ∷ ds) =
    or_key_error (find d tasks) >>= λ t. dependencies tasks ds >>= λ rest. returns (t ∷ rest)

-- What the first loop of `ready_wave` does with a task: `continue`, block it, or append it.
pub data Verdict : Type 0 where
  skip block take : Verdict

unfoldable pub judge_with : MissionTask → List MissionTask → Verdict
judge_with t deps =
    if any (λ d. is_lost d.status) deps
    then block
    else if not (all (λ d. is_succeeded d.status) deps)
    then skip
    else if t.requires_approval && not t.approved
    then skip
    else take

unfoldable pub judge : List MissionTask → MissionTask → Checked Verdict
unfolding dependencies judge_with
judge tasks t =
    if not (is_open t.status)
    then returns skip
    else dependencies tasks t.depends_on >>= λ deps. returns (judge_with t deps)

abbrev pub with_status : TaskStatus → MissionTask → MissionTask
with_status s t = record t { status = s }

-- The tasks as they are after a round of the loop, and the candidates in the order of the plan.
pub record Scan : Type 0 where
  pub tasks : List MissionTask
  pub candidates : List MissionTask

abbrev pub after : Verdict → MissionTask → MissionTask
after block t = with_status blocked t
after _ t = t

abbrev pub chosen : Verdict → MissionTask → List MissionTask → List MissionTask
chosen take t cs = t ∷ cs
chosen _ t cs = cs

-- The loop `for task in plan.tasks`: `done` holds the tasks that were looked at, as they are now.
unfoldable pub scan : List MissionTask → List MissionTask → Checked Scan
unfolding judge
scan done [] = returns (record { tasks = done; candidates = [] })
scan done (t ∷ rest) = judge (done ++ t ∷ rest) t >>= λ v.
    scan (done ++ after v t ∷ []) rest >>= λ s.
    returns (record s { candidates = chosen v t s.candidates })

-- `candidates.sort(key=...)`. The sort is stable: an element goes before the first one whose key
-- is not smaller.
abbrev pub sort_key : MissionTask → ℕ
sort_key t = if is_stop t.action then 0 else 1

unfoldable pub insert : MissionTask → List MissionTask → List MissionTask
insert t [] = t ∷ []
insert t (u ∷ us) =
    let rest = u ∷ insert t us in if leb (sort_key t) (sort_key u) then t ∷ u ∷ us else rest

unfoldable pub sort : List MissionTask → List MissionTask
unfolding insert
sort [] = []
sort (t ∷ ts) = insert t (sort ts)

-- The second loop: at most one task for each robot.
unfoldable pub pick : List String → List MissionTask → List MissionTask
pick occupied [] = []
pick occupied (t ∷ ts) =
    let skipped = pick occupied ts in
    let picked = with_status ready t ∷ pick (t.robot_id ∷ occupied) ts in
    if contains t.robot_id occupied then skipped else picked

-- `task.status = "ready"` for the tasks of the wave, in the plan.
unfoldable pub mark_ready : List String → List MissionTask → List MissionTask
mark_ready wave [] = []
mark_ready wave (t ∷ ts) =
    (if contains t.task_id wave then with_status ready t else t) ∷ mark_ready wave ts

pub record Wave : Type 0 where
  pub tasks : List MissionTask
  pub wave : List MissionTask

abbrev pub select : Scan → Wave
unfolding sort pick mark_ready
select s =
    let w = pick [] (sort s.candidates) in record { tasks = mark_ready (ids w) s.tasks; wave = w }

-- `MissionExecutive.ready_wave`: the tasks of the plan afterwards, and the wave.
unfoldable pub ready_wave : MissionPlan → Checked Wave
unfolding scan sort pick mark_ready
ready_wave p = scan [] p.tasks >>= λ s. returns (select s)

-- `MissionExecutive.mark_result`
unfoldable pub mark_result : MissionTask → Bool → Checked MissionTask
mark_result t success = elim t.status [
  | ready ↦ returns (with_status (if success then succeeded else failed) t)
  | running ↦ returns (with_status (if success then succeeded else failed) t)
  | _ ↦ raises not_running
]
