-- ===== src/Missions/Graph.antt =====
-- The dependency graph of a plan's tasks, and lookups in it.
use swarmdeck.Prelude.{
  ℕ, ◌<◌, ◌≡◌, String, true, some, List, [], ◌∷◌, arith, contains, all, All, str_eq, str_eq_iff,
  inl, inr, Bool-cases,
}
use swarmdeck.Missions.{MissionTask, ids, find}

-- A listing of ids, the newest first, in which the dependencies of each stand behind it.
abbrev pub IsOrdered : List MissionTask → List String → Type 0
IsOrdered tasks [] = Unit
IsOrdered tasks (id ∷ earlier) =
    ((t : MissionTask) → find id tasks ≡ some t → all (λ d. contains d earlier) t.depends_on ≡ true)
    × IsOrdered tasks earlier

-- `rank` puts each dependency below its task, so that the graph has no cycle.
abbrev pub IsRanked : (String → ℕ) → List MissionTask → Type 0
IsRanked rank = All (λ t. All (λ d. rank d < rank t.task_id) t.depends_on)

-- Every dependency is a task of the plan.
abbrev pub IsKnown : List String → List MissionTask → Type 0
IsKnown known = All (λ t. All (λ d. contains d known ≡ true) t.depends_on)

pub find-All :
    {P : MissionTask → Type 0} (id : String) (tasks : List MissionTask)
    → contains id (ids tasks) ≡ true
    → All P tasks
    → (t : MissionTask) × (find id tasks ≡ some t) × (t.task_id ≡ id) × P t
unfolding find
find-All id [] h a = ground arith
find-All id (t ∷ ts) h a = elim (Bool-cases (str_eq t.task_id id)) [
  | inl e ↦ (t, rw e, (str_eq_iff t.task_id id).0 e, a.0)
  | inr e ↦ let (u, f, n, p) = find-All id ts (rw e at h) a.1 in (u, rw e f, n, p)
]
