-- ===== src/Missions/Sound.antt =====
-- `validate_graph` accepts acyclic plans only: the marks list the tasks in an order of execution.
use swarmdeck.Prelude.{
  ℕ, zero, suc, ◌≡◌, refl, subst, String, Bool, true, Option, none, some, List, [], ◌∷◌, arith, inl,
  inr, Bool-cases, contains, contains-cons_self, discard, is_nodup, all, length, returns, ◌>>=◌,
  bind-eq-returns,
}
use swarmdeck.Missions.{
  MissionTask, MissionPlan, Marks, Checked, ids, find, visit, visit_new, visit_all, finish,
  no_marks, validate_graph, check_dependencies,
}
use swarmdeck.Missions.Graph.{IsOrdered}

-- What a call that succeeded has done to the marks.
record Grown (tasks : List MissionTask) (m m' : Marks) : Type 0 where
  ordered : IsOrdered tasks m'.visited
  more : (d : String) → contains d m.visited ≡ true → contains d m'.visited ≡ true

abbrev Visits : List MissionTask → (String → Marks → Checked Marks) → Type 0
Visits tasks go =
    (id : String) (m m' : Marks)
    → go id m ≡ returns m'
    → IsOrdered tasks m.visited
    → Grown tasks m m' × (contains id m'.visited ≡ true)

module _ (tasks : List MissionTask) (go : String → Marks → Checked Marks)
    (visits : Visits tasks go) where
  visit_all_grows :
      (ds : List String) (m m' : Marks)
      → visit_all go ds m ≡ returns m'
      → IsOrdered tasks m.visited
      → Grown tasks m m' × (all (λ d. contains d m'.visited) ds ≡ true)
  unfolding visit_all
  visit_all_grows [] m m' e o =
      let p : m ≡ m' = cc in
      subst (λ x. Grown tasks m x × (◌≡◌ {A = Bool} true true)) p
        (record { ordered = o; more = λ d h. h }, refl)
  visit_all_grows (d ∷ ds) m m' e o =
      let (m₁, e₁, e₂) = bind-eq-returns (go d m) (visit_all go ds) e in
      let (g, has) = visits d m m₁ e₁ o in
      let (g', rest) = visit_all_grows ds m₁ m' e₂ g.ordered in
      (
        record { ordered = g'.ordered; more = λ x h. g'.more x (g.more x h) },
        ground (arith, g'.more d has),
      )

  visit_new_grows :
      (id : String) (o : Option MissionTask) (m m' : Marks)
      → find id tasks ≡ o
      → visit_new go id o m ≡ returns m'
      → IsOrdered tasks m.visited
      → Grown tasks m m' × (contains id m'.visited ≡ true)
  unfolding visit_new finish
  visit_new_grows id none m m' f e o = cc
  visit_new_grows id (some t) m m' f e o =
      let start = record m { visiting = id ∷ m.visiting } in
      let (m₁, e₁, e₂) = bind-eq-returns (visit_all go t.depends_on start) (finish id) e in
      let (g, deps) = visit_all_grows t.depends_on start m₁ e₁ o in
      let done : Marks = record { visiting = discard id m₁.visiting; visited = id ∷ m₁.visited } in
      let p : done ≡ m' = cc in
      subst (λ x. Grown tasks m x × (contains id x.visited ≡ true)) p
        (
          record {
            ordered = (λ u fu. cc (deps, f, fu), g.ordered);
            more = λ d h. ground (arith, g.more d h);
          },
          contains-cons_self id m₁.visited,
        )

visit-Visits : (tasks : List MissionTask) (n : ℕ) → Visits tasks (visit tasks n)
unfolding visit
visit-Visits tasks zero id m m' e o = cc
visit-Visits tasks (suc n) id m m' e o = elim (Bool-cases (contains id m.visiting)) [
  | inl a ↦ cc (rw a at e)
  | inr a ↦ elim (Bool-cases (contains id m.visited)) [
    | inl b ↦
        let p : m ≡ m' = cc (rw (a, b) at e) in
        subst (λ x. Grown tasks m x × (contains id x.visited ≡ true)) p
          (record { ordered = o; more = λ d h. h }, b)
    | inr b ↦
        visit_new_grows tasks (visit tasks n) (visit-Visits tasks n) id (find id tasks) m m' refl
          (rw (a, b) at e) o
  ]
]

-- What an accepted plan has: a listing of its tasks in which every dependency of a task stands
-- behind it.
pub record Schedule (tasks : List MissionTask) : Type 0 where
  pub order : List String
  pub is_ordered : IsOrdered tasks order
  pub complete : all (λ d. contains d order) (ids tasks) ≡ true

-- A plan that `validate_graph` accepts is returned as it is, and its tasks can be listed so that
-- every task is on the list and the dependencies of each stand behind it: there is no cycle.
pub validate_graph_sound :
    (p q : MissionPlan) → validate_graph p ≡ returns q → (q ≡ p) × Schedule p.tasks
unfolding validate_graph
validate_graph_sound p q e = elim (Bool-cases (is_nodup (ids p.tasks))) [
  | inr dup ↦ cc (rw dup at e)
  | inl uniq ↦
      let (u, e₁, e₂) =
        bind-eq-returns (check_dependencies (ids p.tasks) p.tasks)
          (λ _. visit_all (visit p.tasks (suc (length p.tasks))) (ids p.tasks) no_marks >>= λ _.
            returns p)
          (rw uniq at e) in
      let (m, e₃, e₄) =
        bind-eq-returns (visit_all (visit p.tasks (suc (length p.tasks))) (ids p.tasks) no_marks)
          (λ _. returns p) e₂ in
      let (g, has) =
        visit_all_grows p.tasks (visit p.tasks (suc (length p.tasks)))
          (visit-Visits p.tasks (suc (length p.tasks))) (ids p.tasks) no_marks m e₃ tt in
      (cc, record { order = m.visited; is_ordered = g.ordered; complete = has })
]
