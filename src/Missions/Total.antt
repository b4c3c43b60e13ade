-- ===== src/Missions/Total.antt =====
-- `ready_wave` raises no error on a plan that `validate_graph` accepted.
use swarmdeck.Prelude.{
  ◌≡◌, refl, ap, sym, ◌∙◌, subst, suc, length, String, true, List, [], ◌∷◌, ◌++◌, arith, inl, inr,
  Bool-cases, contains, is_nodup, all, All, returns, ◌>>=◌, bind-eq-returns,
}
use swarmdeck.Missions.{
  MissionTask, MissionPlan, Verdict, skip, block, take, ids, dependencies, is_open, judge,
  judge_with, after, chosen, Scan, scan, Wave, select, ready_wave, check_dependencies,
  validate_graph, visit_all, visit, no_marks,
}
use swarmdeck.Missions.Graph.{find-All}

trivial : (tasks : List MissionTask) → All (λ _. Unit {0}) tasks
trivial [] = tt
trivial (t ∷ ts) = (tt, trivial ts)

dependencies_total :
    (tasks : List MissionTask) (names : List String)
    → all (λ d. contains d (ids tasks)) names ≡ true
    → (deps : List MissionTask) × (dependencies tasks names ≡ returns deps)
unfolding dependencies
dependencies_total tasks [] h = ([], refl)
dependencies_total tasks (d ∷ ds) h =
    let both : (contains d (ids tasks) ≡ true) × (all (λ d. contains d (ids tasks)) ds ≡ true) =
      ground arith in
    let (t, f, _, _) = find-All {P = λ _. Unit {0}} d tasks both.0 (trivial tasks) in
    let (deps, e) = dependencies_total tasks ds both.1 in (t ∷ deps, rw (f, e) refl)

judge_total :
    (tasks : List MissionTask) (t : MissionTask)
    → all (λ d. contains d (ids tasks)) t.depends_on ≡ true
    → (v : Verdict) × (judge tasks t ≡ returns v)
unfolding judge
judge_total tasks t h = elim (Bool-cases (is_open t.status)) [
  | inr shut ↦ (skip, rw shut refl)
  | inl opened ↦
      let (deps, e) = dependencies_total tasks t.depends_on h in
      (judge_with t deps, rw (opened, e) refl)
]

ids-step :
    (done rest : List MissionTask) (v : Verdict) (t : MissionTask)
    → ids ((done ++ after v t ∷ []) ++ rest) ≡ ids (done ++ t ∷ rest)
ids-step [] rest skip t = refl
ids-step [] rest block t = refl
ids-step [] rest take t = refl
ids-step (d ∷ done) rest v t = ap (λ l. d.task_id ∷ l) (ids-step done rest v t)

abbrev Known : List String → List MissionTask → Type 0
Known known = All (λ t. all (λ d. contains d known) t.depends_on ≡ true)

scan_total :
    (known : List String) (done rest : List MissionTask)
    → ids (done ++ rest) ≡ known
    → Known known rest
    → (s : Scan) × (scan done rest ≡ returns s)
unfolding scan
scan_total known done [] i k = (record { tasks = done; candidates = [] }, refl)
scan_total known done (t ∷ rest) i k =
    let (v, e) =
      judge_total (done ++ t ∷ rest) t
        (subst (λ l. all (λ d. contains d l) t.depends_on ≡ true) (sym i) k.0) in
    let (s, e') = scan_total known (done ++ after v t ∷ []) rest (ids-step done rest v t ∙ i) k.1 in
    (record s { candidates = chosen v t s.candidates }, rw e (rw e' refl))

check_dependencies-Known :
    (known : List String) (ts : List MissionTask)
    → check_dependencies known ts ≡ returns tt
    → Known known ts
unfolding check_dependencies
check_dependencies-Known known [] e = tt
check_dependencies-Known known (t ∷ ts) e =
    elim (Bool-cases (all (λ d. contains d known) t.depends_on)) [
      | inr h ↦ cc (rw h at e)
      | inl h ↦ elim (Bool-cases (contains t.task_id t.depends_on)) [
        | inl h₂ ↦ cc (rw (h, h₂) at e)
        | inr h₂ ↦ (h, check_dependencies-Known known ts (rw (h, h₂) at e))
      ]
    ]

accepted-Known : (p q : MissionPlan) → validate_graph p ≡ returns q → Known (ids p.tasks) p.tasks
unfolding validate_graph
accepted-Known p q e = elim (Bool-cases (is_nodup (ids p.tasks))) [
  | inr dup ↦ cc (rw dup at e)
  | inl uniq ↦
      let (u, e₁, e₂) =
        bind-eq-returns (check_dependencies (ids p.tasks) p.tasks)
          (λ _. visit_all (visit p.tasks (suc (length p.tasks))) (ids p.tasks) no_marks >>= λ _.
            returns p)
          (rw uniq at e) in
      check_dependencies-Known (ids p.tasks) p.tasks e₁
]

-- On a plan that `validate_graph` accepts, `ready_wave` returns a wave: no id is looked up in vain.
pub ready_wave_total :
    (p q : MissionPlan) → validate_graph p ≡ returns q → (w : Wave) × (ready_wave p ≡ returns w)
unfolding ready_wave
ready_wave_total p q e =
    let (s, e') = scan_total (ids p.tasks) [] p.tasks refl (accepted-Known p q e) in
    (select s, rw e' refl)
