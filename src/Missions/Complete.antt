-- ===== src/Missions/Complete.antt =====
-- `validate_graph` accepts every well-formed plan without a cycle; so the fuel of `visit` suffices.
use swarmdeck.Prelude.{
  ℕ, zero, suc, ◌<◌, ◌≡◌, refl, ap, subst, String, true, false, some, List, [], ◌∷◌, arith, inl,
  inr, Bool-cases, contains, discard, discard-cons_self, is_nodup, missing, missing-cons-lt,
  missing-le-length, All, All-contains, all_of_All, length, returns, str_eq, str_eq_iff,
}
use swarmdeck.Missions.{
  MissionTask, MissionPlan, Marks, Checked, ids, find, visit, visit_new, visit_all, finish,
  no_marks, validate_graph, check_dependencies,
}
use swarmdeck.Missions.Graph.{IsRanked, IsKnown, find-All}

-- What `visit` returns for a task that is in neither set.
visit_step :
    (tasks : List MissionTask) (n : ℕ) (id : String) (t : MissionTask) (m m₁ : Marks)
    → contains id m.visiting ≡ false
    → contains id m.visited ≡ false
    → find id tasks ≡ some t
    → visit_all (visit tasks n) t.depends_on (record m { visiting = id ∷ m.visiting }) ≡ returns m₁
    → visit tasks (suc n) id m
      ≡ returns (record { visiting = discard id m₁.visiting; visited = id ∷ m₁.visited })
unfolding visit visit_new finish
visit_step tasks n id t m m₁ a b f e = rw (a, b, f) (rw e refl)

visit_old :
    (tasks : List MissionTask) (n : ℕ) (id : String) (m : Marks)
    → contains id m.visiting ≡ false
    → contains id m.visited ≡ true
    → visit tasks (suc n) id m ≡ returns m
unfolding visit
visit_old tasks n id m a b = rw (a, b) refl

module _ (rank : String → ℕ) (tasks : List MissionTask) where
  -- The tasks that are being visited all come after `id`.
  abbrev IsBelow : String → List String → Type 0
  IsBelow id open_ids = (y : String) → contains y open_ids ≡ true → rank id < rank y

  -- A call of `visit` with enough fuel succeeds, and leaves the set `visiting` as it was.
  abbrev Succeeds : (String → Marks → Checked Marks) → List String → Type 0
  Succeeds go open_ids =
      (id : String) (m : Marks)
      → m.visiting ≡ open_ids
      → contains id (ids tasks) ≡ true
      → IsBelow id open_ids
      → (m' : Marks) × (go id m ≡ returns m') × (m'.visiting ≡ open_ids)

  visit_all-returns :
      (go : String → Marks → Checked Marks) (open_ids ds : List String)
      → Succeeds go open_ids
      → All (λ d. contains d (ids tasks) ≡ true) ds
      → All (λ d. IsBelow d open_ids) ds
      → (m : Marks) → m.visiting ≡ open_ids
      → (m' : Marks) × (visit_all go ds m ≡ returns m') × (m'.visiting ≡ open_ids)
  unfolding visit_all
  visit_all-returns go open_ids [] h k b m v = (m, refl, v)
  visit_all-returns go open_ids (d ∷ ds) h k b m v =
      let (m₁, e, v₁) = h d m v k.0 b.0 in
      let (m₂, e₂, v₂) = visit_all-returns go open_ids ds h k.1 b.1 m₁ v₁ in (m₂, rw e e₂, v₂)

  IsBelow-All :
      (id : String) (open_ids ds : List String)
      → All (λ d. rank d < rank id) ds
      → IsBelow id open_ids
      → All (λ d. IsBelow d (id ∷ open_ids)) ds
  IsBelow-All id open_ids [] r b = tt
  IsBelow-All id open_ids (d ∷ ds) r b = (
    λ y h. elim (Bool-cases (str_eq id y)) [
      | inl e ↦ rw (← (str_eq_iff id y).0 e) r.0
      | inr e ↦ omega (arith, r.0, b y (rw e at h))
    ],
    IsBelow-All id open_ids ds r.1 b,
  )

  not_open :
      (id : String) (open_ids : List String) → IsBelow id open_ids → contains id open_ids ≡ false
  not_open id open_ids b = elim (Bool-cases (contains id open_ids)) [
    | inl h ↦ absurd (omega (arith, b id h))
    | inr h ↦ h
  ]

  module _ (known : IsKnown (ids tasks) tasks) (ranked : IsRanked rank tasks) where
    visit-returns :
        (n : ℕ) (open_ids : List String)
        → missing open_ids (ids tasks) < n
        → Succeeds (visit tasks n) open_ids
    unfolding visit visit_new finish
    visit-returns zero open_ids f id m v h b = absurd (omega arith)
    visit-returns (suc n) open_ids f id m v h b =
        let fresh = not_open id open_ids b in
        let (t, found, named, k) = find-All id tasks h known in
        let (t₂, found₂, named₂, r) = find-All id tasks h ranked in
        elim (Bool-cases (contains id m.visited)) [
          | inl old ↦ (m, visit_old tasks n id m (rw v fresh) old, v)
          | inr new ↦
              let same : t₂ ≡ t = cc (found, found₂) in
              let below : All (λ d. rank d < rank id) t.depends_on =
                subst (λ x. All (λ d. rank d < rank x) t.depends_on) named
                  (subst (λ u. All (λ d. rank d < rank u.task_id) u.depends_on) same r) in
              let inner = id ∷ open_ids in
              let (m₁, e, v₁) =
                visit_all-returns (visit tasks n) inner t.depends_on
                  (visit-returns n inner
                    (omega (arith, missing-cons-lt id open_ids (ids tasks) h fresh)))
                  k (IsBelow-All id open_ids t.depends_on below b)
                  (record m { visiting = id ∷ m.visiting }) (ap (λ l. id ∷ l) v) in
              (
                record { visiting = discard id m₁.visiting; visited = id ∷ m₁.visited },
                visit_step tasks n id t m m₁ (rw v fresh) new found e,
                rw v₁ (discard-cons_self id open_ids fresh),
              )
        ]

not_self :
    (rank : String → ℕ) (id : String) (ds : List String)
    → All (λ d. rank d < rank id) ds
    → contains id ds ≡ false
not_self rank id [] r = refl
not_self rank id (d ∷ ds) r = elim (Bool-cases (str_eq d id)) [
  | inl e ↦ absurd (omega (arith, r.0, ap rank ((str_eq_iff d id).0 e)))
  | inr e ↦ rw e (not_self rank id ds r.1)
]

check_dependencies-returns :
    (rank : String → ℕ) (known : List String) (tasks : List MissionTask)
    → IsKnown known tasks
    → IsRanked rank tasks
    → check_dependencies known tasks ≡ returns tt
unfolding check_dependencies
check_dependencies-returns rank known [] k r = refl
check_dependencies-returns rank known (t ∷ ts) k r =
    rw (all_of_All t.depends_on known k.0, not_self rank t.task_id t.depends_on r.0)
      (check_dependencies-returns rank known ts k.1 r.1)

length-ids : (tasks : List MissionTask) → length (ids tasks) ≡ length tasks
length-ids [] = refl
length-ids (t ∷ ts) = ap suc (length-ids ts)

none_open : (rank : String → ℕ) (ds : List String) → All (λ d. IsBelow rank [] d []) ds
none_open rank [] = tt
none_open rank (d ∷ ds) = (λ y h. cc, none_open rank ds)

-- A plan whose task ids are distinct, whose dependencies are tasks of the plan, and whose
-- dependencies can be ranked below their tasks (there is no cycle), is accepted: the recursion of
-- `visit` ends within its fuel, and no error is raised.
pub validate_graph_complete :
    (rank : String → ℕ) (p : MissionPlan)
    → is_nodup (ids p.tasks) ≡ true
    → IsKnown (ids p.tasks) p.tasks
    → IsRanked rank p.tasks
    → validate_graph p ≡ returns p
unfolding validate_graph
validate_graph_complete rank p u k r =
    let n = suc (length p.tasks) in
    let (m, e, v) =
      visit_all-returns rank p.tasks (visit p.tasks n) [] (ids p.tasks)
        (visit-returns rank p.tasks k r n []
          (omega (arith, missing-le-length [] (ids p.tasks), length-ids p.tasks)))
        (All-contains (ids p.tasks)) (none_open rank (ids p.tasks)) no_marks refl in
    rw (u, check_dependencies-returns rank (ids p.tasks) p.tasks k r) (rw e refl)
