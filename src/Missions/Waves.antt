-- ===== src/Missions/Waves.antt =====
-- `ready_wave`: which tasks a wave holds, and what it leaves in the plan.
use swarmdeck.Prelude.{
  ◌≡◌, refl, ap, sym, subst, String, true, not, ◌||◌, Option, none, some, List, [], ◌∷◌, ◌++◌,
  arith, inl, inr, ◌⊎◌, Bool-cases, contains, all, All, All-map, returns, ◌>>=◌, bind-eq-returns,
  leb,
}
use swarmdeck.Missions.{
  MissionTask, MissionPlan, ready, blocked, find, dependencies, or_key_error, is_open, is_succeeded,
  Verdict, skip, block, take, judge, judge_with, with_status, Scan, after, chosen, scan, sort_key,
  insert, sort, pick, Wave, select, ready_wave,
}

-- What a task of a wave satisfied before the wave: it was open, was approved if it has to be, and
-- its dependencies had succeeded.
pub record IsReady (tasks : List MissionTask) (t : MissionTask) : Type 0 where
  pub was_open : is_open t.status ≡ true
  pub has_approval : (not t.requires_approval || t.approved) ≡ true
  pub deps : List MissionTask
  pub deps_found : dependencies tasks t.depends_on ≡ returns deps
  pub deps_succeeded : all (λ d. is_succeeded d.status) deps ≡ true

judge_with-take :
    (t : MissionTask) (ds : List MissionTask)
    → judge_with t ds ≡ take
    → (all (λ d. is_succeeded d.status) ds ≡ true)
      × ((not t.requires_approval || t.approved) ≡ true)
unfolding judge_with
judge_with-take t ds e = ground arith

judge-take :
    (tasks : List MissionTask) (t : MissionTask) → judge tasks t ≡ returns take → IsReady tasks t
unfolding judge
judge-take tasks t e = elim (Bool-cases (is_open t.status)) [
  | inr shut ↦ cc (rw shut at e)
  | inl opened ↦
      let (ds, e₁, e₂) =
        bind-eq-returns (dependencies tasks t.depends_on) (λ ds. returns (judge_with t ds))
          (rw opened at e) in
      let (succ, appr) = judge_with-take t ds (cc e₂) in
      record {
        was_open = opened;
        has_approval = appr;
        deps = ds;
        deps_found = e₁;
        deps_succeeded = succ;
      }
]

-- The task is the same, or has only been blocked by the loop.
abbrev SameOrBlocked : MissionTask → MissionTask → Type 0
SameOrBlocked t u = (u ≡ t) ⊎ (u ≡ with_status blocked t)

abbrev Blocks : List MissionTask → List MissionTask → Type 0
Blocks [] [] = Unit
Blocks (t ∷ ts) (u ∷ us) = SameOrBlocked t u × Blocks ts us
Blocks _ _ = ⊥

Blocks-refl : (ts : List MissionTask) → Blocks ts ts
Blocks-refl [] = tt
Blocks-refl (t ∷ ts) = (inl refl, Blocks-refl ts)

find-Blocks :
    (id : String) (ts us : List MissionTask) (d : MissionTask)
    → Blocks ts us
    → find id us ≡ some d
    → is_succeeded d.status ≡ true
    → find id ts ≡ some d
unfolding find
find-Blocks id [] [] d b e s = e
find-Blocks id [] (u ∷ us) d b e s = elim b [ ]
find-Blocks id (t ∷ ts) [] d b e s = elim b [ ]
find-Blocks id (t ∷ ts) (u ∷ us) d b e s = elim b.0 [
  | inl same ↦ ground (arith, find-Blocks id ts us d b.1)
  | inr now ↦ ground (arith, find-Blocks id ts us d b.1)
]

or_key_error-eq-returns :
    (o : Option MissionTask) (x : MissionTask) → or_key_error o ≡ returns x → o ≡ some x
or_key_error-eq-returns none x e = cc
or_key_error-eq-returns (some t) x e = cc

all-uncons :
    (x : MissionTask) (xs : List MissionTask)
    → all (λ d. is_succeeded d.status) (x ∷ xs) ≡ true
    → (is_succeeded x.status ≡ true) × (all (λ d. is_succeeded d.status) xs ≡ true)
all-uncons x xs h = ground arith

dependencies-Blocks :
    (names : List String) (ts us deps : List MissionTask)
    → Blocks ts us
    → dependencies us names ≡ returns deps
    → all (λ d. is_succeeded d.status) deps ≡ true
    → dependencies ts names ≡ returns deps
unfolding dependencies
dependencies-Blocks [] ts us deps b e s = e
dependencies-Blocks (d ∷ ds) ts us deps b e s =
    let (x, e₁, e₂) =
      bind-eq-returns (or_key_error (find d us))
        (λ t. dependencies us ds >>= λ rest. returns (t ∷ rest)) e in
    let (rest, e₃, e₄) = bind-eq-returns (dependencies us ds) (λ rest. returns (x ∷ rest)) e₂ in
    let q : x ∷ rest ≡ deps = cc in
    let both =
      all-uncons x rest (subst (λ l. all (λ d. is_succeeded d.status) l ≡ true) (sym q) s) in
    rw (find-Blocks d ts us x b (or_key_error-eq-returns (find d us) x e₁) both.0)
      (rw (dependencies-Blocks ds ts us rest b e₃ both.1) e₄)

IsReady-Blocks :
    (ts us : List MissionTask) (t : MissionTask) → Blocks ts us → IsReady us t → IsReady ts t
IsReady-Blocks ts us t b r = record {
  was_open = r.was_open;
  has_approval = r.has_approval;
  deps = r.deps;
  deps_found = dependencies-Blocks t.depends_on ts us r.deps b r.deps_found r.deps_succeeded;
  deps_succeeded = r.deps_succeeded;
}

Blocks-step :
    (ts done rest : List MissionTask) (v : Verdict) (t : MissionTask)
    → Blocks ts (done ++ t ∷ rest)
    → Blocks ts ((done ++ after v t ∷ []) ++ rest)
Blocks-step [] [] rest v t b = elim b [ ]
Blocks-step [] (d ∷ done) rest v t b = elim b [ ]
Blocks-step (o ∷ ts) [] rest skip t b = b
Blocks-step (o ∷ ts) [] rest take t b = b
Blocks-step (o ∷ ts) [] rest block t b = (
  elim b.0 [ inl e ↦ inr (ap (with_status blocked) e) | inr e ↦ inr (ap (with_status blocked) e) ],
  b.1,
)
Blocks-step (o ∷ ts) (d ∷ done) rest v t b = (b.0, Blocks-step ts done rest v t b.1)

abbrev pub In : MissionTask → List MissionTask → Type 0
In t [] = ⊥
In t (u ∷ us) = (t ≡ u) ⊎ In t us

-- A candidate is one of the tasks, and was ready.
abbrev Fits : List MissionTask → List MissionTask → MissionTask → Type 0
Fits ts rest t = In t rest × IsReady ts t

Fits-chosen :
    (ts all_tasks rest : List MissionTask) (v : Verdict) (t : MissionTask) (cs : List MissionTask)
    → Blocks ts all_tasks
    → judge all_tasks t ≡ returns v
    → All (Fits ts rest) cs
    → All (Fits ts (t ∷ rest)) (chosen v t cs)
Fits-chosen ts us rest take t cs b e h =
    ((inl refl, IsReady-Blocks ts us t b (judge-take us t e)), All-map cs (λ c f. (inr f.0, f.1)) h)
Fits-chosen ts us rest _ t cs b e h = All-map cs (λ c f. (inr f.0, f.1)) h

scan-Fits :
    (ts done rest : List MissionTask) (s : Scan)
    → Blocks ts (done ++ rest)
    → scan done rest ≡ returns s
    → All (Fits ts rest) s.candidates
unfolding scan
scan-Fits ts done [] s b e =
    let p : ◌≡◌ {A = List MissionTask} [] s.candidates = cc in subst (All (Fits ts [])) p tt
scan-Fits ts done (t ∷ rest) s b e =
    let (v, e₁, e₂) =
      bind-eq-returns (judge (done ++ t ∷ rest) t)
        (λ v. scan (done ++ after v t ∷ []) rest >>= λ s.
          returns (record s { candidates = chosen v t s.candidates }))
        e in
    let (s₁, e₃, e₄) =
      bind-eq-returns (scan (done ++ after v t ∷ []) rest)
        (λ s. returns (record s { candidates = chosen v t s.candidates })) e₂ in
    let p : chosen v t s₁.candidates ≡ s.candidates = cc in
    subst (All (Fits ts (t ∷ rest))) p (
      Fits-chosen ts (done ++ t ∷ rest) rest v t s₁.candidates b e₁
        (scan-Fits ts (done ++ after v t ∷ []) rest s₁ (Blocks-step ts done rest v t b) e₃))

-- Sorting and picking keep what holds of each candidate.
insert-All :
    (P : MissionTask → Type 0) (t : MissionTask) (ts : List MissionTask)
    → P t
    → All P ts
    → All P (insert t ts)
unfolding insert
insert-All P t [] p h = (p, tt)
insert-All P t (u ∷ us) p h = elim (Bool-cases (leb (sort_key t) (sort_key u))) [
  | inl e ↦ rw e (p, h)
  | inr e ↦ rw e (h.0, insert-All P t us p h.1)
]

sort-All : (P : MissionTask → Type 0) (ts : List MissionTask) → All P ts → All P (sort ts)
unfolding sort
sort-All P [] h = tt
sort-All P (t ∷ ts) h = insert-All P t (sort ts) h.0 (sort-All P ts h.1)

abbrev Comes : (MissionTask → Type 0) → MissionTask → Type 0
Comes P t = (o : MissionTask) × (t ≡ with_status ready o) × P o

pick-All :
    (P : MissionTask → Type 0) (occupied : List String) (ts : List MissionTask)
    → All P ts
    → All (Comes P) (pick occupied ts)
unfolding pick
pick-All P occupied [] h = tt
pick-All P occupied (t ∷ ts) h = elim (Bool-cases (contains t.robot_id occupied)) [
  | inl e ↦ rw e (pick-All P occupied ts h.1)
  | inr e ↦ rw e ((t, refl, h.0), pick-All P (t.robot_id ∷ occupied) ts h.1)
]

-- Every task of a wave is a task of the plan, now `ready`, that was open and approved where it has
-- to be, and all of whose dependencies had succeeded before the call.
pub ready_wave_ready :
    (p : MissionPlan) (w : Wave)
    → ready_wave p ≡ returns w
    → All
        (λ t. (o : MissionTask) × (t ≡ with_status ready o) × (In o p.tasks × IsReady p.tasks o))
        w.wave
unfolding ready_wave
ready_wave_ready p w e =
    let (s, e₁, e₂) = bind-eq-returns (scan [] p.tasks) (λ s. returns (select s)) e in
    let q : pick [] (sort s.candidates) ≡ w.wave = cc in
    subst (All (Comes (Fits p.tasks p.tasks))) q (
      pick-All (Fits p.tasks p.tasks) [] (sort s.candidates) (
        sort-All (Fits p.tasks p.tasks) s.candidates
          (scan-Fits p.tasks [] p.tasks s (Blocks-refl p.tasks) e₁)))
