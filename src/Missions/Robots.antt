-- ===== src/Missions/Robots.antt =====
-- `ready_wave` and the robots: one task each, and an emergency stop wins.
use swarmdeck.Prelude.{
  ℕ, ◌≤◌, ◌≡◌, refl, subst, String, true, false, List, [], ◌∷◌, arith, inl, inr, ◌⊎◌, Bool-cases,
  contains, contains-cons_self, is_nodup, All, All-map, returns, bind-eq-returns, str_eq,
  str_eq_iff, leb, leb→le,
}
use swarmdeck.Missions.{
  MissionTask, MissionPlan, ready, is_stop, with_status, Scan, scan, sort_key, insert, sort, pick,
  Wave, select, ready_wave,
}
use swarmdeck.Missions.Waves.{In}

abbrev pub robots : List MissionTask → List String
robots [] = []
robots (t ∷ ts) = t.robot_id ∷ robots ts

-- No robot that is occupied is picked for.
pick_avoids :
    (r : String) (occupied : List String) (ts : List MissionTask)
    → contains r occupied ≡ true
    → contains r (robots (pick occupied ts)) ≡ false
unfolding pick
pick_avoids r occupied [] h = refl
pick_avoids r occupied (t ∷ ts) h = elim (Bool-cases (contains t.robot_id occupied)) [
  | inl e ↦ rw e (pick_avoids r occupied ts h)
  | inr e ↦ rw e (ground (arith, pick_avoids r (t.robot_id ∷ occupied) ts, str_eq_iff t.robot_id r))
]

pick-is_nodup :
    (occupied : List String) (ts : List MissionTask) → is_nodup (robots (pick occupied ts)) ≡ true
unfolding pick
pick-is_nodup occupied [] = refl
pick-is_nodup occupied (t ∷ ts) = elim (Bool-cases (contains t.robot_id occupied)) [
  | inl e ↦ rw e (pick-is_nodup occupied ts)
  | inr e ↦ rw e (
      rw
        (pick_avoids t.robot_id (t.robot_id ∷ occupied) ts (contains-cons_self t.robot_id occupied))
        (pick-is_nodup (t.robot_id ∷ occupied) ts))
]

-- A wave never holds two tasks for one robot.
pub ready_wave_one_per_robot :
    (p : MissionPlan) (w : Wave) → ready_wave p ≡ returns w → is_nodup (robots w.wave) ≡ true
unfolding ready_wave
ready_wave_one_per_robot p w e =
    let (s, e₁, e₂) = bind-eq-returns (scan [] p.tasks) (λ s. returns (select s)) e in
    let q : pick [] (sort s.candidates) ≡ w.wave = cc in
    subst (λ l. is_nodup (robots l) ≡ true) q (pick-is_nodup [] (sort s.candidates))

-- The candidates with the smaller key stand first.
abbrev IsSorted : List MissionTask → Type 0
IsSorted [] = Unit
IsSorted (t ∷ ts) = All (λ u. sort_key t ≤ sort_key u) ts × IsSorted ts

insert-key :
    (k : ℕ) (t : MissionTask) (ts : List MissionTask)
    → k ≤ sort_key t
    → All (λ u. k ≤ sort_key u) ts
    → All (λ u. k ≤ sort_key u) (insert t ts)
unfolding insert
insert-key k t [] h a = (h, tt)
insert-key k t (u ∷ us) h a = elim (Bool-cases (leb (sort_key t) (sort_key u))) [
  | inl e ↦ rw e (h, a)
  | inr e ↦ rw e (a.0, insert-key k t us h a.1)
]

not_leb : (a b : ℕ) → leb a b ≡ false → b ≤ a
not_leb a b h = ground arith

le-All :
    (k m : ℕ) (ts : List MissionTask)
    → k ≤ m
    → All (λ u. m ≤ sort_key u) ts
    → All (λ u. k ≤ sort_key u) ts
le-All k m [] h a = tt
le-All k m (u ∷ us) h a = (omega (arith, a.0), le-All k m us h a.1)

insert-IsSorted : (t : MissionTask) (ts : List MissionTask) → IsSorted ts → IsSorted (insert t ts)
unfolding insert
insert-IsSorted t [] s = (tt, tt)
insert-IsSorted t (u ∷ us) s = elim (Bool-cases (leb (sort_key t) (sort_key u))) [
  | inl e ↦
      let le = leb→le (sort_key t) (sort_key u) e in
      rw e ((le, le-All (sort_key t) (sort_key u) us le s.0), s)
  | inr e ↦ rw e (
    insert-key (sort_key u) t us (not_leb (sort_key t) (sort_key u) e) s.0,
    insert-IsSorted t us s.1,
  )
]

sort-IsSorted : (ts : List MissionTask) → IsSorted (sort ts)
unfolding sort
sort-IsSorted [] = tt
sort-IsSorted (t ∷ ts) = insert-IsSorted t (sort ts) (sort-IsSorted ts)

-- The robot of `c` has a task in the wave, a stop if `c` is one.
abbrev pub IsServed : List MissionTask → MissionTask → Type 0
IsServed wave c =
    (u : MissionTask) × In u wave
    × (u.robot_id ≡ c.robot_id)
    × (is_stop c.action ≡ true → is_stop u.action ≡ true)

key_stop :
    (t c : MissionTask)
    → sort_key t ≤ sort_key c
    → is_stop c.action ≡ true
    → is_stop t.action ≡ true
key_stop t c h e = ground arith

abbrev Settled : List String → List MissionTask → MissionTask → Type 0
Settled occupied wave c = (contains c.robot_id occupied ≡ true) ⊎ IsServed wave c

settle :
    (occupied : List String) (t c : MissionTask) (wave : List MissionTask)
    → sort_key t ≤ sort_key c
    → Settled (t.robot_id ∷ occupied) wave c
    → Settled occupied (with_status ready t ∷ wave) c
settle occupied t c wave le (inr (u, i, r, s)) = inr (u, inr i, r, s)
settle occupied t c wave le (inl h) = elim (Bool-cases (str_eq t.robot_id c.robot_id)) [
  | inl same ↦
      inr
        (with_status ready t, inl refl, (str_eq_iff t.robot_id c.robot_id).0 same, key_stop t c le)
  | inr other ↦ inl (rw other at h)
]

settle-All :
    (occupied : List String) (t : MissionTask) (wave cs : List MissionTask)
    → All (λ c. sort_key t ≤ sort_key c) cs
    → All (Settled (t.robot_id ∷ occupied) wave) cs
    → All (Settled occupied (with_status ready t ∷ wave)) cs
settle-All occupied t wave [] k h = tt
settle-All occupied t wave (c ∷ cs) k h =
    (settle occupied t c wave k.0 h.0, settle-All occupied t wave cs k.1 h.1)

pick_skip :
    (occupied : List String) (t : MissionTask) (ts : List MissionTask)
    → contains t.robot_id occupied ≡ true
    → pick occupied ts ≡ pick occupied (t ∷ ts)
unfolding pick
pick_skip occupied t ts e = rw e refl

pick_take :
    (occupied : List String) (t : MissionTask) (ts : List MissionTask)
    → contains t.robot_id occupied ≡ false
    → with_status ready t ∷ pick (t.robot_id ∷ occupied) ts ≡ pick occupied (t ∷ ts)
unfolding pick
pick_take occupied t ts e = rw e refl

pick-Settled :
    (occupied : List String) (ts : List MissionTask)
    → IsSorted ts
    → All (Settled occupied (pick occupied ts)) ts
pick-Settled occupied [] s = tt
pick-Settled occupied (t ∷ ts) s = elim (Bool-cases (contains t.robot_id occupied)) [
  | inl e ↦
      subst (λ w. All (Settled occupied w) (t ∷ ts)) (pick_skip occupied t ts e)
        (inl e, pick-Settled occupied ts s.1)
  | inr e ↦
      subst (λ w. All (Settled occupied w) (t ∷ ts)) (pick_take occupied t ts e)
        (
          inr (with_status ready t, inl refl, refl, λ h. h),
          settle-All occupied t (pick (t.robot_id ∷ occupied) ts) ts s.0
              (pick-Settled (t.robot_id ∷ occupied) ts s.1),
        )
]

-- What holds of each member of the sorted list holds of each candidate.
insert-All_inv :
    (P : MissionTask → Type 0) (t : MissionTask) (ts : List MissionTask)
    → All P (insert t ts)
    → P t × All P ts
unfolding insert
insert-All_inv P t [] h = h
insert-All_inv P t (u ∷ us) h = elim (Bool-cases (leb (sort_key t) (sort_key u))) [
  | inl e ↦ (rw e at h)
  | inr e ↦
      let (hu, hrest) = (rw e at h) in
      let (ht, hus) = insert-All_inv P t us hrest in (ht, (hu, hus))
]

sort-All_inv : (P : MissionTask → Type 0) (ts : List MissionTask) → All P (sort ts) → All P ts
unfolding sort
sort-All_inv P [] h = tt
sort-All_inv P (t ∷ ts) h =
    let (ht, hts) = insert-All_inv P t (sort ts) h in (ht, sort-All_inv P ts hts)

served : (wave : List MissionTask) (c : MissionTask) → Settled [] wave c → IsServed wave c
served wave c (inl h) = cc
served wave c (inr h) = h

-- Every candidate's robot gets a task in the wave, and where a candidate for the robot is an
-- emergency stop, that task is an emergency stop.
pub ready_wave_serves :
    (p : MissionPlan) (s : Scan) (w : Wave)
    → scan [] p.tasks ≡ returns s
    → ready_wave p ≡ returns w
    → All (IsServed w.wave) s.candidates
unfolding ready_wave
ready_wave_serves p s w es e =
    let (s₁, e₁, e₂) = bind-eq-returns (scan [] p.tasks) (λ s. returns (select s)) e in
    let same : s₁ ≡ s = cc in
    let q : pick [] (sort s₁.candidates) ≡ w.wave = cc in
    subst (λ x. All (IsServed w.wave) x.candidates) same
      (All-map s₁.candidates (served w.wave) (
        sort-All_inv (Settled [] w.wave) s₁.candidates (
          subst (λ l. All (Settled [] l) (sort s₁.candidates)) q
            (pick-Settled [] (sort s₁.candidates) (sort-IsSorted s₁.candidates)))))
