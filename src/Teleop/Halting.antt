-- ===== src/Teleop/Halting.antt =====
-- api/teleop_routes.py: what `post_robot_stop` sends and what it leaves behind.
use swarmdeck.Prelude.{
  append-nil, append_assoc, ◌≡◌, refl, sym, ap, ◌∙◌, String, true, false, Option, none, some, List,
  [], ◌∷◌, ◌++◌, ◌⊎◌, inl, inr, Option-cases, Bool-cases, if◌then◌else◌, contains, subst, str_eq,
  str_eq_iff,
}
use swarmdeck.Prelude.Dict
use swarmdeck.Prelude.Dict.{Dict}
use swarmdeck.Prelude.Float.{Float, zero_float}
use swarmdeck.Registry.{Registry, Robot}
use swarmdeck.Teleop.{
  App, Command, Net, Sent, change, transmit, halt, stop_one, stop_each, stop_targets,
  post_robot_stop,
}
use swarmdeck.Teleop.Writes.{change-sent, transmit-robots}
use Command.{drive, cancel_goal}

-- The commands attempted, with their robots.
abbrev pub commands : List Sent → List (String × Command)
commands [] = []
commands (s ∷ ss) = (s.robot_id, s.command) ∷ commands ss

-- A cancel and a zero speed for each robot.
abbrev pub halts : List String → List (String × Command)
halts [] = []
halts (rid ∷ rids) = (rid, cancel_goal) ∷ (rid, drive zero_float zero_float) ∷ halts rids

commands-append : (xs ys : List Sent) → commands (xs ++ ys) ≡ commands xs ++ commands ys
commands-append [] ys = refl
commands-append (x ∷ xs) ys = ap (λ cs. (x.robot_id, x.command) ∷ cs) (commands-append xs ys)

module _ (read : String → Option Float) (net : Net) where
  commands-transmit :
      (rid : String) (c : Command) (a : App)
      → commands (transmit net rid c a).0.sent ≡ commands a.sent ++ (rid, c) ∷ []
  unfolding transmit
  commands-transmit rid c a =
      commands-append a.sent
        (record { robot_id = rid; command = c; delivered = (transmit net rid c a).1 } ∷ [])

  commands-stop_one :
      (rid : String) (a : App)
      → commands (stop_one read net rid a).sent ≡ commands a.sent ++ halts (rid ∷ [])
  unfolding stop_one
  commands-stop_one rid a =
      let b = (transmit net rid cancel_goal a).0 in
      let c = (transmit net rid (drive zero_float zero_float) b).0 in
      ap commands (change-sent rid halt c)
      ∙ commands-transmit rid (drive zero_float zero_float) b
      ∙ ap (λ cs. cs ++ (rid, drive zero_float zero_float) ∷ [])
          (commands-transmit rid cancel_goal a)
      ∙ append_assoc (commands a.sent) ((rid, cancel_goal) ∷ [])
          ((rid, drive zero_float zero_float) ∷ [])

  halts-append : (xs ys : List String) → halts xs ++ halts ys ≡ halts (xs ++ ys)
  halts-append [] ys = refl
  halts-append (x ∷ xs) ys =
      ap (λ cs. (x, cancel_goal) ∷ (x, drive zero_float zero_float) ∷ cs) (halts-append xs ys)

  commands-stop_each :
      (rids : List String) (a : App)
      → commands (stop_each read net rids a).sent ≡ commands a.sent ++ halts rids
  unfolding stop_each
  commands-stop_each [] a = sym (append-nil (commands a.sent))
  commands-stop_each (rid ∷ rids) a =
      commands-stop_each rids (stop_one read net rid a)
      ∙ ap (λ cs. cs ++ halts rids) (commands-stop_one rid a)
      ∙ append_assoc (commands a.sent) (halts (rid ∷ [])) (halts rids)

  -- Whatever the other handlers do meanwhile and whichever sends fail, a stop of all robots tries
  -- to cancel the goal and then to zero the speed of every robot that was registered, in order.
  pub post_robot_stop_all :
      (a : App)
      → commands (post_robot_stop read net "all" a).0.sent
        ≡ commands a.sent ++ halts (Dict.keys a.registry.robots)
  unfolding post_robot_stop stop_targets
  post_robot_stop_all a = commands-stop_each (Dict.keys a.registry.robots) a

-- No goal is left, and no navigation is active.
pub record IsHalted (r : Robot) : Type 0 where
  pub goal : r.goal ≡ none
  pub status : str_eq r.nav_status "active" ≡ false

get-keys :
    {V : Type 0} (j : String) (d : Dict V)
    → (Dict.get j d ≡ none) ⊎ (contains j (Dict.keys d) ≡ true)
unfolding Dict.get
get-keys j [] = inl refl
get-keys j ((k, v) ∷ d) = elim (Bool-cases (str_eq k j)) [
  | inl e ↦ inr (rw e refl)
  | inr e ↦ elim (get-keys j d) [ inl h ↦ inl (rw (e, Dict.get) h) | inr h ↦ inr (rw e h) ]
]

module _ (read : String → Option Float) (net : Net)
    (quiet : (rid : String) (c : Command) (g : Registry) → (net rid c).0 g ≡ g) where
  -- The robot of this id, where there is one, is halted.
  abbrev Halted : String → App → Type 0
  Halted j a = (r : Robot) → Dict.get j a.registry.robots ≡ some r → IsHalted r

  halt-IsHalted : (q : Robot) → IsHalted (halt q)
  halt-IsHalted q = record {
    goal = refl;
    status = elim (Bool-cases (str_eq q.nav_status "active")) [
      | inl e ↦ rw e refl
      | inr e ↦ rw e e
    ];
  }

  change-Halted :
      (rid j : String) (a : App) → (str_eq rid j ≡ true) ⊎ Halted j a → Halted j (change rid halt a)
  unfolding change
  change-Halted rid j a h r e = elim (Option-cases (Dict.get rid a.registry.robots)) [
    | inl k ↦
        let found : Dict.get j a.registry.robots ≡ some r = rw (k, change) at e in
        elim h [
          | inl same ↦
              let lost : Dict.get j a.registry.robots ≡ none =
                subst (λ i. Dict.get i a.registry.robots ≡ none) ((str_eq_iff rid j).0 same) k in
              cc
          | inr before ↦ before r found
        ]
    | inr (q, k) ↦
        let found : Dict.get j (Dict.put rid (halt q) a.registry.robots) ≡ some r =
          rw (k, change) at e in
        let written : (if str_eq rid j then some (halt q) else Dict.get j a.registry.robots)
            ≡ some r =
          sym (Dict.get-put rid j (halt q) a.registry.robots) ∙ found in
        elim (Bool-cases (str_eq rid j)) [
          | inl same ↦
              let this : halt q ≡ r = cc (rw same at written) in
              subst IsHalted this (halt-IsHalted q)
          | inr other ↦ elim h [ inl same ↦ cc | inr before ↦ before r (rw other at written) ]
        ]
  ]

  stop_one-Halted :
      (rid j : String) (a : App)
      → (str_eq rid j ≡ true) ⊎ Halted j a
      → Halted j (stop_one read net rid a)
  unfolding stop_one
  stop_one-Halted rid j a h =
      let b = (transmit net rid cancel_goal a).0 in
      let c = (transmit net rid (drive zero_float zero_float) b).0 in
      let same : c.registry.robots ≡ a.registry.robots =
        transmit-robots net quiet rid (drive zero_float zero_float) b
        ∙ transmit-robots net quiet rid cancel_goal a in
      change-Halted rid j c (elim h [
        | inl e ↦ inl e
        | inr k ↦ inr (λ r e. k r (subst (λ d. Dict.get j d ≡ some r) same e))
      ])

  stop_each-Halted :
      (rids : List String) (j : String) (a : App)
      → (contains j rids ≡ true) ⊎ Halted j a
      → Halted j (stop_each read net rids a)
  unfolding stop_each
  stop_each-Halted [] j a (inl e) = cc
  stop_each-Halted [] j a (inr h) = h
  stop_each-Halted (rid ∷ rids) j a h =
      stop_each-Halted rids j (stop_one read net rid a) (elim (Bool-cases (str_eq rid j)) [
        | inl same ↦ inr (stop_one-Halted rid j a (inl same))
        | inr other ↦ elim h [
          | inl e ↦ inl (rw other at e)
          | inr k ↦ inr (stop_one-Halted rid j a (inr k))
        ]
      ])

  -- Where no other handler changes the fleet meanwhile, no robot keeps a goal or an active
  -- navigation after a stop of all, even if every send fails.
  pub post_robot_stop_all_halts :
      (a : App) (j : String) (r : Robot)
      → Dict.get j (post_robot_stop read net "all" a).0.registry.robots ≡ some r
      → IsHalted r
  unfolding post_robot_stop stop_targets
  post_robot_stop_all_halts a j =
      stop_each-Halted (Dict.keys a.registry.robots) j a
        (elim (get-keys j a.registry.robots) [ inl e ↦ inr (λ r k. cc) | inr e ↦ inl e ])
