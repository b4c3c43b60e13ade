-- ===== src/Teleop/Writes.antt =====
-- api/teleop_routes.py: what a send and a change of a robot leave alone.
use swarmdeck.Prelude.{
  ℕ, ◌≡◌, refl, ap, ◌∙◌, String, Bool, true, false, ◌⊎◌, inl, inr, some, Option-cases, Bool-cases,
  ◌==◌,
}
use swarmdeck.Prelude.Dict
use swarmdeck.Registry.{Registry, Robot, send, disconnect}
use swarmdeck.Teleop.{App, Command, Net, change, transmit}

pub change-sent : (rid : String) (f : Robot → Robot) (a : App) → (change rid f a).sent ≡ a.sent
unfolding change
change-sent rid f a = elim (Option-cases (Dict.get rid a.registry.robots)) [
  | inl e ↦ rw (e, change) refl
  | inr (r, e) ↦ rw (e, change) refl
]

-- A socket that is retired leaves the robots.
disconnect-robots :
    (rid : String) (s : ℕ) (g : Registry) → (disconnect rid (some s) g).robots ≡ g.robots
unfolding disconnect
disconnect-robots rid s g = elim (Option-cases (Dict.get rid g.sinks)) [
  | inl e ↦ rw (e, disconnect) refl
  | inr (t, e) ↦ elim (Bool-cases (t == s)) [
    | inl k ↦ rw (e, disconnect, k) refl
    | inr k ↦ rw (e, disconnect, k) refl
  ]
]

send-robots :
    (meanwhile : Registry → Registry) (delivered : Bool) (rid : String) (g : Registry)
    → (send meanwhile delivered rid g).0.robots ≡ g.robots
      ⊎ ((send meanwhile delivered rid g).0.robots ≡ (meanwhile g).robots)
unfolding send
send-robots meanwhile true rid g = elim (Option-cases (Dict.get rid g.sinks)) [
  | inl e ↦ inl (rw (e, send) refl)
  | inr (s, e) ↦ inr (rw (e, send) refl)
]
send-robots meanwhile false rid g = elim (Option-cases (Dict.get rid g.sinks)) [
  | inl e ↦ inl (rw (e, send) refl)
  | inr (s, e) ↦ inr (rw (e, send) (disconnect-robots rid s (meanwhile g)))
]

module _ (net : Net)
    (quiet : (rid : String) (c : Command) (g : Registry) → (net rid c).0 g ≡ g) where
  pub transmit-robots :
      (rid : String) (c : Command) (a : App)
      → (transmit net rid c a).0.registry.robots ≡ a.registry.robots
  unfolding transmit
  transmit-robots rid c a = elim (send-robots (net rid c).0 (net rid c).1 rid a.registry) [
    | inl e ↦ e
    | inr e ↦ e ∙ ap (λ g. g.robots) (quiet rid c a.registry)
  ]
