-- ===== src/Cortex/OpenCode/Typed.antt =====
-- agent/agent_cortex/providers.py: the types of the events of `OpenCodeProvider`.
use swarmdeck.Prelude.{
  ℕ, String, Bool, true, false, not, ◌&&◌, ◌≡◌, refl, Option, none, some, Bool-cases, [], ◌∷◌, inl,
  inr, str_eq, List, all, All, All-map,
}
use swarmdeck.Prelude.Int.{ℤ, pos, eqb_ℤ}
use swarmdeck.Prelude.Json.{get, is, or_else, Json, Fields, null, bool, num, str, arr, obj, end}
use swarmdeck.Cortex.Runtime.{Provider, run}
use swarmdeck.Cortex.Runtime.Events.{Gives, run-All, is_normalized}
use swarmdeck.Cortex.OpenCode.{
  Library, OpenCode, ProviderRequest, parse_value, parse_payload, text_part, take_text_part,
  tool_use, tool_state, tool_of, note_session, finish_event, open_code,
}
use swarmdeck.Cortex.Supervisor.{Patterns}
use swarmdeck.Cortex.Supervisor.Keeping.{is_texted}

and_left : (a b : Bool) → (a && b) ≡ true → a ≡ true
and_left true b h = refl
and_left false b h = h

and_right : (a b : Bool) → (a && b) ≡ true → b ≡ true
and_right true b h = h
and_right false b h = cc

module _ (P : Patterns) (tick : ℕ → ℕ) where
  abbrev IsTyped : Fields → Type 0
  IsTyped event = (is_normalized event && is_texted P tick event) ≡ true

  take_text_part-IsTyped : (v : Json) (p : OpenCode) → Gives IsTyped (take_text_part v p).0
  unfolding take_text_part
  take_text_part-IsTyped null p = tt
  take_text_part-IsTyped (bool b) p = tt
  take_text_part-IsTyped (num f) p = tt
  take_text_part-IsTyped (str text) p = elim (Bool-cases (str_eq text "")) [
    | inl q ↦ rw q tt
    | inr q ↦ rw q refl
  ]
  take_text_part-IsTyped (arr vs) p = tt
  take_text_part-IsTyped (obj fs) p = tt

  text_part-IsTyped : (v : Json) (p : OpenCode) → Gives IsTyped (text_part v p).0
  unfolding text_part
  text_part-IsTyped null p = tt
  text_part-IsTyped (bool b) p = tt
  text_part-IsTyped (num f) p = tt
  text_part-IsTyped (str text) p = tt
  text_part-IsTyped (arr vs) p = tt
  text_part-IsTyped (obj part) p = take_text_part-IsTyped (get "text" part) p

  tool_of-IsTyped : (tool : Json) (state : Fields) → IsTyped (tool_of tool state)
  unfolding tool_of
  tool_of-IsTyped tool state = elim (Bool-cases (is "completed" (get "status" state))) [
    | inl q ↦ rw q refl
    | inr q ↦ elim (Bool-cases (is "error" (get "status" state))) [
      | inl r ↦ rw (q, r) refl
      | inr r ↦ rw (q, r) refl
    ]
  ]

  module _ (library : Library) where
    tool_state-IsTyped : (tool v : Json) → Gives IsTyped (tool_state library tool v)
    unfolding tool_state
    tool_state-IsTyped tool null = tt
    tool_state-IsTyped tool (bool b) = tt
    tool_state-IsTyped tool (num f) = tt
    tool_state-IsTyped tool (str s) = tt
    tool_state-IsTyped tool (arr vs) = tt
    tool_state-IsTyped tool (obj state) = tool_of-IsTyped tool state

    tool_use-IsTyped : (v : Json) → Gives IsTyped (tool_use library v)
    unfolding tool_use
    tool_use-IsTyped null = tt
    tool_use-IsTyped (bool b) = tt
    tool_use-IsTyped (num f) = tt
    tool_use-IsTyped (str s) = tt
    tool_use-IsTyped (arr vs) = tt
    tool_use-IsTyped (obj part) =
        tool_state-IsTyped (or_else (get "tool" part) (str "tool"))
          (or_else (get "state" part) (obj end))

    parse_payload-IsTyped :
        (payload : Fields) (t part : Json) (p : OpenCode)
        → Gives IsTyped (parse_payload library payload t part p).0
    unfolding parse_payload
    parse_payload-IsTyped payload t part p = elim (Bool-cases (is "text" t)) [
      | inl a ↦ rw a (text_part-IsTyped part p)
      | inr a ↦ elim (Bool-cases (is "tool_use" t)) [
        | inl b ↦ rw (a, b) (tool_use-IsTyped part)
        | inr b ↦ elim (Bool-cases (is "step_start" t && not p.emitted_init)) [
          | inl c ↦ rw (a, b, c) refl
          | inr c ↦ elim (Bool-cases (is "error" t)) [
            | inl d ↦ rw (a, b, c, d) refl
            | inr d ↦ rw (a, b, c, d) tt
          ]
        ]
      ]
    ]

    parse_value-IsTyped :
        (o : Option Json) (p : OpenCode) → Gives IsTyped (parse_value library o p).0
    unfolding parse_value
    parse_value-IsTyped none p = tt
    parse_value-IsTyped (some null) p = tt
    parse_value-IsTyped (some (bool b)) p = tt
    parse_value-IsTyped (some (num f)) p = tt
    parse_value-IsTyped (some (str s)) p = tt
    parse_value-IsTyped (some (arr vs)) p = tt
    parse_value-IsTyped (some (obj payload)) p =
        parse_payload-IsTyped payload (get "type" payload) (or_else (get "part" payload) (obj end))
          (note_session (get "sessionID" payload) p)

    finish_event-IsTyped :
        (p : OpenCode) (code : ℤ) (stderr : String)
        → Gives IsTyped (finish_event library p code stderr)
    finish_event-IsTyped p code stderr = elim (Bool-cases (eqb_ℤ code (pos 0))) [
      | inl q ↦ rw q refl
      | inr q ↦ rw q refl
    ]

    module _ (available : Bool) (request : ProviderRequest) where
      abbrev provider : Provider OpenCode
      provider = open_code library available request

      run-IsTyped : (p : OpenCode) → All IsTyped (run provider p)
      run-IsTyped p =
          run-All IsTyped (λ x. refl) provider
            (λ q line. parse_value-IsTyped (library.loads line) q) finish_event-IsTyped p

      -- Every token event of a run has a text for its delta.
      pub run-texted : (p : OpenCode) → all (is_texted P tick) (run provider p) ≡ true
      run-texted p = all-true (run provider p) (run-IsTyped p)
        where
          all-true : (es : List Fields) → All IsTyped es → all (is_texted P tick) es ≡ true
          all-true [] h = refl
          all-true (e ∷ es) h =
              rw (and_right (is_normalized e) (is_texted P tick e) h.0, all-true es h.1) refl

      pub run-is_normalized : (p : OpenCode) → All (λ e. is_normalized e ≡ true) (run provider p)
      run-is_normalized p =
          All-map (run provider p) (λ e. and_left (is_normalized e) (is_texted P tick e))
            (run-IsTyped p)
