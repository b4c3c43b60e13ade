-- ===== src/Cortex/Normalized.antt =====
-- agent/agent_cortex/providers.py and events.py: the types of the events that the three providers send.
use swarmdeck.Prelude.{
  suc, String, Bool, true, false, ◌&&◌, ◌≡◌, refl, ap, ◌∙◌, Option, none, some, Bool-cases, inl,
  inr, List, Outcome, All,
}
use swarmdeck.Prelude.Json.{
  get, is, or_else, truthy, Json, Fields, null, bool, num, str, arr, obj, end, field?,
}
use swarmdeck.Cortex.Runtime.{run, member, is_normalized_type}
use swarmdeck.Cortex.Runtime.Events.{Gives, run-All, is_normalized}
use swarmdeck.Cortex.OpenCode.{Library, OpenCode, ProviderRequest, open_code}
use swarmdeck.Cortex.OpenCode.Typed.{run-is_normalized}
use swarmdeck.Cortex.Supervisor.{Patterns}
use swarmdeck.Cortex.Agy.{
  Agy, agy, with_fields, tool_info_event, tool_step, step_event, agy_result, agy_payload, agy_value,
}
use swarmdeck.Cortex.Ndjson.{BridgeLibrary, ndjson, ndjson_value, if_normalized}

abbrev pub IsNormalized : Fields → Type 0
IsNormalized event = is_normalized event ≡ true

module _ (library : Library) where
  with_fields-Gives :
      (v : Json) (f : Fields → Outcome String (Option Fields))
      → ((fs : Fields) → Gives IsNormalized (f fs))
      → Gives IsNormalized (with_fields library v f)
  with_fields-Gives null f g = tt
  with_fields-Gives (bool b) f g = tt
  with_fields-Gives (num n) f g = tt
  with_fields-Gives (str s) f g = tt
  with_fields-Gives (arr vs) f g = tt
  with_fields-Gives (obj fs) f g = g fs

  tool_info_event-Gives :
      (state : Json) (update info : Fields)
      → Gives IsNormalized (tool_info_event library state update info)
  unfolding tool_info_event
  tool_info_event-Gives state update info = elim (Bool-cases (is "ACTIVE" state)) [
    | inl a ↦ rw a refl
    | inr a ↦ elim (Bool-cases (is "DONE" state)) [ inl d ↦ rw (a, d) refl | inr d ↦ rw (a, d) tt ]
  ]

  tool_step-Gives :
      (state : Json) (update : Fields) → Gives IsNormalized (tool_step library state update)
  unfolding tool_step
  tool_step-Gives state update =
      let used =
        with_fields-Gives (or_else (get "tool_info" update) (obj end))
          (tool_info_event library state update) (tool_info_event-Gives state update) in
      elim (Bool-cases (is "ACTIVE" state)) [
        | inl a ↦ rw a used
        | inr a ↦ elim (Bool-cases (is "DONE" state)) [
          | inl d ↦ rw (a, d) used
          | inr d ↦ rw (a, d) tt
        ]
      ]

  step_event-Gives : (update : Fields) → Gives IsNormalized (step_event library update)
  unfolding step_event
  step_event-Gives update =
      elim (Bool-cases
        (is "agent_response" (get "step_type" update) && truthy (get "text_delta" update))) [
          | inl a ↦ rw a refl
          | inr a ↦ elim (Bool-cases (is "tool" (get "step_type" update))) [
            | inl b ↦ rw (a, b) (tool_step-Gives (get "state" update) update)
            | inr b ↦ rw (a, b) tt
          ]
        ]

  agy_result-Gives : (result : Fields) → Gives IsNormalized (agy_result library result)
  unfolding agy_result
  agy_result-Gives result = refl

  agy_payload-Gives : (payload : Fields) → Gives IsNormalized (agy_payload library payload)
  unfolding agy_payload
  agy_payload-Gives payload =
      let t = get "event" payload in
      elim (Bool-cases (is "init" t)) [
        | inl a ↦ rw a refl
        | inr a ↦ elim (Bool-cases (is "step_update" t)) [
          | inl b ↦
              rw (a, b)
                (with_fields-Gives (or_else (get "step_update" payload) (obj end))
                  (step_event library) step_event-Gives)
          | inr b ↦ elim (Bool-cases (is "result" t)) [
            | inl c ↦
                rw (a, b, c)
                  (with_fields-Gives (or_else (get "result" payload) (obj end)) (agy_result library)
                    agy_result-Gives)
            | inr c ↦ rw (a, b, c) tt
          ]
        ]
      ]

  agy_value-Gives : (o : Option Json) → Gives IsNormalized (agy_value library o)
  unfolding agy_value
  agy_value-Gives none = tt
  agy_value-Gives (some v) = with_fields-Gives v (agy_payload library) agy_payload-Gives

typed :
    (payload : Fields) (t : String)
    → field? "type" payload ≡ some (str t)
    → is_normalized_type t ≡ true
    → IsNormalized payload
typed payload t e q = ap (λ o. elim o [ some (str t) ↦ is_normalized_type t | _ ↦ false ]) e ∙ q

-- A payload is passed on only if its type is in the set.
if_normalized-Gives :
    (payload : Fields) (o : Option Json)
    → field? "type" payload ≡ o
    → Gives IsNormalized (if_normalized payload (member is_normalized_type o))
unfolding if_normalized
if_normalized-Gives payload none e = tt
if_normalized-Gives payload (some null) e = tt
if_normalized-Gives payload (some (bool b)) e = tt
if_normalized-Gives payload (some (num n)) e = tt
if_normalized-Gives payload (some (str t)) e = elim (Bool-cases (is_normalized_type t)) [
  | inl q ↦ rw q (typed payload t e q)
  | inr q ↦ rw q tt
]
if_normalized-Gives payload (some (arr vs)) e = tt
if_normalized-Gives payload (some (obj fs)) e = tt

ndjson_value-Gives : (o : Option Json) → Gives IsNormalized (ndjson_value o)
unfolding ndjson_value
ndjson_value-Gives none = tt
ndjson_value-Gives (some null) = tt
ndjson_value-Gives (some (bool b)) = tt
ndjson_value-Gives (some (num n)) = tt
ndjson_value-Gives (some (str s)) = tt
ndjson_value-Gives (some (arr vs)) = tt
ndjson_value-Gives (some (obj payload)) = if_normalized-Gives payload (field? "type" payload) refl

-- Whatever the process and the lines that it prints, each event of a run of any of the three
-- providers has one of the six types of NORMALIZED_EVENT_TYPES.
pub run-IsNormalized :
    (library : Library) (bridge : BridgeLibrary) (available : Bool) (request : ProviderRequest)
    (p : Agy) (q : OpenCode) (command : List String)
    → All IsNormalized (run (agy library request) p)
      × All IsNormalized (run (open_code library available request) q)
      × All IsNormalized (run (ndjson bridge available request) command)
run-IsNormalized library bridge available request p q command = (
  run-All IsNormalized (λ x. refl) (agy library request)
      (λ s line. agy_value-Gives library (library.loads line)) tt p,
  run-is_normalized no_patterns suc library available request q,
  run-All IsNormalized (λ x. refl) (ndjson bridge available request)
      (λ s line. ndjson_value-Gives (bridge.loads line)) tt command,
)
  where
    no_patterns : Patterns
    no_patterns = record { is_sensitive = λ k. false; hide_bearer = λ s. s }
