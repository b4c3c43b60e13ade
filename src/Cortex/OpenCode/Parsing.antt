-- ===== src/Cortex/OpenCode/Parsing.antt =====
-- agent/agent_cortex/providers.py: what a line adds to the parts of the response in
-- `OpenCodeProvider.parse_event`.
use swarmdeck.Prelude.{
  String, Bool, false, not, ◌&&◌, ◌≡◌, refl, sym, ap, ◌∙◌, if◌then◌else◌, Option, none, some, List,
  [], ◌∷◌, ◌++◌, str_eq, Outcome, raises, returns, Bool-cases, inl, inr, append-nil,
}
use swarmdeck.Prelude.Json.{
  get, is, or_else, Json, Fields, null, bool, num, str, arr, obj, end, field,
}
use swarmdeck.Cortex.Runtime.{Heard, quiet, sends, breaks, heard, sent_event, is_terminal}
use swarmdeck.Cortex.OpenCode.{
  Library, OpenCode, parse_value, parse_payload, text_part, take_text_part, tool_use, tool_state,
  tool_of, note_session,
}

abbrev pub texts : Json → List String
texts (str s) = s ∷ []
texts v = []

-- The text of a token event.
abbrev pub delta_of : Fields → List String
delta_of event = if is "token" (get "type" event) then texts (get "delta" event) else []

abbrev pub is_done : Fields → Bool
is_done event = is "done" (get "type" event)

-- The parts of `q` are those of `p` with the text of the event.
abbrev pub Passes : Fields → OpenCode → OpenCode → Type 0
Passes event p q = (is_done event ≡ false) × (q.response_parts ≡ p.response_parts ++ delta_of event)

abbrev pub Gave : Outcome String (Option Fields) → OpenCode → OpenCode → Type 0
Gave (raises x) p q = Unit
Gave (returns none) p q = q.response_parts ≡ p.response_parts
Gave (returns (some event)) p q = Passes event p q

abbrev pub Kept : Heard → OpenCode → OpenCode → Type 0
Kept quiet p q = q.response_parts ≡ p.response_parts
Kept (sends event t) p q = Passes event p q
Kept (breaks x) p q = Unit

sent_event-Kept :
    (event : Fields) (r : Outcome String Bool) (p q : OpenCode)
    → Passes event p q
    → Kept (sent_event event r) p q
sent_event-Kept event (raises x) p q s = tt
sent_event-Kept event (returns t) p q s = s

pub heard-Kept :
    (r : Outcome String (Option Fields)) (p q : OpenCode) → Gave r p q → Kept (heard r) p q
heard-Kept (raises x) p q g = tt
heard-Kept (returns none) p q g = g
heard-Kept (returns (some end)) p q g = g.1 ∙ append-nil p.response_parts
heard-Kept (returns (some (field k v fs))) p q g =
    sent_event-Kept (field k v fs) (is_terminal (field k v fs)) p q g

take_text_part-Gave :
    (v : Json) (p : OpenCode) → Gave (take_text_part v p).0 p (take_text_part v p).1
unfolding take_text_part
take_text_part-Gave null p = refl
take_text_part-Gave (bool b) p = refl
take_text_part-Gave (num f) p = refl
take_text_part-Gave (str text) p = elim (Bool-cases (str_eq text "")) [
  | inl q ↦ rw q refl
  | inr q ↦ rw q (refl, refl)
]
take_text_part-Gave (arr vs) p = refl
take_text_part-Gave (obj fs) p = refl

text_part-Gave : (v : Json) (p : OpenCode) → Gave (text_part v p).0 p (text_part v p).1
unfolding text_part
text_part-Gave null p = refl
text_part-Gave (bool b) p = refl
text_part-Gave (num f) p = refl
text_part-Gave (str text) p = refl
text_part-Gave (arr vs) p = refl
text_part-Gave (obj part) p = take_text_part-Gave (get "text" part) p

tool_of-Passes : (tool : Json) (state : Fields) (p : OpenCode) → Passes (tool_of tool state) p p
unfolding tool_of
tool_of-Passes tool state p = elim (Bool-cases (is "completed" (get "status" state))) [
  | inl q ↦ rw q (refl, sym (append-nil p.response_parts))
  | inr q ↦ elim (Bool-cases (is "error" (get "status" state))) [
    | inl r ↦ rw (q, r) (refl, sym (append-nil p.response_parts))
    | inr r ↦ rw (q, r) (refl, sym (append-nil p.response_parts))
  ]
]

module _ (library : Library) where
  tool_state-Gave : (tool v : Json) (p : OpenCode) → Gave (tool_state library tool v) p p
  unfolding tool_state
  tool_state-Gave tool null p = tt
  tool_state-Gave tool (bool b) p = tt
  tool_state-Gave tool (num f) p = tt
  tool_state-Gave tool (str s) p = tt
  tool_state-Gave tool (arr vs) p = tt
  tool_state-Gave tool (obj state) p = tool_of-Passes tool state p

  tool_use-Gave : (v : Json) (p : OpenCode) → Gave (tool_use library v) p p
  unfolding tool_use
  tool_use-Gave null p = refl
  tool_use-Gave (bool b) p = refl
  tool_use-Gave (num f) p = refl
  tool_use-Gave (str s) p = refl
  tool_use-Gave (arr vs) p = refl
  tool_use-Gave (obj part) p =
      tool_state-Gave (or_else (get "tool" part) (str "tool"))
        (or_else (get "state" part) (obj end)) p

  parse_payload-Gave :
      (payload : Fields) (t part : Json) (p : OpenCode)
      → Gave (parse_payload library payload t part p).0 p (parse_payload library payload t part p).1
  unfolding parse_payload
  parse_payload-Gave payload t part p = elim (Bool-cases (is "text" t)) [
    | inl a ↦ rw a (text_part-Gave part p)
    | inr a ↦ elim (Bool-cases (is "tool_use" t)) [
      | inl b ↦ rw (a, b) (tool_use-Gave part p)
      | inr b ↦ elim (Bool-cases (is "step_start" t && not p.emitted_init)) [
        | inl c ↦ rw (a, b, c) (refl, sym (append-nil p.response_parts))
        | inr c ↦ elim (Bool-cases (is "error" t)) [
          | inl d ↦ rw (a, b, c, d) (refl, sym (append-nil p.response_parts))
          | inr d ↦ rw (a, b, c, d) refl
        ]
      ]
    ]
  ]

  note_session_parts :
      (v : Json) (p : OpenCode) → (note_session v p).response_parts ≡ p.response_parts
  note_session_parts null p = refl
  note_session_parts (bool b) p = refl
  note_session_parts (num f) p = refl
  note_session_parts (str s) p = refl
  note_session_parts (arr vs) p = refl
  note_session_parts (obj fs) p = refl

  Gave-same :
      (r : Outcome String (Option Fields)) (p p' q : OpenCode)
      → p'.response_parts ≡ p.response_parts
      → Gave r p' q
      → Gave r p q
  Gave-same (raises x) p p' q e g = tt
  Gave-same (returns none) p p' q e g = g ∙ e
  Gave-same (returns (some event)) p p' q e g = (g.0, g.1 ∙ ap (λ ts. ts ++ delta_of event) e)

  pub parse_value-Gave :
      (o : Option Json) (p : OpenCode)
      → Gave (parse_value library o p).0 p (parse_value library o p).1
  unfolding parse_value
  parse_value-Gave none p = refl
  parse_value-Gave (some null) p = refl
  parse_value-Gave (some (bool b)) p = refl
  parse_value-Gave (some (num f)) p = refl
  parse_value-Gave (some (str s)) p = refl
  parse_value-Gave (some (arr vs)) p = refl
  parse_value-Gave (some (obj payload)) p =
      let t : Json = get "type" payload in
      let part : Json = or_else (get "part" payload) (obj end) in
      let p' : OpenCode = note_session (get "sessionID" payload) p in
      Gave-same (parse_payload library payload t part p').0 p p'
        (parse_payload library payload t part p').1 (note_session_parts (get "sessionID" payload) p)
        (parse_payload-Gave payload t part p')
