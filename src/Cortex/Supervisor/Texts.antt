-- ===== src/Cortex/Supervisor/Texts.antt =====
-- agent_cortex/supervisor.py: the token text in the rows of the record.
use swarmdeck.Prelude.{
  ◌≡◌, refl, ap, sym, ◌∙◌, String, ◌||◌, some, List, [], ◌∷◌, ◌++◌, Bool-cases, inl, inr,
  if◌then◌else◌, str_eq,
}
use Prim.Native.String.{◌++◌ as ◌++ˢ◌}
use text.Mathlib.TextLemmas.{append_assoc as append_assocˢ, nil-append}
use swarmdeck.Prelude.Text.{join}
use swarmdeck.Prelude.Json.{Json, obj, str, field?}
use swarmdeck.Cortex.Store.{Event, Job, has_job, update_job}

-- The delta of a recorded token event.
abbrev pub delta_of_payload : Json → String
delta_of_payload (obj fs) = elim (field? "delta" fs) [ some (str s) ↦ s | _ ↦ "" ]
delta_of_payload _ = ""

-- The text of the token events in the record.
abbrev pub recorded_text : List Event → String
recorded_text [] = ""
recorded_text (e ∷ es) =
    let rest = recorded_text es in
    if str_eq e.event_type "provider.token" then delta_of_payload e.payload ++ˢ rest else rest

pub recorded_text-append :
    (xs ys : List Event) → recorded_text (xs ++ ys) ≡ recorded_text xs ++ˢ recorded_text ys
recorded_text-append [] ys = sym (nil-append (recorded_text ys))
recorded_text-append (x ∷ xs) ys = elim (Bool-cases (str_eq x.event_type "provider.token")) [
  | inl e ↦ rw e (
      ap (λ t. delta_of_payload x.payload ++ˢ t) (recorded_text-append xs ys)
      ∙ sym (append_assocˢ (delta_of_payload x.payload) (recorded_text xs) (recorded_text ys)))
  | inr e ↦ rw e (recorded_text-append xs ys)
]

pub join-append : (xs ys : List String) → join (xs ++ ys) ≡ join xs ++ˢ join ys
join-append [] ys = sym (nil-append (join ys))
join-append (x ∷ xs) ys =
    ap (λ t. x ++ˢ t) (join-append xs ys) ∙ sym (append_assocˢ x (join xs) (join ys))

pub has_job-update_job :
    (i id : String) (f : Job → Job) (js : List Job)
    → ((j : Job) → (f j).job_id ≡ j.job_id)
    → has_job i (update_job id f js) ≡ has_job i js
has_job-update_job i id f [] keeps_id = refl
has_job-update_job i id f (j ∷ js) keeps_id = elim (Bool-cases (str_eq j.job_id id)) [
  | inl e ↦ rw e (
      ap (λ k. str_eq k i || has_job i (update_job id f js)) (keeps_id j)
      ∙ ap (λ b. str_eq j.job_id i || b) (has_job-update_job i id f js keeps_id))
  | inr e ↦ rw e (ap (λ b. str_eq j.job_id i || b) (has_job-update_job i id f js keeps_id))
]
