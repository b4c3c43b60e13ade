-- ===== src/Cortex/Store/Counting.antt =====
-- agent_cortex/store.py: the numbers of a job's events, and what one append adds.
use swarmdeck.Prelude.{
  append-nil, ℕ, suc, ◌+◌, ◌≤◌, ◌≡◌, refl, sym, ap, String, true, false, Option, List, [], ◌∷◌,
  ◌++◌, arith, length, any, Bool-cases, inl, inr, ◌==◌, str_eq, str_eq_iff, Outcome, raises,
  returns, subst, ◌⊎◌,
}
use swarmdeck.Prelude.Float.{Float}
use swarmdeck.Prelude.Json.{Json}
use swarmdeck.Cortex.Store.{
  CortexStore, Event, Job, NewJob, StoreError, Stored, has_job, of_job, max_sequence, create_job,
  append_event, set_phase, interrupt_running_jobs, propose_memory, review_memory, add_compaction,
  update_job,
}
use swarmdeck.Cortex.Store.Ordering.{Numbered}

-- The writes of the store, with the new ids and the times.
pub data Write : Type 0 where
  to_create : String → ℕ → NewJob → Write
  to_append : String → String → Json → ℕ → Write
  to_set_phase : String → String → Option String → ℕ → Write
  to_interrupt : ℕ → Write
  to_propose : String → String → String → Json → Float → Option String → ℕ → Write
  to_review : String → String → ℕ → Write
  to_compact : String → String → ℕ → String → ℕ → Write

-- A transaction that raises changes nothing.
abbrev pub committed : {A : Type 0} → CortexStore → Stored A → CortexStore
committed s (raises x) = s
committed s (returns r) = r.0

abbrev pub committed_only : CortexStore → Outcome StoreError CortexStore → CortexStore
committed_only s (raises x) = s
committed_only s (returns r) = r

unfoldable pub write : Write → CortexStore → CortexStore
write (Write.to_create id now n) s = committed s (create_job id now n s)
write (Write.to_append id kind payload now) s = committed s (append_event id kind payload now s)
write (Write.to_set_phase id phase error_text now) s = set_phase id phase error_text now s
write (Write.to_interrupt now) s = (interrupt_running_jobs now s).0
write (Write.to_propose id scope key value confidence source now) s =
    committed s (propose_memory id scope key value confidence source now s)
write (Write.to_review id status now) s = committed_only s (review_memory id status now s)
write (Write.to_compact id job through summary now) s =
    committed s (add_compaction id job through summary now s)

unfoldable pub history : List Write → CortexStore → CortexStore
unfolding write
history [] s = s
history (w ∷ ws) s = history ws (write w s)

-- The events of each job are numbered from 1.
abbrev pub IsNumbered : CortexStore → Type 0
IsNumbered s = (id : String) → Numbered 1 (of_job id s.events)

Numbered-append :
    (n : ℕ) (es : List Event) (e : Event)
    → Numbered n es
    → e.sequence ≡ n + length es
    → Numbered n (es ++ e ∷ [])
Numbered-append n [] e h k = (omega (arith, k), tt)
Numbered-append n (f ∷ es) e h k = (h.0, Numbered-append (suc n) es e h.1 (omega (arith, k)))

max_sequence-Numbered :
    (n : ℕ) (es : List Event)
    → Numbered (suc n) es
    → ((es ≡ []) × (max_sequence es ≡ 0)) ⊎ (max_sequence es ≡ n + length es)
max_sequence-Numbered n [] h = inl (refl, refl)
max_sequence-Numbered n (e ∷ es) h = elim (max_sequence-Numbered (suc n) es h.1) [
  | inl (same, k) ↦ inr (rw same (ground (arith, h.0)))
  | inr k ↦ inr (ground (arith, k, h.0))
]

pub max_sequence-length : (es : List Event) → Numbered 1 es → max_sequence es ≡ length es
max_sequence-length es h = elim (max_sequence-Numbered 0 es h) [
  | inl (same, k) ↦ rw same refl
  | inr k ↦ omega (arith, k)
]

any-Numbered :
    (n m : ℕ) (es : List Event)
    → Numbered n es
    → n + length es ≤ m
    → any (λ e. e.sequence == m) es ≡ false
any-Numbered n m [] h k = refl
any-Numbered n m (e ∷ es) h k =
    ground (arith, h.0, any-Numbered (suc n) m es h.1 (omega (arith, k)))

pub of_job-append :
    (id : String) (es fs : List Event) → of_job id (es ++ fs) ≡ of_job id es ++ of_job id fs
of_job-append id [] fs = refl
of_job-append id (e ∷ es) fs = elim (Bool-cases (str_eq e.job_id id)) [
  | inl k ↦ rw k (ap (λ r. e ∷ r) (of_job-append id es fs))
  | inr k ↦ rw k (of_job-append id es fs)
]

-- The row that `append_event` writes.
abbrev pub next_event : String → String → Json → ℕ → CortexStore → Event
next_event id kind payload now s = record {
  event_id = s.next_event_id;
  job_id = id;
  sequence = max_sequence (of_job id s.events) + 1;
  event_type = kind;
  payload = payload;
  created_at = now;
}

next-sequence :
    (id kind : String) (payload : Json) (now : ℕ) (s : CortexStore)
    → IsNumbered s
    → (next_event id kind payload now s).sequence ≡ 1 + length (of_job id s.events)
next-sequence id kind payload now s h =
    omega (arith, max_sequence-length (of_job id s.events) (h id))

-- What `append_event` does to a job's row.
abbrev pub touched : String → ℕ → CortexStore → List Job
touched id now s = update_job id (λ j. record j { updated_at = now }) s.jobs

-- Of the three outcomes, the unique key never fails on numbered events.
pub append_event-returns :
    (id kind : String) (payload : Json) (now : ℕ) (s : CortexStore)
    → IsNumbered s
    → has_job id s.jobs ≡ true
    → append_event id kind payload now s
      ≡ returns (
        record s {
          events = s.events ++ next_event id kind payload now s ∷ [];
          next_event_id = s.next_event_id + 1;
          jobs = touched id now s;
        },
        max_sequence (of_job id s.events) + 1,
      )
unfolding append_event
append_event-returns id kind payload now s h k =
    rw
      (
        any-Numbered 1 (max_sequence (of_job id s.events) + 1) (of_job id s.events) (h id)
            (omega (arith, next-sequence id kind payload now s h)),
        k,
      )
      refl

pub append_event-raises :
    (id kind : String) (payload : Json) (now : ℕ) (s : CortexStore)
    → IsNumbered s
    → has_job id s.jobs ≡ false
    → append_event id kind payload now s ≡ raises StoreError.integrity_error
unfolding append_event
append_event-raises id kind payload now s h k =
    rw
      (
        any-Numbered 1 (max_sequence (of_job id s.events) + 1) (of_job id s.events) (h id)
            (omega (arith, next-sequence id kind payload now s h)),
        k,
      )
      refl

-- An event of another job leaves the events of this one.
pub of_job-next :
    (j id kind : String) (payload : Json) (now : ℕ) (s : CortexStore)
    → IsNumbered s
    → Numbered 1 (of_job j (s.events ++ next_event id kind payload now s ∷ []))
of_job-next j id kind payload now s h =
    let e = next_event id kind payload now s in
    subst (Numbered 1) (sym (of_job-append j s.events (e ∷ []))) (elim (Bool-cases (str_eq id j)) [
      | inr k ↦ rw k (subst (Numbered 1) (sym (append-nil (of_job j s.events))) (h j))
      | inl k ↦ rw k (
          Numbered-append 1 (of_job j s.events) e (h j) (
            subst (λ i. e.sequence ≡ 1 + length (of_job i s.events)) ((str_eq_iff id j).0 k)
              (next-sequence id kind payload now s h)))
    ])
