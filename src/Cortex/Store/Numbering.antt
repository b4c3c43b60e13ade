-- ===== src/Cortex/Store/Numbering.antt =====
-- agent_cortex/store.py: in every history of the store, the events of a job are numbered from 1
-- without a gap, and an event is never changed or lost.
use swarmdeck.Prelude.{
  append-nil, append_assoc, ℕ, ◌+◌, ◌≡◌, refl, sym, ap, ◌∙◌, String, true, List, [], ◌∷◌, ◌++◌,
  length, any, Bool-cases, inl, inr, str_eq, returns, subst, str_eq_refl,
}
use swarmdeck.Prelude.Json.{Json}
use swarmdeck.Cortex.Store.{
  CortexStore, Event, empty_tables, has_job, of_job, max_sequence, create_job, append_event,
  set_phase, interrupt_running_jobs, propose_memory, review_memory, add_compaction, get_events,
  is_known_source, is_review,
}
use swarmdeck.Cortex.Store.Ordering.{Numbered, order_by-Numbered}
use swarmdeck.Cortex.Store.Counting.{
  Write, committed, write, history, IsNumbered, max_sequence-length, of_job-append, next_event,
  touched, append_event-returns, append_event-raises, of_job-next,
}

-- A later state of the store: the events before stand first, and are still numbered.
record Grows (before after : CortexStore) : Type 0 where
  more : List Event
  grown : after.events ≡ before.events ++ more
  numbered : IsNumbered after

same-Grows : (s t : CortexStore) → t.events ≡ s.events → IsNumbered s → Grows s t
same-Grows s t e h = record {
  more = [];
  grown = e ∙ sym (append-nil s.events);
  numbered = λ id. subst (λ es. Numbered 1 (of_job id es)) (sym e) (h id);
}

write-Grows : (w : Write) (s : CortexStore) → IsNumbered s → Grows s (write w s)
unfolding write create_job set_phase interrupt_running_jobs propose_memory review_memory
    add_compaction
write-Grows (Write.to_create id now n) s h = elim (Bool-cases (has_job id s.jobs)) [
  | inl k ↦ same-Grows s _ (rw k refl) h
  | inr k ↦ same-Grows s _ (rw k refl) h
]
write-Grows (Write.to_append id kind payload now) s h = elim (Bool-cases (has_job id s.jobs)) [
  | inl k ↦
      subst (λ o. Grows s (committed s o)) (sym (append_event-returns id kind payload now s h k))
        (record {
          more = next_event id kind payload now s ∷ [];
          grown = refl;
          numbered = λ j. of_job-next j id kind payload now s h;
        })
  | inr k ↦
      subst (λ o. Grows s (committed s o)) (sym (append_event-raises id kind payload now s h k))
        (same-Grows s s refl h)
]
write-Grows (Write.to_set_phase id phase error_text now) s h = same-Grows s _ refl h
write-Grows (Write.to_interrupt now) s h = same-Grows s _ refl h
write-Grows (Write.to_propose id scope key value confidence source now) s h =
    elim (Bool-cases (any (λ m. str_eq m.memory_id id) s.memories)) [
      | inl k ↦ same-Grows s _ (rw k refl) h
      | inr k ↦ elim (Bool-cases (is_known_source source s.jobs)) [
        | inl i ↦ same-Grows s _ (rw (k, i) refl) h
        | inr i ↦ same-Grows s _ (rw (k, i) refl) h
      ]
    ]
write-Grows (Write.to_review id status now) s h = elim (Bool-cases (is_review status)) [
  | inl k ↦ same-Grows s _ (rw k refl) h
  | inr k ↦ same-Grows s _ (rw k refl) h
]
write-Grows (Write.to_compact id job through summary now) s h =
    elim (Bool-cases (any (λ c. str_eq c.compaction_id id) s.compactions)) [
      | inl k ↦ same-Grows s _ (rw k refl) h
      | inr k ↦ elim (Bool-cases (has_job job s.jobs)) [
        | inl i ↦ same-Grows s _ (rw (k, i) refl) h
        | inr i ↦ same-Grows s _ (rw (k, i) refl) h
      ]
    ]

history-Grows : (ws : List Write) (s : CortexStore) → IsNumbered s → Grows s (history ws s)
unfolding history
history-Grows [] s h = same-Grows s s refl h
history-Grows (w ∷ ws) s h =
    let first = write-Grows w s h in
    let rest = history-Grows ws (write w s) first.numbered in
    record {
      more = first.more ++ rest.more;
      grown =
          rest.grown
          ∙ ap (λ es. es ++ rest.more) first.grown
          ∙ append_assoc s.events first.more rest.more;
      numbered = rest.numbered;
    }

pub empty_tables-IsNumbered : IsNumbered empty_tables
empty_tables-IsNumbered id = tt

pub history-IsNumbered : (ws : List Write) → IsNumbered (history ws empty_tables)
history-IsNumbered ws = (history-Grows ws empty_tables empty_tables-IsNumbered).numbered

-- In every history, `get_events` lists all events of a job, numbered 1, 2, 3 and so on.
pub get_events-Numbered :
    (ws : List Write) (id : String)
    → (get_events id (history ws empty_tables) ≡ of_job id (history ws empty_tables).events)
      × Numbered 1 (get_events id (history ws empty_tables))
unfolding get_events
get_events-Numbered ws id =
    let h = history-IsNumbered ws id in
    let same = order_by-Numbered 1 (of_job id (history ws empty_tables).events) h in
    (same, subst (Numbered 1) (sym same) h)

-- Whatever is written after a history, the events that it left stand unchanged, in order, before
-- the new ones: nothing rewrites or removes evidence.
pub history_keeps_events :
    (ws vs : List Write)
    → (more : List Event) × ((history vs (history ws empty_tables)).events
        ≡ (history ws empty_tables).events ++ more)
history_keeps_events ws vs =
    let g = history-Grows vs (history ws empty_tables) (history-IsNumbered ws) in (g.more, g.grown)

pub of_job-next_self :
    (id kind : String) (payload : Json) (now : ℕ) (s : CortexStore)
    → of_job id (s.events ++ next_event id kind payload now s ∷ [])
      ≡ of_job id s.events ++ next_event id kind payload now s ∷ []
of_job-next_self id kind payload now s =
    let e = next_event id kind payload now s in
    subst (λ es. of_job id (s.events ++ e ∷ []) ≡ of_job id s.events ++ es)
      (rw (str_eq_refl id) refl) (of_job-append id s.events (e ∷ []))

-- What an append adds to the events of its job.
pub record IsAppended (id kind : String) (payload : Json) (before after : CortexStore)
    : Type 0 where
  pub event : Event
  pub listed : get_events id after ≡ get_events id before ++ event ∷ []
  pub event_type : event.event_type ≡ kind
  pub stored : event.payload ≡ payload

-- After any history, an event for a job that exists is stored: the number after the last is
-- returned, and the job's events are those before, followed by the new one.
pub append_event_next :
    (ws : List Write) (id kind : String) (payload : Json) (now : ℕ)
    → has_job id (history ws empty_tables).jobs ≡ true
    → (after : CortexStore) × (append_event id kind payload now (history ws empty_tables)
        ≡ returns (after, length (get_events id (history ws empty_tables)) + 1))
      × IsAppended id kind payload (history ws empty_tables) after
unfolding get_events
append_event_next ws id kind payload now k =
    let s = history ws empty_tables in
    let h = history-IsNumbered ws in
    let e = next_event id kind payload now s in
    let (same, _) = get_events-Numbered ws id in
    let counted : max_sequence (of_job id s.events) ≡ length (get_events id s) =
      max_sequence-length (of_job id s.events) (h id) ∙ ap length (sym same) in
    (
      _,
      append_event-returns id kind payload now s h k
          ∙ ap
              (λ n. returns (
                record s {
                  events = s.events ++ e ∷ [];
                  next_event_id = s.next_event_id + 1;
                  jobs = touched id now s;
                },
                n + 1,
              ))
              counted,
      record {
        event = e;
        listed =
            order_by-Numbered 1 (of_job id (s.events ++ e ∷ []))
              (of_job-next id id kind payload now s h)
            ∙ of_job-next_self id kind payload now s
            ∙ ap (λ es. es ++ e ∷ []) (sym same);
        event_type = refl;
        stored = refl;
      },
    )
