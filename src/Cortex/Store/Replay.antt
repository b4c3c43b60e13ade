-- ===== src/Cortex/Store/Replay.antt =====
-- agent_cortex/store.py: what `get_replay_context` gives back of a job's events.
use swarmdeck.Prelude.{
  ℕ, suc, ◌<◌, ◌≡◌, refl, sym, ap, ◌∙◌, String, true, false, not, ◌&&◌, List, [], ◌∷◌, ◌++◌, arith,
  keep, ltb, Bool-cases, inl, inr, str_eq, subst, All, All-map, IsMember, Option, none, some, ◌≤◌,
  ◌⊎◌,
}
use swarmdeck.Cortex.Store.{
  Event, empty_tables, get_events, get_replay_context, of_job, order_by, earlier, latest_compaction,
  through_of, summary_of, first_of, insert_by, later, Compaction, CortexStore, ReplayContext,
}
use swarmdeck.Cortex.Store.Ordering.{Numbered, order_by-Numbered}
use swarmdeck.Cortex.Store.Numbering.{history-IsNumbered, get_events-Numbered}
use swarmdeck.Cortex.Store.Counting.{Write, history}

abbrev pub after_sequence : ℕ → List Event → List Event
after_sequence n es = keep (λ e. ltb n e.sequence) es

abbrev pub up_to_sequence : ℕ → List Event → List Event
up_to_sequence n es = keep (λ e. not (ltb n e.sequence)) es

keep_and :
    (id : String) (n : ℕ) (es : List Event)
    → keep (λ e. str_eq e.job_id id && ltb n e.sequence) es ≡ after_sequence n (of_job id es)
keep_and id n [] = refl
keep_and id n (e ∷ es) = elim (Bool-cases (str_eq e.job_id id)) [
  | inr k ↦ rw k (keep_and id n es)
  | inl k ↦ elim (Bool-cases (ltb n e.sequence)) [
    | inl i ↦ rw (k, i) (ap (λ r. e ∷ r) (keep_and id n es))
    | inr i ↦ rw (k, i) (keep_and id n es)
  ]
]

-- Past the number, all is kept on one side.
after_sequence_all :
    (n m : ℕ) (es : List Event)
    → n < m
    → Numbered m es
    → (after_sequence n es ≡ es) × (up_to_sequence n es ≡ [])
after_sequence_all n m [] h k = (refl, refl)
after_sequence_all n m (e ∷ es) h k =
    let (a, b) = after_sequence_all n (suc m) es (omega (arith, h)) k.1 in
    let past : ltb n e.sequence ≡ true = ground (arith, h, k.0) in
    (rw past (ap (λ r. e ∷ r) a), rw past b)

split_at :
    (n m : ℕ) (es : List Event)
    → Numbered m es
    → ((k : ℕ) × Numbered k (after_sequence n es))
      × (es ≡ up_to_sequence n es ++ after_sequence n es)
split_at n m [] h = ((m, tt), refl)
split_at n m (e ∷ es) h = elim (Bool-cases (ltb n m)) [
  | inl k ↦
      let (a, b) = after_sequence_all n m (e ∷ es) (ground (arith, k)) h in
      ((m, subst (Numbered m) (sym a) h), sym a ∙ ap (λ r. r ++ after_sequence n (e ∷ es)) (sym b))
  | inr k ↦
      let ((j, numbered), parts) = split_at n (suc m) es h.1 in
      let old : ltb n e.sequence ≡ false = ground (arith, k, h.0) in
      ((j, rw old numbered), rw old (ap (λ r. e ∷ r) parts))
]

later_trans : (d b a : Compaction) → later b a ≡ false → later d b ≡ false → later d a ≡ false
later_trans d b a h k = ground (arith, h, k)

later_irrefl : (a : Compaction) → later a a ≡ false
later_irrefl a = ground arith

later_asym : (a b : Compaction) → later b a ≡ true → later a b ≡ false
later_asym a b h = ground (arith, h)

-- The first row of a list in order, if it has any: no other comes before it.
abbrev Leads : Option Compaction → List Compaction → Type 0
Leads none cs = cs ≡ []
Leads (some c) cs = IsMember c cs × All (λ d. later d c ≡ false) cs

insert_by-Leads :
    (a : Compaction) (cs q : List Compaction)
    → Leads (first_of q) cs
    → Leads (first_of (insert_by later a q)) (a ∷ cs)
unfolding insert_by
insert_by-Leads a cs [] h =
    (inl refl, (later_irrefl a, subst (λ ds. All (λ d. later d a ≡ false) ds) (sym h) tt))
insert_by-Leads a cs (b ∷ bs) h = elim (Bool-cases (later b a)) [
  | inl k ↦ rw k (inr h.0, (later_asym a b k, h.1))
  | inr k ↦ rw k (inl refl, (later_irrefl a, All-map cs (λ d e. later_trans d b a k e) h.1))
]

order_by-Leads : (cs : List Compaction) → Leads (first_of (order_by later cs)) cs
unfolding order_by
order_by-Leads [] = refl
order_by-Leads (c ∷ cs) = insert_by-Leads c cs (order_by later cs) (order_by-Leads cs)

-- `d` covers fewer events than `c`, or as many and is no younger.
abbrev pub IsOlder : Compaction → Compaction → Type 0
IsOlder c d =
    (d.through_sequence < c.through_sequence)
    ⊎ ((d.through_sequence ≡ c.through_sequence) × (d.created_at ≤ c.created_at))

-- The summary and the number are those of the compaction, which covers the most, and of those that
-- cover as much is the youngest; without one there is no summary and the number is 0.
abbrev pub IsLatest : ReplayContext → List Compaction → Type 0
IsLatest context cs =
    ((cs ≡ []) × (context.summary ≡ none) × (context.through_sequence ≡ 0))
    ⊎ ((c : Compaction) × IsMember c cs
        × All (IsOlder c) cs
        × (context.summary ≡ some c.summary)
        × (context.through_sequence ≡ c.through_sequence))

later-IsOlder : (c d : Compaction) → later d c ≡ false → IsOlder c d
later-IsOlder c d h = elim (Bool-cases (ltb d.through_sequence c.through_sequence)) [
  | inl k ↦ inl (ground (arith, k))
  | inr k ↦ inr (ground (arith, h, k), ground (arith, h, k))
]

abbrev compactions_of : String → CortexStore → List Compaction
compactions_of id s = keep (λ c. str_eq c.job_id id) s.compactions

get_replay_context-IsLatest :
    (id : String) (s : CortexStore) → IsLatest (get_replay_context id s) (compactions_of id s)
unfolding get_replay_context latest_compaction
get_replay_context-IsLatest id s =
    go (get_replay_context id s) (first_of (order_by later (compactions_of id s))) refl refl
      (order_by-Leads (compactions_of id s))
  where
    go :
        (context : ReplayContext) (o : Option Compaction)
        → context.summary ≡ summary_of o
        → context.through_sequence ≡ through_of o
        → Leads o (compactions_of id s)
        → IsLatest context (compactions_of id s)
    go context none e f l = inl (l, e, f)
    go context (some c) e f l =
        inr (c, l.0, All-map (compactions_of id s) (λ d h. later-IsOlder c d h) l.1, e, f)

-- After any history, the replay context of a job has the summary and the number of the job's
-- compaction that covers the most events, the youngest of those, or no summary and 0 without one; and
-- the events of the job are those up to that number, followed by those that the context hands back:
-- none is missing and none comes twice.
pub get_replay_context_covers :
    (ws : List Write) (id : String)
    → IsLatest
        (get_replay_context id (history ws empty_tables))
        (keep (λ c. str_eq c.job_id id) (history ws empty_tables).compactions)
      × (get_events id (history ws empty_tables)
          ≡ up_to_sequence
              (get_replay_context id (history ws empty_tables)).through_sequence
              (get_events id (history ws empty_tables))
            ++ (get_replay_context id (history ws empty_tables)).events)
unfolding get_replay_context
get_replay_context_covers ws id =
    let s = history ws empty_tables in
    let n = through_of (latest_compaction id s) in
    let (same, _) = get_events-Numbered ws id in
    let ((k, numbered), parts) = split_at n 1 (of_job id s.events) (history-IsNumbered ws id) in
    let replayed : order_by earlier (keep (λ e. str_eq e.job_id id && ltb n e.sequence) s.events)
        ≡ after_sequence n (of_job id s.events) =
      ap (order_by earlier) (keep_and id n s.events)
      ∙ order_by-Numbered k (after_sequence n (of_job id s.events)) numbered in
    (get_replay_context-IsLatest id s, rw (same, replayed) parts)
