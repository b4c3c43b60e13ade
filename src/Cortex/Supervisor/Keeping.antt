-- ===== src/Cortex/Supervisor/Keeping.antt =====
-- agent_cortex/supervisor.py: the text recorded and the text pending make up the text streamed.
use swarmdeck.Prelude.{
  ℕ, ◌+◌, ◌≡◌, refl, ap, sym, subst, ◌∙◌, String, Bool, true, false, not, ◌||◌, Option, none, some,
  List, [], ◌∷◌, ◌++◌, all, Bool-cases, Option-cases, inl, inr, leb, is_some, if◌then◌else◌, str_eq,
  str_eq_iff,
}
use Prim.Native.String.{◌++◌ as ◌++ˢ◌, count}
use text.Mathlib.TextLemmas.{
  append_assoc as append_assocˢ, append_cancel_left, append-nil as append-nilˢ,
}
use swarmdeck.Prelude.Text.{join}
use swarmdeck.Prelude.Json.{Json, Fields, obj}
use swarmdeck.Cortex.Store.{CortexStore, has_job, of_job}
use swarmdeck.Cortex.Store.Numbering.{of_job-next_self}
use swarmdeck.Cortex.Store.Counting.{
  IsNumbered, append_event-returns, of_job-next, next_event, touched,
}
use swarmdeck.Cortex.Supervisor.{
  Patterns, Supervisor, Running, on_events, on_event, take_event, buffer_token, record_event,
  flush_tokens, flush_pending, yield_event, call_append, appended, record_store, note_terminal,
  token_delta, safe_value, text_field, is_type, type_or_unknown, is_text, or_unknown, token_payload,
}
use swarmdeck.Cortex.Supervisor.Texts.{
  delta_of_payload, recorded_text, recorded_text-append, join-append, has_job-update_job,
}

module _ (P : Patterns) (tick : ℕ → ℕ) where
  -- The job is in the store, and `text` is what its events hold of the tokens.
  pub record Holds (id text : String) (s : Supervisor P) : Type 0 where
    pub store : CortexStore
    pub stored : s.store ≡ some store
    pub numbered : IsNumbered store
    pub known : has_job id store.jobs ≡ true
    pub text_recorded : recorded_text (of_job id store.events) ≡ text

  -- What one recorded event adds to the text.
  added_text : String → Json → String
  added_text kind payload = if str_eq kind "provider.token" then delta_of_payload payload else ""

  recorded_text-single :
      (id kind : String) (payload : Json) (now : ℕ) (st : CortexStore)
      → recorded_text (next_event id kind payload now st ∷ []) ≡ added_text kind payload
  unfolding added_text
  recorded_text-single id kind payload now st = elim (Bool-cases (str_eq kind "provider.token")) [
    | inl e ↦ rw e (append-nilˢ (delta_of_payload payload))
    | inr e ↦ rw e refl
  ]

  call_append-Holds :
      (id text kind : String) (payload : Json) (s : Supervisor P)
      → Holds id text s
      → Holds id (text ++ˢ added_text kind payload) (call_append P tick (some id) kind payload s)
  unfolding call_append appended record_store
  call_append-Holds id text kind payload s h =
      let st = h.store in
      let e = next_event id kind payload s.clock st in
      let after : CortexStore = record st {
        events = st.events ++ e ∷ [];
        next_event_id = st.next_event_id + 1;
        jobs = touched id s.clock st;
      } in
      record {
        store = after;
        stored =
            rw
              (
                h.stored,
                call_append,
                append_event-returns id kind payload s.clock st h.numbered h.known,
              )
              refl;
        numbered = λ j. of_job-next j id kind payload s.clock st h.numbered;
        known =
            has_job-update_job id id (λ j. record j { updated_at = s.clock }) st.jobs (λ j. refl)
            ∙ h.known;
        text_recorded =
            ap recorded_text (of_job-next_self id kind payload s.clock st)
            ∙ recorded_text-append (of_job id st.events) (e ∷ [])
            ∙ ap (λ t. t ++ˢ recorded_text (e ∷ [])) h.text_recorded
            ∙ ap (λ t. text ++ˢ t) (recorded_text-single id kind payload s.clock st);
      }

  -- The text recorded and the text pending make up `text`.
  pub record Keeps (id text : String) (r : Running P) : Type 0 where
    pub saved : String
    pub holds : Holds id saved r.supervisor
    pub job : r.job_id ≡ some id
    pub whole : saved ++ˢ join r.pending_token_text ≡ text

  pub record Flushed (id text : String) (r : Running P) : Type 0 where
    pub holds : Holds id text r.supervisor
    pub job : r.job_id ≡ some id
    pub empty : r.pending_token_text ≡ []

  flush_pending-Flushed :
      (id text saved : String) (ts : List String) (r : Running P)
      → r.pending_token_text ≡ ts
      → Holds id saved r.supervisor
      → r.job_id ≡ some id
      → saved ++ˢ join ts ≡ text
      → Flushed id text (flush_pending P tick ts r)
  unfolding flush_pending added_text
  flush_pending-Flushed id text saved [] r e h j w = record {
    holds = subst (λ t. Holds id t r.supervisor) (sym (append-nilˢ saved) ∙ w) h;
    job = j;
    empty = e;
  }
  flush_pending-Flushed id text saved (t ∷ ts) r e h j w = record {
    holds =
        subst
          (λ o. Holds id text (
            call_append P tick o "provider.token" (token_payload P tick (join (t ∷ ts)))
              r.supervisor))
          (sym j)
          (subst
            (λ u. Holds id u (
              call_append P tick (some id) "provider.token" (token_payload P tick (join (t ∷ ts)))
                r.supervisor))
            w
            (call_append-Holds id saved "provider.token" (token_payload P tick (join (t ∷ ts)))
              r.supervisor h));
    job = j;
    empty = refl;
  }

  pub flush_tokens-Flushed :
      (id text : String) (r : Running P) → Keeps id text r → Flushed id text (flush_tokens P tick r)
  unfolding flush_tokens
  flush_tokens-Flushed id text r k =
      flush_pending-Flushed id text k.saved r.pending_token_text r refl k.holds k.job k.whole

  Flushed-Keeps : (id text : String) (r : Running P) → Flushed id text r → Keeps id text r
  Flushed-Keeps id text r f = record {
    saved = text;
    holds = f.holds;
    job = f.job;
    whole = ap (λ ts. text ++ˢ join ts) f.empty ∙ append-nilˢ text;
  }

  buffer_token-Keeps :
      (id text d : String) (r : Running P)
      → Keeps id text r
      → Keeps id (text ++ˢ d) (buffer_token P tick d r)
  unfolding buffer_token
  buffer_token-Keeps id text d r k =
      let b : Running P = record r {
        pending_token_text = r.pending_token_text ++ d ∷ [];
        pending_token_size = r.pending_token_size + count d;
      } in
      let kept : Keeps id (text ++ˢ d) b = record {
        saved = k.saved;
        holds = k.holds;
        job = k.job;
        whole =
            ap (λ t. k.saved ++ˢ t) (join-append r.pending_token_text (d ∷ []))
            ∙ ap (λ t. k.saved ++ˢ (join r.pending_token_text ++ˢ t)) (append-nilˢ d)
            ∙ sym (append_assocˢ k.saved (join r.pending_token_text) d)
            ∙ ap (λ t. t ++ˢ d) k.whole;
      } in
      elim (Bool-cases (leb 4096 (r.pending_token_size + count d))) [
        | inl e ↦ rw e (
            Flushed-Keeps id (text ++ˢ d) (flush_tokens P tick b)
              (flush_tokens-Flushed id (text ++ˢ d) b kept))
        | inr e ↦ rw e kept
      ]

  -- The type of an event that is no token is not recorded as one.
  or_unknown-token :
      (o : Option String)
      → is_text P tick "token" o ≡ false
      → str_eq (or_unknown P tick o) "token" ≡ false
  or_unknown-token none h = refl
  or_unknown-token (some s) h = elim (Bool-cases (str_eq s "")) [
    | inl k ↦ rw k refl
    | inr k ↦ rw k h
  ]

  provider-token :
      (kind : String)
      → str_eq kind "token" ≡ false
      → str_eq ("provider." ++ˢ kind) "provider.token" ≡ false
  provider-token kind h = elim (Bool-cases (str_eq ("provider." ++ˢ kind) "provider.token")) [
    | inr e ↦ e
    | inl e ↦
        let same : kind ≡ "token" =
          append_cancel_left "provider." kind "token"
            ((str_eq_iff ("provider." ++ˢ kind) "provider.token").0 e) in
        let yes : str_eq kind "token" ≡ true = (str_eq_iff kind "token").1 same in cc
  ]

  record_event-Keeps :
      (id text : String) (fs : Fields) (r : Running P)
      → is_type P tick "token" fs ≡ false
      → Keeps id text r
      → Keeps id text (record_event P tick fs r)
  unfolding record_event added_text
  record_event-Keeps id text fs r h k =
      let flushed = flush_tokens P tick r in
      let f = flush_tokens-Flushed id text r k in
      let kind = "provider." ++ˢ type_or_unknown P tick fs in
      let payload = safe_value P (obj fs) in
      let other : str_eq kind "provider.token" ≡ false =
        provider-token (type_or_unknown P tick fs)
          (or_unknown-token (text_field P tick "type" fs) h) in
      let nothing : text ++ˢ added_text kind payload ≡ text =
        ap (λ b. text ++ˢ (if b then delta_of_payload payload else "")) other ∙ append-nilˢ text in
      Flushed-Keeps id text (record_event P tick fs r) (record {
        holds =
            subst (λ o. Holds id text (call_append P tick o kind payload flushed.supervisor))
              (sym f.job)
              (subst
                (λ t. Holds id t (call_append P tick (some id) kind payload flushed.supervisor))
                nothing (call_append-Holds id text kind payload flushed.supervisor f.holds));
        job = f.job;
        empty = f.empty;
      })

  -- A token event has a text for its delta.
  abbrev pub is_texted : Fields → Bool
  is_texted fs = not (is_type P tick "token" fs) || is_some (text_field P tick "delta" fs)

  abbrev pub delta_or_empty : Option String → String
  delta_or_empty none = ""
  delta_or_empty (some d) = d

  -- The text of the token events in the stream.
  abbrev pub streamed_text : List Fields → String
  streamed_text [] = ""
  streamed_text (e ∷ es) = delta_or_empty (token_delta P tick e) ++ˢ streamed_text es

  take_event-Keeps :
      (id text : String) (fs : Fields) (r : Running P)
      → is_texted fs ≡ true
      → Keeps id text r
      → Keeps id
          (text ++ˢ delta_or_empty (token_delta P tick fs))
          (take_event P tick (token_delta P tick fs) fs r)
  unfolding take_event
  take_event-Keeps id text fs r t k = elim (Bool-cases (is_type P tick "token" fs)) [
    | inr e ↦ rw e (
        subst (λ u. Keeps id u (record_event P tick fs r)) (sym (append-nilˢ text))
          (record_event-Keeps id text fs r e k))
    | inl e ↦ elim (Option-cases (text_field P tick "delta" fs)) [
      | inl d ↦ cc (rw (e, d) at t)
      | inr (d, q) ↦ rw (e, q) (buffer_token-Keeps id text d r k)
    ]
  ]

  pub on_events-Keeps :
      (id text : String) (es : List Fields) (r : Running P)
      → all is_texted es ≡ true
      → Keeps id text r
      → Keeps id (text ++ˢ streamed_text es) (on_events P tick es r)
  unfolding on_events on_event yield_event
  on_events-Keeps id text [] r t k = subst (λ u. Keeps id u r) (sym (append-nilˢ text)) k
  on_events-Keeps id text (e ∷ es) r t k = elim (Bool-cases (is_texted e)) [
    | inr q ↦ cc (rw q at t)
    | inl q ↦
        let noted : Running P = record r {
          terminal_type = note_terminal P tick e r.terminal_type;
        } in
        let delta = delta_or_empty (token_delta P tick e) in
        let one =
          take_event-Keeps id text e noted q
            (record { saved = k.saved; holds = k.holds; job = k.job; whole = k.whole }) in
        subst (λ u. Keeps id u (on_events P tick es (on_event P tick e r)))
          (append_assocˢ text delta (streamed_text es))
          (on_events-Keeps id (text ++ˢ delta) es (on_event P tick e r) (rw q at t)
            (record { saved = one.saved; holds = one.holds; job = one.job; whole = one.whole }))
  ]
