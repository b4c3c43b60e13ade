-- ===== src/GraphBridge/Queue.antt =====
-- mapsvc/graph_bridge.py: the queue is bounded, and every blob is waiting, taken or dropped.
use swarmdeck.Prelude.{
  append-nil, append_assoc, ℕ, ◌+◌, ◌≤◌, ◌≡◌, refl, ap, sym, ◌∙◌, String, Bool, true, List, [], ◌∷◌,
  ◌++◌, arith, leb, length, length-append, str_eq, Bool-cases, inl, inr, if◌then◌else◌, subst,
}
use swarmdeck.GraphBridge.{GraphBridge, Delivery, queue_cap, tail, enqueue, forward, finish}
use Delivery.{delivered, undelivered}

-- The calls of `enqueue`, and the two ends of a request: the loop takes a blob, and later the
-- request is over. Calls may come in between.
pub data Call : Type 0 where
  enqueues : ℕ → Call
  forwards : List ℕ → Delivery → Call

abbrev pub enqueue_all : List ℕ → GraphBridge → GraphBridge
unfolding enqueue
enqueue_all [] b = b
enqueue_all (x ∷ xs) b = enqueue_all xs (enqueue x b)

unfoldable pub run : List Call → GraphBridge → GraphBridge
unfolding enqueue forward enqueue_all
run [] b = b
run (enqueues x ∷ cs) b = run cs (enqueue x b)
run (forwards xs d ∷ cs) b = run cs (forward (enqueue_all xs) d b)

-- Of the blobs so far, the queue holds the newest, in order and at most 32; the others were taken
-- by the loop or dropped, and counted.
pub record IsCounted (blobs : List ℕ) (b : GraphBridge) : Type 0 where
  pub gone : List ℕ
  pub order : blobs ≡ gone ++ b.queue
  pub bounded : length b.queue ≤ queue_cap
  pub counted : length gone ≡ length b.log + b.dropped
  pub delivered_taken : b.forwarded ≤ length b.log

enqueue_full :
    (x q : ℕ) (qs blobs : List ℕ) (b : GraphBridge)
    → b.queue ≡ q ∷ qs
    → IsCounted blobs b
    → IsCounted (blobs ++ x ∷ []) (record b { queue = qs ++ x ∷ []; dropped = b.dropped + 1 })
enqueue_full x q qs blobs b e h = record {
  gone = h.gone ++ q ∷ [];
  order =
      ap (λ r. r ++ x ∷ []) (h.order ∙ ap (λ r. h.gone ++ r) e)
      ∙ append_assoc h.gone (q ∷ qs) (x ∷ [])
      ∙ sym (append_assoc h.gone (q ∷ []) (qs ++ x ∷ []));
  bounded = omega (arith, h.bounded, ap length e, length-append qs (x ∷ []));
  counted = omega (arith, h.counted, length-append h.gone (q ∷ []));
  delivered_taken = h.delivered_taken;
}

enqueue-IsCounted :
    (x : ℕ) (blobs : List ℕ) (b : GraphBridge)
    → IsCounted blobs b
    → IsCounted (blobs ++ x ∷ []) (enqueue x b)
unfolding enqueue
enqueue-IsCounted x blobs b h = elim (Bool-cases (leb queue_cap (length b.queue))) [
  | inr e ↦ subst (IsCounted (blobs ++ x ∷ [])) (sym (ap chosen e)) (record {
    gone = h.gone;
    order = ap (λ r. r ++ x ∷ []) h.order ∙ append_assoc h.gone b.queue (x ∷ []);
    bounded = ground (arith, e, length-append b.queue (x ∷ []));
    counted = h.counted;
    delivered_taken = h.delivered_taken;
  })
  | inl e ↦ subst (IsCounted (blobs ++ x ∷ [])) (sym (ap chosen e)) (full b.queue refl e)
]
  where
    shorter : List ℕ → GraphBridge
    shorter qs = record b { queue = tail qs ++ x ∷ []; dropped = b.dropped + 1 }

    chosen : Bool → GraphBridge
    chosen c = if c then shorter b.queue else record b { queue = b.queue ++ x ∷ [] }

    full :
        (qs : List ℕ)
        → b.queue ≡ qs
        → leb queue_cap (length qs) ≡ true
        → IsCounted (blobs ++ x ∷ []) (shorter qs)
    full [] q k = cc
    full (y ∷ ys) q k = enqueue_full x y ys blobs b q h

enqueue_all-IsCounted :
    (xs blobs : List ℕ) (b : GraphBridge)
    → IsCounted blobs b
    → IsCounted (blobs ++ xs) (enqueue_all xs b)
unfolding enqueue_all
enqueue_all-IsCounted [] blobs b h = subst (λ r. IsCounted r b) (sym (append-nil blobs)) h
enqueue_all-IsCounted (x ∷ xs) blobs b h =
    subst (λ r. IsCounted r (enqueue_all xs (enqueue x b))) (append_assoc blobs (x ∷ []) xs)
      (enqueue_all-IsCounted xs (blobs ++ x ∷ []) (enqueue x b) (enqueue-IsCounted x blobs b h))

enqueue_all-counters :
    (xs : List ℕ) (b : GraphBridge)
    → ((enqueue_all xs b).forwarded ≡ b.forwarded) × ((enqueue_all xs b).log ≡ b.log)
unfolding enqueue_all enqueue
enqueue_all-counters [] b = (refl, refl)
enqueue_all-counters (x ∷ xs) b =
    let (f, l) = enqueue_all-counters xs (enqueue x b) in (f ∙ one.0, l ∙ one.1)
  where
    one : ((enqueue x b).forwarded ≡ b.forwarded) × ((enqueue x b).log ≡ b.log)
    one = elim (Bool-cases (leb queue_cap (length b.queue))) [
      | inl e ↦ rw (e, enqueue) (refl, refl)
      | inr e ↦ rw (e, enqueue) (refl, refl)
    ]

finish-IsCounted :
    (d : Delivery) (blobs : List ℕ) (b : GraphBridge)
    → IsCounted blobs b
    → b.forwarded + 1 ≤ length b.log
    → IsCounted blobs (finish d b)
unfolding finish
finish-IsCounted delivered blobs b h k = record {
  gone = h.gone;
  order = h.order;
  bounded = h.bounded;
  counted = h.counted;
  delivered_taken = k;
}
finish-IsCounted (undelivered text) blobs b h k = record {
  gone = h.gone;
  order = h.order;
  bounded = h.bounded;
  counted = h.counted;
  delivered_taken = h.delivered_taken;
}

taken-IsCounted :
    (x : ℕ) (rest blobs : List ℕ) (b : GraphBridge)
    → b.queue ≡ x ∷ rest
    → IsCounted blobs b
    → IsCounted blobs (record b { queue = rest; log = x ∷ b.log })
taken-IsCounted x rest blobs b e h = record {
  gone = h.gone ++ x ∷ [];
  order = h.order ∙ ap (λ r. h.gone ++ r) e ∙ sym (append_assoc h.gone (x ∷ []) rest);
  bounded = omega (arith, h.bounded, ap length e);
  counted = omega (arith, h.counted, length-append h.gone (x ∷ []));
  delivered_taken = omega (arith, h.delivered_taken);
}

forward-IsCounted :
    (xs : List ℕ) (d : Delivery) (blobs : List ℕ) (b : GraphBridge)
    → IsCounted blobs b
    → IsCounted (blobs ++ xs) (forward (enqueue_all xs) d b)
unfolding forward
forward-IsCounted xs d blobs b h = elim (Bool-cases (str_eq b.url "")) [
  | inl e ↦
      subst (IsCounted (blobs ++ xs))
        (sym (ap (λ c. if c then enqueue_all xs b else round b.queue) e))
        (enqueue_all-IsCounted xs blobs b h)
  | inr e ↦
      subst (IsCounted (blobs ++ xs))
        (sym (ap (λ c. if c then enqueue_all xs b else round b.queue) e)) (cases b.queue refl)
]
  where
    round : List ℕ → GraphBridge
    round qs = elim qs [
      | [] ↦ enqueue_all xs b
      | x ∷ rest ↦ finish d (enqueue_all xs (record b { queue = rest; log = x ∷ b.log }))
    ]

    cases : (qs : List ℕ) → b.queue ≡ qs → IsCounted (blobs ++ xs) (round qs)
    cases [] e = enqueue_all-IsCounted xs blobs b h
    cases (x ∷ rest) e =
        let taken : GraphBridge = record b { queue = rest; log = x ∷ b.log } in
        let (f, l) = enqueue_all-counters xs taken in
        finish-IsCounted d (blobs ++ xs) (enqueue_all xs taken)
          (enqueue_all-IsCounted xs blobs taken (taken-IsCounted x rest blobs b e h))
          (omega (arith, f, ap length l, h.delivered_taken))

-- The blobs that a sequence of calls enqueues.
abbrev pub blobs_of : List Call → List ℕ
blobs_of [] = []
blobs_of (enqueues x ∷ cs) = x ∷ blobs_of cs
blobs_of (forwards xs d ∷ cs) = xs ++ blobs_of cs

run-IsCounted :
    (cs : List Call) (blobs : List ℕ) (b : GraphBridge)
    → IsCounted blobs b
    → IsCounted (blobs ++ blobs_of cs) (run cs b)
unfolding run
run-IsCounted [] blobs b h = subst (λ r. IsCounted r b) (sym (append-nil blobs)) h
run-IsCounted (enqueues x ∷ cs) blobs b h =
    subst (λ r. IsCounted r (run cs (enqueue x b))) (append_assoc blobs (x ∷ []) (blobs_of cs))
      (run-IsCounted cs (blobs ++ x ∷ []) (enqueue x b) (enqueue-IsCounted x blobs b h))
run-IsCounted (forwards xs d ∷ cs) blobs b h =
    subst (λ r. IsCounted r (run cs (forward (enqueue_all xs) d b)))
      (append_assoc blobs xs (blobs_of cs))
      (run-IsCounted cs (blobs ++ xs) (forward (enqueue_all xs) d b)
        (forward-IsCounted xs d blobs b h))

-- After any calls on a bridge that was reset, the queue holds the newest blobs, in order and at
-- most 32 of them; every other blob was taken by the loop or is counted as dropped; and no more
-- are counted as forwarded than were taken.
pub run_after_reset :
    (cs : List Call) (url : String)
    → IsCounted (blobs_of cs) (
        run cs
          (record { url = url; queue = []; dropped = 0; forwarded = 0; last_error = ""; log = [] }))
run_after_reset cs url =
    run-IsCounted cs []
      (record { url = url; queue = []; dropped = 0; forwarded = 0; last_error = ""; log = [] })
      (record {
        gone = [];
        order = refl;
        bounded = omega arith;
        counted = omega arith;
        delivered_taken = omega arith;
      })
