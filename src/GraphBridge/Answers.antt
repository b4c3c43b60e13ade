-- ===== src/GraphBridge/Answers.antt =====
-- mapsvc/graph_bridge.py: the statuses of the answers that the server hands on.
use swarmdeck.Prelude.{
  ℕ, ◌≡◌, refl, ap, sym, ◌∙◌, ◌==◌, Bool, true, false, Bool-cases, inl, inr, subst, str_eq,
}
use swarmdeck.Prelude.Json.{Fields, null, bool, num, str, arr, obj}
use swarmdeck.GraphBridge.{GraphBridge, Answer, fetch_json, reply, not_configured}
use Answer.{answered, http_error, unreachable}

-- An answer with the status 200: the service gave it, with an object.
pub data IsServed (fs : Fields) : Answer → Type 0 where
  served : (code : ℕ) → IsServed fs (answered code (obj fs))

abbrev pub is_error : Answer → Bool
is_error (http_error code body text) = true
is_error _ = false

other_status : (p : ℕ × Fields) (fs : Fields) → (p.0 == 200) ≡ false → p ≡ (200, fs) → false ≡ true
other_status p fs h e = sym h ∙ ap (λ q. q.0 == 200) e

reply-IsServed :
    (a : Answer) (fs : Fields)
    → is_error a ≡ false
    → reply (λ code. 200) a ≡ (200, fs)
    → IsServed fs a
unfolding reply
reply-IsServed (answered code null) fs h e =
    let no = other_status (reply (λ code. 200) (answered code null)) fs refl e in cc (no)
reply-IsServed (answered code (bool b)) fs h e =
    let no = other_status (reply (λ code. 200) (answered code (bool b))) fs refl e in cc (no)
reply-IsServed (answered code (num f)) fs h e =
    let no = other_status (reply (λ code. 200) (answered code (num f))) fs refl e in cc (no)
reply-IsServed (answered code (str s)) fs h e =
    let no = other_status (reply (λ code. 200) (answered code (str s))) fs refl e in cc (no)
reply-IsServed (answered code (arr vs)) fs h e =
    let no = other_status (reply (λ code. 200) (answered code (arr vs))) fs refl e in cc (no)
reply-IsServed (answered code (obj gs)) fs h e =
    subst (λ ks. IsServed ks (answered code (obj gs))) (ap (λ p. p.1) e) (served code)
reply-IsServed (http_error code body text) fs h e = cc
reply-IsServed (unreachable text) fs h e =
    let no = other_status (reply (λ code. 200) (unreachable text)) fs refl e in cc (no)

-- Where no HTTP error came back, `fetch_json` says 200 only if a service is configured and gave
-- just this object: a silent or absent service and a body of another kind never pass for data.
pub fetch_json-IsServed :
    (a : Answer) (b : GraphBridge) (fs : Fields)
    → is_error a ≡ false
    → fetch_json a b ≡ (200, fs)
    → (str_eq b.url "" ≡ false) × IsServed fs a
unfolding fetch_json
fetch_json-IsServed a b fs h e = elim (Bool-cases (str_eq b.url "")) [
  | inl k ↦ let no = other_status not_configured fs refl (rw k at e) in cc (no)
  | inr k ↦ (k, reply-IsServed a fs h (rw k at e))
]
