-- ===== src/GraphBridge.antt =====
-- server/swarmdeck_server/mapsvc/graph_bridge.py: the queue of keyframes on their way to the SLAM
-- service, and what the server answers for that service.
--
-- A blob is named by a number. `GraphBridge` has the module's variables; `log` is the blobs that
-- the worker took, the newest first, which the code does not keep. What `urlopen` gives is `Answer`;
-- `error_object` is the object of an error's text. `enqueue` and a round of the loop run to the end
-- without a pause but for the request or the sleep, during which `meanwhile` may enqueue.
pub mod Queue
pub mod Answers
mod Samples
use swarmdeck.Prelude.{
  ℕ, ◌+◌, String, Bool, true, false, Option, none, some, List, [], ◌∷◌, ◌++◌, leb, length, str_eq,
  if◌then◌else◌,
}
use swarmdeck.Prelude.Json.{Json, Fields, obj, str, field, end}

-- QUEUE_CAP
abbrev pub queue_cap : ℕ
queue_cap = 32

pub record GraphBridge : Type 0 where
  pub url : String
  pub queue : List ℕ
  pub dropped : ℕ
  pub forwarded : ℕ
  pub last_error : String
  pub log : List ℕ

abbrev pub tail : List ℕ → List ℕ
tail [] = []
tail (x ∷ xs) = xs

-- `enqueue(blob)`
unfoldable pub enqueue : ℕ → GraphBridge → GraphBridge
enqueue blob b =
    if leb queue_cap (length b.queue)
    then record b { queue = tail b.queue ++ blob ∷ []; dropped = b.dropped + 1 }
    else record b { queue = b.queue ++ blob ∷ [] }

-- `reset()`
abbrev pub reset : GraphBridge → GraphBridge
reset b = record b { queue = []; dropped = 0; forwarded = 0; last_error = "" }

-- `_post_keyframe` ends, or raises one of the errors that the loop catches.
pub data Delivery : Type 0 where
  delivered : Delivery
  undelivered : String → Delivery

pub finish : Delivery → GraphBridge → GraphBridge
finish delivered b = record b { forwarded = b.forwarded + 1; last_error = "" }
finish (undelivered text) b = record b { last_error = text }

-- A round of `_forward_loop`: the blob is gone, delivered or not.
unfoldable pub forward : (GraphBridge → GraphBridge) → Delivery → GraphBridge → GraphBridge
unfolding finish
forward meanwhile d b = if str_eq b.url "" then meanwhile b else elim b.queue [
  | [] ↦ meanwhile b
  | blob ∷ rest ↦ finish d (meanwhile (record b { queue = rest; log = blob ∷ b.log }))
]

-- What `urlopen` and the reading of its body end in.
pub data Answer : Type 0 where
  -- The status, and the body as JSON.
  answered : ℕ → Json → Answer
  -- HTTPError, and its body where that is JSON.
  http_error : ℕ → Option Json → String → Answer
  -- URLError, TimeoutError, OSError and JSONDecodeError.
  unreachable : String → Answer

abbrev pub error_object : String → Fields
error_object text = field "error" (str text) end

-- `payload if isinstance(payload, dict) else {"error": str(exc)}`
abbrev pub error_body : Option Json → String → Fields
error_body (some (obj fs)) text = fs
error_body _ text = error_object text

abbrev pub not_configured : ℕ × Fields
not_configured = (503, error_object "slam service is not configured")

-- The status of a success is fixed by `fetch_json` and `put_json`, and the service's own in
-- `delete_robot`.
pub reply : (ℕ → ℕ) → Answer → ℕ × Fields
reply status (answered code (obj fs)) = (status code, fs)
reply status (answered code _) = (502, error_object "slam service returned a non-object")
reply status (http_error code body text) = (code, error_body body text)
reply status (unreachable text) = (503, error_object text)

-- `fetch_json(path)`, and `put_json(path, payload)`, whose answers are handled in the same way.
unfoldable pub fetch_json : Answer → GraphBridge → ℕ × Fields
unfolding reply
fetch_json a b = if str_eq b.url "" then not_configured else reply (λ code. 200) a

unfoldable pub put_json : Answer → GraphBridge → ℕ × Fields
unfolding reply
put_json a b = if str_eq b.url "" then not_configured else reply (λ code. 200) a

-- `delete_robot(robot_id)`
unfoldable pub delete_robot : Answer → GraphBridge → ℕ × Fields
unfolding reply
delete_robot a b = if str_eq b.url "" then not_configured else reply (λ code. code) a
