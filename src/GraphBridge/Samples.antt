-- ===== src/GraphBridge/Samples.antt =====
-- Three keyframes and a service that fails once.
use swarmdeck.Prelude.{List, [], ◌∷◌}
use swarmdeck.GraphBridge.{GraphBridge, Delivery}
use swarmdeck.GraphBridge.Queue.{Call, IsCounted, blobs_of, run, run_after_reset}

abbrev calls : List Call
calls =
    Call.enqueues 1
    ∷ Call.enqueues 2
    ∷ Call.forwards (3 ∷ []) (Delivery.undelivered "timed out")
    ∷ Call.forwards [] Delivery.delivered
    ∷ []

abbrev bridge : GraphBridge
bridge = record {
  url = "http://slam";
  queue = [];
  dropped = 0;
  forwarded = 0;
  last_error = "";
  log = [];
}

run_after_reset_example : IsCounted (blobs_of calls) (run calls bridge)
run_after_reset_example = run_after_reset calls "http://slam"
