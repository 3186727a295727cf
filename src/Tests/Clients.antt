-- ===== src/Tests/Clients.antt =====
-- The theorems on a peer's client and on HealthCheck at concrete inputs.
use gubernator.Client.Answers.{AllAnswered, send_batch-replies}
use gubernator.Client.Batches.{BatchLoop, Batching, new_batch_loop, take_request}
use gubernator.Client.Calls.{ClientState, Caller, get_peer_rate_limit}
use gubernator.Client.Drain.{waiting_queue_is_sent, closed_queue_drains}
use gubernator.Client.Errors.{ErrorCache, ErrorCacheLaws}
use gubernator.Client.Order.{joined, accounted, requests_in_order}
use gubernator.Client.Origin.{Answered, unbatched_call_ends}
use gubernator.Client.Send.{Request, PeerAnswer, CtxErr, send_batch}
use gubernator.Prelude.GoMap.{GoMap, lookup, insert, lookup-insert}
use gubernator.Prelude.{
  Listed, ℕ, pos, String, List, [], ◌∷◌, ◌++◌, map, none, some, true, false, ◌≡◌, ◌≢◌, ◌↔◌, refl,
  arith, inl, inr, All, str_eq, eq_refl, ◌==◌, if◌then◌else◌, Bool-cases,
}
use gubernator.Service.Health.{Remote, health_check}
use gubernator.Service.Unhealthy.{
  Serves, NoError, HasAddress, health_check-Serves_iff, failed_batch_is_reported,
}
use gubernator.Tests.Pools.{peer_at}
use gubernator.Tests.Values.{token_request}
use gubernator.Types.{RateLimitReq, error_resp}

-- A cache of errors that forgets nothing.
abbrev pub map_cache : ErrorCache (GoMap String) ℕ
map_cache = record {
  new_cache = [];
  add_with_ttl = λ now key msg ttl errs. insert key msg errs;
  keys = λ errs. map (λ (e : String × String). e.0) errs;
  get = λ now key errs. (errs, lookup key errs);
}

keys_of_insert :
    (key msg : String) (errs : GoMap String)
    → Listed key (map (λ (e : String × String). e.0) (insert key msg errs))
unfolding insert
keys_of_insert key msg [] = inl refl
keys_of_insert key msg ((k, m) ∷ errs) = elim (Bool-cases (str_eq k key)) [
  | inl same ↦ rw same (inl refl)
  | inr other ↦ rw other (inr (keys_of_insert key msg errs))
]

map_cache-ErrorCacheLaws : ErrorCacheLaws map_cache
map_cache-ErrorCacheLaws = record {
  none_at_first = refl;
  listed = λ now key msg ttl errs. keys_of_insert key msg errs;
  found = λ now key msg ttl errs. ground (arith, lookup-insert key key msg errs, eq_refl key);
  kept = λ now key other msg errs h. h;
}

abbrev queued : ℕ → Request
queued n = record { id = n; request = token_request (pos n) }

-- The caller of the second request has left.
abbrev second_left : CtxErr
second_left r = if r.id == 2 then some "context canceled" else none

abbrev three : List Request
three = queued 1 ∷ queued 2 ∷ queued 3 ∷ []

-- A peer that answers each request.
abbrev answers_all : List RateLimitReq → PeerAnswer
answers_all rs = PeerAnswer.responded (map (λ (r : RateLimitReq). error_resp r.unique_key) rs)

send_batch-replies_example :
    AllAnswered second_left answers_all three
      (send_batch map_cache "a:1051" 0 second_left answers_all three []).replies
send_batch-replies_example =
    send_batch-replies map_cache "a:1051" 0 second_left answers_all three []

-- Two requests are queued, and the loop has received the first.
abbrev received : BatchLoop
received =
    (take_request 3 (queued 1) (queued 2 ∷ [])
      (record new_batch_loop { channel = queued 1 ∷ queued 2 ∷ [] })).0

receiving : Batching 3 received (queued 1 ∷ queued 2 ∷ []) []
unfolding take_request
receiving =
    Batching.receive (queued 1) (queued 2 ∷ [])
      (Batching.enqueue (queued 2) (Batching.enqueue (queued 1) Batching.start refl (omega arith))
        refl (omega arith))
      refl refl

requests_in_order_example : accounted received [] ≡ queued 1 ∷ queued 2 ∷ []
requests_in_order_example = requests_in_order receiving

waiting_queue_is_sent_example :
    (s' : BatchLoop) × Batching 3 s' (queued 1 ∷ queued 2 ∷ []) ((queued 1 ∷ []) ∷ [])
    × (s'.queue ≡ [])
unfolding take_request
waiting_queue_is_sent_example = waiting_queue_is_sent receiving refl (omega arith)

closed_queue_drains_example :
    (s' : BatchLoop) × (more : List (List Request)) × Batching 3 s'
      (queued 1 ∷ queued 2 ∷ [])
      ([] ++ more)
    × (s'.returned ≡ true)
    × (joined ([] ++ more) ≡ queued 1 ∷ queued 2 ∷ [])
unfolding take_request
closed_queue_drains_example = closed_queue_drains (Batching.close receiving) refl refl

abbrev open_client : ClientState (GoMap String)
open_client = record {
  info = (peer_at "a:1051" false).info;
  last_errs = [];
  queue_closed = false;
  is_shutdown = false;
  connected = true;
  batching = false;
}

abbrev patient : Caller
patient = record { at_start = none; at_queue = none; at_send = none; in_wait = none }

unbatched_call_ends_example :
    Answered map_cache 0 answers_all
      (queued 1)
      open_client
      (get_peer_rate_limit map_cache 0 true answers_all none patient (queued 1) open_client)
unbatched_call_ends_example =
    unbatched_call_ends map_cache 0 true answers_all none patient (queued 1) open_client refl

-- The server itself, and a peer that could not be reached.
abbrev itself : Remote (GoMap String)
itself = record { client = peer_at "a:1051" true; last_errs = [] }

abbrev own_address : String
own_address = "a:1051"

health_check-Serves_iff_example : Serves (health_check map_cache 0 "a:1051" (itself ∷ []) []).2 ↔ (
    All (NoError map_cache 0) (itself ∷ [])
    × All (NoError map_cache 0) []
    × (own_address ≢ "")
    × HasAddress "a:1051" (itself ∷ []))
health_check-Serves_iff_example = health_check-Serves_iff map_cache 0 "a:1051" (itself ∷ []) []

abbrev unreachable : List RateLimitReq → PeerAnswer
unreachable rs = PeerAnswer.broken "connection refused"

abbrev failing : Remote (GoMap String)
failing = record {
  client = peer_at "b:1051" false;
  last_errs = (send_batch map_cache "b:1051" 0 second_left unreachable three []).last_errs;
}

failed_batch_is_reported_example :
    ¬ Serves (health_check map_cache 0 "a:1051" (itself ∷ failing ∷ []) []).2
failed_batch_is_reported_example =
    failed_batch_is_reported map_cache 0 map_cache-ErrorCacheLaws second_left unreachable three []
      "a:1051" failing (itself ∷ failing ∷ []) []
      "Error in client.GetPeerRateLimits: connection refused" refl refl (inr (inl refl))
