-- ===== src/Client/Calls.antt =====
-- GetPeerRateLimit, GetPeerRateLimits, UpdatePeerGlobals, NewPeerClient and Shutdown of
-- peer_client.go. Dialling and the peer's answers are parameters.
use gubernator.Client.Errors.{ErrorCache, set_last_err, wrapped}
use gubernator.Client.Send.{Request, Response, PeerAnswer, send_batch, call_error}
use gubernator.Peers.Hash.{PeerInfo}
use gubernator.Prelude.{
  String, List, [], ◌∷◌, Option, none, some, Bool, true, false, ◌||◌, ◌==◌, if◌then◌else◌, length,
}
use gubernator.Types.{RateLimitReq, RateLimitResp, has_behavior, no_batching}
use gubernator.World.{Outcome, ok, err}

-- The state of a peer's client; the queue and its loop are BatchLoop.
pub record ClientState (E : Type 0) : Type 0 where
  pub info : PeerInfo
  pub last_errs : E
  pub queue_closed : Bool
  pub is_shutdown : Bool
  pub connected : Bool
  pub batching : Bool

pub data Dialled (E : Type 0) : Type 0 where
  connected : ClientState E → Dialled E
  refused : String → Dialled E

-- What the calls of a caller's context give: before anything is done, while the request is queued,
-- when its batch is sent, and while it waits for the response.
pub record Caller : Type 0 where
  pub at_start : Option String
  pub at_queue : Option String
  pub at_send : Option String
  pub in_wait : Option String

-- What a call did: the request that it queued, what it asked the peer, the errors recorded and its
-- results; no result where it waits for ever.
pub record Call (E : Type 0) : Type 0 where
  pub queued : Option Request
  pub asked : Option (List RateLimitReq)
  pub last_errs : E
  pub result : Option Outcome

-- A list of rate limits from a peer, or an error.
pub data Limits : Type 0 where
  limits : List RateLimitResp → Limits
  limits_err : String → Limits

abbrev pub closing : String
closing = "rpc error: code = Canceled desc = grpc: the client connection is closing"

abbrev mismatch : String
mismatch = "number of rate limits in peer response does not match request"

-- errors.Wrap around the results of a call
abbrev pub wrap_outcome : String → Outcome → Outcome
wrap_outcome msg (ok resp) = ok resp
wrap_outcome msg (err e) = err (wrapped e msg)

unfoldable pub outcome_of : Response → Outcome
outcome_of (Response.rate_limit rl) = ok rl
outcome_of (Response.failed e) = err (wrapped e "Request error")

-- awaitResponse: the caller's end of waiting, or the response
unfoldable pub await_response : Option String → Option Response → Option Outcome
await_response (some e) reply = some (err (wrapped e "Context error while waiting for response"))
await_response none none = none
await_response none (some r) = some (outcome_of r)

abbrev pub first_reply : List (Request × Response) → Option Response
first_reply [] = none
first_reply ((r, resp) ∷ rest) = some resp

-- NewPeerClient: `dial` is grpc.NewClient, with its error.
unfoldable pub new_peer_client :
    {E T : Type 0} → ErrorCache E T → (String → Option String) → Bool → PeerInfo → Dialled E
new_peer_client ec dial disable_batching info = elim (dial info.grpc_address) [
  | some e ↦ Dialled.refused e
  | none ↦ Dialled.connected (record {
    info = info;
    last_errs = ec.new_cache;
    queue_closed = false;
    is_shutdown = false;
    connected = true;
    batching = if disable_batching then false else true;
  })
]

-- Shutdown, with the context's error where it ends before the calls that are under way.
unfoldable pub shutdown :
    {E T : Type 0} → ErrorCache E T → Option String → ClientState E → ClientState E × Option String
shutdown ec expired c = if c.is_shutdown then (c, none) else (elim expired [
  | some e ↦ (record c { is_shutdown = true; connected = false }, some e)
  | none ↦ (
    record c {
      is_shutdown = true;
      connected = false;
      last_errs = ec.new_cache;
      queue_closed = true;
    },
    none,
  )
])

module _ {E T : Type 0} (ec : ErrorCache E T) (now : T) where
  unfoldable pub get_peer_rate_limits :
      List RateLimitReq → PeerAnswer → ClientState E → ClientState E × Limits
  get_peer_rate_limits rs (PeerAnswer.broken e) c = (
    record c {
      last_errs = set_last_err ec now c.info.grpc_address (some (call_error e)) c.last_errs;
    },
    Limits.limits_err (call_error e),
  )
  get_peer_rate_limits rs (PeerAnswer.responded resps) c =
      if length resps == length rs then (c, Limits.limits resps) else (
        record c {
          last_errs = set_last_err ec now c.info.grpc_address (some mismatch) c.last_errs;
        },
        Limits.limits_err mismatch,
      )

  -- The peer's answer has no content: an error, or none.
  unfoldable pub update_peer_globals : Option String → ClientState E → ClientState E × Option String
  update_peer_globals answer c =
      (record c { last_errs = set_last_err ec now c.info.grpc_address answer c.last_errs }, answer)

  abbrev idle : ClientState E → Outcome → Call E
  idle c out = record { queued = none; asked = none; last_errs = c.last_errs; result = some out }

  unfoldable pub get_peer_rate_limit_single :
      (List RateLimitReq → PeerAnswer) → Caller → Request → ClientState E → Call E
  get_peer_rate_limit_single peer caller r c =
      if c.queue_closed then idle c (err closing) else (elim caller.at_start [
        | some e ↦ idle c (err (wrapped e "Context error before sending request"))
        | none ↦
            let sent =
              send_batch ec c.info.grpc_address now (λ (q : Request). caller.at_send) peer (r ∷ [])
                c.last_errs in
            record {
              queued = none;
              asked = sent.called;
              last_errs = sent.last_errs;
              result = await_response caller.in_wait (first_reply sent.replies);
            }
      ])

  -- `reply` is what the batch that the request comes into sends on its channel.
  unfoldable pub get_peer_rate_limits_batch :
      Option Response → Caller → Request → ClientState E → Call E
  get_peer_rate_limits_batch reply caller r c =
      if c.queue_closed then idle c (err closing) else (elim caller.at_start [
        | some e ↦ idle c (err (wrapped e "Context error while enqueuing request"))
        | none ↦ elim caller.at_queue [
          | some e ↦ idle c (err (wrapped e "Context error while enqueuing request"))
          | none ↦ record {
            queued = some r;
            asked = none;
            last_errs = c.last_errs;
            result = await_response caller.in_wait reply;
          }
        ]
      ])

  abbrev pub wrap_call : String → Call E → Call E
  wrap_call msg call = record call {
    result = elim call.result [ none ↦ none | some out ↦ some (wrap_outcome msg out) ];
  }

  unfoldable pub get_peer_rate_limit :
      Bool
      → (List RateLimitReq → PeerAnswer)
      → Option Response
      → Caller
      → Request
      → ClientState E
      → Call E
  get_peer_rate_limit disable_batching peer reply caller r c =
      if disable_batching || has_behavior r.request.behavior no_batching
      then wrap_call "Error in getPeerRateLimitSingle" (get_peer_rate_limit_single peer caller r c)
      else wrap_call "Error in getPeerRateLimitsBatch" (get_peer_rate_limits_batch reply caller r c)
