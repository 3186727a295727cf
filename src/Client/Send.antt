-- ===== src/Client/Send.antt =====
-- sendBatch of peer_client.go. The network is a parameter: what a peer answers to the requests of a
-- call. The trace context that a request's metadata carries is left out.
use gubernator.Client.Errors.{ErrorCache, set_last_err, wrapped}
use gubernator.Prelude.{
  ℕ, String, List, [], ◌∷◌, ◌++◌, map, Option, none, some, ◌==◌, if◌then◌else◌, length,
}
use gubernator.Types.{RateLimitReq, RateLimitResp}

-- A queued request; its identity stands for the channel on which its caller waits.
pub record Request : Type 0 where
  pub id : ℕ
  pub request : RateLimitReq

-- response: `rl`, or `err`
pub data Response : Type 0 where
  rate_limit : RateLimitResp → Response
  failed : String → Response

-- The results of client.GetPeerRateLimits.
pub data PeerAnswer : Type 0 where
  responded : List RateLimitResp → PeerAnswer
  broken : String → PeerAnswer

-- What is sent on the channels, what is asked of the peer, and the errors recorded.
pub record Sent (E : Type 0) : Type 0 where
  pub replies : List (Request × Response)
  pub called : Option (List RateLimitReq)
  pub last_errs : E

abbrev pub gone : String → Response
gone e = Response.failed (wrapped e "Context error before sending batch")

-- `r.ctx.Err()`
abbrev pub CtxErr : Type 0
CtxErr = Request → Option String

-- The requests whose caller still waits, and the replies to the others.
unfoldable pub skip_gone : CtxErr → List Request → List Request × List (Request × Response)
skip_gone ctx [] = ([], [])
skip_gone ctx (r ∷ rs) =
    let (live, skipped) = skip_gone ctx rs in
    elim (ctx r) [ some e ↦ (live, (r, gone e) ∷ skipped) | none ↦ (r ∷ live, skipped) ]

unfoldable pub fail_all : String → List Request → List (Request × Response)
fail_all e rs = map (λ (r : Request). (r, Response.failed e)) rs

unfoldable pub reply_each : List Request → List RateLimitResp → List (Request × Response)
reply_each [] resps = []
reply_each (r ∷ rs) [] = []
reply_each (r ∷ rs) (resp ∷ resps) = (r, Response.rate_limit resp) ∷ reply_each rs resps

abbrev pub wrong_size : String
wrong_size = "server responded with incorrect rate limit list size"

abbrev pub call_error : String → String
call_error e = wrapped e "Error in client.GetPeerRateLimits"

module _ {E T : Type 0} (ec : ErrorCache E T) (address : String) where
  -- the replies to the requests of a call, and the errors recorded
  unfoldable pub deliver : T → List Request → PeerAnswer → E → List (Request × Response) × E
  deliver now live (PeerAnswer.broken e) errs =
      (fail_all (call_error e) live, set_last_err ec now address (some (call_error e)) errs)
  deliver now live (PeerAnswer.responded resps) errs =
      if length resps == length live
      then (reply_each live resps, errs)
      else (fail_all wrong_size live, set_last_err ec now address (some wrong_size) errs)

  unfoldable pub send_live :
      T → (List RateLimitReq → PeerAnswer) → List Request → List (Request × Response) → E → Sent E
  send_live now peer [] skipped errs = record { replies = skipped; called = none; last_errs = errs }
  send_live now peer (r ∷ rs) skipped errs =
      let requests = map (λ (q : Request). q.request) (r ∷ rs) in
      let (replies, errs') = deliver now (r ∷ rs) (peer requests) errs in
      record { replies = skipped ++ replies; called = some requests; last_errs = errs' }

  unfoldable pub send_batch :
      T → CtxErr → (List RateLimitReq → PeerAnswer) → List Request → E → Sent E
  send_batch now ctx peer queue errs =
      let (live, skipped) = skip_gone ctx queue in send_live now peer live skipped errs
