-- ===== src/Client/Origin.antt =====
-- Where a response of an unbatched call of peer_client.go comes from.
use gubernator.Client.Calls.{
  ClientState, Caller, Call, await_response, outcome_of, first_reply, wrap_call,
  get_peer_rate_limit_single, get_peer_rate_limit,
}
use gubernator.Client.Errors.{ErrorCache, wrapped}
use gubernator.Client.Send.{
  Request, Response, PeerAnswer, Sent, CtxErr, gone, skip_gone, reply_each, fail_all, deliver,
  send_live, send_batch, call_error, wrong_size,
}
use gubernator.Prelude.{
  String, List, [], ◌∷◌, Option, none, some, Bool, true, ◌||◌, ◌≡◌, refl, ap, ◌∙◌, inl, inr, arith,
  Bool-cases, Option-cases,
}
use gubernator.Types.{RateLimitReq, RateLimitResp, has_behavior, no_batching}
use gubernator.World.{Outcome, ok, err}

module _ {E T : Type 0} (ec : ErrorCache E T) (now : T) where
  -- The one reply to a batch of one request.
  abbrev one_reply : PeerAnswer → Response
  one_reply (PeerAnswer.broken e) = Response.failed (call_error e)
  one_reply (PeerAnswer.responded []) = Response.failed wrong_size
  one_reply (PeerAnswer.responded (x ∷ [])) = Response.rate_limit x
  one_reply (PeerAnswer.responded (x ∷ y ∷ l)) = Response.failed wrong_size

  deliver_one :
      (address : String) (r : Request) (answer : PeerAnswer) (errs : E)
      → first_reply (deliver ec address now (r ∷ []) answer errs).0 ≡ some (one_reply answer)
  unfolding deliver fail_all reply_each
  deliver_one address r (PeerAnswer.broken e) errs = refl
  deliver_one address r (PeerAnswer.responded []) errs = refl
  deliver_one address r (PeerAnswer.responded (x ∷ [])) errs = refl
  deliver_one address r (PeerAnswer.responded (x ∷ y ∷ l)) errs = ground arith

  deliver_one-errs :
      (address : String) (r : Request) (x : RateLimitResp) (errs : E)
      → (deliver ec address now (r ∷ []) (PeerAnswer.responded (x ∷ [])) errs).1 ≡ errs
  unfolding deliver
  deliver_one-errs address r x errs = refl

  sent_alone :
      (peer : List RateLimitReq → PeerAnswer) (address : String) (r : Request) (ctx : CtxErr)
      (errs : E)
      → ctx r ≡ none
      → let sent = send_batch ec address now ctx peer (r ∷ []) errs in
        (first_reply sent.replies ≡ some (one_reply (peer (r.request ∷ []))))
        × (sent.called ≡ some (r.request ∷ []))
        × (sent.last_errs ≡ (deliver ec address now (r ∷ []) (peer (r.request ∷ [])) errs).1)
  unfolding send_batch skip_gone send_live
  sent_alone peer address r ctx errs live =
      rw (live, skip_gone) (deliver_one address r (peer (r.request ∷ [])) errs, refl, refl)

  one_reply-inv :
      (answer : PeerAnswer) (rl : RateLimitResp)
      → one_reply answer ≡ Response.rate_limit rl
      → answer ≡ PeerAnswer.responded (rl ∷ [])
  one_reply-inv (PeerAnswer.broken e) rl h = absurd (cc)
  one_reply-inv (PeerAnswer.responded []) rl h = absurd (cc)
  one_reply-inv (PeerAnswer.responded (x ∷ [])) rl h = cc
  one_reply-inv (PeerAnswer.responded (x ∷ y ∷ l)) rl h = absurd (cc)

  outcome_of-inv :
      (resp : Response) (rl : RateLimitResp)
      → outcome_of resp ≡ ok rl
      → resp ≡ Response.rate_limit rl
  unfolding outcome_of
  outcome_of-inv (Response.rate_limit x) rl h = cc
  outcome_of-inv (Response.failed e) rl h = absurd (cc)

  -- An unbatched call ends, and a response that it returns is the peer's only answer.
  abbrev pub Answered : (List RateLimitReq → PeerAnswer) → Request → ClientState E → Call E → Type 0
  Answered peer r c call =
      (out : Outcome) × (call.result ≡ some out)
      × ((rl : RateLimitResp)
          → out ≡ ok rl
          → (peer (r.request ∷ []) ≡ PeerAnswer.responded (rl ∷ []))
            × (call.asked ≡ some (r.request ∷ []))
            × (call.last_errs ≡ c.last_errs))

  sent_gone :
      (peer : List RateLimitReq → PeerAnswer) (address : String) (r : Request) (ctx : CtxErr)
      (errs : E) (e : String)
      → ctx r ≡ some e
      → first_reply (send_batch ec address now ctx peer (r ∷ []) errs).replies ≡ some (gone e)
  unfolding send_batch skip_gone send_live
  sent_gone peer address r ctx errs e left = rw (left, skip_gone) refl

  -- The part of a call after its batch is on its way.
  abbrev sent_call : ClientState E → Sent E → Call E
  sent_call c sent = record {
    queued = none;
    asked = sent.called;
    last_errs = sent.last_errs;
    result = await_response none (first_reply sent.replies);
  }

  sent-Answered :
      (peer : List RateLimitReq → PeerAnswer) (r : Request) (ctx : CtxErr) (c : ClientState E)
      → Answered peer r c
          (sent_call c (send_batch ec c.info.grpc_address now ctx peer (r ∷ []) c.last_errs))
  unfolding await_response
  sent-Answered peer r ctx c = elim (Option-cases (ctx r)) [
    | inr (e, left) ↦
        let first = sent_gone peer c.info.grpc_address r ctx c.last_errs e left in
        (outcome_of (gone e), rw first refl, λ rl h. absurd (cc (outcome_of-inv (gone e) rl h)))
    | inl live ↦
        let (first, called, errs) = sent_alone peer c.info.grpc_address r ctx c.last_errs live in
        let answer = peer (r.request ∷ []) in
        (
          outcome_of (one_reply answer),
          rw first refl,
          λ rl h.
              let only = one_reply-inv answer rl (outcome_of-inv (one_reply answer) rl h) in
              (
                only,
                called,
                errs
                    ∙ ap
                        (λ (a : PeerAnswer).
                          (deliver ec c.info.grpc_address now (r ∷ []) a c.last_errs).1)
                        only
                    ∙ deliver_one-errs c.info.grpc_address r rl c.last_errs,
              ),
        )
  ]

  single-Answered :
      (peer : List RateLimitReq → PeerAnswer) (caller : Caller) (r : Request) (c : ClientState E)
      → Answered peer r c (get_peer_rate_limit_single ec now peer caller r c)
  unfolding get_peer_rate_limit_single await_response
  single-Answered peer caller r c = elim (Bool-cases c.queue_closed) [
    | inl shut ↦ rw (shut, get_peer_rate_limit_single) (_, refl, λ rl e. absurd (cc))
    | inr open_queue ↦
        rw (open_queue, get_peer_rate_limit_single)
          (elim (Option-cases caller.at_start) [
            | inr (e, left) ↦ rw (left, get_peer_rate_limit_single) (_, refl, λ rl e. absurd (cc))
            | inl stays ↦
                rw (stays, get_peer_rate_limit_single)
                  (elim (Option-cases caller.in_wait) [
                    | inr (e, left) ↦ rw (left, await_response) (_, refl, λ rl e. absurd (cc))
                    | inl waits ↦
                        rw (waits, await_response)
                          (sent-Answered peer r (λ (q : Request). caller.at_send) c)
                  ])
          ])
  ]

  wrapped-Answered :
      (msg : String) (peer : List RateLimitReq → PeerAnswer) (r : Request) (c : ClientState E)
      (call : Call E)
      → Answered peer r c call
      → Answered peer r c (wrap_call ec now msg call)
  wrapped-Answered msg peer r c call (ok rl, e, from) = (ok rl, rw e refl, from)
  wrapped-Answered msg peer r c call (err x, e, from) =
      (err (wrapped x msg), rw e refl, λ rl h. absurd (cc))

  -- A call of GetPeerRateLimit with NO_BATCHING, or with batching disabled, ends with an outcome;
  -- and when it returns a response, then the peer was asked for this request alone, answered it
  -- with this response alone, and no error was recorded.
  pub unbatched_call_ends :
      (disable_batching : Bool) (peer : List RateLimitReq → PeerAnswer) (reply : Option Response)
      (caller : Caller) (r : Request) (c : ClientState E)
      → (disable_batching || has_behavior r.request.behavior no_batching) ≡ true
      → Answered peer r c (get_peer_rate_limit ec now disable_batching peer reply caller r c)
  unfolding get_peer_rate_limit
  unbatched_call_ends disable peer reply caller r c alone =
      rw (alone, get_peer_rate_limit)
        (wrapped-Answered _ peer r c (get_peer_rate_limit_single ec now peer caller r c)
          (single-Answered peer caller r c))
