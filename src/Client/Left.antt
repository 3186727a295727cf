-- ===== src/Client/Left.antt =====
-- What GetPeerRateLimit of peer_client.go does when the client is closed or its caller has left.
use gubernator.Client.Calls.{
  ClientState, Caller, Call, wrap_outcome, get_peer_rate_limit_single, get_peer_rate_limits_batch,
  get_peer_rate_limit,
}
use gubernator.Client.Errors.{ErrorCache}
use gubernator.Client.Send.{Request, Response, PeerAnswer}
use gubernator.Prelude.{
  String, List, Option, none, some, Bool, true, ◌||◌, ◌≡◌, ◌⊎◌, refl, inl, inr, Bool-cases,
}
use gubernator.Types.{RateLimitReq, has_behavior, no_batching}
use gubernator.World.{Outcome, ok, err}

-- Is the result an error?
abbrev pub Fails : Option Outcome → Type 0
Fails none = ⊥
Fails (some (ok resp)) = ⊥
Fails (some (err e)) = Unit

Fails-wrap :
    (msg : String) (out : Option Outcome)
    → Fails out
    → Fails (elim out [ none ↦ none | some o ↦ some (wrap_outcome msg o) ])
Fails-wrap msg none f = f
Fails-wrap msg (some (ok resp)) f = f
Fails-wrap msg (some (err e)) f = f

module _ {E T : Type 0} (ec : ErrorCache E T) (now : T) where
  -- A call that does nothing to the peer and fails.
  abbrev pub DoesNothing : ClientState E → Call E → Type 0
  DoesNothing c call =
      (call.queued ≡ none)
      × (call.asked ≡ none)
      × (call.last_errs ≡ c.last_errs)
      × Fails call.result

  abbrev HasLeft : Caller → ClientState E → Type 0
  HasLeft caller c = (c.queue_closed ≡ true) ⊎ ((e : String) × (caller.at_start ≡ some e))

  single_of_left :
      (peer : List RateLimitReq → PeerAnswer) (caller : Caller) (r : Request) (c : ClientState E)
      → HasLeft caller c
      → DoesNothing c (get_peer_rate_limit_single ec now peer caller r c)
  unfolding get_peer_rate_limit_single
  single_of_left peer caller r c (inl shut) =
      rw (shut, get_peer_rate_limit_single) (refl, refl, refl, tt)
  single_of_left peer caller r c (inr (e, left)) = elim (Bool-cases c.queue_closed) [
    | inl shut ↦ rw (shut, get_peer_rate_limit_single) (refl, refl, refl, tt)
    | inr open_queue ↦
        rw (open_queue, get_peer_rate_limit_single)
          (rw (left, get_peer_rate_limit_single) (refl, refl, refl, tt))
  ]

  batch_of_left :
      (reply : Option Response) (caller : Caller) (r : Request) (c : ClientState E)
      → HasLeft caller c
      → DoesNothing c (get_peer_rate_limits_batch ec now reply caller r c)
  unfolding get_peer_rate_limits_batch
  batch_of_left reply caller r c (inl shut) =
      rw (shut, get_peer_rate_limits_batch) (refl, refl, refl, tt)
  batch_of_left reply caller r c (inr (e, left)) = elim (Bool-cases c.queue_closed) [
    | inl shut ↦ rw (shut, get_peer_rate_limits_batch) (refl, refl, refl, tt)
    | inr open_queue ↦
        rw (open_queue, get_peer_rate_limits_batch)
          (rw (left, get_peer_rate_limits_batch) (refl, refl, refl, tt))
  ]

  -- A call whose client is shut down, or whose caller is gone at its start, asks and queues nothing.
  pub get_peer_rate_limit_left :
      (disable_batching : Bool) (peer : List RateLimitReq → PeerAnswer) (reply : Option Response)
      (caller : Caller) (r : Request) (c : ClientState E)
      → HasLeft caller c
      → DoesNothing c (get_peer_rate_limit ec now disable_batching peer reply caller r c)
  unfolding get_peer_rate_limit
  get_peer_rate_limit_left disable peer reply caller r c why =
      elim (Bool-cases (disable || has_behavior r.request.behavior no_batching)) [
        | inl alone ↦
            let (q, a, errs, f) = single_of_left peer caller r c why in
            rw (alone, get_peer_rate_limit) (q, a, errs, Fails-wrap _ _ f)
        | inr batched ↦
            let (q, a, errs, f) = batch_of_left reply caller r c why in
            rw (batched, get_peer_rate_limit) (q, a, errs, Fails-wrap _ _ f)
      ]
