-- ===== src/Client/Faults.antt =====
-- What sendBatch of peer_client.go asks its peer, and the error that it records.
use gubernator.Client.Errors.{ErrorCache, set_last_err}
use gubernator.Client.Send.{
  Request, Response, PeerAnswer, CtxErr, skip_gone, wrong_size, call_error, deliver, send_live,
  send_batch,
}
use gubernator.Prelude.{
  ℕ, String, List, [], ◌∷◌, map, Option, none, some, ◌≡◌, refl, inl, inr, ◌==◌, if◌then◌else◌,
  length, Bool-cases,
}
use gubernator.Types.{RateLimitReq}
use gubernator.Client.Answers.{waiting, skip_gone-waiting}

module _ {E T : Type 0} (ec : ErrorCache E T) (address : String) where
  -- The error that a batch records: the call's failure, or a response of another size.
  abbrev pub fault : PeerAnswer → ℕ → Option String
  fault (PeerAnswer.broken e) n = some (call_error e)
  fault (PeerAnswer.responded resps) n = if length resps == n then none else some wrong_size

  abbrev pub batch_fault : (List RateLimitReq → PeerAnswer) → List Request → Option String
  batch_fault peer [] = none
  batch_fault peer (r ∷ rs) =
      fault (peer (map (λ (q : Request). q.request) (r ∷ rs))) (length (r ∷ rs))

  deliver-errs :
      (now : T) (live : List Request) (answer : PeerAnswer) (errs : E)
      → (deliver ec address now live answer errs).1
        ≡ set_last_err ec now address (fault answer (length live)) errs
  unfolding deliver set_last_err
  deliver-errs now live (PeerAnswer.broken e) errs = refl
  deliver-errs now live (PeerAnswer.responded resps) errs =
      elim (Bool-cases (length resps == length live)) [
        | inl same ↦ rw (same, deliver) refl
        | inr other ↦ rw (other, deliver) refl
      ]

  abbrev to_ask : List Request → Option (List RateLimitReq)
  to_ask [] = none
  to_ask (r ∷ rs) = some (map (λ (q : Request). q.request) (r ∷ rs))

  send_live-errs :
      (now : T) (peer : List RateLimitReq → PeerAnswer) (live : List Request)
      (skipped : List (Request × Response)) (errs : E)
      → let sent = send_live ec address now peer live skipped errs in
        (sent.called ≡ to_ask live)
        × (sent.last_errs ≡ set_last_err ec now address (batch_fault peer live) errs)
  unfolding send_live set_last_err
  send_live-errs now peer [] skipped errs = (refl, refl)
  send_live-errs now peer (r ∷ rs) skipped errs = (refl, deliver-errs now (r ∷ rs) _ errs)

  -- sendBatch calls the peer once with the requests whose callers wait, if there are any, and records
  -- an error exactly when the call failed.
  pub send_batch-calls :
      (now : T) (ctx : CtxErr) (peer : List RateLimitReq → PeerAnswer) (queue : List Request)
      (errs : E)
      → let sent = send_batch ec address now ctx peer queue errs in
        (sent.called ≡ to_ask (waiting ctx queue))
        × (sent.last_errs ≡ set_last_err ec now address (batch_fault peer (waiting ctx queue)) errs)
  unfolding send_batch
  send_batch-calls now ctx peer queue errs =
      rw (← skip_gone-waiting ctx queue)
        (send_live-errs now peer (skip_gone ctx queue).0 (skip_gone ctx queue).1 errs)
