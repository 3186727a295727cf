-- ===== src/Leaky/Decision.antt =====
-- The decision of leakyBucket and scheduleHits of algorithms.go, for any float64.
use gubernator.Balance.{zero_tokens, whole_tokens}
use gubernator.Leaky.Answer.{Answer, Moment, refuse}
use gubernator.Leaky.Bucket.{refuse_plain, admit_plain, leaky_decide}
use gubernator.Leaky.Schedule.{wait_for, admit_now, refuse_wait, book, schedule_hits}
use gubernator.Prelude.{
  ℤ, pos, ◌≤ℤ◌, ◌<ℤ◌, ◌≡◌, ◌⊎◌, arith, true, false, max_ℤ, min_ℤ, leb_ℤ, if◌then◌else◌,
}
use gubernator.Types.{Float64, RateLimitReq, Status, has_behavior, drain_over_limit}
use gubernator.World.{Runtime}

pub wait_for-pos :
    {F : Type 0} (fl : Float64 F) (hits : ℤ) (b : gubernator.Types.LeakyBucketItem F) (now : ℤ)
    (rate : F)
    → pos 1 ≤ℤ wait_for fl hits b now rate
unfolding wait_for max_ℤ
wait_for-pos fl hits b now rate = ground arith

module _ {F : Type 0} (fl : Float64 F) (r : RateLimitReq) (m : Moment F) (a : Answer F) where
  -- When scheduleHits, from a response that starts as UNDER_LIMIT, answers SCHEDULED, the wait is
  -- at least a millisecond, at most the request's max_wait and at most the server's ceiling; the
  -- hits are at most the burst; and the new balance is the old one less the hits.
  pub schedule_hits_booked :
      a.resp.status ≡ Status.under_limit
      → (schedule_hits fl r m a).resp.status ≡ Status.scheduled
      → (pos 1 ≤ℤ (schedule_hits fl r m a).resp.retry_after)
        × ((schedule_hits fl r m a).resp.retry_after ≤ℤ r.max_wait)
        × ((schedule_hits fl r m a).resp.retry_after ≤ℤ m.ceiling)
        × (r.hits ≤ℤ a.bucket.burst)
        × ((schedule_hits fl r m a).bucket.remaining ≡ fl.sub a.bucket.remaining (fl.of_int r.hits))
  unfolding schedule_hits refuse admit_now refuse_wait book min_ℤ
  schedule_hits_booked h s = ground (arith, wait_for-pos fl r.hits a.bucket m.now m.rate)

  -- When scheduleHits, from a response that starts as UNDER_LIMIT, answers OVER_LIMIT or
  -- NEVER_FITS, the bucket and the item's expiry are as they were.
  pub schedule_hits_refused :
      a.resp.status ≡ Status.under_limit
      → ((schedule_hits fl r m a).resp.status ≡ Status.over_limit)
        ⊎ ((schedule_hits fl r m a).resp.status ≡ Status.never_fits)
      → ((schedule_hits fl r m a).bucket ≡ a.bucket)
        × ((schedule_hits fl r m a).expire_at ≡ a.expire_at)
  unfolding schedule_hits refuse admit_now refuse_wait book
  schedule_hits_refused h s = ground arith

module _ {F S T : Type 0} (rt : Runtime F S T) (r : RateLimitReq) (m : Moment F)
    (a : Answer F) where
  -- From a response that starts as UNDER_LIMIT, the decision of leakyBucket leaves the bucket as it
  -- was for a query without hits, for an answer NEVER_FITS, for an answer OVER_LIMIT without
  -- DRAIN_OVER_LIMIT, and for negative hits without max_wait on a balance below zero.
  pub leaky_decide_keeps :
      a.resp.status ≡ Status.under_limit
      → (r.hits ≡ pos 0)
        ⊎ ((leaky_decide rt r m a).resp.status ≡ Status.never_fits)
        ⊎ (((leaky_decide rt r m a).resp.status ≡ Status.over_limit)
            × (has_behavior r.behavior drain_over_limit ≡ false))
        ⊎ ((r.hits <ℤ pos 0)
            × (r.max_wait ≡ pos 0)
            × (rt.fl.lt a.bucket.remaining (zero_tokens rt.fl) ≡ true))
      → (leaky_decide rt r m a).bucket ≡ a.bucket
  unfolding leaky_decide refuse_plain admit_plain schedule_hits refuse admit_now refuse_wait book
  leaky_decide_keeps h c = ground arith

  -- From a response that starts as UNDER_LIMIT, a request for a positive number of hits without
  -- max_wait is answered UNDER_LIMIT when the balance has that many whole tokens, and OVER_LIMIT
  -- when not.
  pub leaky_decide_plain :
      a.resp.status ≡ Status.under_limit
      → pos 0 <ℤ r.hits
      → r.max_wait ≡ pos 0
      → (leaky_decide rt r m a).resp.status ≡ (
          if leb_ℤ r.hits (whole_tokens rt.fl a.bucket.remaining)
          then Status.under_limit
          else Status.over_limit)
  unfolding leaky_decide refuse_plain admit_plain refuse
  leaky_decide_plain h p n = ground arith
