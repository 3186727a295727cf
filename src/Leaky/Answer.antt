-- ===== src/Leaky/Answer.antt =====
-- What leakyBucket works out for a bucket that was found: its new state, the item's expiry, the
-- response and the metrics; and the expiry of a key in debt.
use gubernator.Balance.{full_at}
use gubernator.Prelude.{ℤ, List, ◌∷◌, Bool, add64, max_ℤ, if◌then◌else◌}
use gubernator.Types.{Float64, LeakyBucketItem, Metric, RateLimitResp, Status}

pub record Answer (F : Type 0) : Type 0 where
  pub bucket : LeakyBucketItem F
  pub expire_at : ℤ
  pub resp : RateLimitResp
  pub metrics : List (Metric F)

-- A request on a bucket: who owns the key, how long a booked wait may be in milliseconds, the
-- moment, the duration and the rate that count, and whether the bucket came in with debt.
pub record Moment (F : Type 0) : Type 0 where
  pub is_owner : Bool
  pub ceiling : ℤ
  pub now : ℤ
  pub duration : ℤ
  pub rate : F
  pub was_in_debt : Bool

module _ {F : Type 0} (fl : Float64 F) where
  -- extendDebtExpiry: the item's new expiry
  unfoldable pub extend_debt_expiry : ℤ → LeakyBucketItem F → ℤ → ℤ → F → ℤ
  extend_debt_expiry expire_at b now duration rate =
      max_ℤ (max_ℤ expire_at (add64 now duration)) (full_at fl b rate)

  abbrev pub extended : Moment F → Answer F → Answer F
  extended m a = record a {
    expire_at = extend_debt_expiry a.expire_at a.bucket m.now m.duration m.rate;
  }

  abbrev pub extended_if : Bool → Moment F → Answer F → Answer F
  extended_if test m a = if test then extended m a else a

-- The refusal of a request, which the owner counts.
unfoldable pub refuse : {F : Type 0} → Bool → Status → Answer F → Answer F
refuse is_owner status a = record a {
  resp = record (a.resp) { status = status };
  metrics = if is_owner then Metric.over_limit_count ∷ a.metrics else a.metrics;
}
