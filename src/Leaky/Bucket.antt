-- ===== src/Leaky/Bucket.antt =====
-- leakyBucket of algorithms.go.
use gubernator.Balance.{
  zero_tokens, snap_to_zero, unusable_rate, full_at, spendable_tokens, whole_tokens,
}
use gubernator.Interval.{epoch_millis}
use gubernator.Leaky.Answer.{Answer, Moment, extended, extended_if, refuse}
use gubernator.Leaky.Schedule.{schedule_hits, reset_at}
use gubernator.Leaky.Terms.{
  Terms, request_terms, terms_of, credit, rescale_debt, shift_burst, reset_metrics, settle, adopt,
}
use gubernator.Prelude.{
  ℤ, pos, List, none, some, Bool, not, ◌||◌, ◌&&◌, add64, ltb_ℤ, eqb_ℤ, if◌then◌else◌,
}
use gubernator.Types.{
  CacheItem, Value, Metric, LeakyBucketItem, RateLimitReq, RateLimitResp, Status, hash_key,
  has_behavior, drain_over_limit,
}
use gubernator.World.{
  Runtime, World, Outcome, ok, err, invalid_interval, fetch, remove_item, write_back, notify,
  count_metrics,
}
use gubernator.Leaky.New.{leaky_resp, leaky_bucket_new_item}

-- A burst of 0 stands for the limit.
unfoldable pub default_burst : RateLimitReq → RateLimitReq
default_burst r = if eqb_ℤ r.burst (pos 0) then record r { burst = r.limit } else r

module _ {F S T : Type 0} (rt : Runtime F S T) where
  open rt use {fl, cal}

  -- A plain request for more than there is.
  unfoldable pub refuse_plain : RateLimitReq → Moment F → Answer F → Answer F
  refuse_plain r m a =
      let refused = refuse m.is_owner Status.over_limit a in
      if has_behavior r.behavior drain_over_limit
      then record refused {
        bucket = record (a.bucket) { remaining = fl.min a.bucket.remaining (zero_tokens fl) };
        resp = record (refused.resp) { remaining = pos 0 };
      }
      else refused

  -- A plain request that the balance pays for, or that gives tokens back up to the burst.
  unfoldable pub admit_plain : RateLimitReq → Moment F → Answer F → Answer F
  admit_plain r m a =
      let balance =
        snap_to_zero fl
          (fl.min (fl.of_int a.bucket.burst) (fl.sub a.bucket.remaining (fl.of_int r.hits))) in
      let remaining = whole_tokens fl balance in
      extended_if fl m.was_in_debt m (record a {
        bucket = record (a.bucket) { remaining = balance };
        resp = record (a.resp) {
          remaining = remaining;
          reset_time = reset_at fl m.now a.resp.limit remaining m.rate;
        };
      })

  -- The decision on a bucket that is up to date.
  unfoldable pub leaky_decide : RateLimitReq → Moment F → Answer F → Answer F
  leaky_decide r m a =
      if eqb_ℤ r.hits (pos 0)
      then a
      else if ltb_ℤ (pos 0) r.max_wait
      then schedule_hits fl r m a
      else if ltb_ℤ r.hits (pos 0) && fl.lt a.bucket.remaining (zero_tokens fl)
      then extended fl m a
      else if ltb_ℤ (whole_tokens fl a.bucket.remaining) r.hits
      then refuse_plain r m a
      else admit_plain r m a

  -- The response before the decision.
  unfoldable pub leaky_status : ℤ → LeakyBucketItem F → F → RateLimitResp
  leaky_status created_at b rate =
      leaky_resp Status.under_limit b.limit (spendable_tokens fl b.remaining) (
        if fl.lt b.remaining (zero_tokens fl)
        then full_at fl b rate
        else reset_at fl created_at b.limit (whole_tokens fl b.remaining) rate)

  -- The bucket brought up to date, with the metrics of a reset.
  unfoldable pub refresh : Terms F → LeakyBucketItem F → LeakyBucketItem F × List (Metric F)
  refresh t b₀ =
      let b = shift_burst fl cal t (rescale_debt fl cal t (credit fl cal t b₀)) in
      (settle fl cal t b, reset_metrics fl cal t b)

  unfoldable pub leaky_answer :
      Terms F → RateLimitReq → Bool → ℤ → CacheItem F → LeakyBucketItem F → Answer F
  leaky_answer t r is_owner ceiling item b₀ =
      let (settled, metrics) = refresh t b₀ in
      let (b, rate) = adopt fl cal t r settled in
      let touched = not (eqb_ℤ r.hits (pos 0)) && not t.was_in_debt in
      let m : Moment F = record {
        is_owner = is_owner;
        ceiling = ceiling;
        now = t.created_at;
        duration = t.duration;
        rate = rate;
        was_in_debt = t.was_in_debt;
      } in
      let decided = leaky_decide r m (record {
        bucket = b;
        expire_at = if touched then add64 t.created_at t.duration else item.expire_at;
        resp = leaky_status t.created_at b rate;
        metrics = metrics;
      }) in
      extended_if fl
        ((t.was_in_debt && (t.burst_changed || t.config_changed)) && not (unusable_rate fl rate)) m
        decided

  -- A leaky bucket that was found; the store is told after the expiry is settled.
  unfoldable pub leaky_update :
      T
      → RateLimitReq
      → Bool
      → ℤ
      → CacheItem F
      → LeakyBucketItem F
      → World F S
      → World F S × Outcome
  leaky_update now r is_owner ceiling item b w = elim (request_terms fl cal now r) [
    | none ↦ (w, err invalid_interval)
    | some (duration, rate) ↦
        let a = leaky_answer (terms_of fl cal now r b duration rate) r is_owner ceiling item b in
        let item' : CacheItem F = record item {
          value = Value.leaky a.bucket;
          expire_at = a.expire_at;
        } in
        (
          notify rt is_owner r item' (write_back rt item.key item' (count_metrics rt a.metrics w)),
          ok a.resp,
        )
  ]

  -- The type test on the item's value: another algorithm's item is replaced.
  unfoldable pub leaky_of_value :
      T → RateLimitReq → Bool → ℤ → CacheItem F → Value F → World F S → World F S × Outcome
  leaky_of_value now r is_owner ceiling item (Value.leaky b) w =
      leaky_update now r is_owner ceiling item b w
  leaky_of_value now r is_owner ceiling item _ w =
      leaky_bucket_new_item rt now r is_owner (remove_item rt (hash_key r) w)

  unfoldable pub leaky_bucket : T → RateLimitReq → Bool → ℤ → World F S → World F S × Outcome
  leaky_bucket now r₀ is_owner ceiling w =
      let r = default_burst r₀ in
      let (w', found) = fetch rt (epoch_millis cal now) r w in
      elim found [
        | none ↦ leaky_bucket_new_item rt now r is_owner w'
        | some item ↦ leaky_of_value now r is_owner ceiling item item.value w'
      ]
