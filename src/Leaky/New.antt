-- ===== src/Leaky/New.antt =====
-- leakyBucketNewItem of algorithms.go.
use gubernator.Balance.{rate_of}
use gubernator.Interval.{epoch_millis, gregorian_expiration}
use gubernator.Leaky.Schedule.{reset_at}
use gubernator.Prelude.{
  ℤ, pos, [], ◌∷◌, Option, none, some, Bool, ◌&&◌, add64, sub64, min_ℤ, ltb_ℤ, if◌then◌else◌,
}
use gubernator.Types.{
  CacheItem, Value, Metric, LeakyBucketItem, RateLimitReq, RateLimitResp, Status, hash_key,
  created_at_of, has_behavior, duration_is_gregorian,
}
use gubernator.World.{
  Runtime, World, Outcome, ok, err, invalid_interval, add_item, notify, count_metrics,
}

abbrev pub leaky_resp : Status → ℤ → ℤ → ℤ → RateLimitResp
leaky_resp status limit remaining reset_time = record {
  status = status;
  limit = limit;
  remaining = remaining;
  reset_time = reset_time;
  error = "";
  retry_after = pos 0;
  owner = none;
}

module _ {F S T : Type 0} (rt : Runtime F S T) where
  open rt use {fl, cal}

  unfoldable pub leaky_new_bucket : RateLimitReq → ℤ → ℤ → LeakyBucketItem F
  leaky_new_bucket r created_at duration = record {
    remaining =
        fl.of_int (if ltb_ℤ r.burst r.hits then pos 0 else min_ℤ r.burst (sub64 r.burst r.hits));
    limit = r.limit;
    duration = duration;
    updated_at = created_at;
    burst = r.burst;
  }

  unfoldable pub leaky_new_resp : RateLimitReq → ℤ → RateLimitResp
  leaky_new_resp r created_at =
      let rate = rate_of fl r.duration r.limit in
      let remaining = min_ℤ r.burst (sub64 r.burst r.hits) in
      if ltb_ℤ r.burst r.hits
      then leaky_resp Status.over_limit r.limit (pos 0)
          (reset_at fl created_at r.limit (pos 0) rate)
      else leaky_resp Status.under_limit r.limit remaining
          (reset_at fl created_at r.limit remaining rate)

  -- The milliseconds that a new bucket lives.
  unfoldable pub new_duration : T → RateLimitReq → Option ℤ
  new_duration now r =
      if has_behavior r.behavior duration_is_gregorian
      then (elim (gregorian_expiration cal now r.duration) [
        | none ↦ none
        | some expire ↦ some (sub64 expire (epoch_millis cal now))
      ])
      else some r.duration

  unfoldable pub leaky_store_new : T → RateLimitReq → Bool → ℤ → ℤ → World F S → World F S × Outcome
  leaky_store_new now r is_owner created_at duration w =
      let counted : World F S =
        if ltb_ℤ r.burst r.hits && is_owner
        then count_metrics rt (Metric.over_limit_count ∷ []) w
        else w in
      let item : CacheItem F = record {
        expire_at = add64 created_at duration;
        algorithm = r.algorithm;
        key = hash_key r;
        value = Value.leaky (leaky_new_bucket r created_at duration);
        invalid_at = pos 0;
      } in
      (
        notify rt is_owner r item (add_item rt (epoch_millis cal now) item counted),
        ok (leaky_new_resp r created_at),
      )

  -- A request that can never fit creates no bucket.
  unfoldable pub leaky_never_fits : RateLimitReq → Bool → ℤ → World F S → World F S × Outcome
  leaky_never_fits r is_owner created_at w = (
    (if is_owner then count_metrics rt (Metric.over_limit_count ∷ []) w else w),
    ok (
        leaky_resp Status.never_fits r.limit r.burst
          (reset_at fl created_at r.limit r.burst (rate_of fl r.duration r.limit))),
  )

  unfoldable pub leaky_bucket_new_item : T → RateLimitReq → Bool → World F S → World F S × Outcome
  leaky_bucket_new_item now r is_owner w =
      let created_at = if ltb_ℤ (pos 0) r.max_wait then epoch_millis cal now else created_at_of r in
      elim (new_duration now r) [
        | none ↦ (w, err invalid_interval)
        | some duration ↦
            if ltb_ℤ (pos 0) r.max_wait && ltb_ℤ r.burst r.hits
            then leaky_never_fits r is_owner created_at w
            else leaky_store_new now r is_owner created_at duration w
      ]
