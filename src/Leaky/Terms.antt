-- ===== src/Leaky/Terms.antt =====
-- leakyBucket of algorithms.go, the part that reads no more than the request and the stored bucket:
-- which rate, burst and configuration count, and the balance brought up to date.
use gubernator.Balance.{zero_tokens, credited_leak, debt_at, snap_to_zero, unusable_rate, rate_of}
use gubernator.Interval.{Calendar, epoch_millis, gregorian_duration, gregorian_expiration}
use gubernator.Prelude.{
  ℤ, pos, List, [], ◌∷◌, Option, none, some, Bool, not, ◌||◌, ◌&&◌, sub64, ltb_ℤ, eqb_ℤ,
  if◌then◌else◌,
}
use gubernator.Types.{
  Float64, LeakyBucketItem, Metric, RateLimitReq, created_at_of, has_behavior,
  duration_is_gregorian, reset_remaining,
}

pub record Terms (F : Type 0) : Type 0 where
  pub created_at : ℤ
  pub duration : ℤ
  pub stored_rate : F
  pub request_rate : F
  pub keep_stored : Bool
  pub rescale : Bool
  pub config_changed : Bool
  pub burst : ℤ
  pub was_in_debt : Bool
  pub burst_changed : Bool
  pub reset : Bool

module _ {F T : Type 0} (fl : Float64 F) (cal : Calendar T) where
  abbrev pub in_debt : LeakyBucketItem F → Bool
  in_debt b = fl.lt b.remaining (zero_tokens fl)

  -- The duration and the rate of the request: those of the calendar's interval, or its own.
  unfoldable pub request_terms : T → RateLimitReq → Option (ℤ × F)
  request_terms now r =
      if has_behavior r.behavior duration_is_gregorian
      then (elim (gregorian_duration cal now r.duration) [
        | none ↦ none
        | some d ↦ elim (gregorian_expiration cal now r.duration) [
          | none ↦ none
          | some expire ↦ some (sub64 expire (epoch_millis cal now), rate_of fl d r.limit)
        ]
      ])
      else some (r.duration, rate_of fl r.duration r.limit)

  -- Debt and any max_wait request are timed by the server's clock.
  unfoldable pub request_time : T → RateLimitReq → LeakyBucketItem F → ℤ
  request_time now r b =
      if ltb_ℤ (pos 0) r.max_wait || in_debt b then epoch_millis cal now else created_at_of r

  -- A burst of zero or less does not replace that of a key in debt.
  unfoldable pub choose_burst : RateLimitReq → LeakyBucketItem F → ℤ → ℤ
  choose_burst r b created_at =
      let useless =
        ltb_ℤ r.burst (pos 0)
        || (eqb_ℤ r.burst (pos 0) && not (has_behavior r.behavior reset_remaining)) in
      if debt_at fl b created_at && useless then b.burst else r.burst

  unfoldable pub terms_of : T → RateLimitReq → LeakyBucketItem F → ℤ → F → Terms F
  terms_of now r b duration request_rate =
      let created_at = request_time now r b in
      let rate = rate_of fl r.duration r.limit in
      let gregorian = has_behavior r.behavior duration_is_gregorian in
      let reset = has_behavior r.behavior reset_remaining in
      let stored_rate = rate_of fl b.duration b.limit in
      let stored_usable = not (unusable_rate fl stored_rate) in
      let request_usable =
        (ltb_ℤ (pos 0) r.limit && ltb_ℤ (pos 0) r.duration) && not (unusable_rate fl rate) in
      let config_changed = not (eqb_ℤ b.limit r.limit) || not (eqb_ℤ b.duration r.duration) in
      let burst = choose_burst r b created_at in
      record {
        created_at = created_at;
        duration = duration;
        stored_rate = stored_rate;
        request_rate = request_rate;
        keep_stored = ((gregorian || not request_usable) && in_debt b) && stored_usable;
        rescale =
            (((not gregorian && request_usable) && in_debt b) && config_changed) && stored_usable;
        config_changed = config_changed;
        burst = burst;
        was_in_debt = in_debt b && not reset;
        burst_changed = not (eqb_ℤ b.burst burst);
        reset = reset;
      }

  -- the rate before the decision on the final balance
  abbrev pub working_rate : Terms F → F
  working_rate t = if t.keep_stored then t.stored_rate else t.request_rate

  -- Elapsed time is credited at the rate at which the debt was booked.
  unfoldable pub credit : Terms F → LeakyBucketItem F → LeakyBucketItem F
  credit t b =
      let credit_rate = if t.rescale then t.stored_rate else working_rate t in
      if ltb_ℤ b.updated_at t.created_at
      then record b {
        remaining = fl.add b.remaining (credited_leak fl b t.created_at credit_rate);
        updated_at = t.created_at;
      }
      else b

  unfoldable pub rescale_debt : Terms F → LeakyBucketItem F → LeakyBucketItem F
  rescale_debt t b =
      if t.rescale && fl.lt (snap_to_zero fl b.remaining) (zero_tokens fl)
      then record b { remaining = fl.mul b.remaining (fl.div t.stored_rate (working_rate t)) }
      else b

  -- A new burst shifts the balance, but leaves a debt alone.
  unfoldable pub shift_burst : Terms F → LeakyBucketItem F → LeakyBucketItem F
  shift_burst t b =
      let moved =
        fl.max (zero_tokens fl) (fl.add b.remaining (fl.of_int (sub64 t.burst b.burst))) in
      let remaining =
        if fl.le (zero_tokens fl) (snap_to_zero fl b.remaining) then moved else b.remaining in
      if t.burst_changed then record b { remaining = remaining; burst = t.burst } else b

  unfoldable pub reset_metrics : Terms F → LeakyBucketItem F → List (Metric F)
  reset_metrics t b =
      if t.reset && fl.lt (snap_to_zero fl b.remaining) (zero_tokens fl)
      then Metric.debt_reset_count ∷ []
      else []

  -- A reset fills the bucket; credit never lifts the balance above the burst.
  unfoldable pub settle : Terms F → LeakyBucketItem F → LeakyBucketItem F
  settle t b =
      let balance = if t.reset then fl.of_int t.burst else b.remaining in
      record b { remaining = snap_to_zero fl (fl.min (fl.of_int b.burst) balance) }

  -- The configuration of the request is taken over, unless the debt that is left keeps its own.
  unfoldable pub adopts : Terms F → LeakyBucketItem F → Bool
  adopts t b = not t.keep_stored || fl.le (zero_tokens fl) b.remaining

  unfoldable pub adopt : Terms F → RateLimitReq → LeakyBucketItem F → LeakyBucketItem F × F
  adopt t r b =
      if adopts t b
      then (record b { limit = r.limit; duration = r.duration }, t.request_rate)
      else (b, working_rate t)
