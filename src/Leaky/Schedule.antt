-- ===== src/Leaky/Schedule.antt =====
-- scheduleHits of algorithms.go: a max_wait request is admitted, booked as debt, or refused.
use gubernator.Balance.{
  snap_to_zero, unusable_rate, spendable_tokens, whole_tokens, millis, full_at,
}
use gubernator.Leaky.Answer.{Answer, Moment, extended, extended_if, refuse}
use gubernator.Prelude.{
  ℤ, pos, ◌∷◌, ◌||◌, ◌&&◌, add64, sub64, mul64, max_ℤ, min_ℤ, ltb_ℤ, leb_ℤ, if◌then◌else◌,
}
use gubernator.Types.{Float64, LeakyBucketItem, Metric, RateLimitReq, Status}

module _ {F : Type 0} (fl : Float64 F) where
  -- The milliseconds until the balance pays for the hits.
  unfoldable pub wait_for : ℤ → LeakyBucketItem F → ℤ → F → ℤ
  wait_for hits b now rate =
      let ahead = fl.of_int (sub64 (max_ℤ b.updated_at now) now) in
      let owed = fl.mul (fl.sub (fl.of_int hits) b.remaining) rate in
      max_ℤ (pos 1) (millis fl (fl.ceil (fl.sub (fl.add ahead owed) fl.micro)))

  -- now + (limit - remaining) * int64(rate)
  unfoldable pub reset_at : ℤ → ℤ → ℤ → F → ℤ
  reset_at now limit remaining rate = add64 now (mul64 (sub64 limit remaining) (fl.to_int rate))

  unfoldable pub admit_now : RateLimitReq → Moment F → Answer F → Answer F
  admit_now r m a =
      let balance = snap_to_zero fl (fl.sub a.bucket.remaining (fl.of_int r.hits)) in
      let remaining = spendable_tokens fl balance in
      extended_if fl m.was_in_debt m (record a {
        bucket = record (a.bucket) { remaining = balance };
        resp = record (a.resp) {
          remaining = remaining;
          reset_time = reset_at m.now a.resp.limit remaining m.rate;
        };
      })

  unfoldable pub refuse_wait : RateLimitReq → Moment F → ℤ → Answer F → Answer F
  refuse_wait r m wait a =
      let refused = refuse m.is_owner Status.over_limit a in
      record refused {
        resp = record (refused.resp) { retry_after = wait };
        metrics =
            if m.is_owner && (ltb_ℤ m.ceiling wait && leb_ℤ wait r.max_wait)
            then Metric.ceiling_refused_count ∷ refused.metrics
            else refused.metrics;
      }

  unfoldable pub book : RateLimitReq → Moment F → ℤ → Answer F → Answer F
  book r m wait a =
      let b : LeakyBucketItem F = record (a.bucket) {
        remaining = fl.sub a.bucket.remaining (fl.of_int r.hits);
      } in
      extended fl m (record a {
        bucket = b;
        resp = record (a.resp) {
          status = Status.scheduled;
          retry_after = wait;
          remaining = pos 0;
          reset_time = full_at fl b m.rate;
        };
        metrics = if m.is_owner then Metric.scheduled_count ∷ a.metrics else a.metrics;
      })

  unfoldable pub schedule_hits : RateLimitReq → Moment F → Answer F → Answer F
  schedule_hits r m a =
      let wait = wait_for r.hits a.bucket m.now m.rate in
      if ltb_ℤ a.bucket.burst r.hits || unusable_rate fl m.rate
      then refuse m.is_owner Status.never_fits a
      else if leb_ℤ r.hits (whole_tokens fl a.bucket.remaining)
      then admit_now r m a
      else if ltb_ℤ (min_ℤ r.max_wait m.ceiling) wait
      then refuse_wait r m wait a
      else book r m wait a
