-- ===== src/Token/Bucket.antt =====
-- tokenBucket and tokenBucketNewItem of algorithms.go.
use gubernator.Balance.{debt_at}
use gubernator.Interval.{epoch_millis, gregorian_expiration}
use gubernator.Prelude.{
  ℤ, pos, List, [], ◌∷◌, Option, none, some, Bool, true, false, ◌&&◌, add64, sub64, ltb_ℤ, leb_ℤ,
  eqb_ℤ, if◌then◌else◌,
}
use gubernator.Types.{
  CacheItem, Value, Metric, TokenBucketItem, RateLimitReq, RateLimitResp, Algorithm, Status,
  hash_key, created_at_of, has_behavior, duration_is_gregorian, reset_remaining, drain_over_limit,
}
use gubernator.World.{
  Runtime, World, Outcome, ok, err, invalid_interval, fetch, add_item, remove_item, write_back,
  notify, count_metrics,
}

-- A limit that changed moves the remaining hits by the difference, but not below zero.
unfoldable pub update_limit : RateLimitReq → TokenBucketItem → TokenBucketItem
update_limit r t =
    let moved = add64 t.remaining (sub64 r.limit t.limit) in
    if eqb_ℤ t.limit r.limit
    then t
    else record t { remaining = if ltb_ℤ moved (pos 0) then pos 0 else moved; limit = r.limit }

abbrev pub under_limit_resp : RateLimitReq → ℤ → ℤ → RateLimitResp
under_limit_resp r remaining reset_time = record {
  status = Status.under_limit;
  limit = r.limit;
  remaining = remaining;
  reset_time = reset_time;
  error = "";
  retry_after = pos 0;
  owner = none;
}

-- A bucket whose new duration has already run out starts again.
unfoldable pub renew_if_expired : RateLimitReq → ℤ → TokenBucketItem → ℤ × TokenBucketItem
renew_if_expired r expire t =
    let created_at = created_at_of r in
    if leb_ℤ expire created_at
    then (
      add64 created_at r.duration,
      record t { created_at = created_at; remaining = t.limit; duration = r.duration },
    )
    else (expire, record t { duration = r.duration })

-- The metric that a refusal adds on the owner.
abbrev pub over_limit_metrics : {F : Type 0} → Bool → List (Metric F)
over_limit_metrics is_owner = if is_owner then Metric.over_limit_count ∷ [] else []

-- The decision on a bucket that is up to date: the bucket, the response, and whether the request
-- was refused, which the owner counts.
unfoldable pub decide :
    RateLimitReq → TokenBucketItem → RateLimitResp → TokenBucketItem × RateLimitResp × Bool
decide r t rl =
    if eqb_ℤ r.hits (pos 0)
    then (if eqb_ℤ rl.remaining (pos 0)
        then (t, record rl { status = t.status }, false)
        else (record t { status = Status.under_limit }, rl, false))
    else if eqb_ℤ rl.remaining (pos 0) && ltb_ℤ (pos 0) r.hits
    then (record t { status = Status.over_limit }, record rl { status = Status.over_limit }, true)
    else if eqb_ℤ t.remaining r.hits
    then (
      record t { status = Status.under_limit; remaining = pos 0 },
      record rl { remaining = pos 0 },
      false,
    )
    else if ltb_ℤ t.remaining r.hits
    then (if has_behavior r.behavior drain_over_limit
        then (
          record t { status = Status.under_limit; remaining = pos 0 },
          record rl { status = Status.over_limit; remaining = pos 0 },
          true,
        )
        else (
          record t { status = Status.under_limit },
          record rl { status = Status.over_limit },
          true,
        ))
    else (
      record t { status = Status.under_limit; remaining = sub64 t.remaining r.hits },
      record rl { remaining = sub64 t.remaining r.hits },
      false,
    )

module _ {F S T : Type 0} (rt : Runtime F S T) where
  -- now + duration, or the end of the calendar's interval
  unfoldable pub expiry : T → RateLimitReq → ℤ → Option ℤ
  expiry now r from =
      if has_behavior r.behavior duration_is_gregorian
      then gregorian_expiration rt.cal now r.duration
      else some (add64 from r.duration)

  unfoldable pub token_new_item : RateLimitReq → ℤ → CacheItem F × RateLimitResp
  token_new_item r expire =
      let over = ltb_ℤ r.limit r.hits in
      let remaining = if over then r.limit else sub64 r.limit r.hits in
      (
        record {
          algorithm = Algorithm.token_bucket;
          key = hash_key r;
          value = Value.token (record {
            status = Status.under_limit;
            limit = r.limit;
            duration = r.duration;
            remaining = remaining;
            created_at = created_at_of r;
          });
          expire_at = expire;
          invalid_at = pos 0;
        },
        record {
          status = if over then Status.over_limit else Status.under_limit;
          limit = r.limit;
          remaining = remaining;
          reset_time = expire;
          error = "";
          retry_after = pos 0;
          owner = none;
        },
      )

  unfoldable pub token_bucket_new_item : T → RateLimitReq → Bool → World F S → World F S × Outcome
  token_bucket_new_item now r is_owner w = elim (expiry now r (created_at_of r)) [
    | none ↦ (w, err invalid_interval)
    | some expire ↦
        let (item, rl) = token_new_item r expire in
        let counted : World F S =
          if ltb_ℤ r.limit r.hits then count_metrics rt (over_limit_metrics is_owner) w else w in
        (notify rt is_owner r item (add_item rt (epoch_millis rt.cal now) item counted), ok rl)
  ]

  -- The decision, and its effects: the item is written, then the store is told.
  unfoldable pub token_finish :
      RateLimitReq
      → Bool
      → CacheItem F
      → TokenBucketItem
      → RateLimitResp
      → World F S
      → World F S × Outcome
  token_finish r is_owner item t rl w =
      let (t', rl', over) = decide r t rl in
      let ms = if over then over_limit_metrics is_owner else [] in
      let item' : CacheItem F = record item { value = Value.token t' } in
      (notify rt is_owner r item' (write_back rt item.key item' (count_metrics rt ms w)), ok rl')

  -- A token bucket that was found.
  unfoldable pub token_update :
      T → RateLimitReq → Bool → CacheItem F → TokenBucketItem → World F S → World F S × Outcome
  token_update now r is_owner item t₀ w =
      let t = update_limit r t₀ in
      if eqb_ℤ t.duration r.duration
      then token_finish r is_owner item t (under_limit_resp r t.remaining item.expire_at) w
      else elim (expiry now r t.created_at) [
        | none ↦
            (write_back rt item.key (record item { value = Value.token t }) w, err invalid_interval)
        | some expire ↦
            let (expire', t') = renew_if_expired r expire t in
            token_finish r is_owner (record item { expire_at = expire' }) t'
              (under_limit_resp r t'.remaining expire') w
      ]

  -- Debt that a removal forgives is counted.
  unfoldable pub count_forgiven : ℤ → Value F → World F S → World F S
  count_forgiven now (Value.leaky b) w =
      if debt_at rt.fl b now then count_metrics rt (Metric.debt_reset_count ∷ []) w else w
  count_forgiven now Value.nil_value w = w
  count_forgiven now (Value.token t) w = w
  count_forgiven now Value.foreign w = w

  -- The type test on the item's value: another algorithm's item is replaced.
  unfoldable pub token_of_value :
      T → RateLimitReq → Bool → CacheItem F → Value F → World F S → World F S × Outcome
  token_of_value now r is_owner item (Value.token t) w = token_update now r is_owner item t w
  token_of_value now r is_owner item _ w =
      token_bucket_new_item now r is_owner (remove_item rt (hash_key r) w)

  unfoldable pub token_found :
      T → RateLimitReq → Bool → CacheItem F → World F S → World F S × Outcome
  token_found now r is_owner item w₀ =
      let w = count_forgiven (epoch_millis rt.cal now) item.value w₀ in
      if has_behavior r.behavior reset_remaining
      then (remove_item rt (hash_key r) w, ok (under_limit_resp r r.limit (pos 0)))
      else token_of_value now r is_owner item item.value w

  unfoldable pub token_bucket : T → RateLimitReq → Bool → World F S → World F S × Outcome
  token_bucket now r is_owner w =
      let (w', found) = fetch rt (epoch_millis rt.cal now) r w in
      elim found [
        | none ↦ token_bucket_new_item now r is_owner w'
        | some item ↦ token_found now r is_owner item w'
      ]
