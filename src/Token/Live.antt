-- ===== src/Token/Live.antt =====
-- tokenBucket of algorithms.go on a bucket that is in the cache, has not expired, and has the
-- request's configuration.
use gubernator.Interval.{epoch_millis}
use gubernator.Prelude.{
  String, List, [], Bool, false, ◌≡◌, refl, sym, subst, arith, eqb_ℤ_iff, if◌then◌else◌,
}
use gubernator.Token.Bucket.{
  token_bucket, token_found, token_of_value, token_update, token_finish, update_limit,
  under_limit_resp, decide, count_forgiven, over_limit_metrics,
}
use gubernator.Types.{
  CacheItem, Value, TokenBucketItem, RateLimitReq, RateLimitResp, Metric, hash_key, is_expired,
  has_behavior, reset_remaining,
}
use gubernator.World.{Runtime, World, ok, fetch, write_back, count_metrics}
use gubernator.World.Fetch.{
  Holding, Holding-key, fetch_hit, notify-Holding, count-Holding, write_back-Holding,
}

-- The request asks the bucket's own limit and duration, and no reset.
pub record SameConfig (r : RateLimitReq) (t : TokenBucketItem) : Type 0 where
  pub limit : r.limit ≡ t.limit
  pub duration : r.duration ≡ t.duration
  pub no_reset : has_behavior r.behavior reset_remaining ≡ false

update_limit_same :
    (r : RateLimitReq) (t : TokenBucketItem) → r.limit ≡ t.limit → update_limit r t ≡ t
unfolding update_limit
update_limit_same r t e = ground (arith, eqb_ℤ_iff t.limit r.limit)

module _ {F S T : Type 0} (rt : Runtime F S T) where
  -- The bucket, the response and the world after the decision on a bucket.
  abbrev pub decided :
      RateLimitReq → CacheItem F → TokenBucketItem → TokenBucketItem × RateLimitResp × Bool
  decided r item t = decide r t (under_limit_resp r t.remaining item.expire_at)

  abbrev pub with_token : CacheItem F → TokenBucketItem → CacheItem F
  with_token item t = record item { value = Value.token t }

  token_finish-Holding :
      (r : RateLimitReq) (o : Bool) (item : CacheItem F) (t : TokenBucketItem) (rl : RateLimitResp)
      (w : World F S)
      → (key : String) → Holding w key item
      → Holding (token_finish rt r o item t rl w).0 key (with_token item (decide r t rl).0)
        × ((token_finish rt r o item t rl w).1 ≡ ok (decide r t rl).1)
  unfolding token_finish
  token_finish-Holding r o item t rl w key h =
      let item' = with_token item (decide r t rl).0 in
      let ms : List (Metric F) = if (decide r t rl).2 then over_limit_metrics o else [] in
      let counted = count-Holding rt ms w key item h in
      let written =
        write_back-Holding rt (count_metrics rt ms w) key item item' counted (Holding-key rt h) in
      (
        notify-Holding rt o r item' _ key item' (
            subst (λ k. Holding (write_back rt k item' (count_metrics rt ms w)) key item')
              (sym (Holding-key rt h)) written),
        refl,
      )

  token_found_live :
      (now : T) (r : RateLimitReq) (o : Bool) (w : World F S) (item : CacheItem F)
      (t : TokenBucketItem)
      → item.value ≡ Value.token t
      → SameConfig r t
      → token_found rt now r o item w
        ≡ token_finish rt r o item t (under_limit_resp r t.remaining item.expire_at) w
  unfolding token_found token_of_value token_update count_forgiven
  token_found_live now r o w item t e same =
      ground (arith, update_limit_same r t same.limit, eqb_ℤ_iff t.duration r.duration)

  -- When the cache holds, under the request's key, a token bucket that has not expired, and the
  -- request has the bucket's limit and duration and no reset, tokenBucket answers what the decision
  -- on that bucket answers, and the cache then holds the bucket that the decision leaves.
  pub token_bucket_live :
      (now : T) (r : RateLimitReq) (o : Bool) (w : World F S) (item : CacheItem F)
      (t : TokenBucketItem)
      → Holding w (hash_key r) item
      → is_expired (epoch_millis rt.cal now) item ≡ false
      → item.value ≡ Value.token t
      → SameConfig r t
      → Holding (token_bucket rt now r o w).0 (hash_key r) (with_token item (decided r item t).0)
        × ((token_bucket rt now r o w).1 ≡ ok (decided r item t).1)
  unfolding token_bucket
  token_bucket_live now r o w item t h live is_token same =
      let now' = epoch_millis rt.cal now in
      let (found, held, _) = fetch_hit rt now' r w item h live (λ e. cc) in
      rw (found, token_bucket, token_found_live now r o (fetch rt now' r w).0 item t is_token same)
        (token_finish-Holding r o item t _ (fetch rt now' r w).0 (hash_key r) held)
