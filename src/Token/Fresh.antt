-- ===== src/Token/Fresh.antt =====
-- tokenBucket on a key with no live bucket, and on a reset; and the window that a first request
-- opens.
use gubernator.Cache.Invariant.{IsValid, items}
use gubernator.Cache.Spec.{find_item}
use gubernator.Interval.{epoch_millis}
use gubernator.Prelude.{
  ◌+◌, ◌≤◌, ℤ, pos, pos_part, ◌-ℤ◌, List, ◌∷◌, none, some, Bool, true, false, ◌≡◌, refl, arith, All,
  subst, sym, one_part, add64, sub64, sub64_nonneg, ltb_ℤ, -ℤ_parts, if◌then◌else◌, Bool-cases, inl,
  inr, ◌≢◌,
}
use gubernator.Token.Bucket.{
  token_bucket, token_found, token_new_item, token_bucket_new_item, under_limit_resp,
  over_limit_metrics, expiry, count_forgiven,
}
use gubernator.Token.Decision.{InLimit}
use gubernator.Token.Invariant.{IsPlain, new_item-Sound}
use gubernator.Token.Window.{total_charge, total_charge-le, InWindow, outcome_charge}
use gubernator.Types.{
  Status, CacheItem, Value, TokenBucketItem, RateLimitReq, hash_key, created_at_of, has_behavior,
  reset_remaining, duration_is_gregorian, is_expired,
}
use gubernator.World.{Runtime, World, ok, fetch, add_item, count_metrics}
use gubernator.World.Fetch.{Holding, fetch_hit, notify-Holding}
use gubernator.World.Miss.{Absent, fetch_miss, add_item-Holding, find-remove_item}

module _ {F S T : Type 0} (rt : Runtime F S T) where
  count_forgiven-cache :
      (now : ℤ) (v : Value F) (w : World F S) → (count_forgiven rt now v w).cache ≡ w.cache
  unfolding count_forgiven count_metrics
  count_forgiven-cache now (Value.leaky b) w = ground arith
  count_forgiven-cache now Value.nil_value w = refl
  count_forgiven-cache now (Value.token t) w = refl
  count_forgiven-cache now Value.foreign w = refl

  -- created_at + duration
  abbrev pub fresh_expiry : RateLimitReq → ℤ
  fresh_expiry r = add64 (created_at_of r) r.duration

  abbrev pub fresh_item : RateLimitReq → CacheItem F
  fresh_item r = (token_new_item rt r (fresh_expiry r)).0

  fresh_key : (r : RateLimitReq) → (fresh_item r).key ≡ hash_key r
  unfolding token_new_item
  fresh_key r = refl

  expiry_plain :
      (now : T) (r : RateLimitReq)
      → has_behavior r.behavior duration_is_gregorian ≡ false
      → expiry rt now r (created_at_of r) ≡ some (fresh_expiry r)
  unfolding expiry
  expiry_plain now r g = rw g

  -- With no store, a cache in order and no live item for the key, a request that is not Gregorian
  -- is answered as tokenBucketNewItem answers it, and the cache then holds the new item.
  pub token_bucket_fresh :
      (now : T) (r : RateLimitReq) (o : Bool) (w : World F S)
      → rt.store ≡ none
      → IsValid w.cache
      → Absent (epoch_millis rt.cal now) (hash_key r) w
      → has_behavior r.behavior duration_is_gregorian ≡ false
      → ((token_bucket rt now r o w).1 ≡ ok (token_new_item rt r (fresh_expiry r)).1)
        × Holding (token_bucket rt now r o w).0 (hash_key r) (fresh_item r)
  unfolding token_bucket token_bucket_new_item count_metrics
  token_bucket_fresh now r o w s v a g =
      let now' = epoch_millis rt.cal now in
      let (missed, valid) = fetch_miss rt now' r w s v a in
      let w' = (fetch rt now' r w).0 in
      let counted : World F S =
        if ltb_ℤ r.limit r.hits then count_metrics rt (over_limit_metrics o) w' else w' in
      let counted_valid : IsValid counted.cache = elim (Bool-cases (ltb_ℤ r.limit r.hits)) [
        | inl c ↦ rw c valid
        | inr c ↦ rw c valid
      ] in
      rw (missed, token_bucket)
        (rw (expiry_plain now r g, token_bucket_new_item)
          (
            refl,
            notify-Holding rt o r (fresh_item r) _ (hash_key r) (fresh_item r) (
                subst (λ k. Holding (add_item rt now' (fresh_item r) counted) k (fresh_item r))
                  (fresh_key r) (add_item-Holding rt now' (fresh_item r) counted counted_valid)),
          ))

  -- The bucket of a first request.
  abbrev pub fresh_token : RateLimitReq → TokenBucketItem
  fresh_token r = record {
    status = Status.under_limit;
    limit = r.limit;
    duration = r.duration;
    remaining = if ltb_ℤ r.limit r.hits then r.limit else sub64 r.limit r.hits;
    created_at = created_at_of r;
  }

  fresh_value : (r : RateLimitReq) → (fresh_item r).value ≡ Value.token (fresh_token r)
  unfolding token_new_item
  fresh_value r = refl

  -- What the first request is charged and what it leaves are the limit at most.
  fresh_conserves :
      (r : RateLimitReq)
      → IsPlain r
      → outcome_charge r (ok (token_new_item rt r (fresh_expiry r)).1)
          + pos_part (fresh_token r).remaining
        ≤ pos_part r.limit
  unfolding token_new_item
  fresh_conserves r p = ground (
    arith,
    sub64_nonneg r.limit r.hits p.limit p.limit_word p.hits p.hits_word,
    -ℤ_parts r.limit r.hits,
    one_part (r.limit -ℤ r.hits),
    one_part r.limit,
  )

  -- With no store, a cache in order and no live item for the key, a first request that is not
  -- Gregorian and has int64 hits and limit that are not negative opens a window. It and any number
  -- of later requests for the same key, limit and duration, without a reset, with hits that are not
  -- negative and before the item expires, are together admitted at most the limit in hits.
  pub window_bound :
      (now : T) (r : RateLimitReq) (calls : List (T × RateLimitReq)) (o : Bool) (w : World F S)
      → rt.store ≡ none
      → IsValid w.cache
      → Absent (epoch_millis rt.cal now) (hash_key r) w
      → has_behavior r.behavior duration_is_gregorian ≡ false
      → IsPlain r
      → All (InWindow rt o (hash_key r) (fresh_item r) (fresh_token r)) calls
      → total_charge rt o ((now, r) ∷ calls) w ≤ pos_part r.limit
  unfolding total_charge token_new_item
  window_bound now r calls o w s v a g p h =
      let (answer, held) = token_bucket_fresh now r o w s v a g in
      let within : InLimit (fresh_token r) = new_item-Sound rt r (fresh_expiry r) p in
      let rest =
        total_charge-le rt o calls (token_bucket rt now r o w).0 (hash_key r) (fresh_item r)
          (fresh_token r) held (fresh_value r) within h in
      rw answer (omega (arith, rest, fresh_conserves r p))

  -- When the cache holds an item with a value for the request's key that has not expired, a request
  -- with RESET_REMAINING is answered UNDER_LIMIT with the whole limit and a reset time of 0, and
  -- the cache then has no item for the key.
  pub token_bucket_reset :
      (now : T) (r : RateLimitReq) (o : Bool) (w : World F S) (item : CacheItem F)
      → Holding w (hash_key r) item
      → is_expired (epoch_millis rt.cal now) item ≡ false
      → item.value ≢ Value.nil_value
      → has_behavior r.behavior reset_remaining ≡ true
      → ((token_bucket rt now r o w).1 ≡ ok (under_limit_resp r r.limit (pos 0)))
        × (find_item (hash_key r) (items (token_bucket rt now r o w).0.cache) ≡ none)
  unfolding token_bucket token_found
  token_bucket_reset now r o w item h live valued reset =
      let now' = epoch_millis rt.cal now in
      let (found, held, _) = fetch_hit rt now' r w item h live valued in
      let w' = (fetch rt now' r w).0 in
      rw (found, token_bucket)
        (rw (reset, token_found)
          (
            refl,
            (find-remove_item rt (hash_key r) _
                (subst IsValid (sym (count_forgiven-cache now' item.value w')) held.valid)).1,
          ))
