-- ===== src/Leaky/Invariant.antt =====
-- leakyBucket of algorithms.go, branch by branch, against the invariant on the cached items.
use gubernator.Interval.{epoch_millis}
use gubernator.Leaky.Bucket.{
  default_burst, leaky_bucket, leaky_of_value, leaky_update, leaky_answer,
}
use gubernator.Leaky.New.{leaky_bucket_new_item, leaky_store_new, leaky_never_fits, new_duration}
use gubernator.Leaky.Capped.{CapLaws, IsCapped, WaitsForward, answer-IsCapped, new_bucket-IsCapped}
use gubernator.Leaky.Terms.{request_terms, terms_of, choose_burst}
use gubernator.Prelude.{
  ℤ, pos, ◌≤ℤ◌, List, [], ◌∷◌, Bool, true, false, ◌&&◌, refl, arith, subst, ltb_ℤ, eqb_ℤ,
  if◌then◌else◌, Option-cases, Bool-cases, inl, inr,
}
use gubernator.Sound.{Sound}
use gubernator.Types.{CacheItem, Value, Metric, LeakyBucketItem, RateLimitReq, hash_key}
use gubernator.World.{Runtime, World, fetch, count_metrics}
use gubernator.World.Keeps.{
  Keeps, Found, StoreKeeps, count-Keeps, add_item-Keeps, remove_item-Keeps, write_back-Keeps,
  notify-Keeps, fetch-Keeps,
}

-- A request with no negative limit or burst, and no negative hits where it may wait.
pub record IsForward (r : RateLimitReq) : Type 0 where
  pub limit : pos 0 ≤ℤ r.limit
  pub burst : pos 0 ≤ℤ r.burst
  pub waits : WaitsForward r

module _ {F S T : Type 0} (rt : Runtime F S T) (laws : CapLaws rt.fl) where
  abbrev Ok : World F S → Type 0
  Ok w = Keeps (Sound rt.fl) w

  default-IsForward : (r : RateLimitReq) → IsForward r → IsForward (default_burst r)
  unfolding default_burst
  default-IsForward r h = elim (Bool-cases (eqb_ℤ r.burst (pos 0))) [
    | inl e ↦ rw e (record { limit = h.limit; burst = h.limit; waits = h.waits })
    | inr e ↦ rw e h
  ]

  terms-burst :
      (now : T) (r : RateLimitReq) (b : LeakyBucketItem F) (duration : ℤ) (rate : F)
      → IsForward r
      → IsCapped rt.fl b
      → pos 0 ≤ℤ (terms_of rt.fl rt.cal now r b duration rate).burst
  unfolding terms_of choose_burst
  terms-burst now r b duration rate h c = ground (arith, h.burst, c.burst)

  update-Keeps :
      (now : T) (r : RateLimitReq) (o : Bool) (ceiling : ℤ) (item : CacheItem F)
      (b : LeakyBucketItem F) (w : World F S)
      → IsForward r
      → IsCapped rt.fl b
      → Ok w
      → Ok (leaky_update rt now r o ceiling item b w).0
  unfolding leaky_update
  update-Keeps now r o ceiling item b w h c k =
      elim (Option-cases (request_terms rt.fl rt.cal now r)) [
        | inl e ↦ rw (e, leaky_update) k
        | inr ((duration, rate), e) ↦
            let t = terms_of rt.fl rt.cal now r b duration rate in
            let a = leaky_answer rt t r o ceiling item b in
            let item' : CacheItem F = record item {
              value = Value.leaky a.bucket;
              expire_at = a.expire_at;
            } in
            let capped : Sound rt.fl item' =
              answer-IsCapped rt laws t r o ceiling item b h.waits
                (terms-burst now r b duration rate h c) c.burst in
            rw (e, leaky_update)
              (notify-Keeps rt (Sound rt.fl) o r item' _ (
                write_back-Keeps rt (Sound rt.fl) item.key item' _ refl capped
                  (count-Keeps rt (Sound rt.fl) a.metrics w k)))
      ]

  count_if-Keeps :
      (test : Bool) (ms : List (Metric F)) (w : World F S)
      → Ok w
      → Ok (if test then count_metrics rt ms w else w)
  count_if-Keeps true ms w k = count-Keeps rt (Sound rt.fl) ms w k
  count_if-Keeps false ms w k = k

  store_new-Keeps :
      (now : T) (r : RateLimitReq) (o : Bool) (created_at duration : ℤ) (w : World F S)
      → IsForward r
      → Ok w
      → Ok (leaky_store_new rt now r o created_at duration w).0
  unfolding leaky_store_new
  store_new-Keeps now r o created_at duration w h k =
      let capped = new_bucket-IsCapped rt laws r created_at duration h.burst in
      let counted = count_if-Keeps (ltb_ℤ r.burst r.hits && o) (Metric.over_limit_count ∷ []) w k in
      notify-Keeps rt (Sound rt.fl) o r _ _
        (add_item-Keeps rt (Sound rt.fl) (epoch_millis rt.cal now) _ _ capped counted)

  new_item-Keeps :
      (now : T) (r : RateLimitReq) (o : Bool) (w : World F S)
      → IsForward r
      → Ok w
      → Ok (leaky_bucket_new_item rt now r o w).0
  unfolding leaky_bucket_new_item leaky_never_fits
  new_item-Keeps now r o w h k = elim (Option-cases (new_duration rt now r)) [
    | inl e ↦ rw (e, leaky_bucket_new_item) k
    | inr (duration, e) ↦ elim (Bool-cases (ltb_ℤ (pos 0) r.max_wait && ltb_ℤ r.burst r.hits)) [
      | inl never ↦
          rw (e, leaky_bucket_new_item)
            (rw never (count_if-Keeps o (Metric.over_limit_count ∷ []) w k))
      | inr fits ↦
          rw (e, leaky_bucket_new_item) (rw fits (store_new-Keeps now r o _ duration w h k))
    ]
  ]

  value-Keeps :
      (now : T) (r : RateLimitReq) (o : Bool) (ceiling : ℤ) (item : CacheItem F) (v : Value F)
      (w : World F S)
      → IsForward r
      → Sound rt.fl (record item { value = v })
      → Ok w
      → Ok (leaky_of_value rt now r o ceiling item v w).0
  unfolding leaky_of_value
  value-Keeps now r o ceiling item (Value.leaky b) w h c k =
      update-Keeps now r o ceiling item b w h c k
  value-Keeps now r o ceiling item _ w h c k =
      new_item-Keeps now r o _ h (remove_item-Keeps rt (Sound rt.fl) (hash_key r) w k)

  -- When float64 keeps the cap laws, the store hands out sound items only, and the request has no
  -- negative limit or burst and no negative hits with a max_wait, leakyBucket keeps a cache in
  -- order whose items are all sound: leaky buckets at or below a burst that is not negative, token
  -- buckets between zero and their limit.
  pub leaky_bucket-Keeps :
      (now : T) (r : RateLimitReq) (o : Bool) (ceiling : ℤ) (w : World F S)
      → StoreKeeps rt (Sound rt.fl)
      → IsForward r
      → Ok w
      → Ok (leaky_bucket rt now r o ceiling w).0
  unfolding leaky_bucket
  leaky_bucket-Keeps now r₀ o ceiling w s h₀ k =
      let r = default_burst r₀ in
      let h = default-IsForward r₀ h₀ in
      let now' = epoch_millis rt.cal now in
      let (kept, f) = fetch-Keeps rt (Sound rt.fl) now' r w s k in
      elim (Option-cases (fetch rt now' r w).1) [
        | inl e ↦ rw (e, leaky_bucket) (new_item-Keeps now r o (fetch rt now' r w).0 h kept)
        | inr (i, e) ↦
            rw (e, leaky_bucket)
              (value-Keeps now r o ceiling i i.value (fetch rt now' r w).0 h
                (subst (Found (Sound rt.fl)) e f) kept)
      ]
