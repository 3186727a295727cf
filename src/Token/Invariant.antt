-- ===== src/Token/Invariant.antt =====
-- tokenBucket of algorithms.go, branch by branch, against the invariant on the cached items.
use gubernator.Balance.{debt_at}
use gubernator.Interval.{epoch_millis}
use gubernator.Prelude.{
  ℤ, pos, ◌≤ℤ◌, ◌+ℤ◌, ◌-ℤ◌, [], Bool, ◌≡◌, refl, arith, subst, int_laws, one_part, IsInt64, add64,
  sub64, add64-eq, sub64_nonneg, ltb_ℤ, eqb_ℤ, eqb_ℤ_iff, +ℤ_parts, -ℤ_parts, if◌then◌else◌,
  Option-cases, Bool-cases, inl, inr,
}
use gubernator.Sound.{Sound}
use gubernator.Token.Bucket.{
  token_bucket, token_found, token_of_value, token_update, token_finish, token_new_item,
  token_bucket_new_item, update_limit, renew_if_expired, decide, count_forgiven, over_limit_metrics,
  expiry,
}
use gubernator.Token.Decision.{InLimit, decide-InLimit}
use gubernator.Token.Live.{with_token}
use gubernator.Types.{
  CacheItem, Value, TokenBucketItem, RateLimitReq, RateLimitResp, hash_key, created_at_of,
  has_behavior, reset_remaining,
}
use gubernator.World.{Runtime, World, fetch, count_metrics}
use gubernator.World.Keeps.{
  Keeps, Found, StoreKeeps, count-Keeps, add_item-Keeps, remove_item-Keeps, write_back-Keeps,
  notify-Keeps, fetch-Keeps,
}

-- Hits and limit are int64 values that are not negative.
pub record IsPlain (r : RateLimitReq) : Type 0 where
  pub hits : pos 0 ≤ℤ r.hits
  pub hits_word : IsInt64 r.hits
  pub limit : pos 0 ≤ℤ r.limit
  pub limit_word : IsInt64 r.limit

-- A new limit moves the remaining hits without a wrap.
moved_limit :
    (r : RateLimitReq) (t : TokenBucketItem)
    → IsPlain r
    → InLimit t
    → add64 t.remaining (sub64 r.limit t.limit) ≡ t.remaining +ℤ (r.limit -ℤ t.limit)
moved_limit r t p v =
    let e = sub64_nonneg r.limit t.limit p.limit p.limit_word (omega int_laws) v.word in
    let sum = t.remaining +ℤ (r.limit -ℤ t.limit) in
    rw e (
      add64-eq t.remaining (r.limit -ℤ t.limit) (record {
        below = omega (int_laws, p.limit_word, one_part sum, one_part r.limit);
        above = omega (int_laws, p.limit_word, v.word, one_part sum, one_part t.limit);
      }))

-- When a request has int64 hits and limit that are not negative, and a bucket is within its int64
-- limit, the bucket with the request's limit has that limit and is within it.
pub update_limit-InLimit :
    (r : RateLimitReq) (t : TokenBucketItem)
    → IsPlain r
    → InLimit t
    → InLimit (update_limit r t) × ((update_limit r t).limit ≡ r.limit)
unfolding update_limit
update_limit-InLimit r t p v = ground (
  arith,
  moved_limit r t p v,
  +ℤ_parts t.remaining (r.limit -ℤ t.limit),
  -ℤ_parts r.limit t.limit,
  one_part (t.remaining +ℤ (r.limit -ℤ t.limit)),
  eqb_ℤ_iff t.limit r.limit,
)

renew-InLimit :
    (r : RateLimitReq) (expire : ℤ) (t : TokenBucketItem)
    → InLimit t
    → InLimit (renew_if_expired r expire t).1
unfolding renew_if_expired
renew-InLimit r expire t v = ground (arith, v)

module _ {F S T : Type 0} (rt : Runtime F S T) where
  pub new_item-Sound :
      (r : RateLimitReq) (expire : ℤ) → IsPlain r → Sound rt.fl (token_new_item rt r expire).0
  unfolding token_new_item
  new_item-Sound r expire p = ground (
    arith,
    sub64_nonneg r.limit r.hits p.limit p.limit_word p.hits p.hits_word,
    -ℤ_parts r.limit r.hits,
    one_part (r.limit -ℤ r.hits),
  )

  abbrev Ok : World F S → Type 0
  Ok w = Keeps (Sound rt.fl) w

  finish-Keeps :
      (r : RateLimitReq) (o : Bool) (item : CacheItem F) (t : TokenBucketItem) (rl : RateLimitResp)
      (w : World F S)
      → IsPlain r
      → InLimit t
      → rl.remaining ≡ t.remaining
      → Ok w
      → Ok (token_finish rt r o item t rl w).0
  unfolding token_finish
  finish-Keeps r o item t rl w p v e h =
      let item' = with_token rt item (decide r t rl).0 in
      let counted =
        count-Keeps rt (Sound rt.fl) (if (decide r t rl).2 then over_limit_metrics o else []) w h in
      let kept : Sound rt.fl item' = (decide-InLimit r t rl p.hits v e).0 in
      notify-Keeps rt (Sound rt.fl) o r item' _
        (write_back-Keeps rt (Sound rt.fl) item.key item' _ refl kept counted)

  new_item-Keeps :
      (now : T) (r : RateLimitReq) (o : Bool) (w : World F S)
      → IsPlain r
      → Ok w
      → Ok (token_bucket_new_item rt now r o w).0
  unfolding token_bucket_new_item
  new_item-Keeps now r o w p h = elim (Option-cases (expiry rt now r (created_at_of r))) [
    | inl e ↦ rw (e, token_bucket_new_item) h
    | inr (expire, e) ↦
        let item = (token_new_item rt r expire).0 in
        let counted : Ok
            (if ltb_ℤ r.limit r.hits then count_metrics rt (over_limit_metrics o) w else w) =
          elim (Bool-cases (ltb_ℤ r.limit r.hits)) [
            | inl c ↦ rw c (count-Keeps rt (Sound rt.fl) (over_limit_metrics o) w h)
            | inr c ↦ rw c h
          ] in
        rw (e, token_bucket_new_item)
          (notify-Keeps rt (Sound rt.fl) o r item _ (
            add_item-Keeps rt (Sound rt.fl) (epoch_millis rt.cal now) item _
              (new_item-Sound r expire p) counted))
  ]

  update-Keeps :
      (now : T) (r : RateLimitReq) (o : Bool) (item : CacheItem F) (t : TokenBucketItem)
      (w : World F S)
      → IsPlain r
      → InLimit t
      → Ok w
      → Ok (token_update rt now r o item t w).0
  unfolding token_update
  update-Keeps now r o item t₀ w p v₀ h =
      let t = update_limit r t₀ in
      let v = (update_limit-InLimit r t₀ p v₀).0 in
      elim (Bool-cases (eqb_ℤ t.duration r.duration)) [
        | inl same ↦ rw same (finish-Keeps r o item t _ w p v refl h)
        | inr other ↦ elim (Option-cases (expiry rt now r t.created_at)) [
          | inl e ↦ rw other (
              rw (e, token_update)
                (write_back-Keeps rt (Sound rt.fl) item.key (with_token rt item t) w refl v h))
          | inr (expire, e) ↦ rw other (
              rw (e, token_update)
                (finish-Keeps r o _ (renew_if_expired r expire t).1 _ w p
                  (renew-InLimit r expire t v) refl h))
        ]
      ]

  count_forgiven-Keeps :
      (now : ℤ) (v : Value F) (w : World F S) → Ok w → Ok (count_forgiven rt now v w)
  unfolding count_forgiven
  count_forgiven-Keeps now (Value.leaky b) w h = elim (Bool-cases (debt_at rt.fl b now)) [
    | inl e ↦ rw e (count-Keeps rt (Sound rt.fl) _ w h)
    | inr e ↦ rw e h
  ]
  count_forgiven-Keeps now Value.nil_value w h = h
  count_forgiven-Keeps now (Value.token t) w h = h
  count_forgiven-Keeps now Value.foreign w h = h

  value-Keeps :
      (now : T) (r : RateLimitReq) (o : Bool) (item : CacheItem F) (v : Value F) (w : World F S)
      → IsPlain r
      → Sound rt.fl (record item { value = v })
      → Ok w
      → Ok (token_of_value rt now r o item v w).0
  unfolding token_of_value
  value-Keeps now r o item (Value.token t) w p v h = update-Keeps now r o item t w p v h
  value-Keeps now r o item _ w p v h =
      new_item-Keeps now r o _ p (remove_item-Keeps rt (Sound rt.fl) (hash_key r) w h)

  found-Keeps :
      (now : T) (r : RateLimitReq) (o : Bool) (item : CacheItem F) (w : World F S)
      → IsPlain r
      → Sound rt.fl item
      → Ok w
      → Ok (token_found rt now r o item w).0
  unfolding token_found
  found-Keeps now r o item w p v h =
      let counted = count_forgiven-Keeps (epoch_millis rt.cal now) item.value w h in
      elim (Bool-cases (has_behavior r.behavior reset_remaining)) [
        | inl e ↦ rw e (remove_item-Keeps rt (Sound rt.fl) (hash_key r) _ counted)
        | inr e ↦ rw e (value-Keeps now r o item item.value _ p v counted)
      ]

  -- When the store hands out sound items only and the request has int64 hits and limit that are not
  -- negative, tokenBucket keeps a cache in order whose items are all sound: token buckets between
  -- zero and their limit, leaky buckets at or below a burst that is not negative.
  pub token_bucket-Keeps :
      (now : T) (r : RateLimitReq) (o : Bool) (w : World F S)
      → StoreKeeps rt (Sound rt.fl)
      → IsPlain r
      → Ok w
      → Ok (token_bucket rt now r o w).0
  unfolding token_bucket
  token_bucket-Keeps now r o w s p h =
      let now' = epoch_millis rt.cal now in
      let (kept, f) = fetch-Keeps rt (Sound rt.fl) now' r w s h in
      elim (Option-cases (fetch rt now' r w).1) [
        | inl e ↦ rw (e, token_bucket) (new_item-Keeps now r o (fetch rt now' r w).0 p kept)
        | inr (i, e) ↦
            rw (e, token_bucket)
              (found-Keeps now r o i (fetch rt now' r w).0 p (subst (Found (Sound rt.fl)) e f) kept)
      ]
