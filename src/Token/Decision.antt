-- ===== src/Token/Decision.antt =====
-- The decision of tokenBucket on a bucket that is up to date, against a description of its own:
-- what is admitted, what is left, what is reported.
use gubernator.Prelude.{
  ◌+◌, ◌≤◌, ℤ, pos, pos_part, neg_part, ◌≤ℤ◌, ◌<ℤ◌, ◌-ℤ◌, false, ◌≡◌, arith, sub64, sub64_nonneg,
  IsInt64, int_laws, leb_ℤ, not, eq_of_parts, one_part, -ℤ_parts, if◌then◌else◌,
}
use gubernator.Types.{
  TokenBucketItem, RateLimitReq, RateLimitResp, Status, has_behavior, drain_over_limit,
}
use gubernator.Token.Bucket.{decide}

-- A bucket counts down from its limit to zero.
pub record InLimit (t : TokenBucketItem) : Type 0 where
  pub nonneg : pos 0 ≤ℤ t.remaining
  pub within : t.remaining ≤ℤ t.limit
  pub word : IsInt64 t.limit

-- What a response charged: the hits of an admitted request.
abbrev pub charged : RateLimitReq → RateLimitResp → ℤ
charged r rl = elim rl.status [ Status.under_limit ↦ r.hits | _ ↦ pos 0 ]

-- The difference that an admitted request leaves does not wrap.
sub64_admit :
    (a b : ℤ)
    → pos 0 ≤ℤ a
    → IsInt64 a
    → pos 0 ≤ℤ b
    → b ≤ℤ a
    → (pos 0 ≤ℤ sub64 a b)
      × (pos_part (sub64 a b) + pos_part b ≡ pos_part a)
      × (neg_part (sub64 a b) ≡ 0)
sub64_admit a b pa ia pb le =
    let e = sub64_nonneg a b pa ia pb (record { below = omega int_laws; above = omega int_laws }) in
    rw e (omega int_laws, omega int_laws, omega int_laws)

pub InLimit-word : (t : TokenBucketItem) → InLimit t → IsInt64 t.remaining
InLimit-word t v = record { below = omega (int_laws, one_part t.remaining); above = omega int_laws }

module _ (r : RateLimitReq) (t : TokenBucketItem) (rl : RateLimitResp) where
  -- The bucket stays within its limit, and its configuration stays.
  pub decide-InLimit :
      pos 0 ≤ℤ r.hits
      → InLimit t
      → rl.remaining ≡ t.remaining
      → InLimit (decide r t rl).0
        × ((decide r t rl).0.limit ≡ t.limit)
        × ((decide r t rl).0.duration ≡ t.duration)
  unfolding decide
  decide-InLimit h v e = ground (arith, sub64_admit t.remaining r.hits)

  -- On a bucket within its int64 limit, with the response set up as the code does, a request for a
  -- positive number of hits is admitted exactly when the bucket has them; then they are taken. A
  -- refusal takes nothing, or all under DRAIN_OVER_LIMIT. The response reports what is left, and
  -- the refusals are what is counted.
  pub decide-admits :
      pos 0 <ℤ r.hits
      → InLimit t
      → rl.remaining ≡ t.remaining
      → rl.status ≡ Status.under_limit
      → ((decide r t rl).1.status
          ≡ (if leb_ℤ r.hits t.remaining then Status.under_limit else Status.over_limit))
        × ((decide r t rl).0.remaining ≡ (
            if leb_ℤ r.hits t.remaining
            then t.remaining -ℤ r.hits
            else if has_behavior r.behavior drain_over_limit
            then pos 0
            else t.remaining))
        × ((decide r t rl).1.remaining ≡ (decide r t rl).0.remaining)
        × ((decide r t rl).2 ≡ not (leb_ℤ r.hits t.remaining))
  unfolding decide
  decide-admits h v e s = ground (
    arith,
    sub64_admit t.remaining r.hits,
    InLimit-word t v,
    eq_of_parts (sub64 t.remaining r.hits) (t.remaining -ℤ r.hits),
    -ℤ_parts t.remaining r.hits,
  )

  -- What is charged and what is left never exceed what there was.
  pub decide-conserves :
      pos 0 ≤ℤ r.hits
      → InLimit t
      → rl.remaining ≡ t.remaining
      → rl.status ≡ Status.under_limit
      → pos_part (charged r (decide r t rl).1) + pos_part (decide r t rl).0.remaining
        ≤ pos_part t.remaining
  unfolding decide
  decide-conserves h v e s = ground (arith, sub64_admit t.remaining r.hits, InLimit-word t v)

  -- A query without hits charges nothing.
  pub decide-query :
      r.hits ≡ pos 0
      → ((decide r t rl).0.remaining ≡ t.remaining)
        × ((decide r t rl).1.remaining ≡ rl.remaining)
        × ((decide r t rl).2 ≡ false)
  unfolding decide
  decide-query h = ground arith
