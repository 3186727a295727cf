-- ===== src/Leaky/Whole.antt =====
-- scheduleHits of algorithms.go on a bucket with a whole number of tokens and a rate of whole
-- milliseconds, where float64 is exact: the wait is the one that integer arithmetic gives.
use gubernator.Balance.{millis, max_int64, min_int64, unusable_rate, whole_tokens}
use gubernator.Leaky.Answer.{Answer, Moment, refuse}
use gubernator.Leaky.Schedule.{wait_for, admit_now, refuse_wait, book, schedule_hits}
use gubernator.Prelude.{
  zero, ◌<◌, eq_of_parts, suc, ◌≤◌, ◌^◌, ◌*◌, ℤ, pos, negsuc, pos_part, neg_part, ◌≤ℤ◌, ◌<ℤ◌, ◌+ℤ◌,
  ◌-ℤ◌, ◌*ℤ◌, +ℤ_parts, -ℤ_parts, one_part, sub64-eq, ◌≡◌, ◌⊎◌, inl, inr, refl, arith, true, false,
  max_ℤ, min_ℤ, ltb_ℤ, leb_ℤ, Bool-cases,
}
use gubernator.Types.{Float64, LeakyBucketItem, RateLimitReq, Status}

-- The integers that float64 holds, and all those between.
pub record IsSmall (a : ℤ) : Type 0 where
  pub below : pos_part a ≤ 2 ^ 53
  pub above : neg_part a ≤ 2 ^ 53

-- What IEEE 754 says of arithmetic on such integers, and of the constants 1e-6 and 1e-9 beside them.
pub record WholeLaws {F : Type 0} (fl : Float64 F) : Type 0 where
  pub add_whole :
      (a b : ℤ)
      → IsSmall a
      → IsSmall b
      → IsSmall (a +ℤ b)
      → fl.add (fl.of_int a) (fl.of_int b) ≡ fl.of_int (a +ℤ b)
  pub sub_whole :
      (a b : ℤ)
      → IsSmall a
      → IsSmall b
      → IsSmall (a -ℤ b)
      → fl.sub (fl.of_int a) (fl.of_int b) ≡ fl.of_int (a -ℤ b)
  pub mul_whole :
      (a b : ℤ)
      → IsSmall a
      → IsSmall b
      → IsSmall (a *ℤ b)
      → fl.mul (fl.of_int a) (fl.of_int b) ≡ fl.of_int (a *ℤ b)
  pub ceil_micro :
      (a : ℤ) → IsSmall a → pos 0 <ℤ a → fl.ceil (fl.sub (fl.of_int a) fl.micro) ≡ fl.of_int a
  pub to_int_whole : (a : ℤ) → IsSmall a → fl.to_int (fl.of_int a) ≡ a
  pub to_int_nano : (a : ℤ) → IsSmall a → pos 0 ≤ℤ a → fl.to_int (fl.add (fl.of_int a) fl.nano) ≡ a
  pub to_int_debt :
      (a : ℤ) → IsSmall a → a <ℤ pos 0 → fl.to_int (fl.add (fl.of_int a) fl.nano) ≤ℤ pos 0
  pub lt_zero : (a : ℤ) → IsSmall a → fl.lt (fl.of_int (pos 0)) (fl.of_int a) ≡ ltb_ℤ (pos 0) a
  pub not_max : (a : ℤ) → IsSmall a → fl.le (fl.of_int max_int64) (fl.of_int a) ≡ false
  pub not_min : (a : ℤ) → IsSmall a → fl.le (fl.of_int a) (fl.of_int min_int64) ≡ false
  pub finite : (a : ℤ) → IsSmall a → fl.is_inf (fl.of_int a) ≡ false

product-positive : (a b : ℤ) → pos 0 <ℤ a → pos 0 <ℤ b → pos 0 <ℤ a *ℤ b
unfolding ◌*ℤ◌
product-positive (pos (suc a)) (pos (suc b)) p q =
    let some_product : 0 < suc a * suc b = omega arith in ground (arith, some_product)
product-positive (pos zero) b p q = absurd (omega (arith, p))
product-positive (negsuc a) b p q = absurd (omega (arith, p))
product-positive (pos (suc a)) (pos zero) p q = absurd (omega (arith, q))
product-positive (pos (suc a)) (negsuc b) p q = absurd (omega (arith, q))

ahead_nonneg : (a b : ℤ) → pos 0 ≤ℤ max_ℤ a b -ℤ b
unfolding max_ℤ
ahead_nonneg a b = ground (arith, -ℤ_parts a b, -ℤ_parts b b, -ℤ_parts (max_ℤ a b) b)

max_one : (a : ℤ) → pos 0 <ℤ a → max_ℤ (pos 1) a ≡ a
unfolding max_ℤ
max_one a p = elim (Bool-cases (ltb_ℤ (pos 1) a)) [
  | inl more ↦ rw (more, max_ℤ) refl
  | inr one ↦ rw (one, max_ℤ) (eq_of_parts (pos 1) a (ground (arith, one, one_part a, p)))
]

-- How far the bucket's time lies ahead, and the milliseconds until the missing tokens have leaked.
abbrev pub ahead_of : {F : Type 0} → LeakyBucketItem F → ℤ → ℤ
ahead_of b now = max_ℤ b.updated_at now -ℤ now

abbrev pub whole_wait : ℤ → ℤ → ℤ → ℤ → ℤ
whole_wait ahead hits tokens rate = ahead +ℤ (hits -ℤ tokens) *ℤ rate

-- A bucket with `tokens`, at a rate of `rate` milliseconds for a token, all in the exact range.
pub record IsWhole {F : Type 0} (fl : Float64 F) (hits : ℤ) (m : Moment F) (b : LeakyBucketItem F)
    (tokens rate : ℤ) : Type 0 where
  pub balance : b.remaining ≡ fl.of_int tokens
  pub rate_is : m.rate ≡ fl.of_int rate
  pub positive : pos 0 <ℤ rate
  pub small_tokens : IsSmall tokens
  pub small_rate : IsSmall rate
  pub small_hits : IsSmall hits
  pub small_ahead : IsSmall (ahead_of b m.now)
  pub small_missing : IsSmall (hits -ℤ tokens)
  pub small_owed : IsSmall ((hits -ℤ tokens) *ℤ rate)
  pub small_wait : IsSmall (whole_wait (ahead_of b m.now) hits tokens rate)

module _ {F : Type 0} (fl : Float64 F) (laws : WholeLaws fl) where
  millis-whole : (a : ℤ) → IsSmall a → millis fl (fl.of_int a) ≡ a
  unfolding millis
  millis-whole a s = rw (laws.not_max a s, millis) (rw (laws.not_min a s) (laws.to_int_whole a s))

  wait_for-whole :
      (hits : ℤ) (m : Moment F) (b : LeakyBucketItem F) (tokens rate : ℤ)
      → IsWhole fl hits m b tokens rate
      → tokens <ℤ hits
      → wait_for fl hits b m.now m.rate ≡ whole_wait (ahead_of b m.now) hits tokens rate
  unfolding wait_for
  wait_for-whole hits m b tokens rate w less =
      let owed =
        product-positive (hits -ℤ tokens) rate (omega (arith, -ℤ_parts hits tokens, less))
          w.positive in
      let wait = whole_wait (ahead_of b m.now) hits tokens rate in
      let some_wait : pos 0 <ℤ wait = omega (
        arith,
        owed,
        ahead_nonneg b.updated_at m.now,
        +ℤ_parts (ahead_of b m.now) ((hits -ℤ tokens) *ℤ rate),
      ) in
      let ahead64 = sub64-eq (max_ℤ b.updated_at m.now) m.now (record {
        below = omega (arith, w.small_ahead.below);
        above = omega (arith, w.small_ahead.above);
      }) in
      rw (w.balance, w.rate_is, ahead64)
        (rw (laws.sub_whole hits tokens w.small_hits w.small_tokens w.small_missing) (
          rw (laws.mul_whole (hits -ℤ tokens) rate w.small_missing w.small_rate w.small_owed) (
            rw
              (laws.add_whole (ahead_of b m.now) ((hits -ℤ tokens) *ℤ rate) w.small_ahead
                w.small_owed w.small_wait)
              (rw (laws.ceil_micro wait w.small_wait some_wait, millis-whole wait w.small_wait)
                (max_one wait some_wait)))))

  whole_tokens-leb :
      (hits : ℤ) (m : Moment F) (b : LeakyBucketItem F) (tokens rate : ℤ)
      → IsWhole fl hits m b tokens rate
      → pos 0 <ℤ hits
      → leb_ℤ hits (whole_tokens fl b.remaining) ≡ leb_ℤ hits tokens
  unfolding whole_tokens
  whole_tokens-leb hits m b tokens rate w some_hits = elim (Bool-cases (ltb_ℤ tokens (pos 0))) [
    | inl debt ↦
        let low = laws.to_int_debt tokens w.small_tokens (ground (arith, debt)) in
        rw (w.balance) (ground (arith, low, debt, some_hits))
    | inr credit ↦
        rw (w.balance) (rw (laws.to_int_nano tokens w.small_tokens (ground (arith, credit))) refl)
  ]

  usable-rate :
      (hits : ℤ) (m : Moment F) (b : LeakyBucketItem F) (tokens rate : ℤ)
      → IsWhole fl hits m b tokens rate
      → unusable_rate fl m.rate ≡ false
  unfolding unusable_rate
  usable-rate hits m b tokens rate w =
      let running : ltb_ℤ (pos 0) rate ≡ true = ground (arith, w.positive) in
      rw (w.rate_is)
        (rw (laws.lt_zero rate w.small_rate, laws.finite rate w.small_rate) (rw running refl))

  -- When float64 is exact on integers of at most 2 ^ 53, the response starts as UNDER_LIMIT, the
  -- hits are positive, and the balance is a whole number of tokens, the rate a positive whole
  -- number of milliseconds, and all sums in that range, scheduleHits answers NEVER_FITS when the
  -- hits exceed the burst; else UNDER_LIMIT when the tokens cover the hits; else, with the wait the
  -- milliseconds that the bucket's time lies ahead plus the missing tokens times the rate,
  -- SCHEDULED with this wait when it is within max_wait and the ceiling, and OVER_LIMIT with this
  -- wait when not.
  pub schedule_hits_whole :
      (r : RateLimitReq) (m : Moment F) (a : Answer F) (tokens rate : ℤ)
      → a.resp.status ≡ Status.under_limit
      → pos 0 <ℤ r.hits
      → IsWhole fl r.hits m a.bucket tokens rate
      → let wait = whole_wait (ahead_of a.bucket m.now) r.hits tokens rate in
        let out = (schedule_hits fl r m a).resp in
        (a.bucket.burst <ℤ r.hits → out.status ≡ Status.never_fits)
        × (r.hits ≤ℤ a.bucket.burst → r.hits ≤ℤ tokens → out.status ≡ Status.under_limit)
        × (r.hits ≤ℤ a.bucket.burst
            → tokens <ℤ r.hits
            → wait ≤ℤ r.max_wait
            → wait ≤ℤ m.ceiling
            → (out.status ≡ Status.scheduled) × (out.retry_after ≡ wait))
        × (r.hits ≤ℤ a.bucket.burst
            → tokens <ℤ r.hits
            → (r.max_wait <ℤ wait) ⊎ (m.ceiling <ℤ wait)
            → (out.status ≡ Status.over_limit) × (out.retry_after ≡ wait))
  unfolding schedule_hits refuse admit_now refuse_wait book min_ℤ
  schedule_hits_whole r m a tokens rate h some_hits w =
      let usable = usable-rate r.hits m a.bucket tokens rate w in
      let enough = whole_tokens-leb r.hits m a.bucket tokens rate w some_hits in
      (
        λ over. ground (arith, over),
        λ fits has. ground (arith, h, fits, has, usable, enough),
        λ fits lacks soon low.
            let wait = wait_for-whole r.hits m a.bucket tokens rate w lacks in
            ground (arith, fits, lacks, soon, low, usable, enough, wait),
        λ fits lacks late.
            let wait = wait_for-whole r.hits m a.bucket tokens rate w lacks in
            ground (arith, fits, lacks, late, usable, enough, wait),
      )
