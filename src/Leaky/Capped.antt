-- ===== src/Leaky/Capped.antt =====
-- The balance of a leaky bucket of algorithms.go against its burst, with the laws of float64 for
-- it.
use gubernator.Balance.{zero_tokens, snap_to_zero}
use gubernator.Leaky.Answer.{Answer, Moment, extended_if, refuse}
use gubernator.Leaky.Bucket.{refuse_plain, admit_plain, leaky_decide, refresh, leaky_answer}
use gubernator.Leaky.New.{leaky_new_bucket}
use gubernator.Leaky.Schedule.{admit_now, refuse_wait, book, schedule_hits}
use gubernator.Leaky.Terms.{Terms, credit, rescale_debt, shift_burst, settle, adopts, adopt}
use gubernator.Prelude.{
  ℤ, pos, ◌≤ℤ◌, ◌≡◌, ◌⊎◌, inl, inr, refl, arith, Bool, true, false, min_ℤ, sub64, if◌then◌else◌,
  Bool-cases, subst, sym,
}
use gubernator.Types.{CacheItem, Float64, LeakyBucketItem, RateLimitReq}
use gubernator.World.{Runtime}

-- What IEEE 754 says of comparison, minimum, subtraction and conversion, rounding included: none of
-- them makes a number that is not above a bound exceed it.
pub record CapLaws {F : Type 0} (fl : Float64 F) : Type 0 where
  pub irrefl : (a : F) → fl.lt a a ≡ false
  pub min_below : (c a b : F) → fl.lt c a ≡ false → fl.lt c (fl.min a b) ≡ false
  pub sub_below :
      (c a : F) (h : ℤ) → pos 0 ≤ℤ h → fl.lt c a ≡ false → fl.lt c (fl.sub a (fl.of_int h)) ≡ false
  pub of_int_below : (a b : ℤ) → b ≤ℤ a → fl.lt (fl.of_int a) (fl.of_int b) ≡ false

-- A burst that is not negative, and a balance that is not above it.
pub record IsCapped {F : Type 0} (fl : Float64 F) (b : LeakyBucketItem F) : Type 0 where
  pub burst : pos 0 ≤ℤ b.burst
  pub balance : fl.lt (fl.of_int b.burst) b.remaining ≡ false

-- A max_wait request has no negative hits, as validateMaxWait sees to.
abbrev pub WaitsForward : RateLimitReq → Type 0
WaitsForward r = (r.max_wait ≤ℤ pos 0) ⊎ (pos 0 ≤ℤ r.hits)

module _ {F : Type 0} {fl : Float64 F} (laws : CapLaws fl) where
  snap-below :
      (burst : ℤ) (a : F)
      → pos 0 ≤ℤ burst
      → fl.lt (fl.of_int burst) a ≡ false
      → fl.lt (fl.of_int burst) (snap_to_zero fl a) ≡ false
  unfolding snap_to_zero
  snap-below burst a p h = ground (arith, laws.of_int_below burst (pos 0))

  snap_min-below :
      (burst : ℤ) (a : F)
      → pos 0 ≤ℤ burst
      → fl.lt (fl.of_int burst) (snap_to_zero fl (fl.min (fl.of_int burst) a)) ≡ false
  snap_min-below burst a p =
      snap-below burst (fl.min (fl.of_int burst) a) p
        (laws.min_below (fl.of_int burst) (fl.of_int burst) a (laws.irrefl (fl.of_int burst)))

  pub schedule_hits-IsCapped :
      (r : RateLimitReq) (m : Moment F) (a : Answer F)
      → pos 0 ≤ℤ r.hits
      → IsCapped fl a.bucket
      → IsCapped fl (schedule_hits fl r m a).bucket
  unfolding schedule_hits refuse admit_now refuse_wait book
  schedule_hits-IsCapped r m a h c =
      let spent = laws.sub_below (fl.of_int a.bucket.burst) a.bucket.remaining r.hits h c.balance in
      ground (
        arith,
        c.burst,
        c.balance,
        spent,
        snap-below a.bucket.burst (fl.sub a.bucket.remaining (fl.of_int r.hits)) c.burst spent,
      )

module _ {F S T : Type 0} (rt : Runtime F S T) (laws : CapLaws rt.fl) where
  pub leaky_decide-IsCapped :
      (r : RateLimitReq) (m : Moment F) (a : Answer F)
      → WaitsForward r
      → IsCapped rt.fl a.bucket
      → IsCapped rt.fl (leaky_decide rt r m a).bucket
  unfolding leaky_decide refuse_plain admit_plain refuse
  leaky_decide-IsCapped r m a h c =
      let fl = rt.fl in
      let burst = fl.of_int a.bucket.burst in
      ground (
        arith,
        c.burst,
        c.balance,
        schedule_hits-IsCapped laws r m a,
        laws.min_below burst a.bucket.remaining (zero_tokens fl) c.balance,
        snap_min-below laws a.bucket.burst (fl.sub a.bucket.remaining (fl.of_int r.hits)) c.burst,
      )

  settle-IsCapped :
      (t : Terms F) (b : LeakyBucketItem F)
      → pos 0 ≤ℤ b.burst
      → IsCapped rt.fl (settle rt.fl rt.cal t b)
  unfolding settle
  settle-IsCapped t b p =
      let balance = if t.reset then rt.fl.of_int t.burst else b.remaining in
      record { burst = p; balance = snap_min-below laws b.burst balance p }

  shifted_burst :
      (t : Terms F) (b : LeakyBucketItem F)
      → pos 0 ≤ℤ t.burst
      → pos 0 ≤ℤ b.burst
      → pos 0
        ≤ℤ (shift_burst rt.fl rt.cal t
            (rescale_debt rt.fl rt.cal t (credit rt.fl rt.cal t b))).burst
  unfolding shift_burst rescale_debt credit
  shifted_burst t b p q = ground (arith, p, q)

  -- Bringing a bucket up to date caps it, whatever balance it had.
  refresh-IsCapped :
      (t : Terms F) (b : LeakyBucketItem F)
      → pos 0 ≤ℤ t.burst
      → pos 0 ≤ℤ b.burst
      → IsCapped rt.fl (refresh rt t b).0
  unfolding refresh
  refresh-IsCapped t b p q = settle-IsCapped t _ (shifted_burst t b p q)

  adopt-IsCapped :
      (t : Terms F) (r : RateLimitReq) (b : LeakyBucketItem F)
      → IsCapped rt.fl b
      → IsCapped rt.fl (adopt rt.fl rt.cal t r b).0
  unfolding adopt
  adopt-IsCapped t r b h = elim (Bool-cases (adopts rt.fl rt.cal t b)) [
    | inl e ↦ rw e (record { burst = h.burst; balance = h.balance })
    | inr e ↦ rw e h
  ]

  extended_if-bucket :
      (test : Bool) (m : Moment F) (a : Answer F) → (extended_if rt.fl test m a).bucket ≡ a.bucket
  extended_if-bucket true m a = refl
  extended_if-bucket false m a = refl

  pub answer-IsCapped :
      (t : Terms F) (r : RateLimitReq) (o : Bool) (ceiling : ℤ) (item : CacheItem F)
      (b : LeakyBucketItem F)
      → WaitsForward r
      → pos 0 ≤ℤ t.burst
      → pos 0 ≤ℤ b.burst
      → IsCapped rt.fl (leaky_answer rt t r o ceiling item b).bucket
  unfolding leaky_answer
  answer-IsCapped t r o ceiling item b h p q =
      let m : Moment F = record {
        is_owner = o;
        ceiling = ceiling;
        now = t.created_at;
        duration = t.duration;
        rate = (adopt rt.fl rt.cal t r (refresh rt t b).0).1;
        was_in_debt = t.was_in_debt;
      } in
      subst (IsCapped rt.fl) (sym (extended_if-bucket _ m _))
        (leaky_decide-IsCapped r _ _ h (adopt-IsCapped t r _ (refresh-IsCapped t b p q)))

  pub new_bucket-IsCapped :
      (r : RateLimitReq) (created_at duration : ℤ)
      → pos 0 ≤ℤ r.burst
      → IsCapped rt.fl (leaky_new_bucket rt r created_at duration)
  unfolding leaky_new_bucket min_ℤ
  new_bucket-IsCapped r c d p = ground (
    arith,
    laws.of_int_below r.burst (pos 0),
    laws.of_int_below r.burst r.burst,
    laws.of_int_below r.burst (sub64 r.burst r.hits),
  )
