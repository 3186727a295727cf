-- ===== src/Balance.antt =====
-- algorithms.go: the arithmetic on a leaky bucket's balance, over the float64 operations.
use gubernator.Prelude.{
  ℤ, pos, negsuc, Bool, not, ◌||◌, ◌^◌, ◌-◌, sub64, max_ℤ, leb_ℤ, if◌then◌else◌,
}
use gubernator.Types.{Float64, LeakyBucketItem}

abbrev pub max_int64 : ℤ
max_int64 = pos (2 ^ 63 - 1)

abbrev pub min_int64 : ℤ
min_int64 = negsuc (2 ^ 63 - 1)

module _ {F : Type 0} (fl : Float64 F) where
  open fl use {of_int, to_int, add, sub, mul, div, abs, ceil, lt, le, is_nan, is_inf, nano}

  abbrev pub zero_tokens : F
  zero_tokens = of_int (pos 0)

  unfoldable pub credited_leak : LeakyBucketItem F → ℤ → F → F
  credited_leak b now rate =
      let leak = div (of_int (sub64 now b.updated_at)) rate in
      if leb_ℤ now b.updated_at
      then zero_tokens
      else if not (is_nan leak)
      then leak
      else zero_tokens

  unfoldable pub snap_to_zero : F → F
  snap_to_zero balance = if lt (abs balance) nano then zero_tokens else balance

  unfoldable pub unusable_rate : F → Bool
  unusable_rate rate = not (lt zero_tokens rate) || is_inf rate

  -- float64(b.Duration) / float64(b.Limit)
  unfoldable pub rate_of : ℤ → ℤ → F
  rate_of duration limit = div (of_int duration) (of_int limit)

  unfoldable pub debt_at : LeakyBucketItem F → ℤ → Bool
  debt_at b now =
      let rate = rate_of b.duration b.limit in
      let balance : F =
        if not (unusable_rate rate)
        then add b.remaining (credited_leak b now rate)
        else b.remaining in
      lt (snap_to_zero balance) zero_tokens

  unfoldable pub millis : F → ℤ
  millis f =
      if le (of_int max_int64) f
      then max_int64
      else if le f (of_int min_int64)
      then min_int64
      else to_int f

  unfoldable pub full_at : LeakyBucketItem F → F → ℤ
  full_at b rate =
      millis (ceil (add (of_int b.updated_at) (mul (sub (of_int b.burst) b.remaining) rate)))

  unfoldable pub whole_tokens : F → ℤ
  whole_tokens balance = to_int (add balance nano)

  unfoldable pub spendable_tokens : F → ℤ
  spendable_tokens balance = max_ℤ (pos 0) (whole_tokens balance)
