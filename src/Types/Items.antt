-- ===== src/Types/Items.antt =====
-- The stored items of store.go and cache.go, and Go's float64, which the leaky bucket counts in:
-- its carrier `F` and the operations that the code uses are a parameter.
use gubernator.Prelude.{ℤ, pos, String, Bool, not, ◌&&◌, ◌||◌, ltb_ℤ, eqb_ℤ}
use gubernator.Types.Messages.{Algorithm, Status}

pub record Float64 (F : Type 0) : Type 0 where
  -- float64(i) and int64(f)
  pub of_int : ℤ → F
  pub to_int : F → ℤ
  pub add : F → F → F
  pub sub : F → F → F
  pub mul : F → F → F
  pub div : F → F → F
  pub neg : F → F
  -- math.Abs, math.Ceil, math.Min, math.Max
  pub abs : F → F
  pub ceil : F → F
  pub min : F → F → F
  pub max : F → F → F
  -- the tests `a < b` and `a <= b`
  pub lt : F → F → Bool
  pub le : F → F → Bool
  pub is_nan : F → Bool
  pub is_inf : F → Bool
  -- the constants 1e-9 and 1e-6
  pub nano : F
  pub micro : F

pub record TokenBucketItem : Type 0 where
  pub status : Status
  pub limit : ℤ
  pub duration : ℤ
  pub remaining : ℤ
  pub created_at : ℤ

pub record LeakyBucketItem (F : Type 0) : Type 0 where
  pub limit : ℤ
  pub duration : ℤ
  pub remaining : F
  pub updated_at : ℤ
  pub burst : ℤ

-- Go's `interface{}`: nil, one of the two bucket types, or a value of another type from a store.
pub data Value (F : Type 0) : Type 0 where
  nil_value : Value F
  token : TokenBucketItem → Value F
  leaky : LeakyBucketItem F → Value F
  foreign : Value F

pub record CacheItem (F : Type 0) : Type 0 where
  pub algorithm : Algorithm
  pub key : String
  pub value : Value F
  pub expire_at : ℤ
  pub invalid_at : ℤ

-- `now` is the clock's reading in epoch milliseconds.
unfoldable pub is_expired : {F : Type 0} → ℤ → CacheItem F → Bool
is_expired now item =
    (not (eqb_ℤ item.invalid_at (pos 0)) && ltb_ℤ item.invalid_at now) || ltb_ℤ item.expire_at now

-- One increment of a prometheus counter. The counters are global and only ever grow, so the
-- increments that a call makes are a list, newest first.
pub data Metric (F : Type 0) : Type 0 where
  cache_hit cache_miss unexpired_eviction debt_eviction : Metric F
  debt_lost_tokens : F → Metric F
  over_limit_count scheduled_count ceiling_refused_count debt_reset_count : Metric F
