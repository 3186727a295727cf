-- ===== src/Tests/Values.antt =====
-- The concrete parameters and inputs that the tests share.
use gubernator.Cache.Lru.{LruCache, new_lru_cache}
use gubernator.Interval.{Calendar}
use gubernator.Leaky.Answer.{Answer, Moment}
use gubernator.Leaky.Capped.{CapLaws}
use gubernator.Prelude.{
  ℕ, ◌*◌, ◌/◌, ℤ, pos, pos_part, ◌+ℤ◌, ◌-ℤ◌, ◌*ℤ◌, max_ℤ, min_ℤ, ltb_ℤ, leb_ℤ, String, [], none,
  some, true, false, arith, -ℤ_parts, IsInt64,
}
use gubernator.Types.{
  Float64, Algorithm, Status, RateLimitReq, TokenBucketItem, LeakyBucketItem, CacheItem, Value,
}
use gubernator.World.{Runtime, World}

-- Quotients of numbers that are not negative, rounded down.
abbrev quotient : ℤ → ℤ → ℤ
quotient a b = pos (pos_part a / pos_part b)

abbrev pub whole_numbers : Float64 ℤ
whole_numbers = record {
  of_int = λ a. a;
  to_int = λ a. a;
  add = λ a b. a +ℤ b;
  sub = λ a b. a -ℤ b;
  mul = λ a b. a *ℤ b;
  div = quotient;
  neg = λ a. pos 0 -ℤ a;
  abs = λ a. max_ℤ a (pos 0 -ℤ a);
  ceil = λ a. a;
  min = min_ℤ;
  max = max_ℤ;
  lt = ltb_ℤ;
  le = leb_ℤ;
  is_nan = λ a. false;
  is_inf = λ a. false;
  nano = pos 0;
  micro = pos 0;
}

pub whole_numbers-CapLaws : CapLaws whole_numbers
unfolding min_ℤ
whole_numbers-CapLaws = record {
  irrefl = λ a. ground arith;
  min_below = λ c a b h. ground arith;
  sub_below = λ c a k p h. ground (arith, -ℤ_parts a k);
  of_int_below = λ a b h. ground arith;
}

abbrev pub milliseconds : Calendar ℕ
milliseconds = record {
  unix_nano = λ t. pos (t * 1_000_000);
  truncate_minute = λ t. t;
  add_nanos = λ t d. t;
  year = λ t. pos 1970;
  month = λ t. pos 1;
  day = λ t. pos 1;
  hour = λ t. pos 0;
  weekday = λ t. 4;
  date = λ y m d h min s ns. 0;
  add_date = λ t y m d. t;
  sub_millis = λ a b. pos 0;
}

abbrev pub runtime : Runtime ℤ Unit ℕ
runtime = record { fl = whole_numbers; cal = milliseconds; store = none }

abbrev pub small_cache : LruCache ℤ
small_cache = new_lru_cache 2

abbrev pub new_world : World ℤ Unit
new_world = record { cache = small_cache; stored = tt; metrics = [] }

abbrev pub request : Algorithm → String → ℤ → ℤ → RateLimitReq
request algorithm key hits max_wait = record {
  name = "requests";
  unique_key = key;
  hits = hits;
  limit = pos 10;
  duration = pos 1000;
  algorithm = algorithm;
  behavior = 0;
  burst = pos 10;
  created_at = some (pos 1);
  max_wait = max_wait;
}

abbrev pub token_request : ℤ → RateLimitReq
token_request hits = request Algorithm.token_bucket "account" hits (pos 0)

abbrev pub leaky_request : ℤ → ℤ → RateLimitReq
leaky_request hits max_wait = request Algorithm.leaky_bucket "account" hits max_wait

abbrev pub token_of : ℤ → TokenBucketItem
token_of remaining = record {
  status = Status.under_limit;
  limit = pos 10;
  duration = pos 1000;
  remaining = remaining;
  created_at = pos 1;
}

abbrev pub leaky_of : ℤ → LeakyBucketItem ℤ
leaky_of remaining = record {
  limit = pos 10;
  duration = pos 1000;
  remaining = remaining;
  updated_at = pos 1;
  burst = pos 10;
}

abbrev pub item_of : String → Value ℤ → CacheItem ℤ
item_of key value = record {
  algorithm = Algorithm.token_bucket;
  key = key;
  value = value;
  expire_at = pos 1001;
  invalid_at = pos 0;
}

abbrev pub moment : Moment ℤ
moment = record {
  is_owner = true;
  ceiling = pos 5000;
  now = pos 1;
  duration = pos 1000;
  rate = pos 100;
  was_in_debt = false;
}

-- The answer before the decision.
abbrev pub answer_of : ℤ → Answer ℤ
answer_of remaining = record {
  bucket = leaky_of remaining;
  expire_at = pos 1001;
  resp = record {
    status = Status.under_limit;
    limit = pos 10;
    remaining = remaining;
    reset_time = pos 1;
    error = "";
    retry_after = pos 0;
    owner = none;
  };
  metrics = [];
}

pub ten-IsInt64 : IsInt64 (pos 10)
ten-IsInt64 = record { below = omega arith; above = omega arith }
