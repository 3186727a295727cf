-- ===== src/Types/Messages.antt =====
-- The messages of gubernator.proto, as gubernator.pb.go declares them, with HashKey of client.go
-- and the behavior flags of gubernator.go.
use Prim.Native.Nat.{bit_and, bit_or, bit_xor}
use Prim.Native.String.{◌++◌}
use gubernator.Prelude.{
  ℕ, ℤ, pos, String, Option, none, some, Bool, true, false, not, ◌≡◌, refl, ◌==◌, if◌then◌else◌,
}

-- Any other number of the enumeration is `other_algorithm`.
pub data Algorithm : Type 0 where
  token_bucket leaky_bucket : Algorithm
  other_algorithm : ℕ → Algorithm

pub data Status : Type 0 where
  under_limit over_limit never_fits scheduled : Status

pub record RateLimitReq : Type 0 where
  pub name : String
  pub unique_key : String
  pub hits : ℤ
  pub limit : ℤ
  pub duration : ℤ
  pub algorithm : Algorithm
  pub behavior : ℕ
  pub burst : ℤ
  pub created_at : Option ℤ
  pub max_wait : ℤ

-- `owner` is the one entry of the response's metadata that the server writes.
pub record RateLimitResp : Type 0 where
  pub status : Status
  pub limit : ℤ
  pub remaining : ℤ
  pub reset_time : ℤ
  pub error : String
  pub retry_after : ℤ
  pub owner : Option String

-- A response with an `error` and Go's zero values.
abbrev pub error_resp : String → RateLimitResp
error_resp msg = record {
  status = Status.under_limit;
  limit = pos 0;
  remaining = pos 0;
  reset_time = pos 0;
  error = msg;
  retry_after = pos 0;
  owner = none;
}

abbrev pub no_batching : ℕ
no_batching = 1

abbrev pub global : ℕ
global = 2

abbrev pub duration_is_gregorian : ℕ
duration_is_gregorian = 4

abbrev pub reset_remaining : ℕ
reset_remaining = 8

abbrev pub drain_over_limit : ℕ
drain_over_limit = 32

unfoldable pub has_behavior : ℕ → ℕ → Bool
has_behavior b flag = not (bit_and b flag == 0)

unfoldable pub set_behavior : ℕ → ℕ → Bool → ℕ
set_behavior b flag set = if set then bit_or b flag else bit_and b (bit_xor b flag)

unfoldable pub hash_key : RateLimitReq → String
hash_key m = m.name ++ ("_" ++ m.unique_key)

-- `*r.CreatedAt`. GetRateLimits and GetPeerRateLimits set it before a request reaches an algorithm; in
-- the algorithms a nil pointer, on which Go panics, reads as 0 here.
abbrev pub created_at_of : RateLimitReq → ℤ
created_at_of r = elim r.created_at [ none ↦ pos 0 | some t ↦ t ]

set_then_has : has_behavior (set_behavior 5 reset_remaining true) reset_remaining ≡ true
unfolding has_behavior set_behavior
set_then_has = refl

clear_then_has : has_behavior (set_behavior 7 global false) global ≡ false
unfolding has_behavior set_behavior
clear_then_has = refl
