-- ===== src/Service/Validate.antt =====
-- validateMaxWait of gubernator.go.
use gubernator.Prelude.{
  pos, ◌≤ℤ◌, ◌<ℤ◌, String, Bool, true, false, not, Option, none, some, str_eq, eq_iff, Option-cases,
  ◌≡◌, ◌↔◌, ◌⊎◌, inl, inr, refl, arith, ltb_ℤ, eqb_ℤ, eqb_ℤ_iff, if◌then◌else◌,
}
use gubernator.Types.{
  Algorithm, RateLimitReq, has_behavior, global, duration_is_gregorian, drain_over_limit,
  reset_remaining,
}

unfoldable pub is_leaky : Algorithm → Bool
is_leaky Algorithm.leaky_bucket = true
is_leaky _ = false

-- The reasons, in the order of the code's cases.
pub data MaxWaitProblem : Type 0 where
  negative not_leaky with_global with_gregorian with_drain with_reset negative_hits : MaxWaitProblem

unfoldable pub message : MaxWaitProblem → String
message MaxWaitProblem.negative = "field 'max_wait' cannot be negative"
message MaxWaitProblem.not_leaky = "max_wait is only supported by LEAKY_BUCKET"
message MaxWaitProblem.with_global = "max_wait cannot be combined with GLOBAL"
message MaxWaitProblem.with_gregorian = "max_wait cannot be combined with DURATION_IS_GREGORIAN"
message MaxWaitProblem.with_drain = "max_wait cannot be combined with DRAIN_OVER_LIMIT"
message MaxWaitProblem.with_reset = "max_wait cannot be combined with RESET_REMAINING"
message MaxWaitProblem.negative_hits = "max_wait cannot be combined with negative hits"

unfoldable pub max_wait_problem : RateLimitReq → Option MaxWaitProblem
max_wait_problem r =
    if ltb_ℤ r.max_wait (pos 0)
    then some MaxWaitProblem.negative
    else if eqb_ℤ r.max_wait (pos 0)
    then none
    else if not (is_leaky r.algorithm)
    then some MaxWaitProblem.not_leaky
    else if has_behavior r.behavior global
    then some MaxWaitProblem.with_global
    else if has_behavior r.behavior duration_is_gregorian
    then some MaxWaitProblem.with_gregorian
    else if has_behavior r.behavior drain_over_limit
    then some MaxWaitProblem.with_drain
    else if has_behavior r.behavior reset_remaining
    then some MaxWaitProblem.with_reset
    else if ltb_ℤ r.hits (pos 0)
    then some MaxWaitProblem.negative_hits
    else none

-- The empty text for a request that is fine.
unfoldable pub validate_max_wait : RateLimitReq → String
validate_max_wait r = elim (max_wait_problem r) [ none ↦ "" | some p ↦ message p ]

-- What scheduled admission supports.
pub record IsSchedulable (r : RateLimitReq) : Type 0 where
  pub waits : pos 0 <ℤ r.max_wait
  pub leaky : r.algorithm ≡ Algorithm.leaky_bucket
  pub not_global : has_behavior r.behavior global ≡ false
  pub not_gregorian : has_behavior r.behavior duration_is_gregorian ≡ false
  pub not_drained : has_behavior r.behavior drain_over_limit ≡ false
  pub not_reset : has_behavior r.behavior reset_remaining ≡ false
  pub hits : pos 0 ≤ℤ r.hits

is_leaky_iff : (a : Algorithm) → (is_leaky a ≡ true) ↔ (a ≡ Algorithm.leaky_bucket)
unfolding is_leaky
is_leaky_iff a = ground arith

problem_iff :
    (r : RateLimitReq) → (max_wait_problem r ≡ none) ↔ ((r.max_wait ≡ pos 0) ⊎ IsSchedulable r)
unfolding max_wait_problem
problem_iff r = ground (arith, is_leaky_iff r.algorithm, eqb_ℤ_iff r.max_wait (pos 0))

message_nonempty : (p : MaxWaitProblem) → str_eq (message p) "" ≡ false
unfolding message
message_nonempty MaxWaitProblem.negative = refl
message_nonempty MaxWaitProblem.not_leaky = refl
message_nonempty MaxWaitProblem.with_global = refl
message_nonempty MaxWaitProblem.with_gregorian = refl
message_nonempty MaxWaitProblem.with_drain = refl
message_nonempty MaxWaitProblem.with_reset = refl
message_nonempty MaxWaitProblem.negative_hits = refl

empty_iff : (r : RateLimitReq) → (validate_max_wait r ≡ "") ↔ (max_wait_problem r ≡ none)
unfolding validate_max_wait
empty_iff r = elim (Option-cases (max_wait_problem r)) [
  | inl e ↦ rw (e, validate_max_wait) (λ h. refl, λ h. refl)
  | inr (p, e) ↦
      rw (e, validate_max_wait)
        (λ h. ground (arith, message_nonempty p, eq_iff (message p) ""), λ h. ground arith)
]

-- validateMaxWait returns the empty text exactly for a max_wait of 0, and for a positive one on a
-- leaky bucket without GLOBAL, DURATION_IS_GREGORIAN, DRAIN_OVER_LIMIT, RESET_REMAINING and
-- negative hits.
pub validate_max_wait_iff :
    (r : RateLimitReq) → (validate_max_wait r ≡ "") ↔ ((r.max_wait ≡ pos 0) ⊎ IsSchedulable r)
validate_max_wait_iff r =
    (λ h. (problem_iff r).0 ((empty_iff r).0 h), λ h. (empty_iff r).1 ((problem_iff r).1 h))
