-- ===== src/Tests/Buckets.antt =====
-- The theorems on the buckets at concrete inputs.
use gubernator.Balance.{unusable_rate, whole_tokens, millis}
use gubernator.Cache.Invariant.{IsValid, items, new-IsValid}
use gubernator.Cache.Lru.{new_lru_cache}
use gubernator.Cache.Spec.{find_item}
use gubernator.Interval.{epoch_millis}
use gubernator.Leaky.Bucket.{leaky_bucket, leaky_decide}
use gubernator.Leaky.Decision.{schedule_hits_booked, leaky_decide_keeps}
use gubernator.Leaky.Invariant.{leaky_bucket-Keeps}
use gubernator.Leaky.Whole.{WholeLaws, IsSmall, IsWhole, schedule_hits_whole}
use gubernator.Leaky.Schedule.{schedule_hits, wait_for, book}
use gubernator.Prelude.{
  ℤ, pos, ◌≤ℤ◌, ◌≤◌, ◌-ℤ◌, ◌+ℤ◌, ◌*ℤ◌, String, [], ◌∷◌, none, true, ◌≡◌, refl, arith, inl, add64,
  sub64, wrap64, min_ℤ, max_ℤ, eq_of_parts, -ℤ_parts, +ℤ_parts, ℕ, ◌<ℤ◌, ◌⊎◌,
}
use gubernator.Sound.{Sound}
use gubernator.Tests.Values.{
  whole_numbers, whole_numbers-CapLaws, runtime, new_world, token_request, leaky_request, token_of,
  leaky_of, item_of, moment, answer_of, ten-IsInt64,
}
use gubernator.Token.Bucket.{token_bucket, decide, token_new_item, under_limit_resp}
use gubernator.Token.Decision.{InLimit, decide-admits}
use gubernator.Token.Fresh.{window_bound, token_bucket_reset, fresh_item, fresh_token}
use gubernator.Token.Invariant.{IsPlain, token_bucket-Keeps}
use gubernator.Token.Live.{token_bucket_live, decided, with_token}
use gubernator.Token.Window.{InWindow, total_charge}
use gubernator.Types.{
  Status, RateLimitReq, CacheItem, Value, hash_key, is_expired, has_behavior, RateLimitResp,
}
use gubernator.World.{World, ok, add_item}
use gubernator.World.Fetch.{Holding}
use gubernator.World.Keeps.{Keeps, StoreKeeps}
use gubernator.World.Miss.{Absent, add_item-Holding}

new_world-IsValid : IsValid (new_world.cache)
new_world-IsValid = new-IsValid 2

new_world-Absent : Absent (pos 1) (hash_key (token_request (pos 6))) new_world
unfolding new_lru_cache find_item
new_world-Absent = inl refl

six-IsPlain : IsPlain (token_request (pos 6))
six-IsPlain = record {
  hits = omega arith;
  hits_word = record { below = omega arith; above = omega arith };
  limit = omega arith;
  limit_word = ten-IsInt64;
}

no_store : StoreKeeps runtime (Sound whole_numbers)
no_store s st r e = ground arith

new_world-Keeps : Keeps (Sound whole_numbers) new_world
unfolding new_lru_cache
new_world-Keeps = record { valid = new_world-IsValid; every = tt }

second_call :
    InWindow runtime true
      (hash_key (token_request (pos 6)))
      (fresh_item runtime (token_request (pos 6)))
      (fresh_token runtime (token_request (pos 6)))
      (2, token_request (pos 6))
unfolding is_expired token_new_item epoch_millis add64 wrap64 ◌+ℤ◌ has_behavior
second_call = record {
  keyed = refl;
  live = refl;
  same = record { limit = refl; duration = refl; no_reset = refl };
  nonneg = omega arith;
}

-- Of two requests for 6 hits in one window of 10, one is admitted.
window_bound_example :
    total_charge runtime true
      ((1, token_request (pos 6)) ∷ (2, token_request (pos 6)) ∷ [])
      new_world
    ≤ 10
unfolding has_behavior epoch_millis
window_bound_example =
    window_bound runtime 1 (token_request (pos 6)) ((2, token_request (pos 6)) ∷ []) true new_world
      refl new_world-IsValid new_world-Absent refl six-IsPlain (second_call, tt)

token_bucket-Keeps_example :
    Keeps (Sound whole_numbers) (token_bucket runtime 1 (token_request (pos 6)) true new_world).0
token_bucket-Keeps_example =
    token_bucket-Keeps runtime 1 (token_request (pos 6)) true new_world no_store six-IsPlain
      new_world-Keeps

leaky_bucket-Keeps_example :
    Keeps
      (Sound whole_numbers)
      (leaky_bucket runtime 1 (leaky_request (pos 6) (pos 0)) true (pos 5000) new_world).0
leaky_bucket-Keeps_example =
    leaky_bucket-Keeps runtime whole_numbers-CapLaws 1 (leaky_request (pos 6) (pos 0)) true
      (pos 5000) new_world no_store
      (record { limit = omega arith; burst = omega arith; waits = inl (omega arith) })
      new_world-Keeps

-- A cache with one item, put there by Add.
abbrev account : String
account = hash_key (token_request (pos 6))

abbrev token_item : CacheItem ℤ
token_item = item_of account (Value.token (token_of (pos 4)))

abbrev token_world : World ℤ Unit
token_world = add_item runtime (pos 1) token_item new_world

token_world-Holding : Holding token_world account token_item
token_world-Holding = add_item-Holding runtime (pos 1) token_item new_world new_world-IsValid

token_bucket_live_example :
    Holding (token_bucket runtime 2 (token_request (pos 3)) true token_world).0 account (
      with_token runtime token_item
        (decided runtime (token_request (pos 3)) token_item (token_of (pos 4))).0)
    × ((token_bucket runtime 2 (token_request (pos 3)) true token_world).1
        ≡ ok (decided runtime (token_request (pos 3)) token_item (token_of (pos 4))).1)
unfolding is_expired epoch_millis has_behavior hash_key
token_bucket_live_example =
    token_bucket_live runtime 2 (token_request (pos 3)) true token_world token_item
      (token_of (pos 4)) token_world-Holding refl refl
      (record { limit = refl; duration = refl; no_reset = refl })

abbrev reset_request : RateLimitReq
reset_request = record (token_request (pos 3)) { behavior = 8 }

token_bucket_reset_example :
    ((token_bucket runtime 2 reset_request true token_world).1
      ≡ ok (under_limit_resp reset_request (pos 10) (pos 0)))
    × (find_item account (items (token_bucket runtime 2 reset_request true token_world).0.cache)
        ≡ none)
unfolding is_expired epoch_millis has_behavior hash_key
token_bucket_reset_example =
    token_bucket_reset runtime 2 reset_request true token_world token_item token_world-Holding refl
      (λ e. ground arith) refl

four_left : InLimit (token_of (pos 4))
four_left = record { nonneg = omega arith; within = omega arith; word = ten-IsInt64 }

-- 6 hits on 4 are refused.
decide-admits_example :
    ((decide (token_request (pos 6)) (token_of (pos 4)) (answer_of (pos 4)).resp).1.status
      ≡ Status.over_limit)
    × ((decide (token_request (pos 6)) (token_of (pos 4)) (answer_of (pos 4)).resp).0.remaining
        ≡ pos 4)
    × ((decide (token_request (pos 6)) (token_of (pos 4)) (answer_of (pos 4)).resp).1.remaining
        ≡ (decide (token_request (pos 6)) (token_of (pos 4)) (answer_of (pos 4)).resp).0.remaining)
    × ((decide (token_request (pos 6)) (token_of (pos 4)) (answer_of (pos 4)).resp).2 ≡ true)
unfolding has_behavior
decide-admits_example =
    decide-admits (token_request (pos 6)) (token_of (pos 4)) (answer_of (pos 4)).resp (omega arith)
      four_left refl refl

-- Booked for a wait: 6 hits on a balance of 2 at 100 milliseconds a token.
schedule_hits_booked_example :
    (pos 1
      ≤ℤ (schedule_hits whole_numbers
          (leaky_request (pos 6) (pos 1000))
          moment
          (answer_of (pos 2))).resp.retry_after)
    × ((schedule_hits whole_numbers
          (leaky_request (pos 6) (pos 1000))
          moment
          (answer_of (pos 2))).resp.retry_after
        ≤ℤ pos 1000)
    × ((schedule_hits whole_numbers
          (leaky_request (pos 6) (pos 1000))
          moment
          (answer_of (pos 2))).resp.retry_after
        ≤ℤ pos 5000)
    × (pos 6 ≤ℤ pos 10)
    × ((schedule_hits whole_numbers
          (leaky_request (pos 6) (pos 1000))
          moment
          (answer_of (pos 2))).bucket.remaining
        ≡ pos 2 -ℤ pos 6)
unfolding schedule_hits unusable_rate whole_tokens wait_for millis book min_ℤ max_ℤ ◌-ℤ◌ ◌+ℤ◌ ◌*ℤ◌
    sub64 wrap64
schedule_hits_booked_example =
    schedule_hits_booked whole_numbers (leaky_request (pos 6) (pos 1000)) moment (answer_of (pos 2))
      refl refl

whole_numbers-WholeLaws : WholeLaws whole_numbers
whole_numbers-WholeLaws = record {
  add_whole = λ a b s t u. refl;
  sub_whole = λ a b s t u. refl;
  mul_whole = λ a b s t u. refl;
  ceil_micro = λ a s p. eq_of_parts (a -ℤ pos 0) a (omega (arith, -ℤ_parts a (pos 0)));
  to_int_whole = λ a s. refl;
  to_int_nano = λ a s p. eq_of_parts (a +ℤ pos 0) a (omega (arith, +ℤ_parts a (pos 0)));
  to_int_debt = λ a s d. omega (arith, +ℤ_parts a (pos 0), d);
  lt_zero = λ a s. refl;
  not_max = λ a s. ground (arith, s.below);
  not_min = λ a s. ground (arith, s.above);
  finite = λ a s. refl;
}

-- Six hits on two tokens, at 100 ms for a token: the four that are missing take 400 ms.
abbrev booked_now : RateLimitResp
booked_now =
    (schedule_hits whole_numbers (leaky_request (pos 6) (pos 1000)) moment (answer_of (pos 2))).resp

number-IsSmall : (n : ℕ) → n ≤ 1000 → IsSmall (pos n)
number-IsSmall n le = record { below = omega (arith, le); above = omega arith }

two_tokens-IsWhole : IsWhole whole_numbers (pos 6) moment (leaky_of (pos 2)) (pos 2) (pos 100)
unfolding max_ℤ ◌-ℤ◌ ◌+ℤ◌ ◌*ℤ◌
two_tokens-IsWhole = record {
  balance = refl;
  rate_is = refl;
  positive = omega arith;
  small_tokens = number-IsSmall 2 (omega arith);
  small_rate = number-IsSmall 100 (omega arith);
  small_hits = number-IsSmall 6 (omega arith);
  small_ahead = number-IsSmall 0 (omega arith);
  small_missing = number-IsSmall 4 (omega arith);
  small_owed = number-IsSmall 400 (omega arith);
  small_wait = number-IsSmall 400 (omega arith);
}

schedule_hits_whole_example :
    (pos 10 <ℤ pos 6 → booked_now.status ≡ Status.never_fits)
    × (pos 6 ≤ℤ pos 10 → pos 6 ≤ℤ pos 2 → booked_now.status ≡ Status.under_limit)
    × (pos 6 ≤ℤ pos 10
        → pos 2 <ℤ pos 6
        → pos 400 ≤ℤ pos 1000
        → pos 400 ≤ℤ pos 5000
        → (booked_now.status ≡ Status.scheduled) × (booked_now.retry_after ≡ pos 400))
    × (pos 6 ≤ℤ pos 10
        → pos 2 <ℤ pos 6
        → (pos 1000 <ℤ pos 400) ⊎ (pos 5000 <ℤ pos 400)
        → (booked_now.status ≡ Status.over_limit) × (booked_now.retry_after ≡ pos 400))
unfolding max_ℤ ◌-ℤ◌ ◌+ℤ◌ ◌*ℤ◌
schedule_hits_whole_example =
    schedule_hits_whole whole_numbers whole_numbers-WholeLaws (leaky_request (pos 6) (pos 1000))
      moment (answer_of (pos 2)) (pos 2) (pos 100) refl (omega arith) two_tokens-IsWhole

-- A query keeps the bucket.
leaky_decide_keeps_example :
    (leaky_decide runtime (leaky_request (pos 0) (pos 0)) moment (answer_of (pos 2))).bucket
    ≡ leaky_of (pos 2)
leaky_decide_keeps_example =
    leaky_decide_keeps runtime (leaky_request (pos 0) (pos 0)) moment (answer_of (pos 2)) refl
      (inl refl)
