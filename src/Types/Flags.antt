-- ===== src/Types/Flags.antt =====
-- HasBehavior and SetBehavior on the flags of the enumeration Behavior, which fit six bits.
use gubernator.Prelude.{
  ℕ, zero, suc, ◌^◌, ◌<◌, Bool, true, false, not, ◌&&◌, ◌≡◌, refl, arith, Bool-cases, inl, inr,
  ◌==◌, if◌then◌else◌,
}
use gubernator.Types.Messages.{has_behavior, set_behavior}

abbrev eq_Bool : Bool → Bool → Bool
eq_Bool true b = b
eq_Bool false b = not b

-- Does the test hold of each index under the bound?
pub holds_under : (ℕ → Bool) → ℕ → Bool
holds_under test zero = true
holds_under test (suc bound) =
    let rest = holds_under test bound in if test bound then rest else false

pub holds_at :
    (test : ℕ → Bool) (bound : ℕ)
    → holds_under test bound ≡ true
    → (i : ℕ) → i < bound
    → test i ≡ true
unfolding holds_under
holds_at test (suc bound) h i lt = elim (Bool-cases (test bound)) [
  | inl here ↦ ground (arith, here, holds_at test bound (ground (arith, here)) i)
  | inr gone ↦ ground (arith, gone)
]
holds_at test zero h i lt = absurd (omega (arith, lt))

and_left : (a b : Bool) → (a && b) ≡ true → (a ≡ true) × (b ≡ true)
and_left true b h = (refl, h)
and_left false b h = ground arith

eq_Bool_sound : (a b : Bool) → eq_Bool a b ≡ true → a ≡ b
eq_Bool_sound a b h = ground arith

-- After a write to flag `i`, flag `j` reads what was written or what it was.
abbrev after : ℕ → ℕ → ℕ → Bool → Bool
after b i j set = if i == j then set else has_behavior b (2 ^ j)

abbrev written : ℕ → ℕ → ℕ → Bool → Bool
written b i j set = eq_Bool (has_behavior (set_behavior b (2 ^ i) set) (2 ^ j)) (after b i j set)

abbrev table_row : ℕ → ℕ → ℕ → Bool
table_row b i j = written b i j true && written b i j false

table : holds_under (λ b. holds_under (λ i. holds_under (λ j. table_row b i j) 6) 6) 64 ≡ true
unfolding holds_under has_behavior set_behavior
table = refl

row : (b i j : ℕ) → b < 64 → i < 6 → j < 6 → table_row b i j ≡ true
row b i j p q r = holds_at _ 6 (holds_at _ 6 (holds_at _ 64 table b p) i q) j r

-- On a behavior of six bits, after SetBehavior writes one of the six flags, HasBehavior reads what
-- was written from that flag, and what was there from each other flag.
pub has_behavior-set_behavior :
    (b i j : ℕ) (set : Bool)
    → b < 64
    → i < 6
    → j < 6
    → has_behavior (set_behavior b (2 ^ i) set) (2 ^ j)
      ≡ (if i == j then set else has_behavior b (2 ^ j))
has_behavior-set_behavior b i j true p q r = eq_Bool_sound _ _ (and_left _ _ (row b i j p q r)).0
has_behavior-set_behavior b i j false p q r = eq_Bool_sound _ _ (and_left _ _ (row b i j p q r)).1

-- A behavior of six bits with NO_BATCHING set and GLOBAL cleared has no GLOBAL.
global_cleared :
    holds_under (λ b. not (has_behavior (set_behavior (set_behavior b 1 true) 2 false) 2)) 64 ≡ true
unfolding holds_under has_behavior set_behavior
global_cleared = refl

pub has_behavior_cleared :
    (b : ℕ) → b < 64 → has_behavior (set_behavior (set_behavior b 1 true) 2 false) 2 ≡ false
has_behavior_cleared b p = ground (
  arith,
  holds_at (λ a. not (has_behavior (set_behavior (set_behavior a 1 true) 2 false) 2)) 64
      global_cleared b p,
)
