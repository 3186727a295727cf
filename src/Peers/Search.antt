-- ===== src/Peers/Search.antt =====
-- sort.Search of Go's library, as replicated_hash.go calls it: the least index at which a test that
-- never turns false again is true.
use gubernator.Prelude.{
  ℕ, zero, suc, ◌+◌, ◌-◌, ◌/◌, ◌≤◌, ◌<◌, Bool, true, false, ◌≡◌, arith, ltb, if◌then◌else◌,
  Bool-cases, inl, inr,
}

-- `i, j := 0, n; for i < j { h := int(uint(i+j) >> 1); if !f(h) { i = h + 1 } else { j = h } }`
unfoldable pub search_from : ℕ → (ℕ → Bool) → ℕ → ℕ → ℕ
search_from zero f i j = i
search_from (suc fuel) f i j =
    let h = (i + j) / 2 in
    let rest = search_from fuel f (if f h then i else h + 1) (if f h then h else j) in
    if ltb i j then rest else i

unfoldable pub search : ℕ → (ℕ → Bool) → ℕ
search n f = search_from (suc n) f 0 n

-- Once true, the test stays true.
pub record IsMonotone (f : ℕ → Bool) : Type 0 where
  pub before : (a b : ℕ) → a ≤ b → f b ≡ false → f a ≡ false

-- The index is the least at which the test is true.
pub record IsLeast (f : ℕ → Bool) (r : ℕ) : Type 0 where
  pub here : f r ≡ true
  pub below : (k : ℕ) → k < r → f k ≡ false

search_from-IsLeast :
    (fuel : ℕ) (f : ℕ → Bool) (i j : ℕ)
    → IsMonotone f
    → i ≤ j
    → j - i < fuel
    → f j ≡ true
    → ((k : ℕ) → k < i → f k ≡ false)
    → IsLeast f (search_from fuel f i j)
unfolding search_from
search_from-IsLeast zero f i j m le enough at below = absurd (omega arith)
search_from-IsLeast (suc fuel) f i j m le enough at below = elim (Bool-cases (ltb i j)) [
  | inr done ↦ rw done (record { here = ground arith; below = below })
  | inl more ↦
      let h = (i + j) / 2 in
      elim (Bool-cases (f h)) [
        | inl yes' ↦
            rw (more, yes')
              (search_from-IsLeast fuel f i h m (ground arith) (ground arith) yes' below)
        | inr no' ↦
            rw (more, no')
              (search_from-IsLeast fuel f (h + 1) j m (ground arith) (ground arith) at
                (λ k lt. m.before k h (omega arith) no'))
      ]
]

pub search-IsLeast : (n : ℕ) (f : ℕ → Bool) → IsMonotone f → f n ≡ true → IsLeast f (search n f)
unfolding search
search-IsLeast n f m at =
    search_from-IsLeast (suc n) f 0 n m (omega arith) (omega arith) at (λ k lt. elim lt [ ])
