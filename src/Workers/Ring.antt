-- ===== src/Workers/Ring.antt =====
-- ComputeHash63 and getWorker, and the fields of WorkerPool that they read. xxhash's 64-bit checksum
-- is a parameter; an index outside the slice is a panic, here `none`.
use native.Mathlib.Decide.{dec_lt}
use native.Mathlib.Nat.{le-div_iff_mul-le, div-lt_iff_lt-mul, mul-div-le}
use gubernator.Prelude.{
  ℕ, zero, suc, ◌-◌, ◌*◌, ◌/◌, ◌^◌, ◌≤◌, ◌<◌, String, List, [], ◌∷◌, Option, none, some, ◌≡◌, ◌↔◌,
  refl, arith, length, get_elem?, get_elem?-some,
}

abbrev pub hash_space : ℕ
hash_space = 2 ^ 63

-- uint64(1<<63) / uint64(conf.Workers)
unfoldable pub hash_ring_step : ℕ → ℕ
hash_ring_step workers = hash_space / workers

unfoldable pub worker_index : ℕ → ℕ → ℕ
worker_index workers hash = hash / hash_ring_step workers

-- A pool has workers, and no more than there are hashes.
pub record IsPool (n : ℕ) : Type 0 where
  pub some_workers : 0 < n
  pub few_workers : n ≤ hash_space

step_pos : (n : ℕ) → IsPool n → 0 < hash_ring_step n
unfolding hash_ring_step
step_pos n p =
    (le-div_iff_mul-le {k = n} {x = 1} {y = hash_space} p.some_workers).1 (omega (arith, p))

-- A hash is in range exactly when it lies under the whole ranges.
worker_index-lt_iff : (n h : ℕ) → IsPool n → (worker_index n h < n) ↔ (h < n * hash_ring_step n)
unfolding worker_index
worker_index-lt_iff n h p = div-lt_iff_lt-mul (step_pos n p)

worker_index-ge : (n h : ℕ) → IsPool n → n * hash_ring_step n ≤ h → n ≤ worker_index n h
worker_index-ge n h p past = elim (dec_lt (worker_index n h) n) [
  | yes lt ↦ let under = (worker_index-lt_iff n h p).0 lt in absurd (omega arith)
  | no ge ↦ omega arith
]

ranges_fit : (n : ℕ) → n * hash_ring_step n ≤ hash_space
unfolding hash_ring_step
ranges_fit n = mul-div-le hash_space n

-- For 1 to 2 ^ 63 workers, every 63-bit hash gets the index of a worker exactly when the number of
-- workers times the ring step is 2 ^ 63.
pub every_hash_has_worker_iff :
    (n : ℕ)
    → IsPool n
    → ((h : ℕ) → h < hash_space → worker_index n h < n) ↔ (n * hash_ring_step n ≡ hash_space)
every_hash_has_worker_iff n p = (
  λ all.
      let last =
        (worker_index-lt_iff n (hash_space - 1) p).0 (all (hash_space - 1) (omega arith)) in
      omega (arith, last, ranges_fit n),
  λ e h lt. (worker_index-lt_iff n h p).1 (omega arith),
)

get_elem?-none {ℓ} : {A : Type ℓ} (xs : List A) (i : ℕ) → length xs ≤ i → get_elem? xs i ≡ none
get_elem?-none [] i h = refl
get_elem?-none (x ∷ xs) zero h = absurd (omega arith)
get_elem?-none (x ∷ xs) (suc i) h = get_elem?-none xs i (omega arith)

module _ (checksum_string64 : String → ℕ) where
  -- xxhash.ChecksumString64S(input, 0) >> 1
  unfoldable pub compute_hash63 : String → ℕ
  compute_hash63 input = checksum_string64 input / 2

  module _ {W : Type 0} where
    unfoldable pub get_worker : List W → String → Option W
    get_worker workers key = get_elem? workers (worker_index (length workers) (compute_hash63 key))

    -- With a number of workers that divides 2 ^ 63, as a power of two does, every key has a worker.
    pub get_worker_total :
        (workers : List W) (key : String)
        → checksum_string64 key < 2 ^ 64
        → IsPool (length workers)
        → length workers * hash_ring_step (length workers) ≡ hash_space
        → (w : W) × (get_worker workers key ≡ some w)
    unfolding get_worker compute_hash63
    get_worker_total workers key c p e =
        get_elem?-some workers _
          ((every_hash_has_worker_iff (length workers) p).1 e (compute_hash63 key) (omega arith))

    -- For 1 to 2 ^ 63 workers, a key whose hash is at or past the number of workers times the ring
    -- step gets no worker: the index is outside the slice.
    pub get_worker_panics :
        (workers : List W) (key : String)
        → IsPool (length workers)
        → length workers * hash_ring_step (length workers) ≤ compute_hash63 key
        → get_worker workers key ≡ none
    unfolding get_worker
    get_worker_panics workers key p h =
        get_elem?-none workers _ (worker_index-ge (length workers) (compute_hash63 key) p h)
