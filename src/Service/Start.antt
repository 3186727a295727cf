-- ===== src/Service/Start.antt =====
-- NewWorkerPool of workers.go: the pool that a server starts with.
use native.Mathlib.Nat.{le-div_iff_mul-le, mul-div-le, div-eq_of_lt}
use gubernator.Cache.Invariant.{new-IsValid}
use gubernator.Cache.Lru.{LruCache, new_lru_cache}
use gubernator.Leaky.Capped.{CapLaws}
use gubernator.Prelude.{
  ℕ, zero, suc, ◌+◌, ◌*◌, ◌/◌, ◌≤◌, ◌<◌, ℤ, String, List, [], ◌∷◌, ◌≡◌, refl, ap, sym, ◌∙◌, subst,
  arith, All, length,
}
use gubernator.Service.Persist.{repeat, default_cache_size, worker_cache_size, new_worker_pool}
use gubernator.Service.Sound.{IsServing, CacheSound}
use gubernator.Workers.Ring.{IsPool, hash_space, hash_ring_step}
use gubernator.World.{Runtime}

abbrev pub total_size : {F : Type 0} → List (LruCache F) → ℕ
total_size [] = 0
total_size (c ∷ cs) = c.cache_size + total_size cs

length-repeat : {A : Type 0} (n : ℕ) (x : A) → length (repeat n x) ≡ n
length-repeat zero x = refl
length-repeat (suc n) x = ap suc (length-repeat n x)

All-repeat : {A : Type 0} (P : A → Type 0) (n : ℕ) (x : A) → P x → All P (repeat n x)
All-repeat P zero x h = tt
All-repeat P (suc n) x h = (h, All-repeat P n x h)

total-repeat : {F : Type 0} (n : ℕ) (c : LruCache F) → total_size (repeat n c) ≡ n * c.cache_size
total-repeat zero c = grind arith
total-repeat (suc n) c = grind (arith, total-repeat n c)

module _ {F S T : Type 0} (rt : Runtime F S T) (sum : String → ℕ) (ceiling : ℤ)
    (laws : CapLaws rt.fl) where
  -- With between 1 and 2 ^ 63 workers, a number that divides 2 ^ 63 and is at most the cache size
  -- with its default, NewWorkerPool makes a pool whose caches are in order and sound and together
  -- hold at most the cache size.
  pub new_worker_pool-IsServing :
      (cache_size workers : ℕ) (st : S)
      → IsPool workers
      → workers * hash_ring_step workers ≡ hash_space
      → workers ≤ default_cache_size cache_size
      → let p = new_worker_pool {F = F} cache_size workers st in
        IsServing rt sum ceiling laws p × (total_size p.caches ≤ default_cache_size cache_size)
  unfolding new_worker_pool worker_cache_size new_lru_cache
  new_worker_pool-IsServing cache_size workers st p even fits =
      let size = default_cache_size cache_size in
      let some_size : 1 ≤ size / workers =
        (le-div_iff_mul-le {k = workers} {x = 1} {y = size} p.some_workers).1
          (omega (arith, fits)) in
      let kept : (new_lru_cache {F = F} (size / workers)).cache_size ≡ size / workers =
        ground (arith, some_size) in
      let count : length (repeat workers (new_lru_cache {F = F} (size / workers))) ≡ workers =
        length-repeat workers (new_lru_cache {F = F} (size / workers)) in
      (
        record {
          size = subst IsPool (sym count) p;
          even = subst (λ (n : ℕ). n * hash_ring_step n ≡ hash_space) (sym count) even;
          sound =
              All-repeat (CacheSound rt sum ceiling laws) workers (new_lru_cache (size / workers))
                (new-IsValid (size / workers), tt);
        },
        subst (λ (n : ℕ). n ≤ size)
            (sym (
              total-repeat workers (new_lru_cache {F = F} (size / workers))
              ∙ ap (λ (n : ℕ). workers * n) kept))
            (mul-div-le size workers),
      )

-- With more workers than entries in the cache, each worker gets the default of 50,000 entries.
pub tiny_cache_size :
    (F : Type 0) {S : Type 0} (cache_size workers : ℕ) (st : S)
    → default_cache_size cache_size < workers
    → total_size (new_worker_pool {F = F} cache_size workers st).caches ≡ workers * 50_000
unfolding new_worker_pool worker_cache_size new_lru_cache
tiny_cache_size F cache_size workers st small =
    let nothing : default_cache_size cache_size / workers ≡ 0 = div-eq_of_lt small in
    total-repeat workers (new_lru_cache {F = F} (default_cache_size cache_size / workers))
    ∙ ap (λ (n : ℕ). workers * (new_lru_cache {F = F} n).cache_size) nothing
