-- ===== src/Service/Sound.antt =====
-- The worker pool of workers.go and getLocalRateLimit of gubernator.go against the invariant on the
-- cached items.
use gubernator.Cache.Invariant.{IsValid, items}
use gubernator.Cache.Lru.{LruCache}
use gubernator.Leaky.Capped.{CapLaws, WaitsForward}
use gubernator.Leaky.Invariant.{leaky_bucket-Keeps}
use gubernator.Prelude.{
  ℕ, zero, suc, ◌*◌, ◌^◌, ◌<◌, subst, ℤ, pos, ◌≤ℤ◌, IsInt64, String, List, [], ◌∷◌, Option, none,
  some, Bool, ◌≡◌, inl, inr, refl, arith, sym, ap, All, str_eq, eq_iff, length, get_elem?,
  Bool-cases,
}
use gubernator.Service.Handlers.{
  Pool, Node, seen_by, after, set_at, handle_algorithm, handle_get_rate_limit, get_rate_limit,
  answered, get_local_rate_limit,
}
use gubernator.Service.Validate.{validate_max_wait, validate_max_wait_iff}
use gubernator.Sound.{Sound}
use gubernator.Token.Invariant.{token_bucket-Keeps}
use gubernator.Types.{Algorithm, RateLimitReq, error_resp, hash_key}
use gubernator.Workers.Ring.{
  IsPool, hash_space, hash_ring_step, worker_index, compute_hash63, get_worker, get_worker_total,
}
use gubernator.World.{Runtime, World, Outcome, ok, err}
use gubernator.World.Keeps.{Keeps, StoreKeeps}

-- No negative limit or burst, and no negative hits on a token bucket.
pub record IsRegular (r : RateLimitReq) : Type 0 where
  pub limit : pos 0 ≤ℤ r.limit
  pub limit_word : IsInt64 r.limit
  pub burst : pos 0 ≤ℤ r.burst
  pub hits_word : IsInt64 r.hits
  pub hits : r.algorithm ≡ Algorithm.token_bucket → pos 0 ≤ℤ r.hits

pub length-set_at {ℓ} :
    {A : Type ℓ} (i : ℕ) (y : A) (xs : List A) → length (set_at i y xs) ≡ length xs
unfolding set_at
length-set_at i y [] = refl
length-set_at zero y (x ∷ xs) = refl
length-set_at (suc i) y (x ∷ xs) = ap suc (length-set_at i y xs)

pub some-inj {ℓ} : {A : Type ℓ} {a b : A} → some a ≡ some b → a ≡ b
some-inj {A} {a} e = ap (λ (o : Option A). elim o [ none ↦ a | some x ↦ x ]) e

All-set_at {ℓ κ} :
    {A : Type ℓ} (P : A → Type κ) (i : ℕ) (y : A) (xs : List A)
    → P y
    → All P xs
    → All P (set_at i y xs)
unfolding set_at
All-set_at P i y [] p h = tt
All-set_at P zero y (x ∷ xs) p h = (p, h.1)
All-set_at P (suc i) y (x ∷ xs) p h = (h.0, All-set_at P i y xs p h.1)

All-get_elem? {ℓ κ} :
    {A : Type ℓ} (P : A → Type κ) (i : ℕ) (x : A) (xs : List A)
    → get_elem? xs i ≡ some x
    → All P xs
    → P x
All-get_elem? P i x [] e h = ground arith
All-get_elem? P zero x (y ∷ xs) e h = subst P (some-inj e) h.0
All-get_elem? P (suc i) x (y ∷ xs) e h = All-get_elem? P i x xs e h.1

waits_of_valid : (r : RateLimitReq) → validate_max_wait r ≡ "" → WaitsForward r
waits_of_valid r e = elim ((validate_max_wait_iff r).0 e) [
  | inl never ↦ ground (arith, never)
  | inr s ↦ inr s.hits
]

module _ {F S T : Type 0} (rt : Runtime F S T) (sum : String → ℕ) (ceiling : ℤ)
    (laws : CapLaws rt.fl) where
  abbrev pub CacheSound : LruCache F → Type 0
  CacheSound c = IsValid c × All (Sound rt.fl) (items c)

  -- A pool whose number of workers divides the hash space, with sound caches.
  pub record IsServing (p : Pool F S) : Type 0 where
    pub size : IsPool (length p.caches)
    pub even : length p.caches * hash_ring_step (length p.caches) ≡ hash_space
    pub sound : All CacheSound p.caches

  handle_algorithm-Keeps :
      (now : T) (r : RateLimitReq) (o : Bool) (a : Algorithm) (w : World F S)
      → r.algorithm ≡ a
      → StoreKeeps rt (Sound rt.fl)
      → IsRegular r
      → WaitsForward r
      → Keeps (Sound rt.fl) w
      → Keeps (Sound rt.fl) (handle_algorithm rt sum ceiling now r o a w).0
  unfolding handle_algorithm
  handle_algorithm-Keeps now r o Algorithm.token_bucket w e s g f k =
      token_bucket-Keeps rt now r o w s
        (record {
          hits = g.hits e;
          hits_word = g.hits_word;
          limit = g.limit;
          limit_word = g.limit_word;
        })
        k
  handle_algorithm-Keeps now r o Algorithm.leaky_bucket w e s g f k =
      leaky_bucket-Keeps rt laws now r o ceiling w s
        (record { limit = g.limit; burst = g.burst; waits = f }) k
  handle_algorithm-Keeps now r o (Algorithm.other_algorithm n) w e s g f k = k

  pub after-IsServing :
      (i : ℕ) (w : World F S) (p : Pool F S)
      → Keeps (Sound rt.fl) w
      → IsServing p
      → IsServing (after i w p)
  after-IsServing i w p k v =
      let same = length-set_at i w.cache p.caches in
      record {
        size = subst IsPool (sym same) v.size;
        even = subst (λ n. n * hash_ring_step n ≡ hash_space) (sym same) v.even;
        sound = All-set_at CacheSound i w.cache p.caches (k.valid, k.every) v.sound;
      }

  pub seen :
      (i : ℕ) (c : LruCache F) (p : Pool F S)
      → get_elem? p.caches i ≡ some c
      → IsServing p
      → Keeps (Sound rt.fl) (seen_by c p)
  seen i c p e v =
      let (valid, every) = All-get_elem? CacheSound i c p.caches e v.sound in
      record { valid = valid; every = every }

  -- Every key has a worker, and what the worker leaves is sound.
  pub get_rate_limit_lem :
      (now : T) (r : RateLimitReq) (o : Bool) (p : Pool F S)
      → ((key : String) → sum key < 2 ^ 64)
      → StoreKeeps rt (Sound rt.fl)
      → IsRegular r
      → WaitsForward r
      → IsServing p
      → (p' : Pool F S) × (out : Outcome) × (get_rate_limit rt sum ceiling now r o p
          ≡ some (p', out))
        × IsServing p'
  unfolding get_rate_limit handle_get_rate_limit get_worker
  get_rate_limit_lem now r o p bound s g f v =
      let i = worker_index (length p.caches) (compute_hash63 sum (hash_key r)) in
      let (c, e) = get_worker_total sum p.caches (hash_key r) (bound (hash_key r)) v.size v.even in
      let w = handle_get_rate_limit rt sum ceiling now r o (seen_by c p) in
      (
        after i w.0 p,
        w.1,
        rw (e, get_rate_limit) refl,
        after-IsServing i w.0 p
            (handle_algorithm-Keeps now r o r.algorithm (seen_by c p) refl s g f (seen i c p e v))
            v,
      )

  answered-pool :
      (r : RateLimitReq) (n : Node F S) (p : Pool F S) (out : Outcome)
      → (answered rt sum ceiling r n (p, out)).0.pool ≡ p
  unfolding answered
  answered-pool r n p (ok resp) = refl
  answered-pool r n p (err e) = refl

  -- A node that serves one request is still serving, and has an answer or an error for it.
  pub local_rate_limit_lem :
      (now : T) (r : RateLimitReq) (o : Bool) (n : Node F S)
      → ((key : String) → sum key < 2 ^ 64)
      → StoreKeeps rt (Sound rt.fl)
      → IsRegular r
      → IsServing n.pool
      → (n' : Node F S) × (out : Outcome) × (get_local_rate_limit rt sum ceiling now r o n
          ≡ some (n', out))
        × IsServing n'.pool
  unfolding get_local_rate_limit
  local_rate_limit_lem now r o n bound s g v = elim (Bool-cases (str_eq (validate_max_wait r) "")) [
    | inl fine ↦
        let valid = (eq_iff (validate_max_wait r) "").0 fine in
        let (p', out, e, v') =
          get_rate_limit_lem now r o n.pool bound s g (waits_of_valid r valid) v in
        let res = answered rt sum ceiling r n (p', out) in
        (
          res.0,
          res.1,
          rw (fine, get_local_rate_limit) (rw (e, get_local_rate_limit) refl),
          subst IsServing (sym (answered-pool r n p' out)) v',
        )
    | inr bad ↦ (n, ok (error_resp (validate_max_wait r)), rw (bad, get_local_rate_limit) refl, v)
  ]
