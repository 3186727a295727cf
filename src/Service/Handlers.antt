-- ===== src/Service/Handlers.antt =====
-- handleGetRateLimit, GetRateLimit and AddCacheItem of workers.go, and getLocalRateLimit,
-- GetPeerRateLimits and UpdatePeerGlobals of gubernator.go.
use Prim.Native.String.{◌++◌ as join}
use gubernator.Cache.Lru
use gubernator.Cache.Lru.{LruCache}
use gubernator.Global.Hits.{queue_hit}
use gubernator.Interval.{epoch_millis}
use gubernator.Leaky.Bucket.{default_burst, leaky_bucket}
use gubernator.Peers.Hash.{itoa}
use gubernator.Prelude.{
  ℕ, zero, suc, ℤ, pos, String, List, [], ◌∷◌, ◌++◌, Option, none, some, Bool, true, str_eq, eqb_ℤ,
  ltb, if◌then◌else◌, length, get_elem?,
}
use gubernator.Service.Validate.{is_leaky, validate_max_wait}
use gubernator.Token.Bucket.{token_bucket}
use gubernator.Types.{
  Algorithm, RateLimitReq, RateLimitResp, CacheItem, Value, Metric, error_resp, hash_key,
  created_at_of, has_behavior, set_behavior, global, drain_over_limit,
}
use gubernator.Workers.Ring.{compute_hash63, worker_index}
use gubernator.World.{Runtime, World, Outcome, ok, err}

abbrev pub max_batch_size : ℕ
max_batch_size = 1000

-- errors.Wrap
abbrev wrap : String → Outcome → Outcome
wrap msg (ok resp) = ok resp
wrap msg (err e) = err (join msg (join ": " e))

unfoldable pub set_at {ℓ} : {A : Type ℓ} → ℕ → A → List A → List A
set_at i y [] = []
set_at zero y (x ∷ xs) = y ∷ xs
set_at (suc i) y (x ∷ xs) = x ∷ set_at i y xs

-- The workers' caches, and the store and the counters that they share.
pub record Pool (F S : Type 0) : Type 0 where
  pub caches : List (LruCache F)
  pub stored : S
  pub metrics : List (Metric F)

-- One server: its pool, and the broadcasts that it has queued.
pub record Node (F S : Type 0) : Type 0 where
  pub pool : Pool F S
  pub broadcast_queue : List RateLimitReq

-- One of the rate limits of a broadcast.
pub record UpdatePeerGlobal : Type 0 where
  pub key : String
  pub status : RateLimitResp
  pub algorithm : Algorithm
  pub duration : ℤ
  pub created_at : ℤ

abbrev pub resp_of : Outcome → RateLimitResp
resp_of (ok resp) = resp
resp_of (err e) = error_resp (join "Error in getLocalRateLimit: " e)

abbrev pub draining : RateLimitReq → RateLimitReq
draining r =
    if has_behavior r.behavior global
    then record r { behavior = set_behavior r.behavior drain_over_limit true }
    else r

-- `r.CreatedAt == nil || *r.CreatedAt == 0`
abbrev pub with_created_at : ℤ → RateLimitReq → RateLimitReq
with_created_at now r =
    if eqb_ℤ (created_at_of r) (pos 0) then record r { created_at = some now } else r

-- leakyBucket writes the default burst into the request itself.
abbrev as_handled : RateLimitReq → RateLimitReq
as_handled r = if is_leaky r.algorithm then default_burst r else r

-- What the worker of a key sees, and the pool once it is done.
abbrev pub seen_by : {F S : Type 0} → LruCache F → Pool F S → World F S
seen_by c p = record { cache = c; stored = p.stored; metrics = p.metrics }

abbrev pub after : {F S : Type 0} → ℕ → World F S → Pool F S → Pool F S
after i w p = record { caches = set_at i w.cache p.caches; stored = w.stored; metrics = w.metrics }

-- xxhash is the parameter `sum`; `ceiling` is the configuration's ScheduleMaxWait in milliseconds.
module _ {F S T : Type 0} (rt : Runtime F S T) (sum : String → ℕ) (ceiling : ℤ) where
  unfoldable pub handle_algorithm :
      T → RateLimitReq → Bool → Algorithm → World F S → World F S × Outcome
  handle_algorithm now r is_owner Algorithm.token_bucket w =
      let (w', out) = token_bucket rt now r is_owner w in (w', wrap "Error in tokenBucket" out)
  handle_algorithm now r is_owner Algorithm.leaky_bucket w =
      let (w', out) = leaky_bucket rt now r is_owner ceiling w in
      (w', wrap "Error in leakyBucket" out)
  handle_algorithm now r is_owner (Algorithm.other_algorithm n) w =
      (w, err (join "Invalid rate limit algorithm '" (join (itoa n) "'")))

  unfoldable pub handle_get_rate_limit : T → RateLimitReq → Bool → World F S → World F S × Outcome
  handle_get_rate_limit now r is_owner w = handle_algorithm now r is_owner r.algorithm w

  abbrev index_of : String → Pool F S → ℕ
  index_of key p = worker_index (length p.caches) (compute_hash63 sum key)

  -- The key's worker handles the request; `none` where there is no such worker.
  unfoldable pub get_rate_limit : T → RateLimitReq → Bool → Pool F S → Option (Pool F S × Outcome)
  get_rate_limit now r is_owner p =
      let i = index_of (hash_key r) p in
      elim (get_elem? p.caches i) [
        | none ↦ none
        | some c ↦
            let (w, out) = handle_get_rate_limit now r is_owner (seen_by c p) in
            some (after i w p, out)
      ]

  unfoldable pub add_cache_item : T → String → CacheItem F → Pool F S → Option (Pool F S)
  add_cache_item now key item p =
      let i = index_of key p in
      elim (get_elem? p.caches i) [
        | none ↦ none
        | some c ↦
            let (c', _, ms) = Lru.add rt.fl (epoch_millis rt.cal now) item c in
            some (after i (record { cache = c'; stored = p.stored; metrics = ms ++ p.metrics }) p)
      ]

  -- A GLOBAL rate limit that was served is queued for the broadcast, as QueueUpdate does.
  unfoldable pub answered : RateLimitReq → Node F S → Pool F S × Outcome → Node F S × Outcome
  answered r n (p, ok resp) = (
    record {
      pool = p;
      broadcast_queue =
          if has_behavior r.behavior global
          then queue_hit (as_handled r) n.broadcast_queue
          else n.broadcast_queue;
    },
    ok resp,
  )
  answered r n (p, err e) = (record n { pool = p }, err (join "during workerPool.GetRateLimit: " e))

  unfoldable pub get_local_rate_limit :
      T → RateLimitReq → Bool → Node F S → Option (Node F S × Outcome)
  get_local_rate_limit now r is_owner n =
      if str_eq (validate_max_wait r) ""
      then (elim (get_rate_limit now r is_owner n.pool) [
        | none ↦ none
        | some out ↦ some (answered r n out)
      ])
      else some (n, ok (error_resp (validate_max_wait r)))

  -- A request that a peer forwarded: GLOBAL hits drain, and an older peer may leave out the time.
  unfoldable pub forwarded : T → RateLimitReq → RateLimitReq
  forwarded now r = with_created_at (epoch_millis rt.cal now) (draining r)

  -- The requests of a batch in the order in which they are served.
  unfoldable pub serve_all :
      T → List RateLimitReq → Node F S → Option (Node F S × List RateLimitResp)
  serve_all now [] n = some (n, [])
  serve_all now (r ∷ rs) n = elim (get_local_rate_limit now (forwarded now r) true n) [
    | none ↦ none
    | some (n', out) ↦ elim (serve_all now rs n') [
      | none ↦ none
      | some (n'', resps) ↦ some (n'', resp_of out ∷ resps)
    ]
  ]

  -- GetPeerRateLimits: a batch over the limit is refused as a whole.
  unfoldable pub get_peer_rate_limits :
      T → List RateLimitReq → Node F S → Option (Node F S × Option (List RateLimitResp))
  get_peer_rate_limits now rs n =
      if ltb max_batch_size (length rs)
      then some (n, none)
      else (elim (serve_all now rs n) [ none ↦ none | some (n', resps) ↦ some (n', some resps) ])

  -- The cache item of a broadcast rate limit.
  unfoldable pub global_item : ℤ → UpdatePeerGlobal → CacheItem F
  global_item now g = record {
    algorithm = g.algorithm;
    key = g.key;
    value = elim g.algorithm [
      | Algorithm.leaky_bucket ↦ Value.leaky (record {
        limit = g.status.limit;
        duration = g.duration;
        remaining = rt.fl.of_int g.status.remaining;
        updated_at = now;
        burst = g.status.limit;
      })
      | Algorithm.token_bucket ↦ Value.token (record {
        status = g.status.status;
        limit = g.status.limit;
        duration = g.duration;
        remaining = g.status.remaining;
        created_at = now;
      })
      | Algorithm.other_algorithm _ ↦ Value.nil_value
    ];
    expire_at = g.status.reset_time;
    invalid_at = pos 0;
  }

  unfoldable pub update_peer_globals : T → List UpdatePeerGlobal → Pool F S → Option (Pool F S)
  update_peer_globals now [] p = some p
  update_peer_globals now (g ∷ gs) p =
      elim (add_cache_item now g.key (global_item (epoch_millis rt.cal now) g) p) [
        | none ↦ none
        | some p' ↦ update_peer_globals now gs p'
      ]
