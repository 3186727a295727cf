-- ===== src/Service/Instance.antt =====
-- NewV1Instance's load, getGlobalRateLimit and Close of gubernator.go.
use Prim.Native.String.{◌++◌ as join}
use gubernator.Global.Hits.{queue_hit}
use gubernator.Leaky.Capped.{CapLaws}
use gubernator.Prelude.{
  ℕ, ◌^◌, ◌<◌, ℤ, String, List, Option, none, some, Bool, true, false, ◌≡◌, inl, inr, refl, arith,
  sym, ◌∙◌, ap, str_eq, if◌then◌else◌, Bool-cases, Option-cases,
}
use gubernator.Service.Handlers.{Pool, Node, answered, get_rate_limit, get_local_rate_limit}
use gubernator.Service.Persist.{Loader, load, store}
use gubernator.Service.Route.{cached_request}
use gubernator.Service.Sound.{IsRegular, IsServing, local_rate_limit_lem}
use gubernator.Sound.{Sound}
use gubernator.Service.Validate.{validate_max_wait}
use gubernator.Types.Flags.{has_behavior_cleared}
use gubernator.Types.{RateLimitReq, has_behavior, global}
use gubernator.World.{Runtime, Outcome, ok, err}
use gubernator.World.Keeps.{StoreKeeps}

-- Close: the flag, the loader's state, whether the pool's workers are told to stop, and the error.
-- WorkerPool.Close gives none.
pub record Closing (L : Type 0) : Type 0 where
  pub is_closed : Bool
  pub loader_state : L
  pub pool_closed : Bool

unfoldable pub close :
    {F S L : Type 0} → Option (Loader F L) → Pool F S → Closing L → Closing L × Option String
close loader p c = if c.is_closed then (c, none) else (elim loader [
  | none ↦ (record c { is_closed = true; pool_closed = true }, none)
  | some ld ↦
      let (l, failed) = store ld c.loader_state p in
      elim failed [
        | some e ↦ (
          record c { is_closed = true; loader_state = l },
          some (join "Error in workerPool.Store: " e),
        )
        | none ↦ (record { is_closed = true; loader_state = l; pool_closed = true }, none)
      ]
])

-- NewV1Instance from the pool on: the loaded pool, or the error.
pub data Started (F S L : Type 0) : Type 0 where
  started : L → Pool F S → Started F S L
  start_err : L → String → Started F S L

cached_plain :
    (r : RateLimitReq) → r.behavior < 64 → has_behavior (cached_request r).behavior global ≡ false
unfolding cached_request
cached_plain r b = has_behavior_cleared r.behavior b

module _ {F S T : Type 0} (rt : Runtime F S T) (sum : String → ℕ) (ceiling : ℤ) where
  unfoldable pub start :
      {L : Type 0} → Option (Loader F L) → T → L → Pool F S → Option (Started F S L)
  start loader now l p = elim loader [
    | none ↦ some (Started.started l p)
    | some ld ↦ elim (load rt sum ld now l p) [
      | none ↦ none
      | some (l', p', failed) ↦ elim failed [
        | none ↦ some (Started.started l' p')
        | some e ↦ some (Started.start_err l' (join "Error in workerPool.Load: " e))
      ]
    ]
  ]

  -- The hits that wait for the owner of the key, with what was queued.
  unfoldable pub queue_on_success :
      RateLimitReq → List RateLimitReq → Node F S × Outcome → Node F S × List RateLimitReq × Outcome
  queue_on_success req hits (n, ok resp) = (n, queue_hit req hits, ok resp)
  queue_on_success req hits (n, err e) = (n, hits, err (join "during in getLocalRateLimit: " e))

  -- getGlobalRateLimit
  unfoldable pub get_global_rate_limit :
      T
      → RateLimitReq
      → Node F S
      → List RateLimitReq
      → Option (Node F S × List RateLimitReq × Outcome)
  get_global_rate_limit now req n hits =
      elim (get_local_rate_limit rt sum ceiling now (cached_request req) false n) [
        | none ↦ none
        | some out ↦ some (queue_on_success req hits out)
      ]

  answered_plain :
      (r : RateLimitReq) (n : Node F S) (p : Pool F S) (out : Outcome)
      → has_behavior r.behavior global ≡ false
      → (answered rt sum ceiling r n (p, out)).0.broadcast_queue ≡ n.broadcast_queue
  unfolding answered
  answered_plain r n p (ok resp) e = rw (e, answered) refl
  answered_plain r n p (err x) e = refl

  local_plain :
      (now : T) (r : RateLimitReq) (o : Bool) (n n' : Node F S) (out : Outcome)
      → has_behavior r.behavior global ≡ false
      → get_local_rate_limit rt sum ceiling now r o n ≡ some (n', out)
      → n'.broadcast_queue ≡ n.broadcast_queue
  unfolding get_local_rate_limit
  local_plain now r o n n' out plain e = elim (Bool-cases (str_eq (validate_max_wait r) "")) [
    | inl fine ↦ elim (Option-cases (get_rate_limit rt sum ceiling now r o n.pool)) [
      | inl gone ↦ absurd (ground (arith, e, fine, gone))
      | inr ((p, x), got) ↦
          let is : answered rt sum ceiling r n (p, x) ≡ (n', out) = ground (arith, e, fine, got) in
          ap (λ (a : Node F S × Outcome). a.0.broadcast_queue) (sym is)
          ∙ answered_plain r n p x plain
    ]
    | inr bad ↦
        let is : n ≡ n' = ground (arith, e, bad) in
        ap (λ (a : Node F S). a.broadcast_queue) (sym is)
  ]

  module _ (laws : CapLaws rt.fl) where
    cached_request-IsRegular : (r : RateLimitReq) → IsRegular r → IsRegular (cached_request r)
    unfolding cached_request
    cached_request-IsRegular r g = record {
      limit = g.limit;
      limit_word = g.limit_word;
      burst = g.burst;
      hits_word = g.hits_word;
      hits = g.hits;
    }

    -- What a call of getGlobalRateLimit leaves.
    abbrev pub Queued :
        RateLimitReq
        → Node F S
        → List RateLimitReq
        → Node F S × List RateLimitReq × Outcome
        → Type 0
    Queued r n hits (n', hits', ok resp) =
        IsServing rt sum ceiling laws n'.pool
        × (n'.broadcast_queue ≡ n.broadcast_queue)
        × (hits' ≡ queue_hit r hits)
    Queued r n hits (n', hits', err e) =
        IsServing rt sum ceiling laws n'.pool
        × (n'.broadcast_queue ≡ n.broadcast_queue)
        × (hits' ≡ hits)

    queue_on_success-Queued :
        (r : RateLimitReq) (n n' : Node F S) (hits : List RateLimitReq) (out : Outcome)
        → IsServing rt sum ceiling laws n'.pool
        → n'.broadcast_queue ≡ n.broadcast_queue
        → Queued r n hits (queue_on_success r hits (n', out))
    unfolding queue_on_success
    queue_on_success-Queued r n n' hits (ok resp) v q = (v, q, refl)
    queue_on_success-Queued r n n' hits (err e) v q = (v, q, refl)

    -- Take a pool whose caches are in order and sound, with between 1 and 2 ^ 63 workers, a number
    -- that divides 2 ^ 63; a checksum of 64 bits; float64 that keeps the cap laws; a store that
    -- hands out sound items only; and a regular request with a behavior of six bits. Then
    -- getGlobalRateLimit answers without a panic, queues nothing to broadcast, queues the request's
    -- hits exactly when it answers without an error, and the pool is again such a pool.
    pub get_global_rate_limit_lem :
        (now : T) (r : RateLimitReq) (n : Node F S) (hits : List RateLimitReq)
        → ((key : String) → sum key < 2 ^ 64)
        → StoreKeeps rt (Sound rt.fl)
        → IsRegular r
        → r.behavior < 64
        → IsServing rt sum ceiling laws n.pool
        → (res : Node F S × List RateLimitReq × Outcome) × (get_global_rate_limit now r n hits
            ≡ some res)
          × Queued r n hits res
    unfolding get_global_rate_limit
    get_global_rate_limit_lem now r n hits bound s g b v =
        let r' = cached_request r in
        let (n', out, e, v') =
          local_rate_limit_lem rt sum ceiling laws now r' false n bound s
            (cached_request-IsRegular r g) v in
        let plain : has_behavior r'.behavior global ≡ false = cached_plain r b in
        (
          queue_on_success r hits (n', out),
          rw (e, get_global_rate_limit) refl,
          queue_on_success-Queued r n n' hits out v' (local_plain now r' false n n' out plain e),
        )
