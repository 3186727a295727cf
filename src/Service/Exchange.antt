-- ===== src/Service/Exchange.antt =====
-- GetPeerRateLimits of gubernator.go, and the item of a broadcast, against the invariant on the cached
-- items.
use gubernator.Interval.{epoch_millis}
use gubernator.Leaky.Capped.{CapLaws}
use gubernator.Prelude.{
  Option, none, ltb, ltb→lt, ℕ, suc, ◌^◌, ◌<◌, ℤ, pos, ◌≤ℤ◌, eqb_ℤ, IsInt64, int_laws, one_part,
  String, List, [], ◌∷◌, some, true, ◌≡◌, ◌⊎◌, inl, inr, refl, ap, All, length, Bool-cases,
}
use gubernator.Service.Handlers.{
  max_batch_size, get_peer_rate_limits, Node, resp_of, draining, UpdatePeerGlobal, forwarded,
  serve_all, global_item, with_created_at,
}
use gubernator.Sound.{Sound}
use gubernator.Types.{Algorithm, RateLimitReq, RateLimitResp, created_at_of, global, has_behavior}
use gubernator.World.{Runtime}
use gubernator.World.Keeps.{StoreKeeps}
use gubernator.Service.Sound.{IsRegular, IsServing, local_rate_limit_lem}

stamped : (now : ℤ) (r : RateLimitReq) → IsRegular r → IsRegular (with_created_at now r)
stamped now r g = elim (Bool-cases (eqb_ℤ (created_at_of r) (pos 0))) [
  | inl e ↦ rw e (record {
    limit = g.limit;
    limit_word = g.limit_word;
    burst = g.burst;
    hits_word = g.hits_word;
    hits = g.hits;
  })
  | inr e ↦ rw e g
]

drained : (r : RateLimitReq) → IsRegular r → IsRegular (draining r)
drained r g = elim (Bool-cases (has_behavior r.behavior global)) [
  | inl e ↦ rw e (record {
    limit = g.limit;
    limit_word = g.limit_word;
    burst = g.burst;
    hits_word = g.hits_word;
    hits = g.hits;
  })
  | inr e ↦ rw e g
]

-- A broadcast as an owner makes it: a response with no more left than the limit.
pub record IsHonest (g : UpdatePeerGlobal) : Type 0 where
  pub remaining : pos 0 ≤ℤ g.status.remaining
  pub limit : g.status.remaining ≤ℤ g.status.limit
  pub limit_word : IsInt64 g.status.limit

algorithm-cases :
    (a : Algorithm)
    → (a ≡ Algorithm.token_bucket)
      ⊎ ((a ≡ Algorithm.leaky_bucket) ⊎ ((n : ℕ) × (a ≡ Algorithm.other_algorithm n)))
algorithm-cases Algorithm.token_bucket = inl refl
algorithm-cases Algorithm.leaky_bucket = inr (inl refl)
algorithm-cases (Algorithm.other_algorithm n) = inr (inr (n, refl))

-- The answer to a batch: a refusal of one over the limit, or a response for each request.
abbrev pub Answered : List RateLimitReq → Option (List RateLimitResp) → Type 0
Answered rs none = max_batch_size < length rs
Answered rs (some resps) = length resps ≡ length rs

module _ {F S T : Type 0} (rt : Runtime F S T) (sum : String → ℕ) (ceiling : ℤ)
    (laws : CapLaws rt.fl) where
  forwarded-IsRegular :
      (now : T) (r : RateLimitReq) → IsRegular r → IsRegular (forwarded rt sum ceiling now r)
  unfolding forwarded
  forwarded-IsRegular now r g = stamped (epoch_millis rt.cal now) (draining r) (drained r g)

  -- A batch that is served has a response for each request.
  serve_all_lem :
      (now : T) (rs : List RateLimitReq) (n : Node F S)
      → ((key : String) → sum key < 2 ^ 64)
      → StoreKeeps rt (Sound rt.fl)
      → All IsRegular rs
      → IsServing rt sum ceiling laws n.pool
      → (n' : Node F S) × (resps : List RateLimitResp) × (serve_all rt sum ceiling now rs n
          ≡ some (n', resps))
        × (length resps ≡ length rs)
        × IsServing rt sum ceiling laws n'.pool
  unfolding serve_all
  serve_all_lem now [] n bound s g v = (n, [], refl, refl, v)
  serve_all_lem now (r ∷ rs) n bound s g v =
      let r' = forwarded rt sum ceiling now r in
      let (n₁, out, e, v₁) =
        local_rate_limit_lem rt sum ceiling laws now r' true n bound s
          (forwarded-IsRegular now r g.0) v in
      let (n₂, resps, e₂, len, v₂) = serve_all_lem now rs n₁ bound s g.1 v₁ in
      (n₂, resp_of out ∷ resps, rw (e, serve_all) (rw (e₂, serve_all) refl), ap suc len, v₂)

  -- Take a pool whose caches are in order and sound, with between 1 and 2 ^ 63 workers, a number
  -- that divides 2 ^ 63; a checksum of 64 bits; float64 that keeps the cap laws; a store that hands
  -- out sound items only; and a batch of requests with no negative limit or burst, int64 limit and
  -- hits, and no negative hits on a token bucket. Then GetPeerRateLimits, without a panic, refuses
  -- the batch when it is over the limit of a batch and else answers it with one response for each
  -- request, and the pool is again such a pool.
  pub get_peer_rate_limits_lem :
      (now : T) (rs : List RateLimitReq) (n : Node F S)
      → ((key : String) → sum key < 2 ^ 64)
      → StoreKeeps rt (Sound rt.fl)
      → All IsRegular rs
      → IsServing rt sum ceiling laws n.pool
      → (n' : Node F S) × (answer : Option (List RateLimitResp)) × (get_peer_rate_limits rt sum
            ceiling now rs n
          ≡ some (n', answer))
        × Answered rs answer
        × IsServing rt sum ceiling laws n'.pool
  unfolding get_peer_rate_limits
  get_peer_rate_limits_lem now rs n bound s g v =
      elim (Bool-cases (ltb max_batch_size (length rs))) [
        | inl large ↦ (n, none, rw (large, get_peer_rate_limits) refl, ltb→lt _ _ large, v)
        | inr small ↦
            let (n', resps, e, len, v') = serve_all_lem now rs n bound s g v in
            (
              n',
              some resps,
              rw (small, get_peer_rate_limits) (rw (e, get_peer_rate_limits) refl),
              len,
              v',
            )
      ]

  pub global_item-Sound :
      (now : ℤ) (g : UpdatePeerGlobal) → IsHonest g → Sound rt.fl (global_item rt sum ceiling now g)
  unfolding global_item
  global_item-Sound now g h = elim (algorithm-cases g.algorithm) [
    | inl e ↦ rw e (record { nonneg = h.remaining; within = h.limit; word = h.limit_word })
    | inr (inl e) ↦ rw e (record {
      burst =
          omega
            (int_laws, h.remaining, h.limit, one_part g.status.remaining, one_part g.status.limit);
      balance = laws.of_int_below _ _ h.limit;
    })
    | inr (inr (n, e)) ↦ rw e tt
  ]
