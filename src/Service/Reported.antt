-- ===== src/Service/Reported.antt =====
-- What broadcastPeers of global.go tells the other peers about a bucket.
use gubernator.Global.Hits.{Hits}
use gubernator.Leaky.Capped.{CapLaws, WaitsForward}
use gubernator.Prelude.{
  ℕ, ◌^◌, ◌<◌, ℤ, String, List, [], ◌∷◌, ◌++◌, some, false, ◌≡◌, refl, sym, subst, ap, ◌∙◌, inl,
  inr, All, length, Listed,
}
use gubernator.Service.Broadcast.{
  query, IsTimed, with_status-entries, broadcast_globals, entries, About, broadcast_globals_lem,
}
use gubernator.Service.Handlers.{Pool, UpdatePeerGlobal}
use gubernator.Service.Sound.{IsRegular, IsServing, get_rate_limit_lem, length-set_at, some-inj}
use gubernator.Sound.{Sound}
use gubernator.Types.{CacheItem, TokenBucketItem, RateLimitReq}
use gubernator.World.{Runtime, Outcome, ok, err}
use gubernator.World.Keeps.{StoreKeeps}
use gubernator.Service.Report.{
  Holds, Others, worker_of, report, state_of, first_reported, after-Holds, get_rate_limit-after,
}

module _ {F S T : Type 0} (rt : Runtime F S T) (sum : String → ℕ) (ceiling : ℤ) where
  entries-keeps :
      (g : UpdatePeerGlobal) (r : RateLimitReq) (out : Outcome) (gs : List UpdatePeerGlobal)
      → Listed g gs
      → Listed g (entries rt sum ceiling r out gs)
  entries-keeps g r (ok resp) gs l = inr l
  entries-keeps g r (err e) gs l = l

  broadcast_reports :
      (laws : CapLaws rt.fl) (now : T) (earlier later : Hits) (key : String) (update : RateLimitReq)
      (item : CacheItem F) (t : TokenBucketItem) (p : Pool F S)
      → ((k : String) → sum k < 2 ^ 64)
      → StoreKeeps rt (Sound rt.fl)
      → All
          (λ (e : String × RateLimitReq).
            IsRegular (query e.1) × WaitsForward (query e.1) × IsTimed e.1)
          (earlier ++ ((key, update) ∷ later))
      → IsServing rt sum ceiling laws p
      → Holds rt sum ceiling now p update item t
      → Others rt sum ceiling
          (length p.caches)
          (worker_of rt sum ceiling (length p.caches) update)
          earlier
      → (p' : Pool F S) × (globals : List UpdatePeerGlobal) × (broadcast_globals rt sum ceiling now
            (earlier ++ ((key, update) ∷ later))
            p
          ≡ some (p', globals))
        × Listed (report update item t) globals
  unfolding broadcast_globals
  broadcast_reports laws now [] later key update item t p bound s h v held apart =
      let (p₁, out, e, v₁) =
        get_rate_limit_lem rt sum ceiling laws now (query update) false p bound s h.0.0 h.0.1 v in
      let (p₂, globals, e₂, _, _) =
        broadcast_globals_lem rt sum ceiling laws now later p₁ bound s h.1 v₁ in
      let (_, e₃) = first_reported rt sum ceiling now update item t p held in
      let same : out ≡ ok (state_of item t) =
        ap (λ (q : Pool F S × Outcome). q.1) (some-inj (sym e ∙ e₃)) in
      (
        p₂,
        entries rt sum ceiling update out globals,
        rw (e, broadcast_globals)
            (rw (e₂, broadcast_globals)
              (rw (with_status-entries rt sum ceiling update out globals h.0.2) refl)),
        subst
            (λ (o : Outcome).
              Listed (report update item t) (entries rt sum ceiling update o globals))
            (sym same) (inl refl),
      )
  broadcast_reports laws now ((k, r) ∷ earlier) later key update item t p bound s h v held apart =
      let (p₁, out, e, v₁) =
        get_rate_limit_lem rt sum ceiling laws now (query r) false p bound s h.0.0 h.0.1 v in
      let (w, moved) = get_rate_limit-after rt sum ceiling now r p p₁ out e in
      let held₁ =
        after-Holds rt sum ceiling now (worker_of rt sum ceiling (length p.caches) r) w update item
          t p held apart.0 in
      let size : length p₁.caches ≡ length p.caches =
        ap (λ (q : Pool F S). length q.caches) moved
        ∙ length-set_at (worker_of rt sum ceiling (length p.caches) r) w.cache p.caches in
      let (p₂, globals, e₂, found) =
        broadcast_reports laws now earlier later key update item t p₁ bound s h.1 v₁
          (subst (λ (q : Pool F S). Holds rt sum ceiling now q update item t) (sym moved) held₁)
          (subst (λ (n : ℕ). Others rt sum ceiling n (worker_of rt sum ceiling n update) earlier)
            (sym size) apart.1) in
      (
        p₂,
        entries rt sum ceiling r out globals,
        rw (e, broadcast_globals)
            (rw (e₂, broadcast_globals)
              (rw (with_status-entries rt sum ceiling r out globals h.0.2) refl)),
        entries-keeps (report update item t) r out globals found,
      )

  -- Take a pool whose caches are in order and sound, with between 1 and 2 ^ 63 workers, a number
  -- that divides 2 ^ 63; a checksum of 64 bits; float64 that keeps the cap laws; a store that hands
  -- out sound items only; and updates with no negative limit or burst and int64 limits whose time
  -- is set. Let one update of the batch be of a token bucket that its worker holds, not expired,
  -- with the update's limit and duration and without a reset, and let the updates before it be for
  -- other workers. Then the broadcast is put together without a panic and has the entry with this
  -- update's key, the bucket's remaining count, limit and time of expiry, and the bucket's own
  -- status if it is exhausted and else UNDER_LIMIT; each entry is about a key of the batch; and the
  -- pool is again such a pool.
  pub broadcast_globals-report :
      (laws : CapLaws rt.fl) (now : T) (earlier later : Hits) (key : String) (update : RateLimitReq)
      (item : CacheItem F) (t : TokenBucketItem) (p : Pool F S)
      → ((k : String) → sum k < 2 ^ 64)
      → StoreKeeps rt (Sound rt.fl)
      → All
          (λ (e : String × RateLimitReq).
            IsRegular (query e.1) × WaitsForward (query e.1) × IsTimed e.1)
          (earlier ++ ((key, update) ∷ later))
      → IsServing rt sum ceiling laws p
      → Holds rt sum ceiling now p update item t
      → Others rt sum ceiling
          (length p.caches)
          (worker_of rt sum ceiling (length p.caches) update)
          earlier
      → (p' : Pool F S) × (globals : List UpdatePeerGlobal) × (broadcast_globals rt sum ceiling now
            (earlier ++ ((key, update) ∷ later))
            p
          ≡ some (p', globals))
        × Listed (report update item t) globals
        × All (About (earlier ++ ((key, update) ∷ later))) globals
        × IsServing rt sum ceiling laws p'
  broadcast_globals-report laws now earlier later key update item t p bound s h v held apart =
      let (p', globals, e, about, v') =
        broadcast_globals_lem rt sum ceiling laws now (earlier ++ ((key, update) ∷ later)) p bound s
          h v in
      let (_, _, e₂, found) =
        broadcast_reports laws now earlier later key update item t p bound s h v held apart in
      let same = ap (λ (q : Pool F S × List UpdatePeerGlobal). q.1) (some-inj (sym e₂ ∙ e)) in
      (
        p',
        globals,
        e,
        subst (λ (gs : List UpdatePeerGlobal). Listed (report update item t) gs) same found,
        about,
        v',
      )
