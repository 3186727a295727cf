-- ===== src/Service/Report.antt =====
-- The query of broadcastPeers in global.go on a bucket that its worker holds.
use gubernator.Cache.Lru.{LruCache}
use gubernator.Global.Hits.{Hits}
use gubernator.Interval.{epoch_millis}
use gubernator.Prelude.{
  ℕ, ℤ, pos, String, none, some, false, ◌≡◌, ◌≢◌, refl, sym, ap, ◌∙◌, inl, inr, All, length,
  get_elem?, Option-cases, arith, eqb_ℤ, eqb_ℤ_iff, if◌then◌else◌,
}
use gubernator.Service.Broadcast.{query}
use gubernator.Service.Handlers.{
  Pool, UpdatePeerGlobal, get_rate_limit, handle_get_rate_limit, handle_algorithm, seen_by, after,
}
use gubernator.Service.Sound.{length-set_at, some-inj}
use gubernator.Service.Stored.{get-set_at_other}
use gubernator.Token.Bucket.{token_bucket, decide, under_limit_resp}
use gubernator.Token.Live.{SameConfig, token_bucket_live}
use gubernator.Types.{
  Algorithm, CacheItem, Value, Status, TokenBucketItem, RateLimitReq, RateLimitResp, created_at_of,
  hash_key, is_expired,
}
use gubernator.Workers.Ring.{worker_index, compute_hash63}
use gubernator.World.{Runtime, World, Outcome, ok}
use gubernator.World.Fetch.{Holding}

-- The state of a token bucket: an exhausted one keeps its status.
abbrev pub state_of : {F : Type 0} → CacheItem F → TokenBucketItem → RateLimitResp
state_of item t = record {
  status = if eqb_ℤ t.remaining (pos 0) then t.status else Status.under_limit;
  limit = t.limit;
  remaining = t.remaining;
  reset_time = item.expire_at;
  error = "";
  retry_after = pos 0;
  owner = none;
}

-- The broadcast of this state.
abbrev pub report : {F : Type 0} → RateLimitReq → CacheItem F → TokenBucketItem → UpdatePeerGlobal
report update item t = record {
  key = hash_key update;
  status = state_of item t;
  algorithm = update.algorithm;
  duration = update.duration;
  created_at = created_at_of update;
}

decide-query :
    {F : Type 0} (r : RateLimitReq) (item : CacheItem F) (t : TokenBucketItem)
    → r.limit ≡ t.limit
    → (decide (query r) t (under_limit_resp (query r) t.remaining item.expire_at)).1
      ≡ state_of item t
unfolding decide
decide-query r item t e = ground (arith, eqb_ℤ_iff t.remaining (pos 0))

module _ {F S T : Type 0} (rt : Runtime F S T) (sum : String → ℕ) (ceiling : ℤ) where
  abbrev pub worker_of : ℕ → RateLimitReq → ℕ
  worker_of n r = worker_index n (compute_hash63 sum (hash_key r))

  -- The worker of an update's key holds a live token bucket with the update's configuration.
  pub record Holds (now : T) (p : Pool F S) (update : RateLimitReq) (item : CacheItem F)
      (t : TokenBucketItem) : Type 0 where
    pub cache : LruCache F
    pub at : get_elem? p.caches (worker_of (length p.caches) update) ≡ some cache
    pub held : Holding (seen_by cache p) (hash_key update) item
    pub live : is_expired (epoch_millis rt.cal now) item ≡ false
    pub is_token : item.value ≡ Value.token t
    pub same : SameConfig update t
    pub algorithm : update.algorithm ≡ Algorithm.token_bucket

  -- The updates of a batch are for other workers.
  abbrev pub Others : ℕ → ℕ → Hits → Type 0
  Others n i updates = All (λ (e : String × RateLimitReq). worker_of n e.1 ≢ i) updates

  token_algorithm :
      (now : T) (r : RateLimitReq) (a : Algorithm) (w : World F S)
      → a ≡ Algorithm.token_bucket
      → (resp : RateLimitResp) → (token_bucket rt now r false w).1 ≡ ok resp
      → (handle_algorithm rt sum ceiling now r false a w).1 ≡ ok resp
  unfolding handle_algorithm
  token_algorithm now r a w e resp answer = rw (e, handle_algorithm) (rw answer refl)

  query_held :
      (now : T) (update : RateLimitReq) (item : CacheItem F) (t : TokenBucketItem) (w : World F S)
      → Holding w (hash_key update) item
      → is_expired (epoch_millis rt.cal now) item ≡ false
      → item.value ≡ Value.token t
      → SameConfig update t
      → update.algorithm ≡ Algorithm.token_bucket
      → (handle_get_rate_limit rt sum ceiling now (query update) false w).1 ≡ ok (state_of item t)
  unfolding handle_get_rate_limit handle_algorithm hash_key
  query_held now update item t w held live is_token same algorithm =
      let config : SameConfig (query update) t = record {
        limit = same.limit;
        duration = same.duration;
        no_reset = same.no_reset;
      } in
      let answer =
        (token_bucket_live rt now (query update) false w item t held live is_token config).1 in
      token_algorithm now (query update) update.algorithm w algorithm (state_of item t)
        (answer ∙ ap ok (decide-query update item t same.limit))

  pub first_reported :
      (now : T) (update : RateLimitReq) (item : CacheItem F) (t : TokenBucketItem) (p : Pool F S)
      → Holds now p update item t
      → (p' : Pool F S) × (get_rate_limit rt sum ceiling now (query update) false p
          ≡ some (p', ok (state_of item t)))
  unfolding get_rate_limit hash_key
  first_reported now update item t p h =
      let w = handle_get_rate_limit rt sum ceiling now (query update) false (seen_by h.cache p) in
      let answer =
        query_held now update item t (seen_by h.cache p) h.held h.live h.is_token h.same
          h.algorithm in
      (
        after (worker_of (length p.caches) update) w.0 p,
        rw (h.at, get_rate_limit)
            (ap (λ o. some (after (worker_of (length p.caches) update) w.0 p, o)) answer),
      )

  -- A query for another worker's key leaves the bucket.
  pub after-Holds :
      (now : T) (i : ℕ) (w : World F S) (update : RateLimitReq) (item : CacheItem F)
      (t : TokenBucketItem) (p : Pool F S)
      → Holds now p update item t
      → i ≢ worker_of (length p.caches) update
      → Holds now (after i w p) update item t
  after-Holds now i w update item t p h n =
      let size = length-set_at i w.cache p.caches in
      record {
        cache = h.cache;
        at =
            ap (λ (m : ℕ). get_elem? (after i w p).caches (worker_of m update)) size
            ∙ (get-set_at_other i (worker_of (length p.caches) update) w.cache p.caches n ∙ h.at);
        held = record { valid = h.held.valid; found = h.held.found };
        live = h.live;
        is_token = h.is_token;
        same = h.same;
        algorithm = h.algorithm;
      }

  pub get_rate_limit-after :
      (now : T) (r : RateLimitReq) (p p' : Pool F S) (out : Outcome)
      → get_rate_limit rt sum ceiling now (query r) false p ≡ some (p', out)
      → (w : World F S) × (p' ≡ after (worker_of (length p.caches) r) w p)
  unfolding get_rate_limit hash_key
  get_rate_limit-after now r p p' out e =
      elim (Option-cases (get_elem? p.caches (worker_of (length p.caches) r))) [
        | inl gone ↦
            let broken : get_rate_limit rt sum ceiling now (query r) false p ≡ none =
              rw (gone, get_rate_limit) refl in
            absurd (cc)
        | inr (c, at) ↦
            let w = handle_get_rate_limit rt sum ceiling now (query r) false (seen_by c p) in
            let served : get_rate_limit rt sum ceiling now (query r) false p
                ≡ some (after (worker_of (length p.caches) r) w.0 p, w.1) =
              rw (at, get_rate_limit) refl in
            (w.0, ap (λ (q : Pool F S × Outcome). q.0) (some-inj (sym e ∙ served)))
      ]
