-- ===== src/Token/Window.antt =====
-- Any number of requests to one token bucket in one window: what they are charged in all.
use gubernator.Interval.{epoch_millis}
use gubernator.Prelude.{
  ℕ, ◌+◌, ◌≤◌, pos, pos_part, ◌≤ℤ◌, String, List, [], ◌∷◌, Bool, false, ◌≡◌, refl, arith, All,
  subst, sym, ◌∙◌,
}
use gubernator.Token.Bucket.{token_bucket, under_limit_resp}
use gubernator.Token.Decision.{InLimit, charged, decide-InLimit, decide-conserves}
use gubernator.Token.Live.{SameConfig, decided, with_token, token_bucket_live}
use gubernator.Types.{CacheItem, Value, TokenBucketItem, RateLimitReq, hash_key, is_expired}
use gubernator.World.{Runtime, World, Outcome, ok, err}
use gubernator.World.Fetch.{Holding}

-- What an answer charged the bucket.
abbrev pub outcome_charge : RateLimitReq → Outcome → ℕ
outcome_charge r (ok rl) = pos_part (charged r rl)
outcome_charge r (err e) = 0

module _ {F S T : Type 0} (rt : Runtime F S T) (is_owner : Bool) where
  -- What a sequence of requests is charged, in order.
  unfoldable pub total_charge : List (T × RateLimitReq) → World F S → ℕ
  total_charge [] w = 0
  total_charge ((now, r) ∷ calls) w =
      outcome_charge r (token_bucket rt now r is_owner w).1
      + total_charge calls (token_bucket rt now r is_owner w).0

  -- A request for the bucket's key and configuration, before the bucket expires.
  pub record InWindow (key : String) (item : CacheItem F) (t : TokenBucketItem)
      (call : T × RateLimitReq) : Type 0 where
    pub keyed : hash_key call.1 ≡ key
    pub live : is_expired (epoch_millis rt.cal call.0) item ≡ false
    pub same : SameConfig call.1 t
    pub nonneg : pos 0 ≤ℤ call.1.hits

  -- The window is the item's, whatever the bucket has left.
  InWindow-next :
      (key : String) (item : CacheItem F) (t t' : TokenBucketItem) (calls : List (T × RateLimitReq))
      → t'.limit ≡ t.limit
      → t'.duration ≡ t.duration
      → All (InWindow key item t) calls
      → All (InWindow key (with_token rt item t') t') calls
  unfolding is_expired
  InWindow-next key item t t' [] l d h = tt
  InWindow-next key item t t' ((now, r) ∷ calls) l d h = (
    record {
      keyed = h.0.keyed;
      live = h.0.live;
      same = record {
        limit = h.0.same.limit ∙ sym l;
        duration = h.0.same.duration ∙ sym d;
        no_reset = h.0.same.no_reset;
      };
      nonneg = h.0.nonneg;
    },
    InWindow-next key item t t' calls l d h.1,
  )

  pub total_charge-le :
      (calls : List (T × RateLimitReq)) (w : World F S) (key : String) (item : CacheItem F)
      (t : TokenBucketItem)
      → Holding w key item
      → item.value ≡ Value.token t
      → InLimit t
      → All (InWindow key item t) calls
      → total_charge calls w ≤ pos_part t.remaining
  unfolding total_charge
  total_charge-le [] w key item t held e v h = omega arith
  total_charge-le ((now, r) ∷ calls) w key item t held e v h =
      let held' = subst (λ k. Holding w k item) (sym h.0.keyed) held in
      let (next, answer) = token_bucket_live rt now r is_owner w item t held' h.0.live e h.0.same in
      let rl = under_limit_resp r t.remaining item.expire_at in
      let t' = (decided rt r item t).0 in
      let (kept, l, d) = decide-InLimit r t rl h.0.nonneg v refl in
      let rest =
        total_charge-le calls (token_bucket rt now r is_owner w).0 key (with_token rt item t') t'
          (subst (λ k. Holding (token_bucket rt now r is_owner w).0 k (with_token rt item t'))
            h.0.keyed next)
          refl kept (InWindow-next key item t t' calls l d h.1) in
      rw answer (omega (arith, rest, decide-conserves r t rl h.0.nonneg v refl refl))
