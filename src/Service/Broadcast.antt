-- ===== src/Service/Broadcast.antt =====
-- QueueUpdate, runBroadcasts and broadcastPeers of global.go: the owner of a GLOBAL rate limit tells
-- the other peers what its buckets hold.
use gubernator.Global.Hits.{Hits, Interval, next}
use gubernator.Leaky.Capped.{CapLaws, WaitsForward}
use gubernator.Peers.Hash.{PeerClient}
use gubernator.Prelude.GoMap.{lookup, insert, lookup-insert}
use gubernator.Prelude.{
  ℕ, ◌^◌, ◌<◌, ℤ, pos, String, List, [], ◌∷◌, Option, none, some, false, ◌≡◌, ◌≢◌, Option-cases,
  refl, ◌⊎◌, inl, inr, All, leb, ◌==◌, str_eq, if◌then◌else◌, length, Bool-cases,
}
use gubernator.Service.Handlers.{Pool, UpdatePeerGlobal, get_rate_limit}
use gubernator.Service.Sound.{IsRegular, IsServing, get_rate_limit_lem}
use gubernator.Sound.{Sound}
use gubernator.Types.{RateLimitReq, created_at_of, hash_key}
use gubernator.World.{Runtime, Outcome, ok, err}
use gubernator.World.Keeps.{StoreKeeps}

pub record BroadcastLoop : Type 0 where
  pub updates : Hits
  pub interval : Interval

-- The case of an update: a later update of a key replaces an earlier one.
unfoldable pub receive_update : ℕ → RateLimitReq → BroadcastLoop → BroadcastLoop × List Hits
receive_update batch_limit update s =
    let updates = insert (hash_key update) update s.updates in
    if leb batch_limit (length updates) then (record s { updates = [] }, updates ∷ []) else (
      record {
        updates = updates;
        interval = if length updates == 1 then next s.interval else s.interval;
      },
      [],
    )

unfoldable pub broadcast_tick : BroadcastLoop → BroadcastLoop × List Hits
broadcast_tick s =
    let interval : Interval = record (s.interval) { ticked = false } in
    if length s.updates == 0
    then (record s { interval = interval }, [])
    else (record { updates = []; interval = interval }, s.updates ∷ [])

-- What waits or was just sent.
abbrev pub newest : BroadcastLoop × List Hits → Hits
newest (s, []) = s.updates
newest (s, batch ∷ _) = batch

-- After runBroadcasts receives an update, what waits or was just sent has that update under its
-- key, and under each other key what waited before.
pub receive_update_lem :
    (k : String) (n : ℕ) (update : RateLimitReq) (s : BroadcastLoop)
    → lookup k (newest (receive_update n update s))
      ≡ (if str_eq (hash_key update) k then some update else lookup k s.updates)
unfolding receive_update
receive_update_lem k n update s =
    elim (Bool-cases (leb n (length (insert (hash_key update) update s.updates)))) [
      | inl full ↦ rw (full, receive_update) (lookup-insert (hash_key update) k update s.updates)
      | inr room ↦ rw (room, receive_update) (lookup-insert (hash_key update) k update s.updates)
    ]

-- Its CreatedAt is not nil, as GetRateLimits and GetPeerRateLimits see to.
abbrev pub IsTimed : RateLimitReq → Type 0
IsTimed r = r.created_at ≢ none

-- An update without its hits: it asks for the state of the bucket.
abbrev pub query : RateLimitReq → RateLimitReq
query update = record update { hits = pos 0 }

-- The peers that a broadcast is sent to.
unfoldable pub recipients : List PeerClient → List PeerClient
recipients [] = []
recipients (p ∷ ps) = let rest = recipients ps in if p.info.is_owner then rest else p ∷ rest

-- A broadcast about a key of the batch.
abbrev pub About : Hits → UpdatePeerGlobal → Type 0
About [] g = ⊥
About ((k, r) ∷ hits) g = (g.key ≡ hash_key r) ⊎ About hits g

All-About :
    (k : String) (r : RateLimitReq) (hits : Hits) (gs : List UpdatePeerGlobal)
    → All (About hits) gs
    → All (About ((k, r) ∷ hits)) gs
All-About k r hits [] h = tt
All-About k r hits (g ∷ gs) h = (inr h.0, All-About k r hits gs h.1)

module _ {F S T : Type 0} (rt : Runtime F S T) (sum : String → ℕ) (ceiling : ℤ) where
  -- The time of an update is read when its state is known; without one that is a panic.
  unfoldable pub with_status :
      RateLimitReq → Outcome → List UpdatePeerGlobal → Option (List UpdatePeerGlobal)
  with_status update (ok resp) globals = elim update.created_at [
    | none ↦ none
    | some created_at ↦ some (
        record {
          key = hash_key update;
          status = resp;
          algorithm = update.algorithm;
          duration = update.duration;
          created_at = created_at;
        }
        ∷ globals)
  ]
  with_status update (err e) globals = some globals

  -- The body of the broadcast; an update whose state cannot be read is logged and left out.
  unfoldable pub broadcast_globals : T → Hits → Pool F S → Option (Pool F S × List UpdatePeerGlobal)
  broadcast_globals now [] p = some (p, [])
  broadcast_globals now ((k, update) ∷ updates) p =
      elim (get_rate_limit rt sum ceiling now (query update) false p) [
        | none ↦ none
        | some (p', out) ↦ elim (broadcast_globals now updates p') [
          | none ↦ none
          | some (p'', globals) ↦ elim (with_status update out globals) [
            | none ↦ none
            | some globals' ↦ some (p'', globals')
          ]
        ]
      ]

  -- The entries after an update whose time is set.
  abbrev pub entries : RateLimitReq → Outcome → List UpdatePeerGlobal → List UpdatePeerGlobal
  entries update (ok resp) globals =
      record {
        key = hash_key update;
        status = resp;
        algorithm = update.algorithm;
        duration = update.duration;
        created_at = created_at_of update;
      }
      ∷ globals
  entries update (err e) globals = globals

  pub with_status-entries :
      (r : RateLimitReq) (out : Outcome) (gs : List UpdatePeerGlobal)
      → IsTimed r
      → with_status r out gs ≡ some (entries r out gs)
  unfolding with_status
  with_status-entries r (ok resp) gs timed = elim (Option-cases r.created_at) [
    | inl unset ↦ absurd (timed unset)
    | inr (c, set) ↦ rw (set, with_status) (rw set refl)
  ]
  with_status-entries r (err e) gs timed = refl

  entries-About :
      (k : String) (r : RateLimitReq) (hits : Hits) (out : Outcome) (gs : List UpdatePeerGlobal)
      → All (About hits) gs
      → All (About ((k, r) ∷ hits)) (entries r out gs)
  entries-About k r hits (ok resp) gs h = (inl refl, All-About k r hits gs h)
  entries-About k r hits (err e) gs h = All-About k r hits gs h

  -- Take a pool whose caches are in order and sound, with between 1 and 2 ^ 63 workers, a number
  -- that divides 2 ^ 63; a checksum of 64 bits; float64 that keeps the cap laws; a store that hands
  -- out sound items only; and updates with no negative limit or burst and int64 limits whose time is set. Then a
  -- broadcast is put together without a panic, each of its entries is about a key of the batch, and
  -- the pool is again such a pool.
  pub broadcast_globals_lem :
      (laws : CapLaws rt.fl) (now : T) (updates : Hits) (p : Pool F S)
      → ((key : String) → sum key < 2 ^ 64)
      → StoreKeeps rt (Sound rt.fl)
      → All (λ e. IsRegular (query e.1) × WaitsForward (query e.1) × IsTimed e.1) updates
      → IsServing rt sum ceiling laws p
      → (p' : Pool F S) × (globals : List UpdatePeerGlobal) × (broadcast_globals now updates p
          ≡ some (p', globals))
        × All (About updates) globals
        × IsServing rt sum ceiling laws p'
  unfolding broadcast_globals
  broadcast_globals_lem laws now [] p bound s h v = (p, [], refl, tt, v)
  broadcast_globals_lem laws now ((k, update) ∷ updates) p bound s h v =
      let (p₁, out, e, v₁) =
        get_rate_limit_lem rt sum ceiling laws now (query update) false p bound s h.0.0 h.0.1 v in
      let (p₂, globals, e₂, listed, v₂) =
        broadcast_globals_lem laws now updates p₁ bound s h.1 v₁ in
      (
        p₂,
        entries update out globals,
        rw (e, broadcast_globals)
            (rw (e₂, broadcast_globals) (rw (with_status-entries update out globals h.0.2) refl)),
        entries-About k update updates out globals listed,
        v₂,
      )
