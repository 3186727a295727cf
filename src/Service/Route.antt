-- ===== src/Service/Route.antt =====
-- GetRateLimits of gubernator.go: the checks on one request of a batch, and who handles it.
use Prim.Native.String.{◌++◌ as join}
use gubernator.Peers.Hash.{PeerClient, PeerKey, ReplicatedConsistentHash, Pick, get}
use gubernator.Peers.Successor.{IsRing, successor, get-successor}
use gubernator.Prelude.{
  ℤ, pos, String, List, map, Option, none, some, Bool, true, false, ◌≡◌, refl, ◌⊎◌, inl, inr, ap,
  ltb, str_eq, eq_iff, eqb_ℤ, ltb_ℤ, ◌∙◌, if◌then◌else◌, length, Bool-cases,
}
use gubernator.Service.Handlers.{max_batch_size, with_created_at}
use gubernator.Service.Validate.{IsSchedulable, validate_max_wait, validate_max_wait_iff}
use gubernator.Types.{RateLimitReq, hash_key, has_behavior, set_behavior, global, no_batching}

-- An error response, or the request as it is handled: here as the owner, here from the local cache
-- for another owner, or by a call of that owner.
pub data Route : Type 0 where
  refused : String → Route
  as_owner : RateLimitReq → Route
  as_cache : RateLimitReq → PeerClient → Route
  by_peer : RateLimitReq → PeerClient → Route
  -- the picker's index into an empty slice
  panics : Route

unfoldable pub force_global : Bool → RateLimitReq → RateLimitReq
force_global on r = if on then record r { behavior = set_behavior r.behavior global true } else r

-- The owner of a request that passed the checks.
unfoldable pub route_to : RateLimitReq → Pick → Route
route_to r (Pick.picked peer) =
    if peer.info.is_owner
    then Route.as_owner r
    else if has_behavior r.behavior global
    then Route.as_cache r peer
    else Route.by_peer r peer
route_to r Pick.pool_is_empty = Route.refused (
    join "Error in GetPeer, looking up peer that owns rate limit '"
      (join (hash_key r) "': Error in conf.LocalPicker.Get: unable to pick a peer; pool is empty"))
route_to r Pick.panics = Route.panics

-- One request of a batch, in a context that is not done.
unfoldable pub route : ℤ → Bool → ReplicatedConsistentHash → RateLimitReq → Route
route created_at forced picker r₀ =
    let r = force_global forced (with_created_at created_at r₀) in
    if str_eq r₀.unique_key ""
    then Route.refused "field 'unique_key' cannot be empty"
    else if str_eq r₀.name ""
    then Route.refused "field 'namespace' cannot be empty"
    else if str_eq (validate_max_wait r) ""
    then route_to r (get picker (hash_key r))
    else Route.refused (validate_max_wait r)

-- A batch over the limit is refused as a whole.
unfoldable pub route_batch :
    ℤ → Bool → ReplicatedConsistentHash → List RateLimitReq → Option (List Route)
route_batch created_at forced picker rs =
    if ltb max_batch_size (length rs) then none else some (map (route created_at forced picker) rs)

-- getGlobalRateLimit: the request that the local cache answers
unfoldable pub cached_request : RateLimitReq → RateLimitReq
cached_request r = record r {
  behavior = set_behavior (set_behavior r.behavior no_batching true) global false;
}

-- A max_wait request skips the batch queue of the peer.
unfoldable pub forward_request : RateLimitReq → RateLimitReq
forward_request r =
    if ltb_ℤ (pos 0) r.max_wait
    then record r { behavior = set_behavior r.behavior no_batching true }
    else r

-- The handler of a route with what it handles.
abbrev pub handled : Route → Option RateLimitReq
handled (Route.refused e) = none
handled (Route.as_owner r) = some r
handled (Route.as_cache r p) = some r
handled (Route.by_peer r p) = some r
handled Route.panics = none

keys_kept :
    (created_at : ℤ) (forced : Bool) (r : RateLimitReq)
    → hash_key (force_global forced (with_created_at created_at r)) ≡ hash_key r
unfolding force_global hash_key
keys_kept c true r =
    elim (Bool-cases (eqb_ℤ (elim r.created_at [ none ↦ pos 0 | some t ↦ t ]) (pos 0))) [
      | inl e ↦ rw e refl
      | inr e ↦ rw e refl
    ]
keys_kept c false r =
    elim (Bool-cases (eqb_ℤ (elim r.created_at [ none ↦ pos 0 | some t ↦ t ]) (pos 0))) [
      | inl e ↦ rw e refl
      | inr e ↦ rw e refl
    ]

-- Where a request that passes the checks goes.
abbrev owner_route : RateLimitReq → PeerClient → Route
owner_route r peer =
    if peer.info.is_owner
    then Route.as_owner r
    else if has_behavior r.behavior global
    then Route.as_cache r peer
    else Route.by_peer r peer

-- The request with its time and the forced behavior.
abbrev pub completed : ℤ → Bool → RateLimitReq → RateLimitReq
completed created_at forced r = force_global forced (with_created_at created_at r)

-- On a ring, a request with a name and a unique key whose max_wait, once its time and the forced
-- behavior are filled in, is 0 or supported goes to the owner of its key by the order of the ring:
-- it is handled here when that is this server, from the local cache when it is GLOBAL, and by the
-- owner else.
pub route_lem :
    (created_at : ℤ) (forced : Bool) (picker : ReplicatedConsistentHash) (r : RateLimitReq)
    → IsRing picker
    → str_eq r.unique_key "" ≡ false
    → str_eq r.name "" ≡ false
    → (((completed created_at forced r).max_wait ≡ pos 0)
        ⊎ IsSchedulable (completed created_at forced r))
    → (x : PeerKey) × (successor (picker.hash_func (hash_key r)) picker.peer_keys ≡ some x)
      × (route created_at forced picker r ≡ owner_route (completed created_at forced r) x.peer)
unfolding route route_to
route_lem created_at forced picker r v unique named wait =
    let q = completed created_at forced r in
    let (x, own, got) = get-successor picker (hash_key r) v in
    let fine = (eq_iff (validate_max_wait q) "").1 ((validate_max_wait_iff q).1 wait) in
    (
      x,
      own,
      rw (unique, route)
          (rw (named, route)
            (rw (fine, route)
              (ap (λ k. route_to q (get picker k)) (keys_kept created_at forced r)
                ∙ ap (route_to q) got))),
    )
