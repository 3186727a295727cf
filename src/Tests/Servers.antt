-- ===== src/Tests/Servers.antt =====
-- The theorems on the ring, the workers, the global rate limits and the server at concrete inputs.
use gubernator.Global.Batches.{on_its_way, waiting_batch_has_interval}
use gubernator.Global.Conserved.{batched, sent_hits, received_hits, hits_conserved}
use gubernator.Global.Hits.{Hits, HitsLoop, Run, new_loop, merge_hit, collect_hit, receive_hit}
use gubernator.Global.Send.{PeerRequests, assign_hits, requests_at, owned_by, assign_hits_lem}
use gubernator.Peers.Hash.{
  replica_keys, PeerKey, PeerKey, ReplicatedConsistentHash, Pick, new_replicated_consistent_hash,
  add, get,
}
use gubernator.Peers.Joins.{replica_keys-peer, Agree, add-IsRing, get-add}
use gubernator.Tests.Sorting.{tools, tools-Sorts}
use gubernator.Peers.Search.{search, IsMonotone, IsLeast, search-IsLeast}
use gubernator.Peers.Successor.{IsRing, successor, get-successor}
use gubernator.Prelude.GoMap.{GoMap, lookup, insert}
use gubernator.Prelude.{
  All-Listed, sym, ◌∙◌, Option, ℕ, ◌+◌, ◌*◌, ◌<◌, ℤ, pos, ◌⊎◌, ◌↔◌, ◌≢◌, String, List, [], ◌∷◌,
  some, Bool, true, false, ◌≡◌, refl, arith, inl, if◌then◌else◌, leb, str_eq,
}
use gubernator.Service.Handlers.{
  Pool, Node, UpdatePeerGlobal, get_peer_rate_limits, update_peer_globals, global_item,
}
use gubernator.Service.Route.{Route, route, route_lem, force_global}
use gubernator.Service.Sound.{IsServing}
use gubernator.Service.Exchange.{Answered, get_peer_rate_limits_lem}
use gubernator.Service.Stored.{AreFound, update_peer_globals_lem}
use gubernator.Interval.{epoch_millis}
use gubernator.Tests.Values.{
  milliseconds, whole_numbers-CapLaws, runtime, token_request, answer_of, ten-IsInt64,
}
use gubernator.Types.{is_expired, Algorithm, RateLimitReq, RateLimitResp, hash_key, has_behavior}
use gubernator.Workers.Ring.{
  IsPool, hash_space, hash_ring_step, worker_index, every_hash_has_worker_iff,
}
use gubernator.Tests.Pools.{
  last_checksum, peer_at, one_hit, two_workers, two_workers-IsServing, no_store, last_checksum_word,
  one_hit-IsRegular, node,
}

-- Workers: four share the hashes out, three do not.
four_workers : IsPool 4
four_workers = record { some_workers = omega arith; few_workers = omega arith }

every_hash_has_worker_iff_example :
    ((h : ℕ) → h < hash_space → worker_index 4 h < 4) ↔ (4 * hash_ring_step 4 ≡ hash_space)
every_hash_has_worker_iff_example = every_hash_has_worker_iff 4 four_workers

-- A ring of two peers, each with two replicas, under a hash that adds up no more than a length.
abbrev length_hash : String → ℕ
length_hash s =
    if str_eq s "0a" then 10 else if str_eq s "1a" then 30 else if str_eq s "0b" then 20 else 40

abbrev one_peer : ReplicatedConsistentHash
one_peer = add tools (peer_at "a" true) (new_replicated_consistent_hash length_hash 2)

abbrev two_peers : ReplicatedConsistentHash
two_peers = add tools (peer_at "b" false) one_peer

two_replicas : one_peer.replicas ≢ 0
unfolding add new_replicated_consistent_hash
two_replicas e = omega (arith, e)

one_peer-IsRing : IsRing one_peer
unfolding new_replicated_consistent_hash
one_peer-IsRing =
    add-IsRing tools tools-Sorts (peer_at "a" true) (new_replicated_consistent_hash length_hash 2)
      (λ e. omega (arith, e))

two_peers-IsRing : IsRing two_peers
two_peers-IsRing = add-IsRing tools tools-Sorts (peer_at "b" false) one_peer two_replicas

get-successor_example :
    (x : PeerKey) × (successor (two_peers.hash_func "key") two_peers.peer_keys ≡ some x)
    × (get two_peers "key" ≡ Pick.picked x.peer)
get-successor_example = get-successor two_peers "key" two_peers-IsRing

one_peer-Agree : Agree one_peer.peer_keys
unfolding add new_replicated_consistent_hash
one_peer-Agree x y at at' same =
    let one = peer_at "a" true in
    let keys = replica_keys length_hash one "a" 0 2 in
    let owned = replica_keys-peer length_hash one "a" 0 2 in
    All-Listed (λ (z : PeerKey). z.peer ≡ one) x keys owned (tools-Sorts.none_new x keys at)
    ∙ sym
        (All-Listed (λ (z : PeerKey). z.peer ≡ one) y keys owned (tools-Sorts.none_new y keys at'))

get-add_example :
    (get two_peers "key" ≡ Pick.picked (peer_at "b" false))
    ⊎ (get two_peers "key" ≡ get one_peer "key")
get-add_example =
    get-add tools tools-Sorts (peer_at "b" false) one_peer "key" one_peer-IsRing one_peer-Agree
      two_replicas

abbrev from_seven : ℕ → Bool
from_seven k = leb 7 k

from_seven-IsMonotone : IsMonotone from_seven
from_seven-IsMonotone = record { before = λ a b le e. ground arith }

search-IsLeast_example : IsLeast from_seven (search 100 from_seven)
search-IsLeast_example = search-IsLeast 100 from_seven from_seven-IsMonotone refl

-- The hits loop: two hits on a key, and a batch limit of two keys.
abbrev two_hits : HitsLoop
two_hits = (receive_hit 2 one_hit (receive_hit 2 one_hit new_loop).0).0

two_hits-Run : Run 2 two_hits (one_hit ∷ one_hit ∷ []) []
unfolding receive_hit collect_hit lookup insert merge_hit hash_key
two_hits-Run = Run.hit one_hit (Run.hit one_hit Run.start)

hits_conserved_example :
    sent_hits "requests_account" [] + batched "requests_account" two_hits.hits
    ≡ received_hits "requests_account" (one_hit ∷ one_hit ∷ [])
unfolding hash_key
hits_conserved_example =
    hits_conserved "requests_account" two_hits-Run (refl, (refl, tt)) (omega arith)

waiting_batch_has_interval_example : on_its_way two_hits.interval ≡ true
unfolding receive_hit collect_hit lookup insert merge_hit hash_key
waiting_batch_has_interval_example = waiting_batch_has_interval two_hits-Run (omega arith)

abbrev one_batch : Hits
one_batch = ("requests_account", one_hit) ∷ []

assign_hits_lem_example :
    (out : GoMap PeerRequests) × (assign_hits two_peers one_batch [] ≡ some out)
    × ((a : String) → requests_at a out ≡ owned_by two_peers a one_batch)
assign_hits_lem_example = assign_hits_lem two_peers one_batch two_peers-IsRing

route_lem_example :
    (x : PeerKey) × (successor (two_peers.hash_func "requests_account") two_peers.peer_keys
      ≡ some x)
    × (route (pos 1) false two_peers one_hit ≡ (
        if x.peer.info.is_owner
        then Route.as_owner one_hit
        else if has_behavior 0 2
        then Route.as_cache one_hit x.peer
        else Route.by_peer one_hit x.peer))
unfolding hash_key force_global
route_lem_example = route_lem (pos 1) false two_peers one_hit two_peers-IsRing refl refl (inl refl)

abbrev later_hit : RateLimitReq
later_hit = token_request (pos 5)

get_peer_rate_limits_lem_example :
    (n' : Node ℤ Unit) × (answer : Option (List RateLimitResp)) × (get_peer_rate_limits runtime
        last_checksum
        (pos 5000)
        1
        (one_hit ∷ [])
        node
      ≡ some (n', answer))
    × Answered (one_hit ∷ []) answer
    × IsServing runtime last_checksum (pos 5000) whole_numbers-CapLaws n'.pool
get_peer_rate_limits_lem_example =
    get_peer_rate_limits_lem runtime last_checksum (pos 5000) whole_numbers-CapLaws 1 (one_hit ∷ [])
      node last_checksum_word no_store (one_hit-IsRegular, tt) two_workers-IsServing

abbrev broadcast : UpdatePeerGlobal
broadcast = record {
  key = "requests_account";
  status = (answer_of (pos 4)).resp;
  algorithm = Algorithm.leaky_bucket;
  duration = pos 1000;
  created_at = pos 1;
}

update_peer_globals_lem_example :
    (p' : Pool ℤ Unit) × (update_peer_globals runtime last_checksum
        (pos 5000)
        1
        (broadcast ∷ [])
        two_workers
      ≡ some p')
    × IsServing runtime last_checksum (pos 5000) whole_numbers-CapLaws p'
    × AreFound runtime last_checksum (pos 5000) 1 1 p' (broadcast ∷ [])
update_peer_globals_lem_example =
    update_peer_globals_lem runtime last_checksum (pos 5000) whole_numbers-CapLaws 1 1
      (broadcast ∷ []) two_workers last_checksum_word
      (record { remaining = omega arith; limit = omega arith; limit_word = ten-IsInt64 }, tt)
      two_workers-IsServing

-- It is live, and no other broadcast follows.
broadcast_live :
    is_expired
      (epoch_millis milliseconds 1)
      (global_item runtime last_checksum (pos 5000) (epoch_millis milliseconds 1) broadcast)
    ≡ false
unfolding is_expired global_item epoch_millis
broadcast_live = ground arith
