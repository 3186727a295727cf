-- ===== src/Tests/Clusters.antt =====
-- The theorems on the server's peers, its start and its restart at concrete inputs.
use gubernator.Cache.Invariant.{new-IsValid}
use gubernator.Cache.Lru.{LruCache, new_lru_cache}
use gubernator.Cache.Lru
use gubernator.Cache.Eviction.{add-refines}
use gubernator.Peers.Hash.{PeerInfo, PeerClient, new_replicated_consistent_hash, add}
use gubernator.Peers.Region.{new_region_picker}
use gubernator.Prelude.GoMap.{lookup, insert}
use gubernator.Prelude.{
  ℕ, ◌≤◌, ℤ, pos, String, List, [], ◌∷◌, Option, none, some, true, false, ◌≡◌, ◌↔◌, refl, arith,
  str_eq, if◌then◌else◌,
}
use gubernator.Service.Handlers.{Pool, Node}
use gubernator.Service.Health.{Found, get_peer}
use gubernator.Service.Instance.{get_global_rate_limit, Queued, get_global_rate_limit_lem}
use gubernator.Service.Members.{set_peers_members}
use gubernator.Service.Placing.{is_member}
use gubernator.Service.Membership.{Pickers, set_peers}
use gubernator.Service.Persist.{
  worker_of, MockLoader, mock_loader, new_mock_loader, store, load, default_cache_size,
  new_worker_pool,
}
use gubernator.Service.Picks.{ArePickers, set_peers-ArePickers}
use gubernator.Service.Restart.{IsStorable, restarted, item_found, load-store}
use gubernator.Service.Sound.{IsServing}
use gubernator.Service.Start.{total_size, new_worker_pool-IsServing}
use gubernator.Tests.Sorting.{tools, tools-Sorts}
use gubernator.Tests.Pools.{
  last_checksum, last_checksum_word, peer_at, node, no_store, one_hit, one_hit-IsRegular,
  two_workers-IsServing,
}
use gubernator.Tests.Values.{
  runtime, whole_numbers, whole_numbers-CapLaws, small_cache, item_of, token_of,
}
use gubernator.Types.{Value, RateLimitReq, CacheItem}
use gubernator.Workers.Ring.{IsPool, hash_ring_step, worker_index, compute_hash63}
use gubernator.World.{Outcome}

abbrev any_hash : String → ℕ
any_hash s = if str_eq s "0a:1051" then 10 else 20

abbrev reachable : String → Option String
reachable address = none

-- A server that knows one peer of its own data center.
abbrev one_peer : Pickers
one_peer = record {
  local_picker = add tools (peer_at "a:1051" true) (new_replicated_consistent_hash any_hash 2);
  region_picker = new_region_picker any_hash;
}

-- The known peer, a new one, and one of another data center.
abbrev three_peers : List PeerInfo
three_peers =
    (peer_at "a:1051" true).info
    ∷ (peer_at "b:1051" false).info
    ∷ record ((peer_at "c:1051" false).info) { data_center = "east" }
    ∷ []

set_peers_members_example :
    ((lookup "a:1051" (set_peers tools reachable "" three_peers one_peer).0.local_picker.peers
        ≡ none)
      ↔ (is_member "" "a:1051" three_peers ≡ false))
    × ((p : PeerClient)
        → lookup "a:1051" one_peer.local_picker.peers ≡ some p
        → is_member "" "a:1051" three_peers ≡ true
        → lookup "a:1051" (set_peers tools reachable "" three_peers one_peer).0.local_picker.peers
          ≡ some p)
unfolding add new_replicated_consistent_hash insert
set_peers_members_example =
    set_peers_members tools reachable "" three_peers one_peer "a:1051" (refl, tt)
      (refl, (refl, (refl, tt)))

one_peer-ArePickers : ArePickers one_peer
unfolding add new_replicated_consistent_hash new_region_picker
one_peer-ArePickers = record {
  replicas = λ e. omega (arith, e);
  regional = record { replicas = λ e. omega (arith, e); rings = tt };
}

set_peers-ArePickers_example :
    ArePickers (set_peers tools reachable "" three_peers one_peer).0
    × ((p : PeerClient) × (get_peer
            (set_peers tools reachable "" three_peers one_peer).0.local_picker
            "key"
          ≡ Found.peer p))
unfolding is_member
set_peers-ArePickers_example =
    set_peers-ArePickers tools tools-Sorts reachable "" three_peers one_peer "b:1051" "key"
      one_peer-ArePickers (refl, (refl, (refl, tt))) refl

-- The second of two workers holds an item.
abbrev held : CacheItem ℤ
held = item_of "requests_account" (Value.token (token_of (pos 7)))

abbrev holding : LruCache ℤ
holding = (Lru.add whole_numbers (pos 1) held small_cache).0

abbrev holding_pool : Pool ℤ Unit
holding_pool = record { caches = small_cache ∷ holding ∷ []; stored = tt; metrics = [] }

small-IsStorable : IsStorable runtime last_checksum small_cache
unfolding new_lru_cache
small-IsStorable = (new-IsValid 2, tt, omega arith)

held_by_second : worker_of runtime last_checksum 2 held ≡ 1
unfolding worker_index compute_hash63 hash_ring_step
held_by_second = refl

load-store_example :
    ((store mock_loader new_mock_loader holding_pool).1 ≡ none)
    × ((l : MockLoader ℤ) × (p' : Pool ℤ Unit) × (load runtime last_checksum mock_loader 2
            (store mock_loader new_mock_loader holding_pool).0
            (restarted holding_pool)
          ≡ some (l, p', none))
        × ((key : String)
            → item_found runtime last_checksum 3 key p'
              ≡ item_found runtime last_checksum 3 key holding_pool))
unfolding Lru.add Lru.add_new Lru.evict new_lru_cache lookup insert
load-store_example =
    load-store runtime last_checksum 2 3 holding_pool
      (
        small-IsStorable,
        (
          (
            (add-refines whole_numbers (pos 1) held small_cache (new-IsValid 2)).0,
            (refl, tt),
            omega arith,
          ),
          tt,
        ),
      )
      (tt, ((held_by_second, tt), tt))

two_workers_pool : IsPool 2
two_workers_pool = record { some_workers = omega arith; few_workers = omega arith }

new_worker_pool-IsServing_example :
    IsServing runtime last_checksum
      (pos 5000)
      whole_numbers-CapLaws
      (new_worker_pool {F = ℤ} 100 2 tt)
    × (total_size (new_worker_pool {F = ℤ} {S = Unit} 100 2 tt).caches ≤ default_cache_size 100)
unfolding hash_ring_step
new_worker_pool-IsServing_example =
    new_worker_pool-IsServing runtime last_checksum (pos 5000) whole_numbers-CapLaws 100 2 tt
      two_workers_pool refl (omega arith)

get_global_rate_limit_lem_example :
    (res : Node ℤ Unit × List RateLimitReq × Outcome) × (get_global_rate_limit runtime last_checksum
        (pos 5000)
        1
        one_hit
        node
        []
      ≡ some res)
    × Queued runtime last_checksum (pos 5000) whole_numbers-CapLaws one_hit node [] res
get_global_rate_limit_lem_example =
    get_global_rate_limit_lem runtime last_checksum (pos 5000) whole_numbers-CapLaws 1 one_hit node
      [] last_checksum_word no_store one_hit-IsRegular (omega arith) two_workers-IsServing
