-- ===== src/Peers/Hash.antt =====
-- ReplicatedConsistentHash of replicated_hash.go. md5 in hexadecimal and sort.Slice are parameters,
-- and so is the hash function, which the code takes as one.
use Prim.Native.String.{◌++◌ as join, slice}
use gubernator.Peers.Search.{search}
use gubernator.Prelude.GoMap.{GoMap, lookup, insert}
use gubernator.Prelude.{
  ℕ, zero, suc, ◌+◌, ◌/◌, ◌%◌, String, List, [], ◌∷◌, ◌++◌, map, Option, none, some, Bool, true,
  ltb, leb, ◌==◌, if◌then◌else◌, length, get_elem?,
}

-- config.go
pub record PeerInfo : Type 0 where
  pub data_center : String
  pub http_address : String
  pub grpc_address : String
  pub is_owner : Bool

-- A peer's client, as the pickers see it.
pub record PeerClient : Type 0 where
  pub info : PeerInfo

-- strconv.Itoa of a number that is not negative
digits_of : ℕ → ℕ → String → String
digits_of zero n acc = acc
digits_of (suc fuel) n acc =
    let digit = join (slice "0123456789" (n % 10) (n % 10 + 1)) acc in
    let rest = digits_of fuel (n / 10) digit in if ltb n 10 then digit else rest

pub itoa : ℕ → String
unfolding digits_of
itoa n = digits_of (suc n) n ""

pub record PeerKey : Type 0 where
  pub hash : ℕ
  pub peer : PeerClient

-- md5.Sum in hexadecimal, and sort.Slice by the hash, which may put equal hashes in any order.
pub record RingTools : Type 0 where
  pub md5_hex : String → String
  pub sort_slice : List PeerKey → List PeerKey

pub record ReplicatedConsistentHash : Type 0 where
  pub hash_func : String → ℕ
  pub peer_keys : List PeerKey
  pub peers : GoMap PeerClient
  pub replicas : ℕ

pub data Pick : Type 0 where
  picked : PeerClient → Pick
  pool_is_empty : Pick
  -- an index into an empty slice
  panics : Pick

unfoldable pub new_replicated_consistent_hash : (String → ℕ) → ℕ → ReplicatedConsistentHash
new_replicated_consistent_hash fn replicas = record {
  hash_func = fn;
  peer_keys = [];
  peers = [];
  replicas = replicas;
}

unfoldable pub new_picker : ReplicatedConsistentHash → ReplicatedConsistentHash
new_picker ch = record {
  hash_func = ch.hash_func;
  peer_keys = [];
  peers = [];
  replicas = ch.replicas;
}

unfoldable pub peers_of : ReplicatedConsistentHash → List PeerClient
peers_of ch = map (λ e. e.1) ch.peers

unfoldable pub get_by_peer_info : ReplicatedConsistentHash → PeerInfo → Option PeerClient
get_by_peer_info ch peer = lookup peer.grpc_address ch.peers

-- the keys that a peer gets, from the replica `i` on
unfoldable pub replica_keys : (String → ℕ) → PeerClient → String → ℕ → ℕ → List PeerKey
replica_keys fn peer key i zero = []
replica_keys fn peer key i (suc left) =
    record { hash = fn (join (itoa i) key); peer = peer } ∷ replica_keys fn peer key (suc i) left

module _ (tools : RingTools) where
  unfoldable pub add : PeerClient → ReplicatedConsistentHash → ReplicatedConsistentHash
  add peer ch =
      let address = peer.info.grpc_address in
      record ch {
        peers = insert address peer ch.peers;
        peer_keys =
            tools.sort_slice (
              ch.peer_keys ++ replica_keys ch.hash_func peer (tools.md5_hex address) 0 ch.replicas);
      }

-- `ch.peerKeys[i].hash >= hash`; sort.Search never asks past the end.
unfoldable pub key_ge : List PeerKey → ℕ → ℕ → Bool
key_ge keys hash i = elim (get_elem? keys i) [ none ↦ true | some p ↦ leb hash p.hash ]

abbrev pub pick_at : List PeerKey → ℕ → Pick
pick_at keys i = elim (get_elem? keys i) [ none ↦ Pick.panics | some p ↦ Pick.picked p.peer ]

unfoldable pub get : ReplicatedConsistentHash → String → Pick
get ch key =
    let keys = ch.peer_keys in
    let idx = search (length keys) (key_ge keys (ch.hash_func key)) in
    if length ch.peers == 0
    then Pick.pool_is_empty
    else pick_at keys (if idx == length keys then 0 else idx)
