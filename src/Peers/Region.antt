-- ===== src/Peers/Region.antt =====
-- RegionPicker of region_picker.go: one picker for each data center. Its queue of requests is used
-- by nothing.
use gubernator.Peers.Hash.{
  RingTools, PeerInfo, PeerClient, ReplicatedConsistentHash, Pick, new_replicated_consistent_hash,
  new_picker, peers_of, get_by_peer_info, add, get,
}
use gubernator.Peers.Joins.{Sorts, add-IsRing}
use gubernator.Peers.Successor.{IsRing, get-successor}
use gubernator.Prelude.GoMap.{GoMap, lookup, insert, lookup-insert}
use gubernator.Prelude.{
  ℕ, suc, String, List, [], ◌∷◌, ◌++◌, Option, none, some, ◌≡◌, ◌≢◌, refl, ap, subst, arith, All,
  str_eq, if◌then◌else◌, length, Option-cases, Bool-cases, inl, inr,
}

abbrev pub default_replicas : ℕ
default_replicas = 512

pub record RegionPicker : Type 0 where
  pub hash : ReplicatedConsistentHash
  pub regions : GoMap ReplicatedConsistentHash

unfoldable pub new_region_picker : (String → ℕ) → RegionPicker
new_region_picker fn = record {
  hash = new_replicated_consistent_hash fn default_replicas;
  regions = [];
}

unfoldable pub new_of : RegionPicker → RegionPicker
new_of rp = record { hash = new_picker rp.hash; regions = [] }

-- GetClients: the clients of all regions, or the first failure
pub data Clients : Type 0 where
  clients : List PeerClient → Clients
  error : Clients
  panic : Clients

unfoldable pub and_client : PeerClient → Clients → Clients
and_client p (Clients.clients ps) = Clients.clients (p ∷ ps)
and_client p Clients.error = Clients.error
and_client p Clients.panic = Clients.panic

unfoldable pub clients_of : String → GoMap ReplicatedConsistentHash → Clients
clients_of key [] = Clients.clients []
clients_of key ((dc, picker) ∷ regions) = elim (get picker key) [
  | Pick.picked p ↦ and_client p (clients_of key regions)
  | Pick.pool_is_empty ↦ Clients.error
  | Pick.panics ↦ Clients.panic
]

unfoldable pub get_clients : RegionPicker → String → Clients
get_clients rp key = clients_of key rp.regions

unfoldable pub first_client : PeerInfo → GoMap ReplicatedConsistentHash → Option PeerClient
first_client info [] = none
first_client info ((dc, picker) ∷ regions) = elim (get_by_peer_info picker info) [
  | some p ↦ some p
  | none ↦ first_client info regions
]

unfoldable pub region_by_peer_info : RegionPicker → PeerInfo → Option PeerClient
region_by_peer_info rp info = first_client info rp.regions

unfoldable pub peers_in : GoMap ReplicatedConsistentHash → List PeerClient
peers_in [] = []
peers_in ((dc, picker) ∷ regions) = peers_of picker ++ peers_in regions

unfoldable pub region_peers : RegionPicker → List PeerClient
region_peers rp = peers_in rp.regions

-- The picker of a data center, new where there is none.
abbrev pub region_of : RegionPicker → String → ReplicatedConsistentHash
region_of rp dc = elim (lookup dc rp.regions) [ none ↦ new_picker rp.hash | some picker ↦ picker ]

abbrev Ring : String × ReplicatedConsistentHash → Type 0
Ring e = IsRing e.1 × (e.1.replicas ≢ 0)

-- The regions are rings with the replicas of the picker.
pub record IsRegional (rp : RegionPicker) : Type 0 where
  pub replicas : rp.hash.replicas ≢ 0
  pub rings : All Ring rp.regions

All-insert :
    (P : String × ReplicatedConsistentHash → Type 0) (k : String) (v : ReplicatedConsistentHash)
    (m : GoMap ReplicatedConsistentHash)
    → P (k, v)
    → All P m
    → All P (insert k v m)
unfolding insert
All-insert P k v [] p h = (p, tt)
All-insert P k v ((j, w) ∷ m) p h = elim (Bool-cases (str_eq j k)) [
  | inl e ↦ rw e (p, h.1)
  | inr e ↦ rw e (h.0, All-insert P k v m p h.1)
]

All-lookup :
    (P : String × ReplicatedConsistentHash → Type 0) (k : String) (v : ReplicatedConsistentHash)
    (m : GoMap ReplicatedConsistentHash)
    → lookup k m ≡ some v
    → All P m
    → (j : String) × P (j, v)
unfolding lookup
All-lookup P k v [] e h = absurd (ground arith)
All-lookup P k v ((j, w) ∷ m) e h = elim (Bool-cases (str_eq j k)) [
  | inl same ↦ let mine : w ≡ v = ground (arith, same) in (j, subst (λ x. P (j, x)) mine h.0)
  | inr other ↦
      let later : lookup k m ≡ some v = ground (arith, other) in All-lookup P k v m later h.1
]

region_of-replicas :
    (rp : RegionPicker) (dc : String) → IsRegional rp → (region_of rp dc).replicas ≢ 0
unfolding new_picker
region_of-replicas rp dc v = elim (Option-cases (lookup dc rp.regions)) [
  | inl e ↦ rw (e, region_of) v.replicas
  | inr (picker, e) ↦ rw (e, region_of) (All-lookup Ring dc picker rp.regions e v.rings).1.1
]

clients_of_lem :
    (key : String) (regions : GoMap ReplicatedConsistentHash)
    → All Ring regions
    → (ps : List PeerClient) × (clients_of key regions ≡ Clients.clients ps)
      × (length ps ≡ length regions)
unfolding clients_of and_client
clients_of_lem key [] h = ([], refl, refl)
clients_of_lem key ((dc, picker) ∷ regions) h =
    let (x, own, got) = get-successor picker key h.0.0 in
    let (ps, e, len) = clients_of_lem key regions h.1 in
    (x.peer ∷ ps, rw (got, clients_of) (rw e refl), ap suc len)

-- When every region of a picker is a ring with replicas, and new regions get replicas, GetClients
-- returns one client for each region, without an error or a panic.
pub get_clients_lem :
    (rp : RegionPicker) (key : String)
    → IsRegional rp
    → (ps : List PeerClient) × (get_clients rp key ≡ Clients.clients ps)
      × (length ps ≡ length rp.regions)
unfolding get_clients
get_clients_lem rp key v = clients_of_lem key rp.regions v.rings

module _ (tools : RingTools) where
  unfoldable pub region_add : PeerClient → RegionPicker → RegionPicker
  region_add peer rp =
      let dc = peer.info.data_center in
      record rp { regions = insert dc (add tools peer (region_of rp dc)) rp.regions }

  region_add-IsRegional :
      Sorts tools
      → (peer : PeerClient) (rp : RegionPicker) → IsRegional rp
      → IsRegional (region_add peer rp)
  unfolding region_add add
  region_add-IsRegional laws peer rp v =
      let dc = peer.info.data_center in
      let some_replicas = region_of-replicas rp dc v in
      record {
        replicas = v.replicas;
        rings =
            All-insert Ring dc (add tools peer (region_of rp dc)) rp.regions
              (add-IsRing tools laws peer (region_of rp dc) some_replicas, some_replicas) v.rings;
      }

  -- When sort.Slice sorts, every region of a picker is a ring with replicas, and new regions get
  -- replicas, then Add of a peer keeps that; it puts the peer into the picker of the peer's data center, new where
  -- there is none, and leaves the pickers of all other data centers as they are.
  pub region_add_lem :
      Sorts tools
      → (peer : PeerClient) (rp : RegionPicker) (dc : String) → IsRegional rp
      → IsRegional (region_add peer rp)
        × (lookup dc (region_add peer rp).regions ≡ (
            if str_eq peer.info.data_center dc
            then some (add tools peer (region_of rp peer.info.data_center))
            else lookup dc rp.regions))
  unfolding region_add
  region_add_lem laws peer rp dc v =
      let home = peer.info.data_center in
      (
        region_add-IsRegional laws peer rp v,
        lookup-insert home dc (add tools peer (region_of rp home)) rp.regions,
      )
