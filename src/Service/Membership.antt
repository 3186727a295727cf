-- ===== src/Service/Membership.antt =====
-- SetPeers, GetPeerList and GetRegionPickers of gubernator.go. Dialling a peer is a parameter: the
-- error of grpc.NewClient for an address, if any.
use gubernator.Peers.Hash.{
  RingTools, PeerInfo, PeerClient, ReplicatedConsistentHash, new_picker, peers_of, get_by_peer_info,
  add,
}
use gubernator.Peers.Region.{RegionPicker, new_of, region_add, region_by_peer_info, region_peers}
use gubernator.Prelude.GoMap.{GoMap}
use gubernator.Prelude.{String, List, [], ◌∷◌, ◌++◌, Option, none, some, str_eq, if◌then◌else◌}

-- conf.LocalPicker and conf.RegionPicker
pub record Pickers : Type 0 where
  pub local_picker : ReplicatedConsistentHash
  pub region_picker : RegionPicker

unfoldable pub get_peer_list : Pickers → List PeerClient
get_peer_list s = peers_of s.local_picker

unfoldable pub get_region_pickers : Pickers → GoMap ReplicatedConsistentHash
get_region_pickers s = s.region_picker.regions

-- The peers that a lookup does not find.
unfoldable pub not_found_by : (PeerInfo → Option PeerClient) → List PeerClient → List PeerClient
not_found_by find [] = []
not_found_by find (p ∷ ps) =
    let rest = not_found_by find ps in elim (find p.info) [ none ↦ p ∷ rest | some _ ↦ rest ]

abbrev pub empty_pickers : Pickers → Pickers
empty_pickers old = record {
  local_picker = new_picker old.local_picker;
  region_picker = new_of old.region_picker;
}

module _ (tools : RingTools) (dial : String → Option String) (data_center : String) where
  -- The client that there is, or a new one.
  unfoldable pub client_for : Option PeerClient → PeerInfo → Option PeerClient
  client_for (some p) info = some p
  client_for none info = elim (dial info.grpc_address) [
    | some e ↦ none
    | none ↦ some (record { info = info })
  ]

  unfoldable pub place_local : Pickers → PeerInfo → Pickers → Option Pickers
  place_local old info new = elim (client_for (get_by_peer_info old.local_picker info) info) [
    | none ↦ none
    | some p ↦ some (record new { local_picker = add tools p new.local_picker })
  ]

  unfoldable pub place_region : Pickers → PeerInfo → Pickers → Option Pickers
  place_region old info new = elim (client_for (region_by_peer_info old.region_picker info) info) [
    | none ↦ none
    | some p ↦ some (record new { region_picker = region_add tools p new.region_picker })
  ]

  unfoldable pub place : Pickers → PeerInfo → Pickers → Option Pickers
  place old info new =
      if str_eq info.data_center data_center
      then place_local old info new
      else place_region old info new

  unfoldable pub place_all : Pickers → List PeerInfo → Pickers → Option Pickers
  place_all old [] new = some new
  place_all old (info ∷ infos) new = elim (place old info new) [
    | none ↦ none
    | some new' ↦ place_all old infos new'
  ]

  -- The old clients that are shut down.
  unfoldable pub dropped : Pickers → Pickers → List PeerClient
  dropped old new =
      not_found_by (get_by_peer_info new.local_picker) (peers_of old.local_picker)
      ++ not_found_by (region_by_peer_info new.region_picker) (region_peers old.region_picker)

  -- The new pickers and the clients that are shut down; a failure to connect changes nothing.
  unfoldable pub set_peers : List PeerInfo → Pickers → Pickers × List PeerClient
  set_peers infos old = elim (place_all old infos (empty_pickers old)) [
    | none ↦ (old, [])
    | some new ↦ (new, dropped old new)
  ]
