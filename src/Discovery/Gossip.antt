-- ===== src/Discovery/Gossip.antt =====
-- The event handler of memberlist.go. The gossip itself is the memberlist package's; the decoders of
-- a node's metadata and net.SplitHostPort are parameters.
use gubernator.Peers.Hash.{PeerInfo}
use gubernator.Prelude.GoMap.{GoMap, insert, delete}
use gubernator.Prelude.{
  String, List, [], ◌∷◌, map, Option, none, some, Bool, true, false, str_eq, if◌then◌else◌,
}

-- ml.Node
pub record Node : Type 0 where
  pub address : String
  pub meta : String

-- json.Unmarshal and gob's Decode into a PeerInfo: what they leave in it, and whether they succeed.
-- `host_of` is the host of net.SplitHostPort, and `join_port` is net.JoinHostPort.
pub record Decoders : Type 0 where
  pub json : String → PeerInfo × Bool
  pub gob : String → PeerInfo → PeerInfo × Bool
  pub host_of : String → String
  pub join_port : String → String → String

pub data MemberEvent : Type 0 where
  -- addPeer with the local node, once the pool is joined
  joined_pool : Node → MemberEvent
  notify_join : Node → MemberEvent
  notify_leave : Node → MemberEvent
  notify_update : Node → MemberEvent

abbrev pub not_owner : PeerInfo → PeerInfo
not_owner p = record p { is_owner = false }

-- PeerInfo{GRPCAddress: …} and Go's zero values
abbrev pub peer_of_address : String → PeerInfo
peer_of_address a = record {
  data_center = "";
  http_address = "";
  grpc_address = a;
  is_owner = false;
}

-- callOnUpdate: the peers as they are handed on, with the own one marked
unfoldable pub mark_owner : String → PeerInfo → PeerInfo
mark_owner advertise p = if str_eq p.grpc_address advertise then record p { is_owner = true } else p

unfoldable pub update_of : String → GoMap PeerInfo → List PeerInfo
update_of advertise peers = map (λ (e : String × PeerInfo). mark_owner advertise e.1) peers

module _ (d : Decoders) where
  -- unmarshallPeer: the peer, and whether there is no error. The metadata of the deprecated format
  -- stays empty, since Decode fills in `peer`.
  unfoldable pub unmarshall_peer : String → String → PeerInfo × Bool
  unmarshall_peer meta ip =
      let (peer, fine) = d.json meta in
      if fine
      then (peer, true)
      else (let (peer', decoded) = d.gob meta peer in
          if decoded then (peer_of_address (d.join_port ip "0"), true) else (peer', false))

  abbrev pub ip_of : Node → String
  ip_of n = d.host_of n.address

  -- A step of the handler, and the call of OnUpdate, if any.
  module _ (advertise : String) where
    abbrev put : Node → PeerInfo → GoMap PeerInfo → GoMap PeerInfo × Option (List PeerInfo)
    put n p peers =
        let peers' = insert (ip_of n) p peers in (peers', some (update_of advertise peers'))

    unfoldable pub handle_member :
        MemberEvent → GoMap PeerInfo → GoMap PeerInfo × Option (List PeerInfo)
    handle_member (joined_pool n) peers =
        let (peer, fine) = unmarshall_peer n.meta (ip_of n) in
        if fine then put n peer peers else (peers, none)
    handle_member (notify_join n) peers =
        let (peer, fine) = unmarshall_peer n.meta (ip_of n) in
        if fine then put n (not_owner peer) peers else (peers, none)
    handle_member (notify_leave n) peers =
        let peers' = delete (ip_of n) peers in (peers', some (update_of advertise peers'))
    handle_member (notify_update n) peers =
        let (peer, fine) = unmarshall_peer n.meta (ip_of n) in put n (not_owner peer) peers

    -- The events in their order: the peers, and the last list that OnUpdate was given.
    unfoldable pub handle_members :
        List MemberEvent
        → GoMap PeerInfo
        → Option (List PeerInfo)
        → GoMap PeerInfo × Option (List PeerInfo)
    handle_members [] peers last = (peers, last)
    handle_members (e ∷ es) peers last =
        let (peers', call) = handle_member e peers in
        handle_members es peers' (elim call [ none ↦ last | some l ↦ some l ])
