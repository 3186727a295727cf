-- ===== src/Discovery/Kubernetes.antt =====
-- ExtractPeersFromPods and ExtractPeersFromEndpointSlices of kubernetes.go. The objects of the
-- Kubernetes API hold what the functions read of them.
use Prim.Native.String.{◌++◌ as join}
use gubernator.Peers.Hash.{PeerInfo}
use gubernator.Prelude.GoMap.{GoMap, lookup, insert}
use gubernator.Prelude.{
  String, List, [], ◌∷◌, map, Option, none, some, Bool, true, false, not, ◌&&◌, ◌||◌, str_eq,
  if◌then◌else◌,
}

pub record ContainerStatus : Type 0 where
  pub ready : Bool
  pub running : Bool

pub record Pod : Type 0 where
  pub ip : String
  pub container_statuses : List ContainerStatus

-- A missing ready condition is `none`.
pub record Endpoint : Type 0 where
  pub addresses : List String
  pub ready : Option Bool

pub record EndpointSlice : Type 0 where
  pub is_ipv4 : Bool
  pub endpoints : List Endpoint

unfoldable pub all_ready : List ContainerStatus → Bool
all_ready [] = true
all_ready (s ∷ ss) = if not s.ready || not s.running then false else all_ready ss

unfoldable pub is_ready : Endpoint → Bool
is_ready e = elim e.ready [ none ↦ true | some b ↦ b ]

module _ (pod_ip pod_port : String) where
  unfoldable pub pod_peer : String → PeerInfo
  pod_peer ip = record {
    data_center = "";
    http_address = "";
    grpc_address = join ip (join ":" pod_port);
    is_owner = str_eq ip pod_ip;
  }

  unfoldable pub extract_peers_from_pods : List Pod → List PeerInfo
  extract_peers_from_pods [] = []
  extract_peers_from_pods (pod ∷ pods) =
      let rest = extract_peers_from_pods pods in
      let peer = pod_peer pod.ip in
      if not peer.is_owner && not (all_ready pod.container_statuses) then rest else peer ∷ rest

  -- The map with the peer of an address, unless it has one that need not give way.
  unfoldable pub put_peer : String → GoMap PeerInfo → GoMap PeerInfo
  put_peer ip peers = elim (lookup ip peers) [
    | none ↦ insert ip (pod_peer ip) peers
    | some existing ↦
        if not existing.is_owner && (pod_peer ip).is_owner
        then insert ip (pod_peer ip) peers
        else peers
  ]

  unfoldable pub add_endpoint : Endpoint → GoMap PeerInfo → GoMap PeerInfo
  add_endpoint e peers = elim e.addresses [
    | [] ↦ peers
    | ip ∷ _ ↦ if not (is_ready e) && not (str_eq ip pod_ip) then peers else put_peer ip peers
  ]

  unfoldable pub add_endpoints : List Endpoint → GoMap PeerInfo → GoMap PeerInfo
  add_endpoints [] peers = peers
  add_endpoints (e ∷ es) peers = add_endpoints es (add_endpoint e peers)

  unfoldable pub add_slices : List EndpointSlice → GoMap PeerInfo → GoMap PeerInfo
  add_slices [] peers = peers
  add_slices (s ∷ ss) peers =
      if s.is_ipv4 then add_slices ss (add_endpoints s.endpoints peers) else add_slices ss peers

  unfoldable pub extract_peers_from_endpoint_slices : List EndpointSlice → List PeerInfo
  extract_peers_from_endpoint_slices ss = map (λ (e : String × PeerInfo). e.1) (add_slices ss [])
