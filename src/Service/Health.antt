-- ===== src/Service/Health.antt =====
-- HealthCheck, LiveCheck and GetPeer of gubernator.go. A peer stands with the errors that its client
-- has recorded.
use Prim.Native.String.{◌++◌ as join}
use gubernator.Client.Errors.{ErrorCache, get_last_err, wrapped}
use gubernator.Peers.Hash.{PeerClient, ReplicatedConsistentHash, Pick, get}
use gubernator.Prelude.{
  ℕ, ◌+◌, ◌-◌, ◌%◌, ◌^◌, ℤ, pos, negsuc, String, List, [], ◌∷◌, ◌++◌, map, Bool, ◌&&◌, ltb, ◌==◌,
  str_eq, if◌then◌else◌, length, Option, none, some,
}

pub record Remote (E : Type 0) : Type 0 where
  pub client : PeerClient
  pub last_errs : E

pub record PeerHealthResp : Type 0 where
  pub grpc_address : String
  pub data_center : String

pub data HealthStatus : Type 0 where
  healthy unhealthy : HealthStatus

pub record HealthCheckResp : Type 0 where
  pub status : HealthStatus
  pub message : String
  pub peer_count : ℤ
  pub advertise_address : String
  pub local_peers : List PeerHealthResp
  pub region_peers : List PeerHealthResp

-- The response, or an error with the code Unavailable.
pub data Health : Type 0 where
  serving : HealthCheckResp → Health
  unavailable : String → Health

-- int32(n)
abbrev pub int32_of : ℕ → ℤ
int32_of n = let w = n % 2 ^ 32 in if ltb w (2 ^ 31) then pos w else negsuc (2 ^ 32 - w - 1)

-- strings.Join(errs, "|")
unfoldable pub join_errs : List String → String
join_errs [] = ""
join_errs (e ∷ []) = e
join_errs (e ∷ f ∷ es) = join e (join "|" (join_errs (f ∷ es)))

abbrev pub not_found : String
not_found = "this instance is not found in the peer list"

-- The own address once it is found among the peers; the first that matches stays.
unfoldable pub own_peer_address : {E : Type 0} → String → String → List (Remote E) → String
own_peer_address advertise own [] = own
own_peer_address advertise own (p ∷ ps) =
    let address = p.client.info.grpc_address in
    own_peer_address advertise (if str_eq own "" && str_eq address advertise then address else own)
      ps

abbrev pub peer_health : PeerClient → PeerHealthResp
peer_health p = record { grpc_address = p.info.grpc_address; data_center = p.info.data_center }

-- What a loop over the peers gathers; reading the errors may move them in their cache.
pub record Gathered (E : Type 0) : Type 0 where
  pub peers : List (Remote E)
  pub errs : List String
  pub resps : List PeerHealthResp

-- health.Status and health.Message from the errors and the own address
unfoldable pub judge : List String → HealthCheckResp → HealthCheckResp
judge errs h =
    let h' : HealthCheckResp =
      if length errs == 0
      then h
      else record h { status = HealthStatus.unhealthy; message = join_errs errs } in
    if str_eq h'.advertise_address ""
    then record h' {
      status = HealthStatus.unhealthy;
      message = join_errs (errs ++ (not_found ∷ []));
    }
    else h'

unfoldable pub health_result : HealthCheckResp → Health
health_result h = elim h.status [
  | HealthStatus.healthy ↦ Health.serving h
  | HealthStatus.unhealthy ↦ Health.unavailable h.message
]

module _ {E T : Type 0} (ec : ErrorCache E T) (now : T) where
  unfoldable pub gather : String → List (Remote E) → Gathered E
  gather intro [] = record { peers = []; errs = []; resps = [] }
  gather intro (p ∷ ps) =
      let (errs, msgs) = get_last_err ec now p.last_errs in
      let rest = gather intro ps in
      record {
        peers = record p { last_errs = errs } ∷ rest.peers;
        errs = map (join intro) msgs ++ rest.errs;
        resps = peer_health p.client ∷ rest.resps;
      }

  -- The local peers and those of the other regions, and the health.
  unfoldable pub health_check :
      String → List (Remote E) → List (Remote E) → List (Remote E) × List (Remote E) × Health
  health_check advertise locals regions =
      let here = gather "error returned from local peer.GetLastErr: " locals in
      let there = gather "error returned from region peer.GetLastErr: " regions in
      let errs = here.errs ++ there.errs in
      (
        here.peers,
        there.peers,
        health_result (
            judge errs (record {
              status = HealthStatus.healthy;
              message = "";
              peer_count = int32_of (length locals + length regions);
              advertise_address = own_peer_address advertise "" locals;
              local_peers = here.resps;
              region_peers = there.resps;
            })),
      )

-- LiveCheck: the error's message, or none
unfoldable pub live_check : Bool → Option String
live_check is_closed = if is_closed then some "server is shutting down" else none

-- GetPeer
pub data Found : Type 0 where
  peer : PeerClient → Found
  error : String → Found
  panics : Found

unfoldable pub get_peer : ReplicatedConsistentHash → String → Found
get_peer picker key = elim (get picker key) [
  | Pick.picked p ↦ Found.peer p
  | Pick.pool_is_empty ↦
      Found.error (wrapped "unable to pick a peer; pool is empty" "Error in conf.LocalPicker.Get")
  | Pick.panics ↦ Found.panics
]
