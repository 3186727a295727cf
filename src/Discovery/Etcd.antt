-- ===== src/Discovery/Etcd.antt =====
-- EtcdPool of etcd.go: the peers under the key prefix, and the loop that keeps the own registration
-- alive. The etcd client is a parameter: what its calls answer.
use gubernator.Discovery.Gossip.{update_of, peer_of_address}
use gubernator.Peers.Hash.{PeerInfo}
use gubernator.Prelude.GoMap.{GoMap, lookup, insert, lookup-insert}
use gubernator.Prelude.{
  ℕ, ℤ, pos, ◌-ℤ◌, ◌≤ℤ◌, -ℤ_parts, String, List, [], ◌∷◌, map, Option, none, some, Bool, true,
  false, str_eq, ltb_ℤ, if◌then◌else◌, ◌≡◌, refl, ap, ◌∙◌, arith,
}

-- A response of client.Get: the values under the prefix and the revision.
pub record Listing : Type 0 where
  pub values : List String
  pub revision : ℕ

pub record EtcdPool : Type 0 where
  pub peers : GoMap PeerInfo
  pub revision : ℕ

-- `json` is json.Unmarshal, `none` an error.
module _ (json : String → Option PeerInfo) where
  -- A value that is no JSON is an address, as older versions wrote it.
  unfoldable pub un_marshall_value : String → PeerInfo
  un_marshall_value v = elim (json v) [ none ↦ peer_of_address v | some p ↦ p ]

  unfoldable pub peers_of_values : List String → GoMap PeerInfo → GoMap PeerInfo
  peers_of_values [] peers = peers
  peers_of_values (v ∷ vs) peers =
      let p = un_marshall_value v in peers_of_values vs (insert p.grpc_address p peers)

  -- collectPeers: the pool, and the call of OnUpdate; an error of Get changes nothing.
  unfoldable pub collect_peers :
      String → Option Listing → EtcdPool → EtcdPool × Option (List PeerInfo)
  collect_peers advertise none e = (e, none)
  collect_peers advertise (some l) e =
      let peers = peers_of_values l.values [] in
      (record { peers = peers; revision = l.revision }, some (update_of advertise peers))

  unfoldable pub get_peers : Option Listing → Option (List PeerInfo)
  get_peers none = none
  get_peers (some l) = some (map un_marshall_value l.values)

-- NewEtcdPool's checks, up to the registration.
pub data PoolError : Type 0 where
  no_address no_client : PoolError

unfoldable pub check_etcd_config : PeerInfo → Bool → Option PoolError
check_etcd_config advertise has_client =
    if str_eq advertise.grpc_address ""
    then some no_address
    else if has_client
    then none
    else some no_client

-- One round of the watch: a response, the end of the channel, and the end of the pool.
pub data WatchEvent : Type 0 where
  canceled : WatchEvent
  watch_error : WatchEvent
  changed : Option Listing → WatchEvent
  channel_closed : WatchEvent

pub data WatchNext : Type 0 where
  stops : WatchNext
  watches : WatchNext
  restarts : WatchNext

unfoldable pub watch_step :
    (String → Option PeerInfo)
    → String
    → WatchEvent
    → EtcdPool
    → EtcdPool × WatchNext × Option (List PeerInfo)
watch_step json advertise canceled e = (e, stops, none)
watch_step json advertise watch_error e = (e, restarts, none)
watch_step json advertise channel_closed e = (e, restarts, none)
watch_step json advertise (changed listing) e =
    let (e', call) = collect_peers json advertise listing e in (e', watches, call)

-- 30 seconds in nanoseconds
abbrev pub lease_ttl : ℤ
lease_ttl = pos 30_000_000_000

-- The variables of register: whether there is a keep-alive channel, and the time of the last one.
pub record Registration : Type 0 where
  pub keep_alive : Bool
  pub last_keep_alive : ℤ

-- What the loop receives: a keep-alive at a time, the end of the channel, or the pool's end.
pub data LeaseEvent : Type 0 where
  alive : ℤ → LeaseEvent
  lost : Bool → LeaseEvent
  closed : LeaseEvent

-- `Grant`, `Put` and `KeepAlive` succeed, or the loop waits and tries again.
unfoldable pub ensure_registered : Bool → Registration → Option Registration
ensure_registered succeeds r =
    if r.keep_alive
    then some r
    else if succeeds
    then some (record r { keep_alive = true })
    else none

-- The select of the loop: the variables, and whether the loop goes on.
unfoldable pub lease_step : LeaseEvent → Registration → Registration × Bool
lease_step (lost shutting_down) r =
    if shutting_down then (r, true) else (record r { keep_alive = false }, true)
lease_step (alive now) r =
    if ltb_ℤ lease_ttl (r.last_keep_alive -ℤ now)
    then (record r { keep_alive = false }, true)
    else (record r { last_keep_alive = now }, true)
lease_step closed r = (r, false)

-- However late a keep-alive is, it does not lead to a new registration.
pub late_keep_alive_is_kept :
    (r : Registration) (now : ℤ)
    → r.last_keep_alive ≤ℤ now
    → lease_step (alive now) r ≡ (record r { last_keep_alive = now }, true)
unfolding lease_step
late_keep_alive_is_kept r now le =
    let early : ltb_ℤ lease_ttl (r.last_keep_alive -ℤ now) ≡ false =
      ground (arith, -ℤ_parts r.last_keep_alive now, le) in
    rw early refl

module _ (json : String → Option PeerInfo) where
  -- The last value of the listing with the address.
  abbrev pub last_value : String → List String → Option PeerInfo → Option PeerInfo
  last_value a [] held = held
  last_value a (v ∷ vs) held =
      let p = un_marshall_value json v in
      last_value a vs (if str_eq p.grpc_address a then some p else held)

  lookup-peers_of_values :
      (a : String) (vs : List String) (peers : GoMap PeerInfo)
      → lookup a (peers_of_values json vs peers) ≡ last_value a vs (lookup a peers)
  unfolding peers_of_values
  lookup-peers_of_values a [] peers = refl
  lookup-peers_of_values a (v ∷ vs) peers =
      let p = un_marshall_value json v in
      lookup-peers_of_values a vs (insert p.grpc_address p peers)
      ∙ ap (λ (h : Option PeerInfo). last_value a vs h) (lookup-insert p.grpc_address a p peers)

  -- After a listing the pool holds for each address the last value with it, and announces its peers.
  pub collect_peers_lem :
      (advertise a : String) (l : Listing) (e : EtcdPool)
      → let (e', call) = collect_peers json advertise (some l) e in
        (lookup a e'.peers ≡ last_value a l.values none)
        × (call ≡ some (update_of advertise e'.peers))
  unfolding collect_peers lookup
  collect_peers_lem advertise a l e = (lookup-peers_of_values a l.values [], refl)
