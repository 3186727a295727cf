-- ===== src/Discovery/Dns.antt =====
-- DNSPool of dns.go. The DNS client is a parameter: the records that a server answers with, or an
-- error; an address stands as its text.
use Prim.Native.String.{◌++◌ as join}
use gubernator.Config.EnvFile.{Text, split, trim_space}
use gubernator.Peers.Hash.{PeerInfo}
use gubernator.Prelude.{
  ℕ, String, List, [], ◌∷◌, ◌++◌, map, Option, none, some, Bool, ltb, ◌==◌, str_eq, if◌then◌else◌,
  length,
}

pub data RecordType : Type 0 where
  type_a type_aaaa : RecordType

-- The records of an answer: an address with its time to live, or any other kind.
pub data DnsRecord : Type 0 where
  address : String → ℕ → DnsRecord
  other_record : ℕ → DnsRecord

abbrev pub default_poll_delay : ℕ
default_poll_delay = 300

abbrev pub no_peers_retry_delay : ℕ
no_peers_retry_delay = 5

abbrev pub min_ℕ : ℕ → ℕ → ℕ
min_ℕ a b = if ltb b a then b else a

abbrev pub ttl_of : DnsRecord → ℕ
ttl_of (address ip ttl) = ttl
ttl_of (other_record ttl) = ttl

-- lookupHost: the addresses, and the least time to live, at most the default delay
unfoldable pub addresses_of : List DnsRecord → List String
addresses_of [] = []
addresses_of (address ip ttl ∷ rs) = ip ∷ addresses_of rs
addresses_of (other_record ttl ∷ rs) = addresses_of rs

unfoldable pub least_ttl : ℕ → List DnsRecord → ℕ
least_ttl ttl [] = ttl
least_ttl ttl (r ∷ rs) = least_ttl (min_ℕ ttl (ttl_of r)) rs

unfoldable pub lookup_host : Option (List DnsRecord) → Option (List String × ℕ)
lookup_host none = none
lookup_host (some rs) = some (addresses_of rs, least_ttl default_poll_delay rs)

pub record DnsPool : Type 0 where
  pub fqdns : List String
  pub own_ip : String
  pub own_port : String
  pub data_center : String

unfoldable pub dns_peer : DnsPool → String → String → RecordType → PeerInfo
dns_peer p fqdn ip₀ t =
    let ip : String = elim t [ type_a ↦ ip₀ | type_aaaa ↦ join "[" (join ip₀ "]") ] in
    record {
      data_center = if str_eq p.data_center "" then "" else fqdn;
      http_address = "";
      grpc_address = join ip (join ":" p.own_port);
      is_owner = str_eq p.own_ip ip;
    }

-- The delay and the peers of a round so far.
pub record Round : Type 0 where
  pub delay : ℕ
  pub update : List PeerInfo

-- A failed lookup, or one without addresses, is passed over.
unfoldable pub look_up :
    DnsPool → (String → RecordType → Option (List DnsRecord)) → String → RecordType → Round → Round
look_up p answers fqdn t round = elim (lookup_host (answers fqdn t)) [
  | none ↦ round
  | some (ips, ttl) ↦ if length ips == 0 then round else record {
    delay = min_ℕ round.delay ttl;
    update = round.update ++ map (λ (ip : String). dns_peer p fqdn ip t) ips;
  }
]

unfoldable pub look_up_all :
    DnsPool → (String → RecordType → Option (List DnsRecord)) → List String → Round → Round
look_up_all p answers [] round = round
look_up_all p answers (fqdn ∷ fqdns) round =
    look_up_all p answers fqdns
      (look_up p answers fqdn type_aaaa (look_up p answers fqdn type_a round))

-- One turn of task: the call of OnUpdate, if there are peers, and the seconds until the next.
unfoldable pub poll :
    DnsPool → (String → RecordType → Option (List DnsRecord)) → Option (List PeerInfo) × ℕ
poll p answers =
    let round =
      look_up_all p answers p.fqdns (record { delay = default_poll_delay; update = [] }) in
    if ltb 0 (length round.update)
    then (some round.update, round.delay)
    else (none, no_peers_retry_delay)

-- NewDNSPool: the names of a list with commas, and the port. `fqdn` is dns.Fqdn on a name's bytes.
unfoldable pub fqdns_of : (Text → String) → List Text → List String
fqdns_of fqdn [] = []
fqdns_of fqdn (t ∷ ts) =
    let rest = fqdns_of fqdn ts in
    let name = trim_space t in if length name == 0 then rest else fqdn name ∷ rest

pub data DnsError : Type 0 where
  own_address_required own_address_invalid resolver_error : DnsError

pub data NewDnsPool : Type 0 where
  new_pool : DnsPool → NewDnsPool
  pool_error : DnsError → NewDnsPool

-- `split_host_port` is net.SplitHostPort, and `resolver` whether newResolver succeeds.
unfoldable pub new_dns_pool :
    (String → Option (String × String))
    → (Text → String)
    → Bool
    → String
    → Text
    → String
    → NewDnsPool
new_dns_pool split_host_port fqdn resolver own_address names data_center =
    if str_eq own_address ""
    then pool_error own_address_required
    else (elim (split_host_port own_address) [
      | none ↦ pool_error own_address_invalid
      | some (ip, port) ↦
          if resolver
          then new_pool (record {
            fqdns = fqdns_of fqdn (split b',' names);
            own_ip = ip;
            own_port = if str_eq port "" then "1051" else port;
            data_center = data_center;
          })
          else pool_error resolver_error
    ])
