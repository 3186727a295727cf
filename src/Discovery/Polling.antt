-- ===== src/Discovery/Polling.antt =====
-- What a round of DNSPool of dns.go hands on, and when the next one comes.
use Prim.Native.String.{◌++◌ as join}
use gubernator.Discovery.Dns.{
  RecordType, type_a, type_aaaa, DnsRecord, default_poll_delay, no_peers_retry_delay, min_ℕ, ttl_of,
  addresses_of, least_ttl, lookup_host, DnsPool, dns_peer, Round, look_up, look_up_all, poll,
}
use gubernator.Peers.Hash.{PeerInfo}
use gubernator.Prelude.{
  Listed, empty_of_length, ◌++◌, sym, ◌∙◌, ℕ, ◌≤◌, ◌<◌, String, List, [], ◌∷◌, map, Option, none,
  some, false, ltb, ◌==◌, str_eq, eq_iff, length, ◌≡◌, ◌≢◌, refl, inl, inr, arith, All, All-append,
  All-implies, Bool-cases, Option-cases,
}
use mathlib.Core.List.{append_assoc, append-nil}

module _ (p : DnsPool) (answers : String → RecordType → Option (List DnsRecord)) where
  -- A peer that some lookup found, and when its records run out.
  abbrev FoundBy : ℕ → PeerInfo → Type 0
  FoundBy delay peer =
      (fqdn : String) × (t : RecordType) × (ip : String) × (rs : List DnsRecord) × (answers fqdn t
        ≡ some rs)
      × Listed ip (addresses_of rs)
      × (peer ≡ dns_peer p fqdn ip t)
      × All (λ r. delay ≤ ttl_of r) rs

  -- The invariant of a round.
  abbrev IsRound : Round → Type 0
  IsRound round = (round.delay ≤ default_poll_delay) × All (FoundBy round.delay) round.update

  least_ttl-le :
      (ttl : ℕ) (rs : List DnsRecord)
      → (least_ttl ttl rs ≤ ttl) × All (λ r. least_ttl ttl rs ≤ ttl_of r) rs
  unfolding least_ttl
  least_ttl-le ttl [] = (omega arith, tt)
  least_ttl-le ttl (r ∷ rs) =
      let (low, all) = least_ttl-le (min_ℕ ttl (ttl_of r)) rs in
      (ground (arith, low), (ground (arith, low), all))

  FoundBy-le : (d d' : ℕ) → d' ≤ d → (peer : PeerInfo) → FoundBy d peer → FoundBy d' peer
  FoundBy-le d d' le peer (fqdn, t, ip, rs, e, l, is, all) = (
    fqdn,
    t,
    ip,
    rs,
    e,
    l,
    is,
    All-implies rs (λ (r : DnsRecord) (h : d ≤ ttl_of r). omega (arith, h, le)) all,
  )

  found :
      (fqdn : String) (t : RecordType) (rs : List DnsRecord) (delay : ℕ) (ips : List String)
      → answers fqdn t ≡ some rs
      → ((ip : String) → Listed ip ips → Listed ip (addresses_of rs))
      → All (λ r. delay ≤ ttl_of r) rs
      → All (FoundBy delay) (map (λ (ip : String). dns_peer p fqdn ip t) ips)
  found fqdn t rs delay [] e sub all = tt
  found fqdn t rs delay (ip ∷ ips) e sub all = (
    (fqdn, t, ip, rs, e, sub ip (inl refl), refl, all),
    found fqdn t rs delay ips e (λ x l. sub x (inr l)) all,
  )

  look_up-IsRound :
      (fqdn : String) (t : RecordType) (round : Round)
      → IsRound round
      → IsRound (look_up p answers fqdn t round)
  unfolding look_up lookup_host
  look_up-IsRound fqdn t round v = elim (Option-cases (answers fqdn t)) [
    | inl e ↦ rw (e, look_up) v
    | inr (rs, e) ↦ elim (Bool-cases (length (addresses_of rs) == 0)) [
      | inl empty ↦ rw (e, look_up) (rw (empty, look_up) v)
      | inr some_ips ↦
          let (low, all) = least_ttl-le default_poll_delay rs in
          let ttl = least_ttl default_poll_delay rs in
          let delay = min_ℕ round.delay ttl in
          rw (e, look_up)
            (rw (some_ips, look_up)
              (
                ground (arith, v.0),
                All-append (FoundBy delay) round.update _
                    (All-implies round.update
                      (λ (q : PeerInfo) (f : FoundBy round.delay q).
                        FoundBy-le round.delay delay (ground arith) q f)
                      v.1)
                    (found fqdn t rs delay (addresses_of rs) e (λ ip l. l)
                      (All-implies rs (λ (r : DnsRecord) (h : ttl ≤ ttl_of r). ground (arith, h))
                        all)),
              ))
    ]
  ]

  look_up_all-IsRound :
      (fqdns : List String) (round : Round)
      → IsRound round
      → IsRound (look_up_all p answers fqdns round)
  unfolding look_up_all
  look_up_all-IsRound [] round v = v
  look_up_all-IsRound (fqdn ∷ fqdns) round v =
      look_up_all-IsRound fqdns _
        (look_up-IsRound fqdn type_aaaa _ (look_up-IsRound fqdn type_a round v))

  -- The peers of the addresses that a lookup answers with.
  abbrev pub peers_found : String → RecordType → List PeerInfo
  peers_found fqdn t =
      map (λ (ip : String). dns_peer p fqdn ip t)
        (elim (answers fqdn t) [ none ↦ [] | some rs ↦ addresses_of rs ])

  -- Those of all names, for each name of its A records and then of its AAAA records.
  abbrev pub all_found : List String → List PeerInfo
  all_found [] = []
  all_found (fqdn ∷ fqdns) =
      (peers_found fqdn type_a ++ peers_found fqdn type_aaaa) ++ all_found fqdns

  look_up-update :
      (fqdn : String) (t : RecordType) (round : Round)
      → (look_up p answers fqdn t round).update ≡ round.update ++ peers_found fqdn t
  unfolding look_up lookup_host
  look_up-update fqdn t round = elim (Option-cases (answers fqdn t)) [
    | inl e ↦ rw (e, look_up) (sym (append-nil round.update))
    | inr (rs, e) ↦ elim (Bool-cases (length (addresses_of rs) == 0)) [
      | inl empty ↦
          rw (e, look_up)
            (rw (empty, look_up)
              (rw (empty_of_length (addresses_of rs) empty) (sym (append-nil round.update))))
      | inr some_ips ↦ rw (e, look_up) (rw (some_ips, look_up) refl)
    ]
  ]

  look_up_all-update :
      (fqdns : List String) (round : Round)
      → (look_up_all p answers fqdns round).update ≡ round.update ++ all_found fqdns
  unfolding look_up_all
  look_up_all-update [] round = sym (append-nil round.update)
  look_up_all-update (fqdn ∷ fqdns) round =
      let first = look_up p answers fqdn type_a round in
      look_up_all-update fqdns (look_up p answers fqdn type_aaaa first)
      ∙ rw (look_up-update fqdn type_aaaa first)
          (rw (look_up-update fqdn type_a round) (simp (append_assoc)))

  -- What a round hands on, with its delay.
  abbrev pub IsPolled : Option (List PeerInfo) × ℕ → Type 0
  IsPolled (none, delay) = (all_found p.fqdns ≡ []) × (delay ≡ no_peers_retry_delay)
  IsPolled (some l, delay) =
      (l ≡ all_found p.fqdns)
      × (0 < length l)
      × (delay ≤ default_poll_delay)
      × All (FoundBy delay) l

  -- A round of DNS lookups hands on the peers of all addresses in the answers, for each name those
  -- of its A records and then of its AAAA records, when there are any, and the delay until the next
  -- round is then at most 300 seconds and the time to live of every record of an answer that such a
  -- peer comes from; when there are none it hands on nothing, and the delay is 5 seconds.
  pub poll-IsPolled : IsPolled (poll p answers)
  unfolding poll
  poll-IsPolled =
      let first : Round = record { delay = default_poll_delay; update = [] } in
      let (low, all) = look_up_all-IsRound p.fqdns first (omega arith, tt) in
      elim (Bool-cases (ltb 0 (length (look_up_all p answers p.fqdns first).update))) [
        | inl peers ↦
            rw (peers, poll) (look_up_all-update p.fqdns first, ground (arith, peers), low, all)
        | inr empty ↦
            rw (empty, poll)
              (
                sym (look_up_all-update p.fqdns first) ∙ empty_of_length _ (ground (arith, empty)),
                refl,
              )
      ]

-- When the own address has no bracket, no peer of an AAAA record is the owner.
pub own_ipv6_is_no_owner :
    (p : DnsPool) (fqdn ip : String)
    → ((rest : String) → p.own_ip ≢ join "[" rest)
    → (dns_peer p fqdn ip type_aaaa).is_owner ≡ false
unfolding dns_peer
own_ipv6_is_no_owner p fqdn ip plain =
    elim (Bool-cases (str_eq p.own_ip (join "[" (join ip "]")))) [
      | inl same ↦ absurd (plain (join ip "]") ((eq_iff _ _).0 same))
      | inr other ↦ other
    ]
