-- ===== src/Discovery/Ready.antt =====
-- Which peers kubernetes.go extracts from endpoint slices.
use gubernator.Discovery.Kubernetes.{
  Endpoint, EndpointSlice, is_ready, pod_peer, put_peer, add_endpoint, add_endpoints, add_slices,
}
use gubernator.Peers.Hash.{PeerInfo}
use gubernator.Prelude.GoMap.{GoMap, lookup, insert, lookup-insert}
use gubernator.Prelude.{
  List-cases, String, List, [], ◌∷◌, Option, some, Bool, false, not, ◌&&◌, ◌||◌, ◌≡◌, refl, ap, sym,
  ◌∙◌, inl, inr, arith, str_eq, eq_iff, if◌then◌else◌, Bool-cases, Option-cases,
}

module _ (pod_ip : String) where
  -- Does an endpoint offer the address: its first one, ready or the own one?
  abbrev pub offers : String → Endpoint → Bool
  offers ip e = elim e.addresses [
    | [] ↦ false
    | first ∷ _ ↦ str_eq first ip && (is_ready e || str_eq first pod_ip)
  ]

  abbrev pub any_offers : String → List Endpoint → Bool
  any_offers ip [] = false
  any_offers ip (e ∷ es) = offers ip e || any_offers ip es

  abbrev pub is_offered : String → List EndpointSlice → Bool
  is_offered ip [] = false
  is_offered ip (s ∷ ss) = (s.is_ipv4 && any_offers ip s.endpoints) || is_offered ip ss

module _ (pod_ip pod_port : String) where
  -- The peers of a map are those of their addresses.
  abbrev pub OfPods : GoMap PeerInfo → Type 0
  OfPods peers =
      (ip : String) (p : PeerInfo) → lookup ip peers ≡ some p → p ≡ pod_peer pod_ip pod_port ip

  -- What a map holds for an address after it was offered or not.
  abbrev pub peer_if : Bool → String → GoMap PeerInfo → Option PeerInfo
  peer_if offered ip peers = if offered then some (pod_peer pod_ip pod_port ip) else lookup ip peers

  -- A step that holds the offered addresses, and the others as before.
  abbrev Adds : (String → Bool) → GoMap PeerInfo → GoMap PeerInfo → Type 0
  Adds offered peers peers' = (ip : String) → lookup ip peers' ≡ peer_if (offered ip) ip peers

  Adds-OfPods :
      (offered : String → Bool) (peers peers' : GoMap PeerInfo)
      → OfPods peers
      → Adds offered peers peers'
      → OfPods peers'
  Adds-OfPods offered peers peers' v a ip p e = elim (Bool-cases (offered ip)) [
    | inl is ↦ ground (arith, a ip, e, is)
    | inr other ↦ v ip p (ground (arith, a ip, e, other))
  ]

  -- A map that holds the peer of an address holds what it did when this peer is put there.
  held_or_put :
      (ip j : String) (peers peers' : GoMap PeerInfo)
      → lookup j peers'
        ≡ (if str_eq ip j then some (pod_peer pod_ip pod_port ip) else lookup j peers)
      → lookup j peers' ≡ peer_if (str_eq ip j) j peers
  held_or_put ip j peers peers' h = elim (Bool-cases (str_eq ip j)) [
    | inl is ↦
        let same = ap (λ (k : String). pod_peer pod_ip pod_port k) ((eq_iff ip j).0 is) in
        rw is (ground (arith, h, is) ∙ ap some same)
    | inr other ↦ rw other (ground (arith, h, other))
  ]

  kept :
      (ip j : String) (p : PeerInfo) (peers : GoMap PeerInfo)
      → OfPods peers
      → lookup ip peers ≡ some p
      → lookup j peers ≡ peer_if (str_eq ip j) j peers
  kept ip j p peers v e = elim (Bool-cases (str_eq ip j)) [
    | inl is ↦
        let same = (eq_iff ip j).0 is in
        let here : lookup j peers ≡ some p = ap (λ (k : String). lookup k peers) (sym same) ∙ e in
        rw is (here ∙ ap some (v j p here))
    | inr other ↦ rw other refl
  ]

  put_peer-Adds :
      (ip : String) (peers : GoMap PeerInfo)
      → OfPods peers
      → Adds (λ j. str_eq ip j) peers (put_peer pod_ip pod_port ip peers)
  unfolding put_peer
  put_peer-Adds ip peers v j =
      let put =
        held_or_put ip j peers (insert ip (pod_peer pod_ip pod_port ip) peers)
          (lookup-insert ip j (pod_peer pod_ip pod_port ip) peers) in
      elim (Option-cases (lookup ip peers)) [
        | inl e ↦ rw (e, put_peer) put
        | inr (p, e) ↦
            elim (Bool-cases (not p.is_owner && (pod_peer pod_ip pod_port ip).is_owner)) [
              | inl owner ↦ rw (e, put_peer) (rw (owner, put_peer) put)
              | inr stays ↦ rw (e, put_peer) (rw (stays, put_peer) (kept ip j p peers v e))
            ]
      ]

  add_endpoint-Adds :
      (e : Endpoint) (peers : GoMap PeerInfo)
      → OfPods peers
      → Adds (λ j. offers pod_ip j e) peers (add_endpoint pod_ip pod_port e peers)
  unfolding add_endpoint
  add_endpoint-Adds e peers v j = elim (List-cases e.addresses) [
    | inl empty ↦ rw (empty, add_endpoint, offers) refl
    | inr (ip, more, a) ↦ elim (Bool-cases (not (is_ready e) && not (str_eq ip pod_ip))) [
      | inl skipped ↦
          rw (a, add_endpoint, offers) (rw (skipped, add_endpoint) (ground (arith, skipped)))
      | inr taken ↦
          rw (a, add_endpoint, offers)
            (rw (taken, add_endpoint) (ground (arith, taken, put_peer-Adds ip peers v j)))
    ]
  ]

  -- Two steps that hold what they are offered hold what either is offered.
  Adds-both :
      (first second : String → Bool) (peers mid peers' : GoMap PeerInfo)
      → Adds first peers mid
      → Adds second mid peers'
      → Adds (λ j. first j || second j) peers peers'
  Adds-both first second peers mid peers' a b j = ground (arith, a j, b j)

  add_endpoints-Adds :
      (es : List Endpoint) (peers : GoMap PeerInfo)
      → OfPods peers
      → Adds (λ j. any_offers pod_ip j es) peers (add_endpoints pod_ip pod_port es peers)
  unfolding add_endpoints
  add_endpoints-Adds [] peers v j = refl
  add_endpoints-Adds (e ∷ es) peers v j =
      let mid = add_endpoint pod_ip pod_port e peers in
      let a = add_endpoint-Adds e peers v in
      Adds-both (λ j. offers pod_ip j e) (λ j. any_offers pod_ip j es) peers mid _ a
        (add_endpoints-Adds es mid (Adds-OfPods (λ j. offers pod_ip j e) peers mid v a)) j

  -- On a map of peers that are each the one of their address, extracting endpoint slices puts there
  -- the peer of each address that an endpoint of an IPv4 slice has first, when the endpoint is
  -- ready or the address is the own one, and leaves what the map holds for each other address as it
  -- was.
  pub lookup-add_slices :
      (ss : List EndpointSlice) (peers : GoMap PeerInfo)
      → OfPods peers
      → (ip : String)
      → lookup ip (add_slices pod_ip pod_port ss peers) ≡ peer_if (is_offered pod_ip ip ss) ip peers
  unfolding add_slices
  lookup-add_slices [] peers v ip = refl
  lookup-add_slices (s ∷ ss) peers v ip = elim (Bool-cases s.is_ipv4) [
    | inl four ↦
        let mid = add_endpoints pod_ip pod_port s.endpoints peers in
        let a = add_endpoints-Adds s.endpoints peers v in
        let rest =
          lookup-add_slices ss mid
            (Adds-OfPods (λ j. any_offers pod_ip j s.endpoints) peers mid v a) ip in
        rw (four, add_slices, is_offered) (ground (arith, a ip, rest))
    | inr six ↦ rw (six, add_slices, is_offered) (lookup-add_slices ss peers v ip)
  ]
