-- ===== src/Global/Send.antt =====
-- sendHits of global.go: the requests of a batch go to the peers that own their keys.
use mathlib.Core.List.{append-nil, append_assoc}
use gubernator.Global.Hits.{Hits}
use gubernator.Peers.Hash.{PeerClient, PeerKey, ReplicatedConsistentHash, Pick, get}
use gubernator.Peers.Successor.{IsRing, successor, get-successor}
use gubernator.Prelude.GoMap.{GoMap, lookup, insert, lookup-insert}
use gubernator.Prelude.{
  String, List, [], ◌∷◌, ◌++◌, Option, none, some, Bool, false, ◌≡◌, refl, sym, ap, ◌∙◌, arith,
  str_eq, eq_iff, if◌then◌else◌, Option-cases, Bool-cases, inl, inr,
}
use gubernator.Types.{RateLimitReq, hash_key}

-- `pair`: a peer's client and the requests that it is sent.
pub record PeerRequests : Type 0 where
  pub client : PeerClient
  pub requests : List RateLimitReq

unfoldable pub add_request : PeerClient → RateLimitReq → GoMap PeerRequests → GoMap PeerRequests
add_request peer r groups =
    let address = peer.info.grpc_address in
    elim (lookup address groups) [
      | some p ↦ insert address (record p { requests = p.requests ++ (r ∷ []) }) groups
      | none ↦ insert address (record { client = peer; requests = r ∷ [] }) groups
    ]

-- A request without a peer is logged and dropped; `none` is a panic of the picker.
unfoldable pub assign_hits :
    ReplicatedConsistentHash → Hits → GoMap PeerRequests → Option (GoMap PeerRequests)
assign_hits ring [] groups = some groups
assign_hits ring ((k, r) ∷ hits) groups = elim (get ring (hash_key r)) [
  | Pick.picked peer ↦ assign_hits ring hits (add_request peer r groups)
  | Pick.pool_is_empty ↦ assign_hits ring hits groups
  | Pick.panics ↦ none
]

abbrev pub requests_at : String → GoMap PeerRequests → List RateLimitReq
requests_at address groups = elim (lookup address groups) [ none ↦ [] | some p ↦ p.requests ]

-- Is the owner of the request's key, by the order of the ring, at this address?
abbrev pub owned_at : ReplicatedConsistentHash → String → RateLimitReq → Bool
owned_at ring address r = elim (successor (ring.hash_func (hash_key r)) ring.peer_keys) [
  | none ↦ false
  | some x ↦ str_eq x.peer.info.grpc_address address
]

-- The requests of a batch that the address owns, in order.
unfoldable pub owned_by : ReplicatedConsistentHash → String → Hits → List RateLimitReq
owned_by ring address [] = []
owned_by ring address ((k, r) ∷ hits) =
    let rest = owned_by ring address hits in if owned_at ring address r then r ∷ rest else rest

abbrev joined : PeerClient → RateLimitReq → Option PeerRequests → PeerRequests
joined peer r none = record { client = peer; requests = r ∷ [] }
joined peer r (some p) = record p { requests = p.requests ++ (r ∷ []) }

lookup-add_request :
    (a : String) (peer : PeerClient) (r : RateLimitReq) (groups : GoMap PeerRequests)
    → lookup a (add_request peer r groups) ≡ (
        if str_eq peer.info.grpc_address a
        then some (joined peer r (lookup a groups))
        else lookup a groups)
unfolding add_request
lookup-add_request a peer r groups =
    let address = peer.info.grpc_address in
    let w = λ (v : PeerRequests). lookup-insert address a v groups in
    elim (Bool-cases (str_eq address a)) [
      | inl same ↦
          let here = ap (λ j. lookup j groups) ((eq_iff address a).0 same) in
          elim (Option-cases (lookup address groups)) [
            | inl e ↦
                rw (e, add_request) (w (joined peer r none) ∙ rw same (rw (sym here ∙ e) refl))
            | inr (p, e) ↦
                rw (e, add_request) (w (joined peer r (some p)) ∙ rw same (rw (sym here ∙ e) refl))
          ]
      | inr other ↦ elim (Option-cases (lookup address groups)) [
        | inl e ↦ rw (e, add_request) (w (joined peer r none) ∙ rw other refl)
        | inr (p, e) ↦ rw (e, add_request) (w (joined peer r (some p)) ∙ rw other refl)
      ]
    ]

requests_at-add_request :
    (a : String) (peer : PeerClient) (r : RateLimitReq) (groups : GoMap PeerRequests)
    → requests_at a (add_request peer r groups) ≡ (
        if str_eq peer.info.grpc_address a
        then requests_at a groups ++ (r ∷ [])
        else requests_at a groups)
requests_at-add_request a peer r groups =
    let found = lookup-add_request a peer r groups in
    elim (Option-cases (lookup a groups)) [
      | inl e ↦ ground (arith, found, e)
      | inr (p, e) ↦ ground (arith, found, e)
    ]

owned_by-cons :
    (ring : ReplicatedConsistentHash) (a k : String) (r : RateLimitReq) (hits : Hits) (x : PeerKey)
    → successor (ring.hash_func (hash_key r)) ring.peer_keys ≡ some x
    → owned_by ring a ((k, r) ∷ hits) ≡ (
        if str_eq x.peer.info.grpc_address a
        then r ∷ owned_by ring a hits
        else owned_by ring a hits)
unfolding owned_by
owned_by-cons ring a k r hits x own =
    let rest = owned_by ring a hits in
    ap
      (λ (o : Option PeerKey).
        if (elim o [ none ↦ false | some y ↦ str_eq y.peer.info.grpc_address a ])
        then r ∷ rest
        else rest)
      own

-- On a ring every request is assigned, and each address gets exactly the requests that it owns.
assign_from :
    (ring : ReplicatedConsistentHash) (hits : Hits) (groups : GoMap PeerRequests)
    → IsRing ring
    → (out : GoMap PeerRequests) × (assign_hits ring hits groups ≡ some out)
      × ((a : String) → requests_at a out ≡ requests_at a groups ++ owned_by ring a hits)
unfolding assign_hits owned_by
assign_from ring [] groups v = (groups, refl, λ a. sym (append-nil (requests_at a groups)))
assign_from ring ((k, r) ∷ hits) groups v =
    let (x, own, got) = get-successor ring (hash_key r) v in
    let (out, e, each) = assign_from ring hits (add_request x.peer r groups) v in
    (
      out,
      rw (got, assign_hits) e,
      λ a.
          each a
          ∙ ap (λ l. l ++ owned_by ring a hits) (requests_at-add_request a x.peer r groups)
          ∙ elim (Bool-cases (str_eq x.peer.info.grpc_address a)) [
            | inl mine ↦ rw mine (
                append_assoc (requests_at a groups) (r ∷ []) (owned_by ring a hits)
                ∙ ap (λ l. requests_at a groups ++ l)
                    (sym (owned_by-cons ring a k r hits x own ∙ rw mine refl)))
            | inr not_mine ↦ rw not_mine (
                ap (λ l. requests_at a groups ++ l)
                  (sym (owned_by-cons ring a k r hits x own ∙ rw not_mine refl)))
          ],
    )

-- On a ring, sendHits assigns every request of a batch without a panic, and each address gets
-- exactly the requests whose keys it owns, in the order of the batch.
pub assign_hits_lem :
    (ring : ReplicatedConsistentHash) (hits : Hits)
    → IsRing ring
    → (out : GoMap PeerRequests) × (assign_hits ring hits [] ≡ some out)
      × ((a : String) → requests_at a out ≡ owned_by ring a hits)
unfolding lookup
assign_hits_lem ring hits v = assign_from ring hits [] v
