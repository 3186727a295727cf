-- ===== src/Service/Placing.antt =====
-- What placing the peers of a list does to the local picker: the loop of SetPeers of gubernator.go.
use gubernator.Peers.Hash.{RingTools, PeerInfo, PeerClient, get_by_peer_info, add}
use gubernator.Peers.Region.{region_by_peer_info, region_add}
use gubernator.Prelude.GoMap.{GoMap, lookup, lookup-insert}
use gubernator.Prelude.{
  String, List, [], ◌∷◌, Option, none, some, Bool, true, false, ◌&&◌, ◌||◌, ◌≡◌, ◌⊎◌, inl, inr,
  refl, ap, sym, ◌∙◌, subst, arith, All, str_eq, eq_iff, if◌then◌else◌, Bool-cases, Option-cases,
}
use gubernator.Service.Membership.{Pickers, client_for, place_local, place_region, place, place_all}

-- Every client stands under its address.
abbrev pub Keyed : GoMap PeerClient → Type 0
Keyed m = All (λ e. e.1.info.grpc_address ≡ e.0) m

lookup-Keyed :
    (a : String) (p : PeerClient) (m : GoMap PeerClient)
    → Keyed m
    → lookup a m ≡ some p
    → p.info.grpc_address ≡ a
unfolding lookup
lookup-Keyed a p [] k h = absurd (ground (arith, h))
lookup-Keyed a p ((j, q) ∷ m) k h = elim (Bool-cases (str_eq j a)) [
  | inl same ↦
      let mine : q ≡ p = ground (arith, h, same) in
      ap (λ (x : PeerClient). x.info.grpc_address) (sym mine) ∙ k.0 ∙ (eq_iff j a).0 same
  | inr other ↦ lookup-Keyed a p m k.1 (ground (arith, h, other))
]

-- A map has a client at an address, and that of an older map where it has one.
abbrev pub Keeps : String → GoMap PeerClient → GoMap PeerClient → Type 0
Keeps a old m =
    (p : PeerClient) × (lookup a m ≡ some p) × ((q : PeerClient) → lookup a old ≡ some q → q ≡ p)

moved :
    (a : String) (old m m' : GoMap PeerClient)
    → lookup a m' ≡ lookup a m
    → Keeps a old m
    → Keeps a old m'
moved a old m m' e (p, at, same) = (p, e ∙ at, same)

abbrev pub peers_at : Pickers → GoMap PeerClient
peers_at s = s.local_picker.peers

module _ (data_center : String) where
  abbrev pub at_home : String → PeerInfo → Bool
  at_home a i = str_eq i.data_center data_center && str_eq i.grpc_address a

  -- Is a peer of the own data center at the address?
  unfoldable pub is_member : String → List PeerInfo → Bool
  is_member a [] = false
  is_member a (i ∷ infos) = at_home a i || is_member a infos

module _ (tools : RingTools) (dial : String → Option String) (data_center : String) where
  client_for_lem :
      (held : Option PeerClient) (info : PeerInfo) (p : PeerClient)
      → ((q : PeerClient) → held ≡ some q → q.info.grpc_address ≡ info.grpc_address)
      → client_for tools dial data_center held info ≡ some p
      → (p.info.grpc_address ≡ info.grpc_address) × ((q : PeerClient) → held ≡ some q → q ≡ p)
  unfolding client_for
  client_for_lem (some q) info p k h = (k p h, λ x e. ground (arith, e, h))
  client_for_lem none info p k h = elim (Option-cases (dial info.grpc_address)) [
    | inl fine ↦
        let is : record { info = info } ≡ p = ground (arith, h, fine) in
        (ap (λ (c : PeerClient). c.info.grpc_address) (sym is), λ x e. absurd (cc e))
    | inr (e, broken) ↦ absurd (ground (arith, h, broken))
  ]

  -- What one step does to the clients of the own data center at an address.
  abbrev Step : String → Bool → Pickers → Pickers → Pickers → Type 0
  Step a match old new new' =
      (match ≡ false → lookup a (peers_at new') ≡ lookup a (peers_at new))
      × (match ≡ true → Keeps a (peers_at old) (peers_at new'))

  place_local-Step :
      (a : String) (old : Pickers) (info : PeerInfo) (new new' : Pickers)
      → Keyed (peers_at old)
      → place_local tools dial data_center old info new ≡ some new'
      → Step a (str_eq info.grpc_address a) old new new'
  unfolding place_local get_by_peer_info add
  place_local-Step a old info new new' k h =
      let held = lookup info.grpc_address (peers_at old) in
      elim (Option-cases (client_for tools dial data_center held info)) [
        | inl broken ↦ absurd (ground (arith, h, broken))
        | inr (p, e) ↦
            let (named, kept) =
              client_for_lem held info p
                (λ q at. lookup-Keyed info.grpc_address q (peers_at old) k at) e in
            let is : record new { local_picker = add tools p new.local_picker } ≡ new' =
              ground (arith, h, e) in
            let written : lookup a (peers_at new')
                ≡ (if str_eq info.grpc_address a then some p else lookup a (peers_at new)) =
              ap (λ (s : Pickers). lookup a (peers_at s)) (sym is)
              ∙ lookup-insert p.info.grpc_address a p (peers_at new)
              ∙ ap (λ (b : String). if str_eq b a then some p else lookup a (peers_at new)) named in
            (
              λ other. written ∙ rw other refl,
              λ same.
                  let at = (eq_iff info.grpc_address a).0 same in
                  (
                    p,
                    written ∙ rw same refl,
                    λ q held_q. kept q (ap (λ (b : String). lookup b (peers_at old)) at ∙ held_q),
                  ),
            )
      ]

  place-Step :
      (a : String) (old : Pickers) (info : PeerInfo) (new new' : Pickers)
      → Keyed (peers_at old)
      → place tools dial data_center old info new ≡ some new'
      → Step a (at_home data_center a info) old new new'
  unfolding place place_region
  place-Step a old info new new' k h = elim (Bool-cases (str_eq info.data_center data_center)) [
    | inl local ↦
        let step = place_local-Step a old info new new' k (ground (arith, h, local)) in
        rw local step
    | inr remote ↦
        let client =
          client_for tools dial data_center (region_by_peer_info old.region_picker info) info in
        elim (Option-cases client) [
          | inl broken ↦ absurd (ground (arith, h, remote, broken))
          | inr (p, e) ↦
              let same : peers_at new' ≡ peers_at new = ground (arith, h, remote, e) in
              rw remote (λ f. ap (λ (m : GoMap PeerClient). lookup a m) same, λ t. absurd (cc t))
        ]
  ]

  pub place_all-Step :
      (a : String) (old : Pickers) (infos : List PeerInfo) (new new' : Pickers)
      → Keyed (peers_at old)
      → place_all tools dial data_center old infos new ≡ some new'
      → (is_member data_center a infos ≡ false → lookup a (peers_at new') ≡ lookup a (peers_at new))
        × ((is_member data_center a infos ≡ true) ⊎ Keeps a (peers_at old) (peers_at new)
            → Keeps a (peers_at old) (peers_at new'))
  unfolding place_all is_member
  place_all-Step a old [] new new' k h =
      let is : new ≡ new' = ground (arith, h) in
      (
        λ f. ap (λ (s : Pickers). lookup a (peers_at s)) (sym is),
        λ either. elim either [
          | inl t ↦ absurd (cc t)
          | inr kept ↦ subst (λ (s : Pickers). Keeps a (peers_at old) (peers_at s)) is kept
        ],
      )
  place_all-Step a old (info ∷ infos) new new' k h =
      elim (Option-cases (place tools dial data_center old info new)) [
        | inl broken ↦ absurd (ground (arith, h, broken))
        | inr (mid, e) ↦
            let rest : place_all tools dial data_center old infos mid ≡ some new' =
              ground (arith, h, e) in
            let (passed, placed) = place_all-Step a old infos mid new' k rest in
            let (same, here_kept) = place-Step a old info new mid k e in
            elim (Bool-cases (at_home data_center a info)) [
              | inl match ↦
                  let kept = placed (inr (here_kept match)) in
                  rw match (λ f. absurd (cc f), λ either. kept)
              | inr other ↦ rw other (
                λ f. passed f ∙ same other,
                λ either. elim either [
                  | inl t ↦ placed (inl t)
                  | inr kept ↦
                      placed (
                        inr
                          (moved a (peers_at old) (peers_at new) (peers_at mid) (same other) kept))
                ],
              )
            ]
      ]

  -- Can each of the peers be dialled?
  abbrev pub Dialable : List PeerInfo → Type 0
  Dialable infos = All (λ i. dial i.grpc_address ≡ none) infos

  client_for-Dialable :
      (held : Option PeerClient) (info : PeerInfo)
      → dial info.grpc_address ≡ none
      → (p : PeerClient) × (client_for tools dial data_center held info ≡ some p)
  unfolding client_for
  client_for-Dialable (some q) info d = (q, refl)
  client_for-Dialable none info d = (record { info = info }, rw (d, client_for) refl)

  place-Dialable :
      (old : Pickers) (info : PeerInfo) (new : Pickers)
      → dial info.grpc_address ≡ none
      → (new' : Pickers) × (place tools dial data_center old info new ≡ some new')
  unfolding place place_local place_region
  place-Dialable old info new d = elim (Bool-cases (str_eq info.data_center data_center)) [
    | inl local ↦
        let (p, e) = client_for-Dialable (get_by_peer_info old.local_picker info) info d in
        (
          record new { local_picker = add tools p new.local_picker },
          rw (local, place) (rw (e, place_local) refl),
        )
    | inr remote ↦
        let (p, e) = client_for-Dialable (region_by_peer_info old.region_picker info) info d in
        (
          record new { region_picker = region_add tools p new.region_picker },
          rw (remote, place) (rw (e, place_region) refl),
        )
  ]

  pub place_all-Dialable :
      (old : Pickers) (infos : List PeerInfo) (new : Pickers)
      → Dialable infos
      → (new' : Pickers) × (place_all tools dial data_center old infos new ≡ some new')
  unfolding place_all
  place_all-Dialable old [] new d = (new, refl)
  place_all-Dialable old (info ∷ infos) new d =
      let (mid, e) = place-Dialable old info new d.0 in
      let (new', rest) = place_all-Dialable old infos mid d.1 in (new', rw (e, place_all) rest)
