-- ===== src/Service/Picks.antt =====
-- After SetPeers of gubernator.go every key has a peer.
use gubernator.Peers.Hash.{RingTools, PeerInfo, PeerClient, new_picker, get_by_peer_info, add}
use gubernator.Peers.Joins.{Sorts, add-IsRing}
use gubernator.Peers.Region.{IsRegional, new_of, region_by_peer_info, region_add, region_add_lem}
use gubernator.Peers.Successor.{IsRing, get-successor}
use gubernator.Prelude.{
  String, List, [], ◌∷◌, Option, some, true, ◌≡◌, ◌≢◌, ◌⊎◌, inl, inr, refl, subst, arith, str_eq,
  Bool-cases, Option-cases,
}
use gubernator.Service.Health.{Found, get_peer}
use gubernator.Service.Placing.{is_member, Dialable, place_all-Dialable}
use gubernator.Service.Membership.{
  Pickers, client_for, place_local, place_region, place, place_all, empty_pickers, set_peers,
}

-- Both pickers give their peers replicas, and the regions are rings.
pub record ArePickers (s : Pickers) : Type 0 where
  pub replicas : s.local_picker.replicas ≢ 0
  pub regional : IsRegional s.region_picker

module _ (tools : RingTools) (laws : Sorts tools) (dial : String → Option String)
    (data_center : String) where
  place-ArePickers :
      (old : Pickers) (info : PeerInfo) (new new' : Pickers)
      → place tools dial data_center old info new ≡ some new'
      → ArePickers new
      → ArePickers new'
        × ((str_eq info.data_center data_center ≡ true) ⊎ IsRing new.local_picker
            → IsRing new'.local_picker)
  unfolding place place_local place_region add
  place-ArePickers old info new new' h v = elim (Bool-cases (str_eq info.data_center data_center)) [
    | inl local ↦
        elim (Option-cases
          (client_for tools dial data_center (get_by_peer_info old.local_picker info) info)) [
            | inl broken ↦ absurd (ground (arith, h, local, broken))
            | inr (p, e) ↦
                let is : record new { local_picker = add tools p new.local_picker } ≡ new' =
                  ground (arith, h, local, e) in
                let ring = add-IsRing tools laws p new.local_picker v.replicas in
                (
                  subst ArePickers is (record { replicas = v.replicas; regional = v.regional }),
                  λ either. subst (λ (s : Pickers). IsRing s.local_picker) is ring,
                )
          ]
    | inr remote ↦
        elim (Option-cases
          (client_for tools dial data_center (region_by_peer_info old.region_picker info) info)) [
            | inl broken ↦ absurd (ground (arith, h, remote, broken))
            | inr (p, e) ↦
                let is : record new { region_picker = region_add tools p new.region_picker }
                    ≡ new' =
                  ground (arith, h, remote, e) in
                let region = (region_add_lem tools laws p new.region_picker "" v.regional).0 in
                (
                  subst ArePickers is (record { replicas = v.replicas; regional = region }),
                  λ either. elim either [
                    | inl t ↦ absurd (ground (arith, t, remote))
                    | inr ring ↦ subst (λ (s : Pickers). IsRing s.local_picker) is ring
                  ],
                )
          ]
  ]

  place_all-ArePickers :
      (a : String) (old : Pickers) (infos : List PeerInfo) (new new' : Pickers)
      → place_all tools dial data_center old infos new ≡ some new'
      → ArePickers new
      → ArePickers new'
        × ((is_member data_center a infos ≡ true) ⊎ IsRing new.local_picker
            → IsRing new'.local_picker)
  unfolding place_all is_member
  place_all-ArePickers a old [] new new' h v =
      let is : new ≡ new' = ground (arith, h) in
      (
        subst ArePickers is v,
        λ either. elim either [
          | inl t ↦ absurd (cc t)
          | inr ring ↦ subst (λ (s : Pickers). IsRing s.local_picker) is ring
        ],
      )
  place_all-ArePickers a old (info ∷ infos) new new' h v =
      elim (Option-cases (place tools dial data_center old info new)) [
        | inl broken ↦ absurd (ground (arith, h, broken))
        | inr (mid, e) ↦
            let rest : place_all tools dial data_center old infos mid ≡ some new' =
              ground (arith, h, e) in
            let (kept, ring) = place-ArePickers old info new mid e v in
            let (valid, last) = place_all-ArePickers a old infos mid new' rest kept in
            (
              valid,
              λ either. elim either [
                | inr before ↦ last (inr (ring (inr before)))
                | inl member ↦ elim (Bool-cases (str_eq info.data_center data_center)) [
                  | inl local ↦ last (inr (ring (inl local)))
                  | inr remote ↦ last (inl (ground (arith, member, remote)))
                ]
              ],
            )
      ]

  -- When sort.Slice sorts, the local picker has replicas and the region picker's regions are rings
  -- with replicas, every peer of the list can be dialled, and the list names a peer of the own data
  -- center, then SetPeers keeps this, and GetPeer finds a peer for every key.
  pub set_peers-ArePickers :
      (infos : List PeerInfo) (old : Pickers) (a key : String)
      → ArePickers old
      → Dialable tools dial data_center infos
      → is_member data_center a infos ≡ true
      → let new = (set_peers tools dial data_center infos old).0 in
        ArePickers new × ((p : PeerClient) × (get_peer new.local_picker key ≡ Found.peer p))
  unfolding set_peers get_peer new_picker new_of
  set_peers-ArePickers infos old a key v d member =
      let (new, e) = place_all-Dialable tools dial data_center old infos (empty_pickers old) d in
      let empty : ArePickers (empty_pickers old) = record {
        replicas = v.replicas;
        regional = record { replicas = v.regional.replicas; rings = tt };
      } in
      let (valid, ring) = place_all-ArePickers a old infos (empty_pickers old) new e empty in
      let (x, own, got) = get-successor new.local_picker key (ring (inl member)) in
      rw (e, set_peers) (valid, (x.peer, rw (got, get_peer) refl))
