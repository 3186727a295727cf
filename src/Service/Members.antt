-- ===== src/Service/Members.antt =====
-- The pickers that SetPeers of gubernator.go leaves: whose clients they hold, which ones they keep
-- and which are shut down.
use gubernator.Peers.Hash.{RingTools, PeerInfo, PeerClient, new_picker, peers_of, get_by_peer_info}
use gubernator.Peers.Region.{region_by_peer_info, region_peers}
use gubernator.Prelude.GoMap.{lookup}
use gubernator.Prelude.{
  Listed, String, List, [], ◌∷◌, ◌++◌, Option, none, some, true, false, ◌≡◌, ◌↔◌, ◌⊎◌, inl, inr,
  refl, ap, sym, ◌∙◌, subst, arith, Bool-cases, Option-cases,
}
use gubernator.Service.Membership.{
  Pickers, not_found_by, place_all, empty_pickers, dropped, set_peers,
}
use gubernator.Service.Placing.{
  Keyed, is_member, peers_at, Dialable, place_all-Step, place_all-Dialable,
}

module _ (tools : RingTools) (dial : String → Option String) (data_center : String) where
  -- The clients of a list that a lookup does not find, and no others.
  not_found_by_iff :
      (find : PeerInfo → Option PeerClient) (ps : List PeerClient) (p : PeerClient)
      → Listed p (not_found_by find ps) ↔ (Listed p ps × (find p.info ≡ none))
  unfolding not_found_by
  not_found_by_iff find [] p = (λ l. absurd l, λ h. absurd h.0)
  not_found_by_iff find (q ∷ ps) p =
      let rest = not_found_by_iff find ps p in
      elim (Option-cases (find q.info)) [
        | inl absent ↦
            rw (absent, not_found_by)
              (
                λ l. elim l [
                  | inl same ↦ (inl same, ap (λ (x : PeerClient). find x.info) (sym same) ∙ absent)
                  | inr later ↦ (inr (rest.0 later).0, (rest.0 later).1)
                ],
                λ h. elim h.0 [ inl same ↦ inl same | inr later ↦ inr (rest.1 (later, h.1)) ],
              )
        | inr (x, found) ↦
            rw (found, not_found_by)
              (
                λ l. (inr (rest.0 l).0, (rest.0 l).1),
                λ h. elim h.0 [
                  | inl same ↦
                      absurd (ground (arith, found, h.1, ap (λ (y : PeerClient). find y.info) same))
                  | inr later ↦ rest.1 (later, h.1)
                ],
              )
      ]

  Listed-append_iff :
      (p : PeerClient) (xs ys : List PeerClient) → Listed p (xs ++ ys) ↔ (Listed p xs ⊎ Listed p ys)
  Listed-append_iff p [] ys = (λ l. inr l, λ h. elim h [ inl l ↦ absurd l | inr l ↦ l ])
  Listed-append_iff p (x ∷ xs) ys =
      let rest = Listed-append_iff p xs ys in
      (
        λ l. elim l [
          | inl same ↦ inl (inl same)
          | inr later ↦ elim (rest.0 later) [ inl k ↦ inl (inr k) | inr k ↦ inr k ]
        ],
        λ h. elim h [
          | inl l ↦ elim l [ inl same ↦ inl same | inr later ↦ inr (rest.1 (inl later)) ]
          | inr k ↦ inr (rest.1 (inr k))
        ],
      )

  installed :
      (infos : List PeerInfo) (old : Pickers)
      → Dialable tools dial data_center infos
      → (new : Pickers) × (place_all tools dial data_center old infos (empty_pickers old)
          ≡ some new)
        × (set_peers tools dial data_center infos old
            ≡ (new, dropped tools dial data_center old new))
  unfolding set_peers
  installed infos old d =
      let (new, e) = place_all-Dialable tools dial data_center old infos (empty_pickers old) d in
      (new, e, rw (e, set_peers) refl)

  -- When the clients of the local picker stand under their addresses and every peer of the list can
  -- be dialled, then after SetPeers the local picker has a client at an address exactly when the
  -- list names a peer of the own data center there, and a client that was there and is still named
  -- is kept.
  pub set_peers_members :
      (infos : List PeerInfo) (old : Pickers) (a : String)
      → Keyed (peers_at old)
      → Dialable tools dial data_center infos
      → ((lookup a (peers_at (set_peers tools dial data_center infos old).0) ≡ none)
          ↔ (is_member data_center a infos ≡ false))
        × ((p : PeerClient)
            → lookup a (peers_at old) ≡ some p
            → is_member data_center a infos ≡ true
            → lookup a (peers_at (set_peers tools dial data_center infos old).0) ≡ some p)
  unfolding set_peers new_picker lookup
  set_peers_members infos old a k d =
      let (new, e, done) = installed infos old d in
      let (passed, placed) =
        place_all-Step tools dial data_center a old infos (empty_pickers old) new k e in
      rw done (
        (
          λ gone. elim (Bool-cases (is_member data_center a infos)) [
            | inl member ↦ absurd (ground (arith, gone, (placed (inl member)).1))
            | inr other ↦ other
          ],
          passed,
        ),
        λ p held member.
            let (q, at, same) = placed (inl member) in at ∙ ap some (sym (same p held)),
      )

  -- SetPeers shuts down the old local clients whose addresses the list does not name in the own data
  -- center, and the old clients of regions that the new region picker does not find.
  pub set_peers_shut_down :
      (infos : List PeerInfo) (old : Pickers) (p : PeerClient)
      → Keyed (peers_at old)
      → Dialable tools dial data_center infos
      → Listed p (set_peers tools dial data_center infos old).1 ↔ (
          (Listed p (peers_of old.local_picker)
            × (is_member data_center p.info.grpc_address infos ≡ false))
          ⊎ (Listed p (region_peers old.region_picker)
              × (region_by_peer_info
                    (set_peers tools dial data_center infos old).0.region_picker
                    p.info
                  ≡ none)))
  unfolding set_peers dropped get_by_peer_info
  set_peers_shut_down infos old p k d =
      let (new, e, done) = installed infos old d in
      let (gone, kept) = set_peers_members infos old p.info.grpc_address k d in
      let gone' : (lookup p.info.grpc_address (peers_at new) ≡ none)
          ↔ (is_member data_center p.info.grpc_address infos ≡ false) =
        subst
          (λ (s : Pickers).
            (lookup p.info.grpc_address (peers_at s) ≡ none)
            ↔ (is_member data_center p.info.grpc_address infos ≡ false))
          (ap (λ (r : Pickers × List PeerClient). r.0) done) gone in
      let split =
        Listed-append_iff p
          (not_found_by (get_by_peer_info new.local_picker) (peers_of old.local_picker))
          (not_found_by (region_by_peer_info new.region_picker) (region_peers old.region_picker)) in
      let mine =
        not_found_by_iff (get_by_peer_info new.local_picker) (peers_of old.local_picker) p in
      let theirs =
        not_found_by_iff (region_by_peer_info new.region_picker) (region_peers old.region_picker)
          p in
      rw done (
        λ l. elim (split.0 l) [
          | inl l' ↦ let (at, absent) = mine.0 l' in inl (at, gone'.0 absent)
          | inr there ↦ inr (theirs.0 there)
        ],
        λ h. elim h [
          | inl (at, absent) ↦ split.1 (inl (mine.1 (at, gone'.1 absent)))
          | inr there ↦ split.1 (inr (theirs.1 there))
        ],
      )
