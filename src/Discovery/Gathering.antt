-- ===== src/Discovery/Gathering.antt =====
-- What the event handler of memberlist.go holds and hands on after any sequence of events.
use gubernator.Discovery.Gossip.{
  Node, Decoders, MemberEvent, joined_pool, notify_join, notify_leave, notify_update, not_owner,
  update_of, unmarshall_peer, ip_of, handle_member, handle_members,
}
use gubernator.Peers.Hash.{PeerInfo}
use gubernator.Prelude.GoMap.{GoMap, lookup, lookup-insert, lookup-delete}
use gubernator.Prelude.{
  String, List, [], ◌∷◌, Option, none, some, false, str_eq, eq_refl, subst, if◌then◌else◌, ◌≡◌,
  refl, ap, sym, ◌∙◌, inl, inr, arith, Bool-cases, Option-cases,
}

module _ (d : Decoders) where
  abbrev pub node_of : MemberEvent → Node
  node_of (joined_pool n) = n
  node_of (notify_join n) = n
  node_of (notify_leave n) = n
  node_of (notify_update n) = n

  -- What an event says of its node's peer, where the handler held `held`.
  abbrev pub told : MemberEvent → Option PeerInfo → Option PeerInfo
  told (joined_pool n) held =
      if (unmarshall_peer d n.meta (ip_of d n)).1
      then some (unmarshall_peer d n.meta (ip_of d n)).0
      else held
  told (notify_join n) held =
      if (unmarshall_peer d n.meta (ip_of d n)).1
      then some (not_owner (unmarshall_peer d n.meta (ip_of d n)).0)
      else held
  told (notify_leave n) held = none
  told (notify_update n) held = some (not_owner (unmarshall_peer d n.meta (ip_of d n)).0)

  -- What the events say of an address, in their order.
  abbrev pub history : String → List MemberEvent → Option PeerInfo → Option PeerInfo
  history ip [] held = held
  history ip (e ∷ es) held =
      history ip es (if str_eq (ip_of d (node_of e)) ip then told e held else held)

  module _ (advertise : String) where
    lookup-handle_member :
        (ip : String) (e : MemberEvent) (peers : GoMap PeerInfo)
        → lookup ip (handle_member d advertise e peers).0
          ≡ (if str_eq (ip_of d (node_of e)) ip then told e (lookup ip peers) else lookup ip peers)
    unfolding handle_member
    lookup-handle_member ip (joined_pool n) peers =
        elim (Bool-cases (unmarshall_peer d n.meta (ip_of d n)).1) [
          | inl fine ↦ rw (fine, handle_member) (lookup-insert (ip_of d n) ip _ peers)
          | inr bad ↦ rw (bad, handle_member) (ground arith)
        ]
    lookup-handle_member ip (notify_join n) peers =
        elim (Bool-cases (unmarshall_peer d n.meta (ip_of d n)).1) [
          | inl fine ↦ rw (fine, handle_member) (lookup-insert (ip_of d n) ip _ peers)
          | inr bad ↦ rw (bad, handle_member) (ground arith)
        ]
    lookup-handle_member ip (notify_leave n) peers = lookup-delete (ip_of d n) ip peers
    lookup-handle_member ip (notify_update n) peers = lookup-insert (ip_of d n) ip _ peers

    -- A call of OnUpdate hands on what the handler holds.
    called :
        (e : MemberEvent) (peers : GoMap PeerInfo) (l : List PeerInfo)
        → (handle_member d advertise e peers).1 ≡ some l
        → l ≡ update_of advertise (handle_member d advertise e peers).0
    unfolding handle_member
    called (joined_pool n) peers l h = elim (Bool-cases (unmarshall_peer d n.meta (ip_of d n)).1) [
      | inl fine ↦ rw (fine, handle_member) (ground (arith, h, fine))
      | inr bad ↦ absurd (ground (arith, h, bad))
    ]
    called (notify_join n) peers l h = elim (Bool-cases (unmarshall_peer d n.meta (ip_of d n)).1) [
      | inl fine ↦ rw (fine, handle_member) (ground (arith, h, fine))
      | inr bad ↦ absurd (ground (arith, h, bad))
    ]
    called (notify_leave n) peers l h = ground (arith, h)
    called (notify_update n) peers l h = ground (arith, h)

    -- The last list given to OnUpdate is what the handler holds, if there was one.
    abbrev pub UpToDate : GoMap PeerInfo → Option (List PeerInfo) → Type 0
    UpToDate peers none = Unit
    UpToDate peers (some l) = l ≡ update_of advertise peers

    unchanged :
        (e : MemberEvent) (peers : GoMap PeerInfo)
        → (handle_member d advertise e peers).1 ≡ none
        → (handle_member d advertise e peers).0 ≡ peers
    unfolding handle_member
    unchanged (joined_pool n) peers h = elim (Bool-cases (unmarshall_peer d n.meta (ip_of d n)).1) [
      | inl fine ↦ absurd (ground (arith, h, fine))
      | inr bad ↦ rw (bad, handle_member) refl
    ]
    unchanged (notify_join n) peers h = elim (Bool-cases (unmarshall_peer d n.meta (ip_of d n)).1) [
      | inl fine ↦ absurd (ground (arith, h, fine))
      | inr bad ↦ rw (bad, handle_member) refl
    ]
    unchanged (notify_leave n) peers h = absurd (cc h)
    unchanged (notify_update n) peers h = absurd (cc h)

    still-UpToDate :
        (e : MemberEvent) (peers : GoMap PeerInfo) (last : Option (List PeerInfo))
        → UpToDate peers last
        → UpToDate
            (handle_member d advertise e peers).0
            (elim (handle_member d advertise e peers).1 [ none ↦ last | some l ↦ some l ])
    still-UpToDate e peers last u = elim (Option-cases (handle_member d advertise e peers).1) [
      | inl h ↦ rw h (subst (λ (m : GoMap PeerInfo). UpToDate m last) (sym (unchanged e peers h)) u)
      | inr (l, h) ↦ rw h (called e peers l h)
    ]

    -- After any events of the member list, on peers for which the last call of OnUpdate, if there
    -- was one, announced the peers held, this is so again, and the peer held for each address is
    -- what the events about it say, in their order.
    pub handle_members_lem :
        (es : List MemberEvent) (peers : GoMap PeerInfo) (last : Option (List PeerInfo))
        → UpToDate peers last
        → UpToDate
            (handle_members d advertise es peers last).0
            (handle_members d advertise es peers last).1
          × ((ip : String)
              → lookup ip (handle_members d advertise es peers last).0
                ≡ history ip es (lookup ip peers))
    unfolding handle_members
    handle_members_lem [] peers last u = (u, λ ip. refl)
    handle_members_lem (e ∷ es) peers last u =
        let (peers', call) = handle_member d advertise e peers in
        let last' : Option (List PeerInfo) = elim call [ none ↦ last | some l ↦ some l ] in
        let (u', rest) = handle_members_lem es peers' last' (still-UpToDate e peers last u) in
        (
          u',
          λ ip.
              rest ip
              ∙ ap (λ (held : Option PeerInfo). history ip es held)
                  (lookup-handle_member ip e peers),
        )

  -- A node whose metadata cannot be decoded is stored by an update.
  pub unmarshall_failure_is_announced :
      (advertise : String) (n : Node) (peers : GoMap PeerInfo) (p : PeerInfo)
      → unmarshall_peer d n.meta (ip_of d n) ≡ (p, false)
      → lookup (ip_of d n) (handle_member d advertise (notify_update n) peers).0
        ≡ some (not_owner p)
  unfolding handle_member
  unmarshall_failure_is_announced advertise n peers p h = rw h (
      lookup-insert (ip_of d n) (ip_of d n) (not_owner p) peers
      ∙ ground (arith, eq_refl (ip_of d n)))
