-- ===== src/Peers/Joins.antt =====
-- Add of replicated_hash.go on a ring, and the keys of a peer that joins.
use gubernator.Peers.Successor.{successor-Before, Before-antisym, Sorted, IsRing, get-successor}
use gubernator.Peers.Hash.{
  PeerClient, PeerKey, RingTools, ReplicatedConsistentHash, Pick, replica_keys, add, get,
}
use gubernator.Prelude.GoMap.{GoMap, insert}
use gubernator.Prelude.{
  ℕ, zero, suc, String, List, [], ◌∷◌, ◌++◌, ◌≡◌, ◌≢◌, refl, ap, sym, ◌∙◌, ◌⊎◌, inl, inr, arith,
  length, length-append, All, All-Listed, Listed, Listed-left, Listed-split,
}

-- What sort.Slice promises: the keys are in order, and they are those that there were.
pub record Sorts (tools : RingTools) : Type 0 where
  pub in_order : (l : List PeerKey) → Sorted (tools.sort_slice l)
  pub none_new : (x : PeerKey) (l : List PeerKey) → Listed x (tools.sort_slice l) → Listed x l
  pub none_lost : (x : PeerKey) (l : List PeerKey) → Listed x l → Listed x (tools.sort_slice l)
  pub as_many : (l : List PeerKey) → length (tools.sort_slice l) ≡ length l

-- Keys with the same hash belong to one peer.
abbrev pub Agree : List PeerKey → Type 0
Agree l = (x y : PeerKey) → Listed x l → Listed y l → x.hash ≡ y.hash → x.peer ≡ y.peer

pub replica_keys-peer :
    (fn : String → ℕ) (p : PeerClient) (key : String) (i left : ℕ)
    → All (λ x. x.peer ≡ p) (replica_keys fn p key i left)
unfolding replica_keys
replica_keys-peer fn p key i zero = tt
replica_keys-peer fn p key i (suc left) = (refl, replica_keys-peer fn p key (suc i) left)

insert_populated : (k : String) (p : PeerClient) (m : GoMap PeerClient) → length (insert k p m) ≢ 0
unfolding insert
insert_populated k p [] e = absurd (omega arith)
insert_populated k p ((j, q) ∷ m) e = absurd (ground arith)

length-replica_keys :
    (fn : String → ℕ) (p : PeerClient) (key : String) (i left : ℕ)
    → length (replica_keys fn p key i left) ≡ left
unfolding replica_keys
length-replica_keys fn p key i zero = refl
length-replica_keys fn p key i (suc left) = ap suc (length-replica_keys fn p key (suc i) left)

module _ (tools : RingTools) (laws : Sorts tools) where
  -- A picker with a peer added is a ring, if each peer has replicas.
  pub add-IsRing :
      (p : PeerClient) (ch : ReplicatedConsistentHash) → ch.replicas ≢ 0 → IsRing (add tools p ch)
  unfolding add
  add-IsRing p ch n =
      let key = tools.md5_hex p.info.grpc_address in
      let new = replica_keys ch.hash_func p key 0 ch.replicas in
      record {
        sorted = laws.in_order (ch.peer_keys ++ new);
        populated = insert_populated p.info.grpc_address p ch.peers;
        filled = λ e. n (
            omega (
              arith,
              e,
              laws.as_many (ch.peer_keys ++ new),
              length-append ch.peer_keys new,
              length-replica_keys ch.hash_func p key 0 ch.replicas,
            ));
      }

  -- When sort.Slice sorts, on a ring with replicas whose keys with equal hashes belong to one peer,
  -- a peer that is added takes a key over, or the key is picked as before.
  pub get-add :
      (p : PeerClient) (ch : ReplicatedConsistentHash) (key : String)
      → IsRing ch
      → Agree ch.peer_keys
      → ch.replicas ≢ 0
      → (get (add tools p ch) key ≡ Pick.picked p) ⊎ (get (add tools p ch) key ≡ get ch key)
  unfolding add
  get-add p ch key v agree n =
      let h = ch.hash_func key in
      let new = replica_keys ch.hash_func p (tools.md5_hex p.info.grpc_address) 0 ch.replicas in
      let all = ch.peer_keys ++ new in
      let (x, own, got) = get-successor (add tools p ch) key (add-IsRing p ch n) in
      let (y, own', got') = get-successor ch key v in
      let (at, first) = successor-Before h x (tools.sort_slice all) (laws.in_order all) own in
      let (at', first') = successor-Before h y ch.peer_keys v.sorted own' in
      elim (Listed-split x ch.peer_keys new (laws.none_new x all at)) [
        | inl old ↦
            let there = laws.none_lost y all (Listed-left y ch.peer_keys new at') in
            let same = Before-antisym h x.hash y.hash (first y there) (first' x old) in
            inr (got ∙ ap Pick.picked (agree x y old at' same) ∙ sym got')
        | inr mine ↦
            let own_key = replica_keys-peer ch.hash_func p _ 0 ch.replicas in
            inl (got ∙ ap Pick.picked (All-Listed (λ (z : PeerKey). z.peer ≡ p) x new own_key mine))
      ]
