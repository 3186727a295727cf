-- ===== src/Tests/Sorting.antt =====
-- A sort as sort.Slice may do it: insertion by hash.
use gubernator.Peers.Hash.{PeerKey, RingTools}
use gubernator.Peers.Joins.{Sorts}
use gubernator.Peers.Successor.{Sorted}
use gubernator.Prelude.{
  ℕ, suc, ◌≤◌, List, [], ◌∷◌, ◌≡◌, ◌⊎◌, inl, inr, refl, arith, All, Listed, ltb, if◌then◌else◌,
  length, Bool-cases,
}

abbrev pub insert_key : PeerKey → List PeerKey → List PeerKey
insert_key x [] = x ∷ []
insert_key x (y ∷ l) = if ltb x.hash y.hash then x ∷ y ∷ l else y ∷ insert_key x l

abbrev pub sort_keys : List PeerKey → List PeerKey
sort_keys [] = []
sort_keys (x ∷ l) = insert_key x (sort_keys l)

-- An address stands for its own digest.
abbrev pub tools : RingTools
tools = record { md5_hex = λ s. s; sort_slice = sort_keys }

abbrev AllLe : ℕ → List PeerKey → Type 0
AllLe h l = All (λ (y : PeerKey). h ≤ y.hash) l

insert-AllLe :
    (h : ℕ) (x : PeerKey) (l : List PeerKey) → h ≤ x.hash → AllLe h l → AllLe h (insert_key x l)
insert-AllLe h x [] le a = (le, tt)
insert-AllLe h x (y ∷ l) le a = ground (arith, insert-AllLe h x l le a.1)

AllLe-trans : (h k : ℕ) (l : List PeerKey) → h ≤ k → AllLe k l → AllLe h l
AllLe-trans h k [] le a = tt
AllLe-trans h k (y ∷ l) le a = (omega arith, AllLe-trans h k l le a.1)

insert-Sorted : (x : PeerKey) (l : List PeerKey) → Sorted l → Sorted (insert_key x l)
insert-Sorted x [] s = (tt, tt)
insert-Sorted x (y ∷ l) s = elim (Bool-cases (ltb x.hash y.hash)) [
  | inl lt ↦ rw lt ((ground arith, AllLe-trans x.hash y.hash l (ground arith) s.0), s)
  | inr ge ↦ rw ge (insert-AllLe y.hash x l (ground arith) s.0, insert-Sorted x l s.1)
]

Listed-insert_key :
    (z x : PeerKey) (l : List PeerKey) → Listed z (insert_key x l) → (x ≡ z) ⊎ Listed z l
Listed-insert_key z x [] at = at
Listed-insert_key z x (y ∷ l) at = ground (arith, Listed-insert_key z x l)

insert_key-Listed :
    (z x : PeerKey) (l : List PeerKey) → (x ≡ z) ⊎ Listed z l → Listed z (insert_key x l)
insert_key-Listed z x [] at = at
insert_key-Listed z x (y ∷ l) at = ground (arith, insert_key-Listed z x l)

length-insert_key : (x : PeerKey) (l : List PeerKey) → length (insert_key x l) ≡ suc (length l)
length-insert_key x [] = refl
length-insert_key x (y ∷ l) = ground (arith, length-insert_key x l)

sorted : (l : List PeerKey) → Sorted (sort_keys l)
sorted [] = tt
sorted (x ∷ l) = insert-Sorted x (sort_keys l) (sorted l)

from_sort : (z : PeerKey) (l : List PeerKey) → Listed z (sort_keys l) → Listed z l
from_sort z [] at = at
from_sort z (x ∷ l) at = elim (Listed-insert_key z x (sort_keys l) at) [
  | inl same ↦ inl same
  | inr later ↦ inr (from_sort z l later)
]

to_sort : (z : PeerKey) (l : List PeerKey) → Listed z l → Listed z (sort_keys l)
to_sort z [] at = at
to_sort z (x ∷ l) (inl same) = insert_key-Listed z x (sort_keys l) (inl same)
to_sort z (x ∷ l) (inr later) = insert_key-Listed z x (sort_keys l) (inr (to_sort z l later))

as_long : (l : List PeerKey) → length (sort_keys l) ≡ length l
as_long [] = refl
as_long (x ∷ l) = omega (arith, length-insert_key x (sort_keys l), as_long l)

pub tools-Sorts : Sorts tools
tools-Sorts = record {
  in_order = sorted;
  none_new = from_sort;
  none_lost = to_sort;
  as_many = as_long;
}
