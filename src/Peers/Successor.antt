-- ===== src/Peers/Successor.antt =====
-- The owner of a key on the ring of replicated_hash.go: the first peer key at or after the key's
-- hash, else the first of all; and Get.
use mathlib.Core.Bool.{false≢true}
use native.Mathlib.Decide.{ℕ_discrete}
use gubernator.Peers.Hash.{PeerKey, ReplicatedConsistentHash, Pick, key_ge, pick_at, get}
use gubernator.Peers.Search.{search, search-IsLeast, IsMonotone, IsLeast}
use gubernator.Prelude.{
  Listed, All-Listed, subst, ℕ, zero, suc, ◌≤◌, ◌<◌, String, List, [], ◌∷◌, Option, none, some,
  true, false, ◌≡◌, ◌≢◌, refl, ap, sym, ◌∙◌, ◌⊎◌, inl, inr, arith, leb, ◌==◌, if◌then◌else◌, length,
  get_elem?, Bool-cases, Option-cases, All, ==_iff,
}

unfoldable pub first_ge : ℕ → List PeerKey → Option PeerKey
first_ge h [] = none
first_ge h (x ∷ l) = if leb h x.hash then some x else first_ge h l

abbrev pub head? : List PeerKey → Option PeerKey
head? [] = none
head? (x ∷ l) = some x

unfoldable pub successor : ℕ → List PeerKey → Option PeerKey
successor h l = elim (first_ge h l) [ none ↦ head? l | some x ↦ some x ]

abbrev pub Sorted : List PeerKey → Type 0
Sorted [] = Unit
Sorted (x ∷ l) = All (λ y. x.hash ≤ y.hash) l × Sorted l

-- The ring of a picker that has peers.
pub record IsRing (ch : ReplicatedConsistentHash) : Type 0 where
  pub sorted : Sorted ch.peer_keys
  pub populated : length ch.peers ≢ 0
  pub filled : length ch.peer_keys ≢ 0

-- The least index whose key is at or after the hash is the first such key.
get-first_ge : (l : List PeerKey) (h r : ℕ) → IsLeast (key_ge l h) r → get_elem? l r ≡ first_ge h l
unfolding key_ge first_ge
get-first_ge [] h r m = refl
get-first_ge (x ∷ l) h zero m = ground (arith, m.here)
get-first_ge (x ∷ l) h (suc r) m =
    let first = m.below 0 (omega arith) in
    ground (
      arith,
      first,
      get-first_ge l h r (record { here = m.here; below = λ k lt. m.below (suc k) (omega arith) }),
    )

All-ge :
    (x : PeerKey) (l : List PeerKey) (h b : ℕ)
    → All (λ y. x.hash ≤ y.hash) l
    → key_ge l h b ≡ false
    → leb h x.hash ≡ false
unfolding key_ge
All-ge x [] h b a e = absurd (cc)
All-ge x (y ∷ l) h zero a e = ground (arith, a.0)
All-ge x (y ∷ l) h (suc b) a e = All-ge x l h b a.1 e

key_ge-before :
    (l : List PeerKey) (h a b : ℕ) → Sorted l → a ≤ b → key_ge l h b ≡ false → key_ge l h a ≡ false
unfolding key_ge
key_ge-before [] h a b s le e = e
key_ge-before (x ∷ l) h zero zero s le e = e
key_ge-before (x ∷ l) h zero (suc b) s le e = All-ge x l h b s.0 e
key_ge-before (x ∷ l) h (suc a) zero s le e = absurd (omega arith)
key_ge-before (x ∷ l) h (suc a) (suc b) s le e = key_ge-before l h a b s.1 (omega arith) e

key_ge_end : (l : List PeerKey) (h : ℕ) → key_ge l h (length l) ≡ true
unfolding key_ge
key_ge_end [] h = refl
key_ge_end (x ∷ l) h = key_ge_end l h

get_elem?_end : (l : List PeerKey) → get_elem? l (length l) ≡ none
get_elem?_end [] = refl
get_elem?_end (x ∷ l) = get_elem?_end l

get_elem?_before : (l : List PeerKey) (i : ℕ) → get_elem? l i ≡ none → i ≢ length l → length l < i
get_elem?_before [] i e n = omega arith
get_elem?_before (x ∷ l) zero e n = absurd (cc)
get_elem?_before (x ∷ l) (suc i) e n = omega (arith, get_elem?_before l i e (λ q. n (ap suc q)))

first_key :
    (l : List PeerKey)
    → length l ≢ 0
    → (x : PeerKey) × (head? l ≡ some x) × (get_elem? l 0 ≡ some x)
first_key [] n = absurd (n refl)
first_key (x ∷ l) n = (x, refl, refl)

-- Past the last key there is only the end of the slice.
idx_end :
    (l : List PeerKey) (h r : ℕ) → IsLeast (key_ge l h) r → get_elem? l r ≡ none → r ≡ length l
idx_end l h r m e = elim (ℕ_discrete r (length l)) [
  | yes q ↦ q
  | no q ↦
      absurd (false≢true (sym (m.below (length l) (get_elem?_before l r e q)) ∙ key_ge_end l h))
]

idx_inside :
    (l : List PeerKey) (r : ℕ) (x : PeerKey) → get_elem? l r ≡ some x → (r == length l) ≡ false
idx_inside l r x e = elim (Bool-cases (r == length l)) [
  | inl q ↦ absurd (cc (get_elem?_end l, ap (get_elem? l) ((==_iff r (length l)).0 q)))
  | inr q ↦ q
]

pick_some :
    (l : List PeerKey) (i : ℕ) (x : PeerKey)
    → get_elem? l i ≡ some x
    → pick_at l i ≡ Pick.picked x.peer
pick_some l i x e = ground arith

-- On a ring, the pick of Get by binary search is the peer of the first ring key at or after the
-- hash of the key, or of the first ring key when there is none.
pub get-successor :
    (ch : ReplicatedConsistentHash) (key : String)
    → IsRing ch
    → (x : PeerKey) × (successor (ch.hash_func key) ch.peer_keys ≡ some x)
      × (get ch key ≡ Pick.picked x.peer)
unfolding get successor
get-successor ch key v =
    let keys = ch.peer_keys in
    let h = ch.hash_func key in
    let idx = search (length keys) (key_ge keys h) in
    let mono : IsMonotone (key_ge keys h) = record {
      before = λ a b le e. key_ge-before keys h a b v.sorted le e;
    } in
    let least = search-IsLeast (length keys) (key_ge keys h) mono (key_ge_end keys h) in
    let at = get-first_ge keys h idx least in
    let some_peers : (length ch.peers == 0) ≡ false = ground (arith, v.populated) in
    elim (Option-cases (first_ge h keys)) [
      | inl none' ↦
          let (x, first, zeroth) = first_key keys v.filled in
          let last : (idx == length keys) ≡ true =
            (==_iff idx (length keys)).1 (idx_end keys h idx least (at ∙ none')) in
          (x, rw (none', successor) first, rw (some_peers, last) (pick_some keys 0 x zeroth))
      | inr (x, e) ↦ (
        x,
        rw (e, successor),
        rw (some_peers, idx_inside keys idx x (at ∙ e)) (pick_some keys idx x (at ∙ e)),
      )
    ]

-- Of two hashes, the one that a key with the hash `h` comes to first on its way around the ring.
abbrev pub Before : ℕ → ℕ → ℕ → Type 0
Before h a b = ((h ≤ a) × (h ≤ b → a ≤ b)) ⊎ ((a < h) × (b < h) × (a ≤ b))

pub Before-antisym : (h a b : ℕ) → Before h a b → Before h b a → a ≡ b
Before-antisym h a b (inl (le, f)) (inl (le', g)) = omega (arith, f le', g le)
Before-antisym h a b (inl (le, f)) (inr (lt, lt', c)) = absurd (omega (arith, le, lt'))
Before-antisym h a b (inr (lt, lt', c)) (inl (le, g)) = absurd (omega (arith, le, lt'))
Before-antisym h a b (inr (lt, lt', c)) (inr (k, k', d)) = omega (arith, c, d)

first_ge-least :
    (h : ℕ) (x : PeerKey) (l : List PeerKey)
    → Sorted l
    → first_ge h l ≡ some x
    → Listed x l × (h ≤ x.hash) × ((z : PeerKey) → Listed z l → h ≤ z.hash → x.hash ≤ z.hash)
unfolding first_ge
first_ge-least h x [] s e = absurd (cc)
first_ge-least h x (y ∷ l) s e = elim (Bool-cases (leb h y.hash)) [
  | inl here ↦
      let is : y ≡ x = ground (arith, e, here) in
      subst
        (λ (w : PeerKey).
          Listed w (y ∷ l)
          × (h ≤ w.hash)
          × ((z : PeerKey) → Listed z (y ∷ l) → h ≤ z.hash → w.hash ≤ z.hash))
        is
        (
          inl refl,
          ground (arith, here),
          λ z at ge. elim at [
            | inl same ↦ omega (arith, ap (λ (w : PeerKey). w.hash) same)
            | inr later ↦ All-Listed (λ (w : PeerKey). y.hash ≤ w.hash) z l s.0 later
          ],
        )
  | inr before ↦
      let (at, ge, least) = first_ge-least h x l s.1 (ground (arith, e, before)) in
      (
        inr at,
        ge,
        λ z at' ge'. elim at' [
          | inl same ↦ absurd (ground (arith, before, ge', ap (λ (w : PeerKey). w.hash) same))
          | inr later ↦ least z later ge'
        ],
      )
]

first_ge-none :
    (h : ℕ) (l : List PeerKey) → first_ge h l ≡ none → All (λ (z : PeerKey). z.hash < h) l
unfolding first_ge
first_ge-none h [] e = tt
first_ge-none h (y ∷ l) e = elim (Bool-cases (leb h y.hash)) [
  | inl here ↦ absurd (ground (arith, e, here))
  | inr before ↦ (ground (arith, before), first_ge-none h l (ground (arith, e, before)))
]

head-least :
    (h : ℕ) (x : PeerKey) (l : List PeerKey)
    → Sorted l
    → All (λ (z : PeerKey). z.hash < h) l
    → head? l ≡ some x
    → Listed x l × ((z : PeerKey) → Listed z l → Before h x.hash z.hash)
head-least h x [] s low e = absurd (cc)
head-least h x (y ∷ l) s low e =
    let is : y ≡ x = ground (arith, e) in
    subst
      (λ (w : PeerKey).
        Listed w (y ∷ l) × ((z : PeerKey) → Listed z (y ∷ l) → Before h w.hash z.hash))
      is
      (
        inl refl,
        λ z at. inr (
          low.0,
          All-Listed (λ (w : PeerKey). w.hash < h) z (y ∷ l) low at,
          All-Listed (λ (w : PeerKey). y.hash ≤ w.hash) z (y ∷ l) (omega arith, s.0) at,
        ),
      )

-- The owner of a hash is a key of the ring that comes before every other one.
pub successor-Before :
    (h : ℕ) (x : PeerKey) (l : List PeerKey)
    → Sorted l
    → successor h l ≡ some x
    → Listed x l × ((z : PeerKey) → Listed z l → Before h x.hash z.hash)
unfolding successor
successor-Before h x l s e = elim (Option-cases (first_ge h l)) [
  | inl past ↦ head-least h x l s (first_ge-none h l past) (ground (arith, e, past))
  | inr (y, found) ↦
      let (at, ge, least) = first_ge-least h x l s (ground (arith, e, found)) in
      (at, λ z at'. inl (ge, λ ge'. least z at' ge'))
]
