-- ===== src/Cache/Index.antt =====
-- Positions in the element list: what the map of lrucache.go must say for a list of elements
-- with distinct keys and identities, and how the list operations change it.
use gubernator.Cache.Elements.{Element, find_element, remove_id}
use gubernator.Cache.Spec.{find_item, drop_item}
use gubernator.Prelude.{
  ℕ, suc, ◌<◌, String, List, [], ◌∷◌, Option, none, some, ◌≡◌, refl, arith, str_eq, eq_iff,
  if◌then◌else◌, Bool-cases, inl, inr, length,
}
use gubernator.Types.{CacheItem}

module _ {F : Type 0} where
  abbrev pub items_of : List (Element F) → List (CacheItem F)
  items_of [] = []
  items_of (x ∷ l) = x.value ∷ items_of l

  -- the identity of the element that holds a key
  unfoldable pub index_of : String → List (Element F) → Option ℕ
  index_of k [] = none
  index_of k (x ∷ l) = if str_eq x.value.key k then some x.id else index_of k l

  abbrev pub Distinct : List (Element F) → Type 0
  Distinct [] = Unit
  Distinct (x ∷ l) = (index_of x.value.key l ≡ none) × (find_element x.id l ≡ none) × Distinct l

  abbrev pub Below : ℕ → List (Element F) → Type 0
  Below n [] = Unit
  Below n (x ∷ l) = (x.id < n) × Below n l

  pub Below-find : (n : ℕ) (l : List (Element F)) → Below n l → find_element n l ≡ none
  unfolding find_element
  Below-find n [] h = refl
  Below-find n (x ∷ l) h = ground (arith, Below-find n l h.1)

  pub Below-found :
      (n e : ℕ) (l : List (Element F)) (x : Element F)
      → Below n l
      → find_element e l ≡ some x
      → x.id < n
  unfolding find_element
  Below-found n e [] x h f = absurd (cc)
  Below-found n e (y ∷ l) x h f = ground (arith, Below-found n e l x h.1)

  pub Below-suc : (n : ℕ) (l : List (Element F)) → Below n l → Below (suc n) l
  Below-suc n [] h = tt
  Below-suc n (x ∷ l) h = (omega arith, Below-suc n l h.1)

  pub Below-remove : (n e : ℕ) (l : List (Element F)) → Below n l → Below n (remove_id e l)
  unfolding remove_id
  Below-remove n e [] h = tt
  Below-remove n e (x ∷ l) h = ground (arith, Below-remove n e l h.1)

  pub find-remove_none :
      (y e : ℕ) (l : List (Element F))
      → find_element y l ≡ none
      → find_element y (remove_id e l) ≡ none
  unfolding find_element remove_id
  find-remove_none y e [] h = refl
  find-remove_none y e (x ∷ l) h = ground (arith, find-remove_none y e l)

  pub index-remove_none :
      (k : String) (e : ℕ) (l : List (Element F))
      → index_of k l ≡ none
      → index_of k (remove_id e l) ≡ none
  unfolding index_of remove_id
  index-remove_none k e [] h = refl
  index-remove_none k e (x ∷ l) h = ground (arith, index-remove_none k e l)

  pub Distinct-remove : (e : ℕ) (l : List (Element F)) → Distinct l → Distinct (remove_id e l)
  unfolding remove_id
  Distinct-remove e [] h = tt
  Distinct-remove e (x ∷ l) h = ground (
    arith,
    Distinct-remove e l h.2,
    index-remove_none x.value.key e l h.0,
    find-remove_none x.id e l h.1,
  )

  pub find_item-index_none :
      (k : String) (l : List (Element F)) → index_of k l ≡ none → find_item k (items_of l) ≡ none
  unfolding index_of find_item
  find_item-index_none k [] h = refl
  find_item-index_none k (x ∷ l) h = ground (arith, find_item-index_none k l)

  -- An element that the list holds under an identity has that identity.
  find-id : (e : ℕ) (l : List (Element F)) (x : Element F) → find_element e l ≡ some x → x.id ≡ e
  unfolding find_element
  find-id e [] x h = cc
  find-id e (y ∷ l) x h = ground (arith, find-id e l x)

  -- The position of a key leads to the element with that key.
  pub find-index :
      (k : String) (e : ℕ) (l : List (Element F))
      → index_of k l ≡ some e
      → Distinct l
      → (x : Element F) × (find_element e l ≡ some x)
        × (x.id ≡ e)
        × (x.value.key ≡ k)
        × (find_item k (items_of l) ≡ some x.value)
  unfolding index_of find_element find_item
  find-index k e [] h d = cc
  find-index k e (y ∷ l) h d = elim (Bool-cases (str_eq y.value.key k)) [
    | inl p ↦ (y, ground arith, ground arith, ground (arith, eq_iff y.value.key k), ground arith)
    | inr p ↦
        let (x, found, same, named, item) = find-index k e l (ground arith) d.2 in
        (x, ground arith, same, named, ground arith)
  ]

  pub items-remove :
      (k : String) (e : ℕ) (l : List (Element F))
      → index_of k l ≡ some e
      → Distinct l
      → items_of (remove_id e l) ≡ drop_item k (items_of l)
  unfolding index_of remove_id drop_item find_element
  items-remove k e [] h d = cc
  items-remove k e (y ∷ l) h d = ground (arith, items-remove k e l, find-index k e l)

  pub length-remove :
      (e : ℕ) (l : List (Element F)) (x : Element F)
      → find_element e l ≡ some x
      → suc (length (remove_id e l)) ≡ length l
  unfolding remove_id find_element
  length-remove e [] x h = cc
  length-remove e (y ∷ l) x h = ground (arith, length-remove e l x)

  pub index-remove :
      (k j : String) (e : ℕ) (l : List (Element F))
      → index_of k l ≡ some e
      → Distinct l
      → index_of j (remove_id e l) ≡ (if str_eq k j then none else index_of j l)
  unfolding index_of remove_id find_element
  index-remove k j e [] h d = cc
  index-remove k j e (y ∷ l) h d = ground (
    arith,
    eq_iff y.value.key k,
    eq_iff y.value.key j,
    eq_iff k j,
    index-remove k j e l,
    find-index k e l,
  )
