-- ===== src/Cache/Moves.antt =====
-- How writing an item, moving an element to the front and dropping the last element change the
-- positions of the keys.
use gubernator.Cache.Elements.{Element, find_element, remove_id, set_value, back}
use gubernator.Cache.Index.{
  items_of, index_of, Distinct, Below, Distinct-remove, index-remove, find-index,
}
use gubernator.Cache.Spec.{replace_item, drop_last}
use gubernator.Prelude.{
  ℕ, String, List, [], ◌∷◌, none, some, ◌≡◌, refl, arith, eq_iff, eq_refl, length,
}
use gubernator.Types.{CacheItem}

module _ {F : Type 0} where
  pub find-set_none :
      (y e : ℕ) (item : CacheItem F) (l : List (Element F))
      → find_element y l ≡ none
      → find_element y (set_value e item l) ≡ none
  unfolding find_element set_value
  find-set_none y e item [] h = refl
  find-set_none y e item (x ∷ l) h = ground (arith, find-set_none y e item l)

  pub index-set :
      (j : String) (e : ℕ) (item : CacheItem F) (x : Element F) (l : List (Element F))
      → find_element e l ≡ some x
      → item.key ≡ x.value.key
      → index_of j (set_value e item l) ≡ index_of j l
  unfolding index_of set_value find_element
  index-set j e item x [] h k = refl
  index-set j e item x (y ∷ l) h k = ground (arith, index-set j e item x l)

  pub Distinct-set :
      (e : ℕ) (item : CacheItem F) (x : Element F) (l : List (Element F))
      → find_element e l ≡ some x
      → item.key ≡ x.value.key
      → Distinct l
      → Distinct (set_value e item l)
  unfolding set_value find_element
  Distinct-set e item x [] h k d = tt
  Distinct-set e item x (y ∷ l) h k d = ground (
    arith,
    Distinct-set e item x l,
    index-set y.value.key e item x l,
    find-set_none y.id e item l,
  )

  pub Below-set :
      (n e : ℕ) (item : CacheItem F) (l : List (Element F))
      → Below n l
      → Below n (set_value e item l)
  unfolding set_value
  Below-set n e item [] h = tt
  Below-set n e item (x ∷ l) h = ground (arith, Below-set n e item l h.1)

  pub length-set :
      (e : ℕ) (item : CacheItem F) (l : List (Element F)) → length (set_value e item l) ≡ length l
  unfolding set_value
  length-set e item [] = refl
  length-set e item (x ∷ l) = ground (arith, length-set e item l)

  pub items-set :
      (k : String) (e : ℕ) (item : CacheItem F) (l : List (Element F))
      → index_of k l ≡ some e
      → Distinct l
      → items_of (set_value e item l) ≡ replace_item k item (items_of l)
  unfolding index_of set_value replace_item find_element
  items-set k e item [] h d = cc
  items-set k e item (y ∷ l) h d = ground (arith, items-set k e item l, find-index k e l)

  -- Moving the element of a key to the front changes the position of no key.
  pub index-front :
      (k j : String) (x : Element F) (l : List (Element F))
      → index_of k l ≡ some x.id
      → x.value.key ≡ k
      → Distinct l
      → index_of j (x ∷ remove_id x.id l) ≡ index_of j l
  unfolding index_of
  index-front k j x l h n d =
      ground (arith, index-remove k j x.id l h d, eq_iff k j, eq_iff x.value.key j)

  pub find-remove_self :
      (e : ℕ) (l : List (Element F)) → Distinct l → find_element e (remove_id e l) ≡ none
  unfolding find_element remove_id
  find-remove_self e [] d = refl
  find-remove_self e (y ∷ l) d = ground (arith, find-remove_self e l d.2)

  pub Distinct-front :
      (k : String) (x : Element F) (l : List (Element F))
      → index_of k l ≡ some x.id
      → x.value.key ≡ k
      → Distinct l
      → Distinct (x ∷ remove_id x.id l)
  Distinct-front k x l h n d = (
    ground (arith, index-remove k x.value.key x.id l h d, eq_iff k x.value.key),
    find-remove_self x.id l d,
    Distinct-remove x.id l d,
  )

  -- The last element of a list that is not empty, and the list without it.
  pub record IsLast (y : Element F) (l : List (Element F)) : Type 0 where
    pub last : back l ≡ some y
    pub at : index_of y.value.key l ≡ some y.id
    pub found : find_element y.id l ≡ some y
    pub rest : items_of (remove_id y.id l) ≡ drop_last (items_of l)

  IsLast-one : (x : Element F) → IsLast x (x ∷ [])
  unfolding back index_of find_element remove_id drop_last
  IsLast-one x = record {
    last = refl;
    at = ground (arith, eq_refl x.value.key);
    found = ground arith;
    rest = ground arith;
  }

  IsLast-cons :
      (x y z : Element F) (l : List (Element F))
      → Distinct (x ∷ z ∷ l)
      → IsLast y (z ∷ l)
      → IsLast y (x ∷ z ∷ l)
  unfolding back index_of find_element remove_id drop_last
  IsLast-cons x y z l d h = record {
    last = h.last;
    at = ground (arith, h.at, eq_iff x.value.key y.value.key);
    found = ground (arith, h.found);
    rest = ground (arith, h.found, h.rest);
  }

  pub back-IsLast :
      (x : Element F) (l : List (Element F)) → Distinct (x ∷ l) → (y : Element F) × IsLast y (x ∷ l)
  back-IsLast x [] d = (x, IsLast-one x)
  back-IsLast x (z ∷ l) d = let (y, h) = back-IsLast z l d.2 in (y, IsLast-cons x y z l d h)
