-- ===== src/Cache/Invariant.antt =====
-- The invariant of an LRU cache: the map and the list agree, keys and identities are distinct,
-- the length is counted and bounded.
use gubernator.Cache.Elements.{Element, find_element, remove_id, set_value}
use gubernator.Cache.Index.{
  items_of, index_of, Distinct, Below, find-index, items-remove, length-remove, index-remove,
  Distinct-remove, Below-remove, Below-found,
}
use gubernator.Cache.Lru.{LruCache, new_lru_cache, remove_element, element_of}
use gubernator.Cache.Moves.{
  index-set, Distinct-set, Below-set, length-set, items-set, index-front, Distinct-front,
}
use gubernator.Cache.Spec.{find_item, drop_item, replace_item}
use gubernator.Prelude.GoMap.{lookup, lookup-delete}
use gubernator.Prelude.{
  ℕ, ◌≤◌, String, List, ◌∷◌, none, some, ◌≡◌, refl, ◌⊎◌, inl, inr, arith, length, Option-cases,
}
use gubernator.Types.{CacheItem}

-- The map leads to the list, and the list is in order.
pub record IsIndexed {F : Type 0} (c : LruCache F) : Type 0 where
  pub index : (k : String) → lookup k c.cache ≡ index_of k c.ll
  pub distinct : Distinct c.ll
  pub below : Below c.next_id c.ll

pub record IsValid {F : Type 0} (c : LruCache F) : Type 0 where
  pub indexed : IsIndexed c
  pub open indexed use *
  pub counted : c.cache_len ≡ length c.ll
  pub bounded : (c.cache_size ≡ 0) ⊎ (length c.ll ≤ c.cache_size)

module _ {F : Type 0} where
  abbrev pub items : LruCache F → List (CacheItem F)
  items c = items_of c.ll

  pub new-IsValid : (n : ℕ) → IsValid (new_lru_cache {F = F} n)
  unfolding new_lru_cache lookup index_of
  new-IsValid n = record {
    indexed = record { index = λ k. refl; distinct = tt; below = tt };
    counted = refl;
    bounded = inr (omega arith);
  }

  -- What the cache holds for a key.
  pub record Holds (k : String) (c : LruCache F) (x : Element F) : Type 0 where
    pub element : element_of k c ≡ some x
    pub at : index_of k c.ll ≡ some x.id
    pub named : x.value.key ≡ k
    pub found : find_element x.id c.ll ≡ some x
    pub item : find_item k (items c) ≡ some x.value

  pub Holds-cases :
      (k : String) (c : LruCache F)
      → IsIndexed c
      → ((element_of k c ≡ none) × (index_of k c.ll ≡ none)) ⊎ ((x : Element F) × Holds k c x)
  unfolding element_of
  Holds-cases k c v = elim (Option-cases (index_of k c.ll)) [
    | inl e ↦ inl (ground (arith, v.index k), e)
    | inr (n, e) ↦
        let (x, found, same, named, item) = find-index k n c.ll e v.distinct in
        inr (
          x,
          record {
            element = ground (arith, v.index k);
            at = ground arith;
            named = named;
            found = ground arith;
            item = item;
          },
        )
  ]

  pub Holds-of :
      (k : String) (c : LruCache F) (x : Element F)
      → IsIndexed c
      → index_of k c.ll ≡ some x.id
      → find_element x.id c.ll ≡ some x
      → Holds k c x
  unfolding element_of
  Holds-of k c x v at found =
      let (y, found', same, named, item) = find-index k x.id c.ll at v.distinct in
      record {
        element = ground (arith, v.index k);
        at = at;
        named = ground arith;
        found = found;
        item = ground arith;
      }

  pub remove_element-IsIndexed :
      (k : String) (c : LruCache F) (x : Element F)
      → IsIndexed c
      → Holds k c x
      → IsIndexed (remove_element x c)
  unfolding remove_element
  remove_element-IsIndexed k c x v h = record {
    index = λ j. ground (
      arith,
      lookup-delete x.value.key j c.cache,
      v.index j,
      h.named,
      index-remove k j x.id c.ll h.at v.distinct,
    );
    distinct = Distinct-remove x.id c.ll v.distinct;
    below = Below-remove c.next_id x.id c.ll v.below;
  }

  pub remove_element-IsValid :
      (k : String) (c : LruCache F) (x : Element F)
      → IsValid c
      → Holds k c x
      → IsValid (remove_element x c)
  unfolding remove_element
  remove_element-IsValid k c x v h = record {
    indexed = remove_element-IsIndexed k c x v.indexed h;
    counted = refl;
    bounded = ground (arith, v.bounded, length-remove x.id c.ll x h.found);
  }

  pub items-remove_element :
      (k : String) (c : LruCache F) (x : Element F)
      → IsIndexed c
      → Holds k c x
      → items (remove_element x c) ≡ drop_item k (items c)
  unfolding remove_element
  items-remove_element k c x v h = items-remove k x.id c.ll h.at v.distinct

  pub front-IsValid :
      (k : String) (c : LruCache F) (x : Element F)
      → IsValid c
      → Holds k c x
      → IsValid (record c { ll = x ∷ remove_id x.id c.ll })
  front-IsValid k c x v h = record {
    indexed = record {
      index = λ j. ground (arith, v.index j, index-front k j x c.ll h.at h.named v.distinct);
      distinct = Distinct-front k x c.ll h.at h.named v.distinct;
      below = (
        Below-found c.next_id x.id c.ll x v.below h.found,
        Below-remove c.next_id x.id c.ll v.below,
      );
    };
    counted = ground (arith, v.counted, length-remove x.id c.ll x h.found);
    bounded = ground (arith, v.bounded, length-remove x.id c.ll x h.found);
  }

  pub set-IsValid :
      (k : String) (c : LruCache F) (x : Element F) (item : CacheItem F)
      → IsValid c
      → Holds k c x
      → item.key ≡ k
      → IsValid (record c { ll = set_value x.id item c.ll })
  set-IsValid k c x item v h e =
      let e' : item.key ≡ x.value.key = ground (arith, h.named) in
      record {
        indexed = record {
          index = λ j. ground (arith, v.index j, index-set j x.id item x c.ll h.found e');
          distinct = Distinct-set x.id item x c.ll h.found e' v.distinct;
          below = Below-set c.next_id x.id item c.ll v.below;
        };
        counted = ground (arith, v.counted, length-set x.id item c.ll);
        bounded = ground (arith, v.bounded, length-set x.id item c.ll);
      }

  pub items-set_element :
      (k : String) (c : LruCache F) (x : Element F) (item : CacheItem F)
      → IsIndexed c
      → Holds k c x
      → items (record c { ll = set_value x.id item c.ll }) ≡ replace_item k item (items c)
  items-set_element k c x item v h = items-set k x.id item c.ll h.at v.distinct
