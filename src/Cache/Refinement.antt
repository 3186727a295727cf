-- ===== src/Cache/Refinement.antt =====
-- GetItem, Remove, UpdateExpiration and the pointer writes of lrucache.go against the invariant of
-- the cache and the specification on lists.
use gubernator.Cache.Elements.{move_to_front}
use gubernator.Cache.Index.{items-remove, find_item-index_none}
use gubernator.Cache.Invariant.{
  IsIndexed, IsValid, items, Holds-cases, remove_element-IsValid, items-remove_element,
  front-IsValid, set-IsValid, items-set_element,
}
use gubernator.Cache.Lru.{LruCache, element_of, get_item, remove, write_item, update_expiration}
use gubernator.Cache.Spec.{
  find_item, drop_item, replace_item, get_spec, expire_spec, get_spec_hit, drop_item_absent,
  replace_item_absent,
}
use gubernator.Prelude.{
  ℤ, String, ◌∷◌, none, some, true, false, ◌≡◌, refl, ap, sym, ◌∙◌, inl, inr, Bool-cases,
}
use gubernator.Types.{CacheItem, is_expired}

module _ {F : Type 0} where
  -- A lookup in the map and a walk to the element give the item that the list has for the key.
  pub find_item-element_of :
      (k : String) (c : LruCache F)
      → IsIndexed c
      → find_item k (items c) ≡ elim (element_of k c) [ none ↦ none | some e ↦ some e.value ]
  find_item-element_of k c v = elim (Holds-cases k c v) [
    | inl (e, at) ↦ rw e (find_item-index_none k c.ll at)
    | inr (x, h) ↦ rw (h.element) h.item
  ]

  -- On a cache in order, GetItem leaves a cache in order, and its items and its result are those of
  -- the specification: a live item moves to the front and is returned, an expired one is dropped
  -- and not returned, and a missing key changes nothing.
  pub get_item-refines :
      (now : ℤ) (k : String) (c : LruCache F)
      → IsValid c
      → IsValid (get_item now k c).0
        × ((items (get_item now k c).0, (get_item now k c).1) ≡ get_spec now k (items c))
  unfolding get_item get_spec move_to_front
  get_item-refines now k c v = elim (Holds-cases k c v.indexed) [
    | inl (e, at) ↦ rw (e, find_item-index_none k c.ll at, get_item, get_spec) (v, refl)
    | inr (x, h) ↦ elim (Bool-cases (is_expired now x.value)) [
      | inl old ↦
          rw (h.element, h.item, get_item, get_spec)
            (rw old (
              remove_element-IsValid k c x v h,
              ap (λ l. (l, none)) (items-remove_element k c x v.indexed h),
            ))
      | inr fresh ↦
          rw (h.element, h.item, get_item, get_spec)
            (rw (fresh, h.found, move_to_front)
              (
                front-IsValid k c x v h,
                ap (λ l. (x.value ∷ l, some x.value)) (items-remove k x.id c.ll h.at v.distinct),
              ))
    ]
  ]

  pub get_item_hit :
      (now : ℤ) (k : String) (c : LruCache F) (i : CacheItem F)
      → IsValid c
      → find_item k (items c) ≡ some i
      → is_expired now i ≡ false
      → IsValid (get_item now k c).0
        × (items (get_item now k c).0 ≡ i ∷ drop_item k (items c))
        × ((get_item now k c).1 ≡ some i)
  get_item_hit now k c i v f live =
      let (valid, same) = get_item-refines now k c v in
      let spec : get_spec now k (items c) ≡ (i ∷ drop_item k (items c), some i) =
        get_spec_hit now k (items c) i f live in
      (valid, ap (λ p. p.0) (same ∙ spec), ap (λ p. p.1) (same ∙ spec))

  -- On a cache in order, Remove leaves a cache in order, whose items are the old ones less the one
  -- of the key.
  pub remove-refines :
      (k : String) (c : LruCache F)
      → IsValid c
      → IsValid (remove k c) × (items (remove k c) ≡ drop_item k (items c))
  unfolding remove
  remove-refines k c v = elim (Holds-cases k c v.indexed) [
    | inl (e, at) ↦
        rw (e, remove) (v, sym (drop_item_absent k (items c) (find_item-index_none k c.ll at)))
    | inr (x, h) ↦
        rw (h.element, remove)
          (remove_element-IsValid k c x v h, items-remove_element k c x v.indexed h)
  ]

  pub write_item-refines :
      (k : String) (item : CacheItem F) (c : LruCache F)
      → IsValid c
      → item.key ≡ k
      → IsValid (write_item k item c)
        × (items (write_item k item c) ≡ replace_item k item (items c))
  unfolding write_item
  write_item-refines k item c v e = elim (Holds-cases k c v.indexed) [
    | inl (n, at) ↦
        rw (n, write_item)
          (v, sym (replace_item_absent k item (items c) (find_item-index_none k c.ll at)))
    | inr (x, h) ↦
        rw (h.element, write_item)
          (set-IsValid k c x item v h e, items-set_element k c x item v.indexed h)
  ]

  -- On a cache in order, UpdateExpiration leaves a cache in order, whose items are the old ones
  -- with the new expiry in the key's item, in the same order; and its result says whether the key
  -- was known.
  pub update_expiration-refines :
      (k : String) (at : ℤ) (c : LruCache F)
      → IsValid c
      → IsValid (update_expiration k at c).0
        × (items (update_expiration k at c).0 ≡ expire_spec k at (items c))
        × ((update_expiration k at c).1
            ≡ elim (find_item k (items c)) [ none ↦ false | some _ ↦ true ])
  unfolding update_expiration expire_spec
  update_expiration-refines k t c v = elim (Holds-cases k c v.indexed) [
    | inl (n, at) ↦
        let absent = find_item-index_none k c.ll at in
        rw (n, update_expiration, absent, expire_spec) (v, refl, refl)
    | inr (x, h) ↦
        let item : CacheItem F = record (x.value) { expire_at = t } in
        rw (h.element, update_expiration, h.item, expire_spec)
          (set-IsValid k c x item v h h.named, items-set_element k c x item v.indexed h, refl)
  ]
