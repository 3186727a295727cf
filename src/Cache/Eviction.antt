-- ===== src/Cache/Eviction.antt =====
-- Add of lrucache.go against the invariant of the cache and the specification on lists.
use gubernator.Cache.Elements.{Element, find_element, remove_id, move_to_front, set_value}
use gubernator.Cache.Index.{
  items_of, index_of, items-remove, length-remove, Below-suc, Below-find, find_item-index_none,
}
use gubernator.Cache.Invariant.{
  IsIndexed, IsValid, items, Holds, Holds-of, Holds-cases, remove_element-IsIndexed, front-IsValid,
  set-IsValid,
}
use gubernator.Cache.Lru.{LruCache, remove_element, remove_oldest, push_front, evict, add_new, add}
use gubernator.Cache.Moves.{back-IsLast, IsLast}
use gubernator.Cache.Spec.{find_item, drop_last, add_spec}
use gubernator.Prelude.GoMap.{lookup-insert}
use gubernator.Prelude.{
  suc, ℤ, List, ◌∷◌, none, some, Bool, true, false, not, ◌&&◌, ◌≡◌, refl, ap, ◌∙◌, inl, inr, arith,
  eq_refl, if◌then◌else◌, ◌==◌, ltb, length, Bool-cases,
}
use gubernator.Types.{Float64, CacheItem}

module _ {F : Type 0} where
  push-IsIndexed :
      (item : CacheItem F) (c : LruCache F)
      → IsIndexed c
      → index_of item.key c.ll ≡ none
      → IsIndexed (push_front item c)
  unfolding index_of
  push-IsIndexed item c v fresh = record {
    index = λ j. ground (arith, lookup-insert item.key j c.next_id c.cache, v.index j);
    distinct = (fresh, Below-find c.next_id c.ll v.below, v.distinct);
    below = (omega arith, Below-suc c.next_id c.ll v.below);
  }

  set_head :
      (item : CacheItem F) (x : Element F) (l : List (Element F))
      → items_of (set_value x.id item (x ∷ l)) ≡ item ∷ items_of l
  unfolding set_value
  set_head item x l = ground arith

  -- A new key makes the cache longer than it may be.
  abbrev pub is_full : LruCache F → Bool
  is_full c = not (c.cache_size == 0) && ltb c.cache_size (suc (length c.ll))

module _ {F : Type 0} (fl : Float64 F) where
  -- What the removal of the oldest element leaves.
  remove_oldest-refines :
      (now : ℤ) (c : LruCache F) (x : Element F) (l : List (Element F))
      → IsIndexed c
      → c.ll ≡ x ∷ l
      → IsIndexed (remove_oldest fl now c).0
        × (items (remove_oldest fl now c).0 ≡ drop_last (items c))
        × (suc (length (remove_oldest fl now c).0.ll) ≡ length c.ll)
        × ((remove_oldest fl now c).0.cache_size ≡ c.cache_size)
  unfolding remove_oldest remove_element remove_id
  remove_oldest-refines now c x l v e =
      let (y, h) = back-IsLast x l (rw e at v.distinct) in
      let h' : IsLast y c.ll = rw e h in
      let held : Holds y.value.key c y = Holds-of y.value.key c y v h'.at h'.found in
      rw (h'.last, remove_oldest)
        (
          remove_element-IsIndexed y.value.key c y v held,
          h'.rest,
          length-remove y.id c.ll y h'.found,
          refl,
        )

  add_new-refines :
      (now : ℤ) (item : CacheItem F) (c : LruCache F)
      → IsValid c
      → index_of item.key c.ll ≡ none
      → IsValid (add_new fl now item c).0
        × (items (add_new fl now item c).0
            ≡ (if is_full c then drop_last (item ∷ items c) else item ∷ items c))
        × ((add_new fl now item c).1 ≡ false)
  unfolding add_new evict remove_oldest
  add_new-refines now item c v fresh =
      let pushed = push_front item c in
      let indexed : IsIndexed pushed = push-IsIndexed item c v.indexed fresh in
      elim (Bool-cases (is_full c)) [
        | inl full ↦
            let (kept, rest, shorter, sized) =
              remove_oldest-refines now pushed _ c.ll indexed refl in
            rw (full, evict)
              (
                record {
                  indexed = record {
                    index = kept.index;
                    distinct = kept.distinct;
                    below = kept.below;
                  };
                  counted = refl;
                  bounded = ground (arith, v.bounded, shorter, sized);
                },
                rest,
                refl,
              )
        | inr room ↦
            rw (room, evict)
              (
                record {
                  indexed = record {
                    index = indexed.index;
                    distinct = indexed.distinct;
                    below = indexed.below;
                  };
                  counted = refl;
                  bounded = ground arith;
                },
                refl,
                refl,
              )
      ]

  -- On a cache in order, Add leaves a cache in order; its items are those of the specification,
  -- where a known key moves to the front with the new item and a new key goes to the front and,
  -- when the cache is full, evicts the last; and its result says whether the key was known.
  pub add-refines :
      (now : ℤ) (item : CacheItem F) (c : LruCache F)
      → IsValid c
      → IsValid (add fl now item c).0
        × (items (add fl now item c).0 ≡ add_spec (is_full c) item (items c))
        × ((add fl now item c).1
            ≡ elim (find_item item.key (items c)) [ none ↦ false | some _ ↦ true ])
  unfolding add add_spec move_to_front index_of find_element
  add-refines now item c v = elim (Holds-cases item.key c v.indexed) [
    | inl (e, at) ↦
        rw (v.index item.key ∙ at, add, find_item-index_none item.key c.ll at, add_spec)
          (add_new-refines now item c v at)
    | inr (x, h) ↦
        let front : LruCache F = record c { ll = x ∷ remove_id x.id c.ll } in
        let fronted : IsValid front = front-IsValid item.key c x v h in
        let held : Holds item.key front x =
          Holds-of item.key front x fronted.indexed (ground (arith, h.named, eq_refl item.key))
            (ground arith) in
        rw (v.index item.key ∙ h.at, add, h.item, add_spec, h.found, move_to_front)
          (
            set-IsValid item.key front x item fronted held refl,
            set_head item x (remove_id x.id c.ll)
                ∙ ap (◌∷◌ item) (items-remove item.key x.id c.ll h.at v.distinct),
            refl,
          )
  ]
