-- ===== src/Workers/Reload.antt =====
-- What a worker of workers.go stores, another worker loads again.
use gubernator.Cache.Eviction.{is_full, add-refines}
use gubernator.Cache.Invariant.{IsValid, items, new-IsValid}
use gubernator.Cache.Elements.{Element, back}
use gubernator.Cache.Index.{items_of}
use gubernator.Cache.Lru.{
  LruCache, new_lru_cache, each_of, each, add, add_new, evict, remove_oldest, remove_element,
}
use gubernator.Cache.Reload.{Leads, entries_lead, find_item-each, length-each}
use gubernator.Cache.Spec.{find_item, add_spec}
use gubernator.Prelude.GoMap.{GoMap, lookup}
use gubernator.Prelude.Keys.{Unique, Unique-others}
use gubernator.Prelude.{
  ℕ, suc, ◌+◌, ◌≤◌, ◌<◌, ℤ, String, List, [], ◌∷◌, none, some, false, not, ◌&&◌, ltb, ◌==◌, ◌≡◌,
  refl, ap, sym, ◌∙◌, inl, inr, arith, All, str_eq, eq_iff, length, Bool-cases, Option-cases,
}
use gubernator.Types.{Float64, CacheItem}
use gubernator.Workers.Commands.{handle_load, handle_store}

module _ {F : Type 0} where
  -- Items of keys that are new, each to those before it and to a list.
  abbrev Fresh : List (CacheItem F) → List (CacheItem F) → Type 0
  Fresh [] l = Unit
  Fresh (i ∷ is) l = (find_item i.key l ≡ none) × Fresh is (i ∷ l)

  abbrev pushed : List (CacheItem F) → List (CacheItem F) → List (CacheItem F)
  pushed [] l = l
  pushed (i ∷ is) l = pushed is (i ∷ l)

  Fresh-absent :
      (k : String) (x : CacheItem F) (is l : List (CacheItem F))
      → Fresh is l
      → find_item k l ≡ some x
      → find_item k is ≡ none
  unfolding find_item
  Fresh-absent k x [] l f h = refl
  Fresh-absent k x (i ∷ is) l f h = elim (Bool-cases (str_eq i.key k)) [
    | inl same ↦
        absurd
          (ground (arith, f.0, h, ap (λ (j : String). find_item j l) ((eq_iff i.key k).0 same)))
    | inr other ↦ rw other (Fresh-absent k x is (i ∷ l) f.1 (rw other h))
  ]

  find_item-pushed :
      (k : String) (is l : List (CacheItem F))
      → Fresh is l
      → find_item k (pushed is l) ≡ elim (find_item k is) [ none ↦ find_item k l | some x ↦ some x ]
  unfolding find_item
  find_item-pushed k [] l f = refl
  find_item-pushed k (i ∷ is) l f = elim (Bool-cases (str_eq i.key k)) [
    | inl same ↦
        let later = Fresh-absent k i is (i ∷ l) f.1 (rw (same, find_item) refl) in
        ground (arith, find_item-pushed k is (i ∷ l) f.1, same, later)
    | inr other ↦ ground (arith, find_item-pushed k is (i ∷ l) f.1, other)
  ]

  -- The keys of a map that a list does not have.
  abbrev Missing : GoMap ℕ → List (CacheItem F) → Type 0
  Missing m l = All (λ e. find_item e.0 l ≡ none) m

  Missing-cons :
      (k : String) (x : CacheItem F) (m : GoMap ℕ) (l : List (CacheItem F))
      → x.key ≡ k
      → All (λ e. str_eq k e.0 ≡ false) m
      → Missing m l
      → Missing m (x ∷ l)
  unfolding find_item
  Missing-cons k x [] l e o h = tt
  Missing-cons k x ((j, n) ∷ m) l e o h =
      (ground (arith, o.0, h.0, e), Missing-cons k x m l e o.1 h.1)

  Fresh-each_of :
      (c : LruCache F) (m : GoMap ℕ) (l : List (CacheItem F))
      → Unique m
      → All (Leads c.ll) m
      → Missing m l
      → Fresh (each_of c.ll m) l
  unfolding each_of
  Fresh-each_of c [] l u h g = tt
  Fresh-each_of c ((k, e) ∷ m) l u h g =
      let (x, found, named, i) = h.0 in
      rw (found, each_of)
        (
          ap (λ (j : String). find_item j l) named ∙ g.0,
          Fresh-each_of c m (x.value ∷ l) u.1 h.1
              (Missing-cons k x.value m l named (Unique-others k m u.0) g.1),
        )

module _ {F : Type 0} (fl : Float64 F) where
  add-cache_size :
      (now : ℤ) (item : CacheItem F) (c : LruCache F)
      → (add fl now item c).0.cache_size ≡ c.cache_size
  unfolding add add_new evict remove_oldest remove_element
  add-cache_size now item c = elim (Option-cases (lookup item.key c.cache)) [
    | inl e ↦
        rw (e, add)
          (elim (Bool-cases (not (c.cache_size == 0) && ltb c.cache_size (suc (length c.ll)))) [
            | inl full ↦
                rw (full, evict)
                  (elim (Option-cases (back (record { id = c.next_id; value = item } ∷ c.ll))) [
                    | inl b ↦ rw (b, remove_oldest) refl
                    | inr (x, b) ↦ rw (b, remove_oldest) refl
                  ])
            | inr room ↦ rw (room, evict) refl
          ])
    | inr (n, e) ↦ rw (e, add) refl
  ]

  length-items : (c : LruCache F) → length (items c) ≡ length c.ll
  length-items c = count c.ll
    where
      count : (l : List (Element F)) → length (items_of l) ≡ length l
      count [] = refl
      count (x ∷ l) = ap suc (count l)

  load-Fresh :
      (now : ℤ) (is : List (CacheItem F)) (c : LruCache F)
      → IsValid c
      → Fresh is (items c)
      → length c.ll + length is ≤ c.cache_size
      → IsValid (handle_load fl now is c).0
        × (items (handle_load fl now is c).0 ≡ pushed is (items c))
  unfolding handle_load add_spec
  load-Fresh now [] c v f room = (v, refl)
  load-Fresh now (i ∷ is) c v f room =
      let (valid, same, known) = add-refines fl now i c v in
      let not_full : is_full c ≡ false = ground (arith, room) in
      let pushed_one : items (add fl now i c).0 ≡ i ∷ items c =
        same ∙ rw (f.0, add_spec) (rw not_full refl) in
      let grown : length (add fl now i c).0.ll ≡ suc (length c.ll) =
        sym (length-items (add fl now i c).0) ∙ ap length pushed_one ∙ ap suc (length-items c) in
      let (valid', all) =
        load-Fresh now is (add fl now i c).0 valid (rw pushed_one f.1)
          (omega (arith, grown, room, add-cache_size now i c)) in
      (valid', all ∙ ap (λ (l : List (CacheItem F)). pushed is l) pushed_one)

  -- A new cache of the same size, with what the old one stored, finds the same item for every key.
  pub reload :
      (now : ℤ) (c : LruCache F) (k : String)
      → IsValid c
      → Unique c.cache
      → 0 < c.cache_size
      → let again = (handle_load fl now (handle_store c) (new_lru_cache c.cache_size)).0 in
        IsValid again × (find_item k (items again) ≡ find_item k (items c))
  unfolding handle_store each new_lru_cache find_item
  reload now c k v u size =
      let fresh : Fresh (each c) [] =
        Fresh-each_of c c.cache [] u (entries_lead c v.indexed u) (nothing c.cache) in
      let short = length-each c v.indexed u in
      let sized : (new_lru_cache {F = F} c.cache_size).cache_size ≡ c.cache_size =
        ground (arith, size) in
      let (valid, all) =
        load-Fresh now (each c) (new_lru_cache c.cache_size) (new-IsValid c.cache_size) fresh
          (omega (arith, short, v.bounded, size, sized)) in
      (
        valid,
        ap (λ (l : List (CacheItem F)). find_item k l) all
            ∙ find_item-pushed k (each c) [] fresh
            ∙ ground (arith, find_item-each k c v.indexed u),
      )
    where
      nothing : (m : GoMap ℕ) → Missing {F = F} m []
      nothing [] = tt
      nothing (e ∷ m) = (refl, nothing m)
