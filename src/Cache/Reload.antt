-- ===== src/Cache/Reload.antt =====
-- The items of a cache of lrucache.go in the order of Each, added to an empty cache one by one: what
-- Store and Load of workers.go do to one worker.
use gubernator.Cache.Elements.{Element, find_element, remove_id}
use gubernator.Cache.Index.{
  index_of, Distinct, find-index, length-remove, index-remove, Distinct-remove,
  find_item-index_none,
}
use gubernator.Cache.Invariant.{IsIndexed, items}
use gubernator.Cache.Lru.{LruCache, each_of, each}
use gubernator.Cache.Spec.{find_item}
use gubernator.Prelude.GoMap.{GoMap, lookup}
use gubernator.Prelude.Keys.{Unique, Unique-entries, Unique-others}
use gubernator.Prelude.{
  ℕ, ◌≤◌, String, List, [], ◌∷◌, none, some, false, ◌≡◌, refl, sym, ◌∙◌, inl, inr, arith, All,
  All-implies, str_eq, eq_iff, length, Option-cases,
}

module _ {F : Type 0} where
  -- What the entries of a map lead to.
  abbrev pub Leads : List (Element F) → String × ℕ → Type 0
  Leads ll e =
      (x : Element F) × (find_element e.1 ll ≡ some x)
      × (x.value.key ≡ e.0)
      × (index_of e.0 ll ≡ some e.1)

  pub entries_lead : (c : LruCache F) → IsIndexed c → Unique c.cache → All (Leads c.ll) c.cache
  entries_lead c v u =
      All-implies c.cache
        (λ (e : String × ℕ) (at : lookup e.0 c.cache ≡ some e.1).
          let i = sym (v.index e.0) ∙ at in
          let (x, found, same, named, item) = find-index e.0 e.1 c.ll i v.distinct in
          (x, found, named, i))
        (Unique-entries c.cache u)

  -- The items of Each, by key.
  find_item-each_of :
      (k : String) (ll : List (Element F)) (m : GoMap ℕ)
      → All (Leads ll) m
      → find_item k (each_of ll m) ≡ elim (lookup k m) [
        | none ↦ none
        | some e ↦ elim (find_element e ll) [ none ↦ none | some x ↦ some x.value ]
      ]
  unfolding find_item each_of lookup
  find_item-each_of k ll [] h = refl
  find_item-each_of k ll ((j, e) ∷ m) h =
      let (x, found, named, i) = h.0 in
      rw (found, each_of)
        (ground
          (arith, found, named, find_item-each_of k ll m h.1, eq_iff x.value.key k, eq_iff j k))

  pub find_item-each :
      (k : String) (c : LruCache F)
      → IsIndexed c
      → Unique c.cache
      → find_item k (each c) ≡ find_item k (items c)
  unfolding each
  find_item-each k c v u =
      find_item-each_of k c.ll c.cache (entries_lead c v u)
      ∙ elim (Option-cases (index_of k c.ll)) [
        | inl e ↦ rw (v.index k ∙ e) (sym (find_item-index_none k c.ll e))
        | inr (n, e) ↦
            let (x, found, same, named, item) = find-index k n c.ll e v.distinct in
            rw (v.index k ∙ e) (rw found (sym item))
      ]

  length-each_of : (ll : List (Element F)) (m : GoMap ℕ) → length (each_of ll m) ≤ length m
  unfolding each_of
  length-each_of ll [] = omega arith
  length-each_of ll ((j, e) ∷ m) = ground (arith, length-each_of ll m)

  -- A map has no more entries than the list has elements.
  length-entries :
      (ll : List (Element F)) (m : GoMap ℕ)
      → Distinct ll
      → Unique m
      → All (Leads ll) m
      → length m ≤ length ll
  length-entries ll [] d u h = omega arith
  length-entries ll ((j, e) ∷ m) d u h =
      let (x, found, named, i) = h.0 in
      let shorter = length-remove e ll x found in
      let rest =
        length-entries (remove_id e ll) m (Distinct-remove e ll d) u.1
          (still m (Unique-others j m u.0) h.1) in
      omega (arith, shorter, rest)
    where
      still :
          (n : GoMap ℕ)
          → All (λ a. str_eq j a.0 ≡ false) n
          → All (Leads ll) n
          → All (Leads (remove_id e ll)) n
      still [] o g = tt
      still ((k, f) ∷ n) o g =
          let i' : index_of k (remove_id e ll) ≡ some f =
            ground (arith, index-remove j k e ll h.0.3 d, o.0, g.0.3) in
          let (y, found, same, named, item) =
            find-index k f (remove_id e ll) i' (Distinct-remove e ll d) in
          ((y, found, named, i'), still n o.1 g.1)

  pub length-each : (c : LruCache F) → IsIndexed c → Unique c.cache → length (each c) ≤ length c.ll
  unfolding each
  length-each c v u = omega (
    arith,
    length-each_of c.ll c.cache,
    length-entries c.ll c.cache v.distinct u (entries_lead c v u),
  )
