-- ===== src/Service/Shares.antt =====
-- The items that each worker gets back of those that the workers stored: Store and Load of workers.go.
use mathlib.Core.List.{append-nil, append_assoc}
use gubernator.Cache.Elements.{Element, find_element}
use gubernator.Cache.Index.{items_of}
use gubernator.Cache.Invariant.{items}
use gubernator.Cache.Lru.{LruCache, each, each_of}
use gubernator.Prelude.GoMap.{GoMap}
use gubernator.Prelude.{
  ℕ, suc, ◌+◌, ◌≤◌, ◌<◌, String, List, [], ◌∷◌, ◌++◌, some, true, false, ltb, ◌==◌, ==_iff, ◌≡◌,
  refl, ap, ◌∙◌, subst, inl, inr, arith, All, All-append, All-implies, length, Bool-cases,
  Option-cases,
}
use gubernator.Service.Persist.{stored_items, worker_of, items_for, have_workers}
use gubernator.Types.{CacheItem}
use gubernator.Workers.Commands.{handle_store}
use gubernator.World.{Runtime}

All-find_element :
    {F : Type 0} (P : CacheItem F → Type 0) (e : ℕ) (ll : List (Element F)) (x : Element F)
    → find_element e ll ≡ some x
    → All P (items_of ll)
    → P x.value
unfolding find_element
All-find_element P e [] x f h = absurd (ground (arith, f))
All-find_element P e (y ∷ ll) x f h = elim (Bool-cases (y.id == e)) [
  | inl same ↦
      let is : y ≡ x = ground (arith, f, same) in subst P (ap (λ (z : Element _). z.value) is) h.0
  | inr other ↦ All-find_element P e ll x (ground (arith, f, other)) h.1
]

All-each_of :
    {F : Type 0} (P : CacheItem F → Type 0) (ll : List (Element F)) (m : GoMap ℕ)
    → All P (items_of ll)
    → All P (each_of ll m)
unfolding each_of
All-each_of P ll [] h = tt
All-each_of P ll ((k, e) ∷ m) h = elim (Option-cases (find_element e ll)) [
  | inl f ↦ rw (f, each_of) (All-each_of P ll m h)
  | inr (x, f) ↦ rw (f, each_of) (All-find_element P e ll x f h, All-each_of P ll m h)
]

module _ {F S T : Type 0} (rt : Runtime F S T) (sum : String → ℕ) where
  -- Every item is in the cache of its worker; `i` is the index of the first cache.
  abbrev pub RoutedFrom : ℕ → ℕ → List (LruCache F) → Type 0
  RoutedFrom n i [] = Unit
  RoutedFrom n i (c ∷ cs) =
      All (λ item. worker_of rt sum n item ≡ i) (items c) × RoutedFrom n (suc i) cs

  items_for-append :
      (n i : ℕ) (xs ys : List (CacheItem F))
      → items_for rt sum n i (xs ++ ys) ≡ items_for rt sum n i xs ++ items_for rt sum n i ys
  unfolding items_for
  items_for-append n i [] ys = refl
  items_for-append n i (x ∷ xs) ys = elim (Bool-cases (worker_of rt sum n x == i)) [
    | inl mine ↦ rw mine (ap (λ (l : List (CacheItem F)). x ∷ l) (items_for-append n i xs ys))
    | inr other ↦ rw other (items_for-append n i xs ys)
  ]

  items_for-All :
      (n i : ℕ) (xs : List (CacheItem F))
      → All (λ item. worker_of rt sum n item ≡ i) xs
      → items_for rt sum n i xs ≡ xs
  unfolding items_for
  items_for-All n i [] h = refl
  items_for-All n i (x ∷ xs) h =
      let mine : (worker_of rt sum n x == i) ≡ true = (==_iff _ _).1 h.0 in
      rw mine (ap (λ (l : List (CacheItem F)). x ∷ l) (items_for-All n i xs h.1))

  items_for_none :
      (n i : ℕ) (xs : List (CacheItem F))
      → All (λ item. (worker_of rt sum n item == i) ≡ false) xs
      → items_for rt sum n i xs ≡ []
  unfolding items_for
  items_for_none n i [] h = refl
  items_for_none n i (x ∷ xs) h = rw (h.0) (items_for_none n i xs h.1)

  -- The items of the caches from `j` on go to workers from `j` on.
  items_for_later :
      (n i j : ℕ) (cs : List (LruCache F))
      → i < j
      → RoutedFrom n j cs
      → items_for rt sum n i (stored_items cs) ≡ []
  unfolding stored_items handle_store each items_for
  items_for_later n i j [] lt r = refl
  items_for_later n i j (c ∷ cs) lt r =
      let mine = items_for_none n i (each c) (
        All-implies (each c)
          (λ (x : CacheItem F) (e : worker_of rt sum n x ≡ j). ground (arith, e, lt))
          (All-each_of (λ x. worker_of rt sum n x ≡ j) c.ll c.cache r.0)) in
      items_for-append n i (each c) (stored_items cs)
      ∙ rw mine (items_for_later n i (suc j) cs (omega arith) r.1)

  -- Each worker gets back the items of its cache.
  abbrev pub Splits : ℕ → ℕ → List (CacheItem F) → List (LruCache F) → Type 0
  Splits n i out [] = Unit
  Splits n i out (c ∷ cs) = (items_for rt sum n i out ≡ handle_store c) × Splits n (suc i) out cs

  pub Splits-stored :
      (n i : ℕ) (front : List (CacheItem F)) (cs : List (LruCache F))
      → All (λ item. worker_of rt sum n item < i) front
      → RoutedFrom n i cs
      → Splits n i (front ++ stored_items cs) cs
  unfolding stored_items handle_store each
  Splits-stored n i front [] h r = tt
  Splits-stored n i front (c ∷ cs) h r =
      let own = All-each_of (λ x. worker_of rt sum n x ≡ i) c.ll c.cache r.0 in
      let earlier = items_for_none n i front (
        All-implies front (λ (x : CacheItem F) (lt : worker_of rt sum n x < i). ground (arith, lt))
          h) in
      let rest =
        Splits-stored n (suc i) (front ++ each c) cs
          (All-append (λ x. worker_of rt sum n x < suc i) front (each c)
            (All-implies front
              (λ (x : CacheItem F) (lt : worker_of rt sum n x < i). omega (arith, lt)) h)
            (All-implies (each c)
              (λ (x : CacheItem F) (e : worker_of rt sum n x ≡ i). omega (arith, e)) own))
          r.1 in
      (
        items_for-append n i front (each c ++ stored_items cs)
            ∙ rw earlier (
                items_for-append n i (each c) (stored_items cs)
                ∙ rw (items_for-All n i (each c) own)
                    (rw (items_for_later n i (suc i) cs (omega arith) r.1) (append-nil (each c)))),
        subst (λ (l : List (CacheItem F)). Splits n (suc i) l cs)
            (append_assoc front (each c) (stored_items cs)) rest,
      )

  have_workers-append :
      (n : ℕ) (xs ys : List (CacheItem F))
      → have_workers rt sum n xs ≡ true
      → have_workers rt sum n ys ≡ true
      → have_workers rt sum n (xs ++ ys) ≡ true
  unfolding have_workers
  have_workers-append n [] ys h k = k
  have_workers-append n (x ∷ xs) ys h k = elim (Bool-cases (ltb (worker_of rt sum n x) n)) [
    | inl fine ↦ rw fine (have_workers-append n xs ys (ground (arith, h, fine)) k)
    | inr gone ↦ absurd (ground (arith, h, gone))
  ]

  have_workers_of :
      (n i : ℕ) (xs : List (CacheItem F))
      → i < n
      → All (λ item. worker_of rt sum n item ≡ i) xs
      → have_workers rt sum n xs ≡ true
  unfolding have_workers
  have_workers_of n i [] lt h = refl
  have_workers_of n i (x ∷ xs) lt h =
      let fine : ltb (worker_of rt sum n x) n ≡ true = ground (arith, h.0, lt) in
      rw fine (have_workers_of n i xs lt h.1)

  pub have_workers-stored :
      (n i : ℕ) (cs : List (LruCache F))
      → i + length cs ≤ n
      → RoutedFrom n i cs
      → have_workers rt sum n (stored_items cs) ≡ true
  unfolding stored_items handle_store each have_workers
  have_workers-stored n i [] le r = refl
  have_workers-stored n i (c ∷ cs) le r =
      have_workers-append n (each c) (stored_items cs)
        (have_workers_of n i (each c) (omega (arith, le))
          (All-each_of (λ x. worker_of rt sum n x ≡ i) c.ll c.cache r.0))
        (have_workers-stored n (suc i) cs (omega (arith, le)) r.1)
