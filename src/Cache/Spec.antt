-- ===== src/Cache/Spec.antt =====
-- What lrucache.go promises, over a plain list of items, most recently used first.
use gubernator.Prelude.{
  ℤ, String, List, [], ◌∷◌, Option, none, some, Bool, false, str_eq, ◌≡◌, refl, arith,
  if◌then◌else◌,
}
use gubernator.Types.{CacheItem, is_expired}

module _ {F : Type 0} where
  unfoldable pub find_item : String → List (CacheItem F) → Option (CacheItem F)
  find_item k [] = none
  find_item k (i ∷ l) = if str_eq i.key k then some i else find_item k l

  unfoldable pub drop_item : String → List (CacheItem F) → List (CacheItem F)
  drop_item k [] = []
  drop_item k (i ∷ l) = if str_eq i.key k then l else i ∷ drop_item k l

  -- Put an item in the place of the one with the key.
  unfoldable pub replace_item : String → CacheItem F → List (CacheItem F) → List (CacheItem F)
  replace_item k item [] = []
  replace_item k item (i ∷ l) = if str_eq i.key k then item ∷ l else i ∷ replace_item k item l

  pub drop_item_absent :
      (k : String) (l : List (CacheItem F)) → find_item k l ≡ none → drop_item k l ≡ l
  unfolding find_item drop_item
  drop_item_absent k [] h = refl
  drop_item_absent k (i ∷ l) h = ground (arith, drop_item_absent k l)

  pub replace_item_absent :
      (k : String) (item : CacheItem F) (l : List (CacheItem F))
      → find_item k l ≡ none
      → replace_item k item l ≡ l
  unfolding find_item replace_item
  replace_item_absent k item [] h = refl
  replace_item_absent k item (i ∷ l) h = ground (arith, replace_item_absent k item l)

  -- A new expiry for the item of a key, if there is one.
  unfoldable pub expire_spec : String → ℤ → List (CacheItem F) → List (CacheItem F)
  expire_spec k at l = elim (find_item k l) [
    | none ↦ l
    | some i ↦ replace_item k (record i { expire_at = at }) l
  ]

  unfoldable pub drop_last : List (CacheItem F) → List (CacheItem F)
  drop_last [] = []
  drop_last (i ∷ []) = []
  drop_last (i ∷ j ∷ l) = i ∷ drop_last (j ∷ l)

  -- A hit moves the item to the front; an expired item is dropped and not returned.
  unfoldable pub get_spec :
      ℤ → String → List (CacheItem F) → List (CacheItem F) × Option (CacheItem F)
  get_spec now k l = elim (find_item k l) [
    | none ↦ (l, none)
    | some i ↦ if is_expired now i then (drop_item k l, none) else (i ∷ drop_item k l, some i)
  ]

  -- `full` says that the cache holds as many items as it may: then a new key evicts the last item.
  unfoldable pub add_spec : Bool → CacheItem F → List (CacheItem F) → List (CacheItem F)
  add_spec full item l = elim (find_item item.key l) [
    | none ↦ if full then drop_last (item ∷ l) else item ∷ l
    | some _ ↦ item ∷ drop_item item.key l
  ]

  pub get_spec_hit :
      (now : ℤ) (k : String) (l : List (CacheItem F)) (i : CacheItem F)
      → find_item k l ≡ some i
      → is_expired now i ≡ false
      → get_spec now k l ≡ (i ∷ drop_item k l, some i)
  unfolding get_spec
  get_spec_hit now k l i f live = rw (f, get_spec) (rw live)
