-- ===== src/Cache/Every.antt =====
-- A property that every cached item has, through the operations on the list of items.
use gubernator.Cache.Spec.{find_item, drop_item, replace_item, drop_last, get_spec, add_spec}
use gubernator.Prelude.{
  ℤ, String, List, [], ◌∷◌, some, Bool, ◌≡◌, subst, inl, inr, arith, All, str_eq, Bool-cases,
  Option-cases,
}
use gubernator.Types.{CacheItem}

module _ {F : Type 0} (P : CacheItem F → Type 0) where
  pub All-find :
      (k : String) (l : List (CacheItem F)) (i : CacheItem F)
      → All P l
      → find_item k l ≡ some i
      → P i
  unfolding find_item
  All-find k [] i h f = absurd (cc)
  All-find k (j ∷ l) i h f = elim (Bool-cases (str_eq j.key k)) [
    | inl e ↦ subst P (ground arith) h.0
    | inr e ↦ All-find k l i h.1 (ground arith)
  ]

  pub All-drop : (k : String) (l : List (CacheItem F)) → All P l → All P (drop_item k l)
  unfolding drop_item
  All-drop k [] h = tt
  All-drop k (j ∷ l) h = ground (arith, All-drop k l h.1)

  pub All-replace :
      (k : String) (i : CacheItem F) (l : List (CacheItem F))
      → P i
      → All P l
      → All P (replace_item k i l)
  unfolding replace_item
  All-replace k i [] p h = tt
  All-replace k i (j ∷ l) p h = ground (arith, All-replace k i l p h.1)

  pub All-drop_last : (l : List (CacheItem F)) → All P l → All P (drop_last l)
  unfolding drop_last
  All-drop_last [] h = tt
  All-drop_last (i ∷ []) h = tt
  All-drop_last (i ∷ j ∷ l) h = (h.0, All-drop_last (j ∷ l) h.1)

  pub All-get_spec :
      (now : ℤ) (k : String) (l : List (CacheItem F)) → All P l → All P (get_spec now k l).0
  unfolding get_spec
  All-get_spec now k l h = elim (Option-cases (find_item k l)) [
    | inl e ↦ rw (e, get_spec) h
    | inr (i, e) ↦ rw (e, get_spec) (ground (arith, All-drop k l h, All-find k l i h e))
  ]

  pub All-add_spec :
      (full : Bool) (i : CacheItem F) (l : List (CacheItem F))
      → P i
      → All P l
      → All P (add_spec full i l)
  unfolding add_spec
  All-add_spec full i l p h = elim (Option-cases (find_item i.key l)) [
    | inl e ↦ rw (e, add_spec) (ground (arith, All-drop_last (i ∷ l) (p, h)))
    | inr (j, e) ↦ rw (e, add_spec) (p, All-drop i.key l h)
  ]

  -- What a lookup returns is an item of the list.
  pub found_of_get_spec :
      (now : ℤ) (k : String) (l : List (CacheItem F)) (i : CacheItem F)
      → All P l
      → (get_spec now k l).1 ≡ some i
      → P i
  unfolding get_spec
  found_of_get_spec now k l i h g = elim (Option-cases (find_item k l)) [
    | inl e ↦ absurd (ground (arith, e))
    | inr (j, e) ↦ subst P (ground (arith, e)) (All-find k l j h e)
  ]
