-- ===== src/Cache/Elements.antt =====
-- container/list as lrucache.go uses it: elements with an identity, front first, and the facts
-- that tie an element to its position and to the key of the item in it.
use gubernator.Prelude.{ℕ, List, [], ◌∷◌, Option, none, some, if◌then◌else◌, ◌==◌}
use gubernator.Types.{CacheItem}

pub record Element (F : Type 0) : Type 0 where
  pub id : ℕ
  pub value : CacheItem F

module _ {F : Type 0} where
  -- the element that a pointer stands for
  unfoldable pub find_element : ℕ → List (Element F) → Option (Element F)
  find_element e [] = none
  find_element e (x ∷ l) = if x.id == e then some x else find_element e l

  -- l.Remove(e)
  unfoldable pub remove_id : ℕ → List (Element F) → List (Element F)
  remove_id e [] = []
  remove_id e (x ∷ l) = if x.id == e then l else x ∷ remove_id e l

  -- l.MoveToFront(e)
  unfoldable pub move_to_front : ℕ → List (Element F) → List (Element F)
  move_to_front e l = elim (find_element e l) [ none ↦ l | some x ↦ x ∷ remove_id e l ]

  -- e.Value = item, and every write through the item's pointer
  unfoldable pub set_value : ℕ → CacheItem F → List (Element F) → List (Element F)
  set_value e item [] = []
  set_value e item (x ∷ l) =
      if x.id == e then record x { value = item } ∷ l else x ∷ set_value e item l

  -- l.Back()
  unfoldable pub back : List (Element F) → Option (Element F)
  back [] = none
  back (x ∷ []) = some x
  back (x ∷ y ∷ l) = back (y ∷ l)
