-- ===== src/Tests/Caches.antt =====
-- The theorems on the cache at concrete inputs.
use gubernator.Cache.Invariant.{IsValid, items, new-IsValid}
use gubernator.Cache.Lru
use gubernator.Cache.Lru.{LruCache, new_lru_cache, push_front}
use gubernator.Cache.Refinement.{get_item-refines}
use gubernator.Cache.Eviction.{add-refines, is_full}
use gubernator.Cache.Spec.{find_item, add_spec, get_spec}
use gubernator.Prelude.{ℤ, pos, String, none, some, true, false, ◌≡◌}
use gubernator.Tests.Values.{whole_numbers, small_cache, token_of, item_of}
use gubernator.Types.{CacheItem, Value}
use gubernator.World.MockStore.{MockStore, mock_store, new_mock_store}
use gubernator.World.{Store}

-- The cache: two items fill it, and a third evicts the oldest.
abbrev named_item : String → CacheItem ℤ
named_item key = item_of key (Value.token (token_of (pos 4)))

abbrev one_item : LruCache ℤ
one_item = (Lru.add whole_numbers (pos 1) (named_item "a") small_cache).0

abbrev two_items : LruCache ℤ
two_items = (Lru.add whole_numbers (pos 1) (named_item "b") one_item).0

two_items-IsValid : IsValid two_items
two_items-IsValid =
    (add-refines whole_numbers (pos 1) (named_item "b") one_item
      (add-refines whole_numbers (pos 1) (named_item "a") small_cache (new-IsValid 2)).0).0

add-refines_example :
    IsValid (Lru.add whole_numbers (pos 1) (named_item "c") two_items).0
    × (items (Lru.add whole_numbers (pos 1) (named_item "c") two_items).0
        ≡ add_spec (is_full two_items) (named_item "c") (items two_items))
    × ((Lru.add whole_numbers (pos 1) (named_item "c") two_items).1
        ≡ elim (find_item "c" (items two_items)) [ none ↦ false | some _ ↦ true ])
add-refines_example = add-refines whole_numbers (pos 1) (named_item "c") two_items two_items-IsValid

get_item-refines_example :
    IsValid (Lru.get_item (pos 2) "a" two_items).0
    × (((items (Lru.get_item (pos 2) "a" two_items).0), (Lru.get_item (pos 2) "a" two_items).1)
        ≡ get_spec (pos 2) "a" (items two_items))
get_item-refines_example = get_item-refines (pos 2) "a" two_items two_items-IsValid

abbrev memory : Store ℤ (MockStore ℤ)
memory = mock_store

abbrev empty_memory : MockStore ℤ
empty_memory = new_mock_store
