-- ===== src/Tests/Reports.antt =====
-- A broadcast of broadcastPeers in global.go, on a pool of two workers.
use gubernator.Cache.Invariant.{new-IsValid}
use gubernator.Cache.Lru.{new_lru_cache}
use gubernator.Interval.{epoch_millis}
use gubernator.Prelude.{ℤ, pos, List, [], ◌∷◌, some, ◌≡◌, refl, inl, All, arith, Listed}
use gubernator.Service.Broadcast.{About, broadcast_globals}
use gubernator.Service.Handlers.{Pool, UpdatePeerGlobal}
use gubernator.Service.Report.{Holds, report}
use gubernator.Service.Reported.{broadcast_globals-report}
use gubernator.Service.Sound.{IsServing}
use gubernator.Sound.{Sound}
use gubernator.Tests.Pools.{last_checksum, one_hit, no_store, last_checksum_word, query-IsRegular}
use gubernator.Tests.Values.{
  whole_numbers, whole_numbers-CapLaws, runtime, new_world, small_cache, token_of, item_of,
  ten-IsInt64,
}
use gubernator.Token.Decision.{InLimit}
use gubernator.Types.{Value, CacheItem, hash_key, is_expired, has_behavior}
use gubernator.Workers.Ring.{hash_ring_step, worker_index, compute_hash63}
use gubernator.World.{World, add_item}
use gubernator.World.Keeps.{Keeps, add_item-Keeps}
use gubernator.World.Fetch.{Holding}
use gubernator.World.Miss.{add_item-Holding}

-- The account has 4 of its 10 tokens, at the last worker.
abbrev account_item : CacheItem ℤ
account_item = item_of (hash_key one_hit) (Value.token (token_of (pos 4)))

abbrev account_world : World ℤ Unit
account_world = add_item runtime (pos 1) account_item new_world

abbrev account_pool : Pool ℤ Unit
account_pool = record { caches = small_cache ∷ account_world.cache ∷ []; stored = tt; metrics = [] }

account_world-Holding : Holding account_world (hash_key one_hit) account_item
account_world-Holding = add_item-Holding runtime (pos 1) account_item new_world (new-IsValid 2)

four_of_ten : InLimit (token_of (pos 4))
four_of_ten = record { nonneg = omega arith; within = omega arith; word = ten-IsInt64 }

account_world-Keeps : Keeps (Sound whole_numbers) account_world
unfolding new_lru_cache
account_world-Keeps =
    add_item-Keeps runtime (Sound whole_numbers) (pos 1) account_item new_world four_of_ten
      (record { valid = new-IsValid 2; every = tt })

account_pool-IsServing :
    IsServing runtime last_checksum (pos 5000) whole_numbers-CapLaws account_pool
unfolding hash_ring_step new_lru_cache
account_pool-IsServing = record {
  size = record { some_workers = omega arith; few_workers = omega arith };
  even = refl;
  sound = ((new-IsValid 2, tt), ((account_world-Keeps.valid, account_world-Keeps.every), tt));
}

account_pool-Holds :
    Holds runtime last_checksum (pos 5000) 2 account_pool one_hit account_item (token_of (pos 4))
unfolding is_expired epoch_millis has_behavior worker_index compute_hash63 hash_ring_step
account_pool-Holds = record {
  cache = account_world.cache;
  at = refl;
  held = record { valid = account_world-Holding.valid; found = account_world-Holding.found };
  live = refl;
  is_token = refl;
  same = record { limit = refl; duration = refl; no_reset = refl };
  algorithm = refl;
}

broadcast_globals-report_example :
    (p' : Pool ℤ Unit) × (globals : List UpdatePeerGlobal) × (broadcast_globals runtime
        last_checksum
        (pos 5000)
        2
        (("requests_account", one_hit) ∷ [])
        account_pool
      ≡ some (p', globals))
    × Listed (report one_hit account_item (token_of (pos 4))) globals
    × All (About (("requests_account", one_hit) ∷ [])) globals
    × IsServing runtime last_checksum (pos 5000) whole_numbers-CapLaws p'
broadcast_globals-report_example =
    broadcast_globals-report runtime last_checksum (pos 5000) whole_numbers-CapLaws 2 [] []
      "requests_account" one_hit account_item (token_of (pos 4)) account_pool last_checksum_word
      no_store ((query-IsRegular, inl (omega arith), (λ e. ground arith)), tt)
      account_pool-IsServing account_pool-Holds tt
