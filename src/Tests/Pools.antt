-- ===== src/Tests/Pools.antt =====
-- A server with two workers, a request and a peer, which the tests share.
use gubernator.Peers.Hash.{PeerClient}
use gubernator.Prelude.{ℕ, ◌<◌, ◌^◌, ℤ, pos, String, [], ◌∷◌, Bool, refl, arith, IsInt64}
use gubernator.Service.Broadcast.{query}
use gubernator.Service.Handlers.{Pool, Node}
use gubernator.Service.Sound.{IsRegular, IsServing}
use gubernator.Sound.{Sound}
use gubernator.Cache.Invariant.{new-IsValid}
use gubernator.Cache.Lru.{new_lru_cache}
use gubernator.Tests.Values.{
  whole_numbers, whole_numbers-CapLaws, runtime, small_cache, token_request, ten-IsInt64,
}
use gubernator.Types.{RateLimitReq}
use gubernator.Workers.Ring.{hash_ring_step}
use gubernator.World.Keeps.{StoreKeeps}

abbrev pub last_checksum : String → ℕ
last_checksum s = 18_446_744_073_709_551_615

abbrev pub peer_at : String → Bool → PeerClient
peer_at address own = record {
  info = record { data_center = ""; http_address = ""; grpc_address = address; is_owner = own };
}

abbrev pub one_hit : RateLimitReq
one_hit = token_request (pos 3)

-- A server with two workers.
abbrev pub two_workers : Pool ℤ Unit
two_workers = record { caches = small_cache ∷ small_cache ∷ []; stored = tt; metrics = [] }

pub two_workers-IsServing :
    IsServing runtime last_checksum (pos 5000) whole_numbers-CapLaws two_workers
unfolding hash_ring_step new_lru_cache
two_workers-IsServing = record {
  size = record { some_workers = omega arith; few_workers = omega arith };
  even = refl;
  sound = ((new-IsValid 2, tt), ((new-IsValid 2, tt), tt));
}

pub no_store : StoreKeeps runtime (Sound whole_numbers)
no_store s st r e = ground arith

pub last_checksum_word : (key : String) → last_checksum key < 2 ^ 64
last_checksum_word key = omega arith

small_word : IsInt64 (pos 3)
small_word = record { below = omega arith; above = omega arith }

pub one_hit-IsRegular : IsRegular one_hit
one_hit-IsRegular = record {
  limit = omega arith;
  limit_word = ten-IsInt64;
  burst = omega arith;
  hits_word = small_word;
  hits = λ e. omega arith;
}

pub query-IsRegular : IsRegular (query one_hit)
query-IsRegular = record {
  limit = omega arith;
  limit_word = ten-IsInt64;
  burst = omega arith;
  hits_word = record { below = omega arith; above = omega arith };
  hits = λ e. omega arith;
}

abbrev pub node : Node ℤ Unit
node = record { pool = two_workers; broadcast_queue = [] }
