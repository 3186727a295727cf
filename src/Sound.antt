-- ===== src/Sound.antt =====
-- The invariant on the items of the caches: a token bucket between zero and its limit, a leaky
-- bucket at or below its burst.
use gubernator.Leaky.Capped.{IsCapped}
use gubernator.Token.Decision.{InLimit}
use gubernator.Types.{Float64, CacheItem, Value}

abbrev pub Sound : {F : Type 0} → Float64 F → CacheItem F → Type 0
Sound fl item = elim item.value [
  | Value.token t ↦ InLimit t
  | Value.leaky b ↦ IsCapped fl b
  | _ ↦ Unit
]
