-- ===== src/Tests/Calls.antt =====
-- The theorem on the calls of a peer at a concrete network, which cuts every call off.
use gubernator.Prelude.{◌≤◌, ℤ, pos, ◌<ℤ◌, false, List, none, ◌≡◌, length, inl}
use gubernator.Service.Forward.{Network, CallResult, Async, async_request}
use gubernator.Service.Attempts.{async_request_lem}
use gubernator.Service.Sound.{IsServing}
use gubernator.Service.Handlers.{Node}
use gubernator.Tests.Pools.{
  last_checksum, last_checksum_word, peer_at, one_hit, one_hit-IsRegular, node, no_store,
  two_workers-IsServing,
}
use gubernator.Tests.Values.{runtime, whole_numbers-CapLaws}
use gubernator.Types.{RateLimitReq, RateLimitResp}

abbrev cut_every_call : Network
cut_every_call = record {
  call = λ attempt peer r. CallResult.cut_off "context deadline exceeded";
  get_peer = λ attempt. inl (peer_at "b" false);
  ctx_err = λ attempt. none;
}

async_request_lem_example :
    (n' : Node ℤ Unit) × (resp : RateLimitResp) × (sent : List RateLimitReq) × (async_request
        runtime last_checksum
        (pos 5000)
        cut_every_call
        1
        one_hit
        (peer_at "b" false)
        node
      ≡ Async.finished n' resp sent)
    × IsServing runtime last_checksum (pos 5000) whole_numbers-CapLaws n'.pool
    × (length sent ≤ 6)
    × (pos 0 <ℤ one_hit.max_wait → length sent ≤ 1)
async_request_lem_example =
    async_request_lem runtime last_checksum (pos 5000) cut_every_call 1 one_hit
      whole_numbers-CapLaws (peer_at "b" false) node last_checksum_word no_store one_hit-IsRegular
      two_workers-IsServing
