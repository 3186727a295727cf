-- ===== src/Service/Forward.antt =====
-- asyncRequest of gubernator.go: a request that a peer owns is sent to it, and sent again to the
-- owner of the moment while the calls are cut off. The answers of the peers, of GetPeer and of the
-- context are parameters, by the number of the attempt.
use Prim.Native.String.{◌++◌ as join}
use gubernator.Peers.Hash.{PeerClient}
use gubernator.Prelude.{
  ℕ, zero, suc, ℤ, pos, String, List, [], ◌∷◌, Option, none, some, true, not, ◌&&◌, ltb, ltb_ℤ,
  ◌==◌, if◌then◌else◌, inl, inr, ◌⊎◌,
}
use gubernator.Service.Handlers.{Node, get_local_rate_limit}
use gubernator.Service.Route.{forward_request}
use gubernator.Types.{RateLimitReq, RateLimitResp, error_resp, hash_key}
use gubernator.World.{Runtime, ok, err}

-- What a call of a peer comes back with: a response, an error, or the error of a context that was
-- cancelled or ran out of time.
pub data CallResult : Type 0 where
  answer : RateLimitResp → CallResult
  failed cut_off : String → CallResult

pub record Network : Type 0 where
  pub call : ℕ → PeerClient → RateLimitReq → CallResult
  pub get_peer : ℕ → PeerClient ⊎ String
  pub ctx_err : ℕ → Option String

-- After a call that was cut off: the error that ends the request, or the peer to try next.
pub data Next : Type 0 where
  give_up : String → Next
  try_again : PeerClient → Next

-- The end of a request, with the calls that were made; or a panic of the worker pool.
pub data Async (F S : Type 0) : Type 0 where
  finished : Node F S → RateLimitResp → List RateLimitReq → Async F S
  panicked : Async F S
  out_of_fuel : Async F S

abbrev about : String → RateLimitReq → String → String
about text r error = join text (join " '" (join (hash_key r) (join "'" error)))

unfoldable pub sending : {F S : Type 0} → RateLimitReq → Async F S → Async F S
sending r (Async.finished n resp sent) = Async.finished n resp (r ∷ sent)
sending r Async.panicked = Async.panicked
sending r Async.out_of_fuel = Async.out_of_fuel

unfoldable pub after_cut : Network → RateLimitReq → ℕ → Next
after_cut net r attempts = elim (net.ctx_err attempts) [
  | some e ↦ Next.give_up (about "caller gave up on rate limit" r (join ": " e))
  | none ↦ elim (net.get_peer attempts) [
    | inl peer ↦ Next.try_again peer
    | inr e ↦ Next.give_up (about "while finding peer that owns rate limit" r (join ": " e))
  ]
]

module _ {F S T : Type 0} (rt : Runtime F S T) (sum : String → ℕ) (ceiling : ℤ) (net : Network)
    (now : T) (r : RateLimitReq) where
  -- The owner is this server by now.
  unfoldable pub handle_here : Node F S → Async F S
  handle_here n = elim (get_local_rate_limit rt sum ceiling now r true n) [
    | none ↦ Async.panicked
    | some (n', ok resp) ↦ Async.finished n' resp []
    | some (n', err e) ↦
        Async.finished n' (error_resp (about "during getLocalRateLimit() for" r (join ": " e))) []
  ]

  abbrev from_peer : String → RateLimitResp
  from_peer e = error_resp (about "while fetching rate limit" r (join " from peer: " e))

  unfoldable pub async_loop : ℕ → ℕ → String → PeerClient → Node F S → Async F S
  async_loop zero attempts error peer n = Async.out_of_fuel
  async_loop (suc fuel) attempts error peer n =
      if ltb 5 attempts
      then Async.finished n
          (error_resp (
            about "GetPeer() keeps returning peers that are not connected for" r (join ": " error)))
          []
      else if not (attempts == 0) && peer.info.is_owner
      then handle_here n
      else (elim (net.call attempts peer (forward_request r)) [
        | CallResult.answer resp ↦
            Async.finished n (record resp { owner = some peer.info.grpc_address })
              (forward_request r ∷ [])
        | CallResult.failed e ↦ Async.finished n (from_peer e) (forward_request r ∷ [])
        | CallResult.cut_off e ↦
            if ltb_ℤ (pos 0) r.max_wait
            then Async.finished n (from_peer e) (forward_request r ∷ [])
            else (elim (after_cut net r attempts) [
              | Next.give_up msg ↦ Async.finished n (error_resp msg) (forward_request r ∷ [])
              | Next.try_again next ↦
                  sending (forward_request r) (async_loop fuel (suc attempts) e next n)
            ])
      ])

  unfoldable pub async_request : PeerClient → Node F S → Async F S
  async_request peer n = async_loop 7 0 "" peer n
