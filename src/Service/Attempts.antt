-- ===== src/Service/Attempts.antt =====
-- asyncRequest of gubernator.go ends, after at most six calls.
use gubernator.Leaky.Capped.{CapLaws}
use gubernator.Peers.Hash.{PeerClient}
use gubernator.Prelude.{
  ℕ, zero, suc, ◌+◌, ◌^◌, ◌≤◌, ◌<◌, ℤ, pos, ◌<ℤ◌, String, List, [], ◌∷◌, true, false, not, ◌&&◌,
  ◌≡◌, refl, arith, ltb, ltb_ℤ, ◌==◌, length, Bool-cases, inl, inr, ◌⊎◌,
}
use gubernator.Service.Handlers.{Node}
use gubernator.Service.Route.{forward_request}
use gubernator.Service.Sound.{IsRegular, IsServing, local_rate_limit_lem}
use gubernator.Sound.{Sound}
use gubernator.Types.{RateLimitReq, RateLimitResp}
use gubernator.World.{Runtime, Outcome, ok, err}
use gubernator.World.Keeps.{StoreKeeps}
use gubernator.Service.Forward.{
  Network, CallResult, Async, Next, sending, after_cut, handle_here, async_loop, async_request,
}

Outcome-cases :
    (o : Outcome) → ((resp : RateLimitResp) × (o ≡ ok resp)) ⊎ ((e : String) × (o ≡ err e))
Outcome-cases (ok resp) = inl (resp, refl)
Outcome-cases (err e) = inr (e, refl)

Call-cases :
    (c : CallResult)
    → ((resp : RateLimitResp) × (c ≡ CallResult.answer resp))
      ⊎ (((e : String) × (c ≡ CallResult.failed e)) ⊎ ((e : String) × (c ≡ CallResult.cut_off e)))
Call-cases (CallResult.answer resp) = inl (resp, refl)
Call-cases (CallResult.failed e) = inr (inl (e, refl))
Call-cases (CallResult.cut_off e) = inr (inr (e, refl))

Next-cases :
    (x : Next)
    → ((msg : String) × (x ≡ Next.give_up msg)) ⊎ ((p : PeerClient) × (x ≡ Next.try_again p))
Next-cases (Next.give_up msg) = inl (msg, refl)
Next-cases (Next.try_again p) = inr (p, refl)

module _ {F S T : Type 0} (rt : Runtime F S T) (sum : String → ℕ) (ceiling : ℤ) (net : Network)
    (now : T) (r : RateLimitReq) where
  module _ (laws : CapLaws rt.fl) where
    -- The loop ended, the node still serves, and the calls stay under the bounds.
    record Ended (attempts : ℕ) (a : Async F S) : Type 0 where
      node : Node F S
      resp : RateLimitResp
      sent : List RateLimitReq
      is : a ≡ Async.finished node resp sent
      serving : IsServing rt sum ceiling laws node.pool
      few : length sent + attempts ≤ 6
      once : pos 0 <ℤ r.max_wait → length sent ≤ 1

    -- The end of a loop without another try.
    end_now :
        (attempts : ℕ) (n : Node F S) (resp : RateLimitResp) (sent : List RateLimitReq)
        → IsServing rt sum ceiling laws n.pool
        → length sent + attempts ≤ 6
        → length sent ≤ 1
        → Ended attempts (Async.finished n resp sent)
    end_now attempts n resp sent v few one = record {
      node = n;
      resp = resp;
      sent = sent;
      is = refl;
      serving = v;
      few = few;
      once = λ h. one;
    }

    end_sent :
        (attempts : ℕ) (n : Node F S) (resp : RateLimitResp)
        → IsServing rt sum ceiling laws n.pool
        → suc attempts ≤ 6
        → Ended attempts (Async.finished n resp (forward_request r ∷ []))
    end_sent attempts n resp v few =
        end_now attempts n resp (forward_request r ∷ []) v (omega (arith, few)) (omega arith)

    handle_here-Ended :
        (attempts : ℕ) (n : Node F S)
        → ((key : String) → sum key < 2 ^ 64)
        → StoreKeeps rt (Sound rt.fl)
        → IsRegular r
        → IsServing rt sum ceiling laws n.pool
        → attempts ≤ 6
        → Ended attempts (handle_here rt sum ceiling net now r n)
    unfolding handle_here
    handle_here-Ended attempts n bound s g v le =
        let (n', out, e, v') = local_rate_limit_lem rt sum ceiling laws now r true n bound s g v in
        elim (Outcome-cases out) [
          | inl (resp, o) ↦
              rw (e, handle_here)
                (rw (o, handle_here) (end_now attempts n' resp [] v' (omega arith) (omega arith)))
          | inr (msg, o) ↦
              rw (e, handle_here)
                (rw (o, handle_here) (end_now attempts n' _ [] v' (omega arith) (omega arith)))
        ]

    -- One more call before an end.
    sending-Ended :
        (attempts : ℕ) (a : Async F S)
        → (ltb_ℤ (pos 0) r.max_wait ≡ false)
        → Ended (suc attempts) a
        → Ended attempts (sending (forward_request r) a)
    unfolding sending
    sending-Ended attempts a plain e = record {
      node = e.node;
      resp = e.resp;
      sent = forward_request r ∷ e.sent;
      is = rw e.is refl;
      serving = e.serving;
      few = omega (arith, e.few);
      once = λ h. absurd (ground (arith, plain, h));
    }

    async_loop-Ended :
        (fuel attempts : ℕ) (error : String) (peer : PeerClient) (n : Node F S)
        → ((key : String) → sum key < 2 ^ 64)
        → StoreKeeps rt (Sound rt.fl)
        → IsRegular r
        → IsServing rt sum ceiling laws n.pool
        → attempts ≤ 6
        → 7 ≤ fuel + attempts
        → Ended attempts (async_loop rt sum ceiling net now r fuel attempts error peer n)
    unfolding async_loop
    async_loop-Ended zero attempts error peer n bound s g v le enough = absurd (omega arith)
    async_loop-Ended (suc fuel) attempts error peer n bound s g v le enough =
        elim (Bool-cases (ltb 5 attempts)) [
          | inl over ↦ rw (over, async_loop) (end_now attempts n _ [] v (omega arith) (omega arith))
          | inr more ↦ elim (Bool-cases (not (attempts == 0) && peer.info.is_owner)) [
            | inl here ↦
                rw (more, async_loop)
                  (rw (here, async_loop) (handle_here-Ended attempts n bound s g v le))
            | inr there ↦
                let few : suc attempts ≤ 6 = ground (arith, more) in
                rw (more, async_loop)
                  (rw (there, async_loop)
                    (elim (Call-cases (net.call attempts peer (forward_request r))) [
                      | inl (resp, c) ↦ rw (c, async_loop) (end_sent attempts n _ v few)
                      | inr (inl (e, c)) ↦ rw (c, async_loop) (end_sent attempts n _ v few)
                      | inr (inr (e, c)) ↦ elim (Bool-cases (ltb_ℤ (pos 0) r.max_wait)) [
                        | inl waits ↦
                            rw (c, async_loop)
                              (rw (waits, async_loop) (end_sent attempts n _ v few))
                        | inr plain ↦ elim (Next-cases (after_cut net r attempts)) [
                          | inl (msg, x) ↦
                              rw (c, async_loop)
                                (rw (plain, async_loop)
                                  (rw (x, async_loop) (end_sent attempts n _ v few)))
                          | inr (next, x) ↦
                              rw (c, async_loop)
                                (rw (plain, async_loop)
                                  (rw (x, async_loop)
                                    (sending-Ended attempts _ plain (
                                      async_loop-Ended fuel (suc attempts) e next n bound s g v few
                                        (omega arith)))))
                        ]
                      ]
                    ]))
          ]
        ]

    -- Take a pool whose caches are in order and sound, with between 1 and 2 ^ 63 workers, a number
    -- that divides 2 ^ 63; a checksum of 64 bits; float64 that keeps the cap laws; a store that
    -- hands out sound items only; and a request with no negative limit or burst, int64 limit and
    -- hits, and no negative hits on a token bucket. Then asyncRequest ends with a response,
    -- whatever the peers, GetPeer and the context answer; it makes at most 6 calls, and at most one
    -- for a request with a max_wait; and the pool is again such a pool.
    pub async_request_lem :
        (peer : PeerClient) (n : Node F S)
        → ((key : String) → sum key < 2 ^ 64)
        → StoreKeeps rt (Sound rt.fl)
        → IsRegular r
        → IsServing rt sum ceiling laws n.pool
        → (n' : Node F S) × (resp : RateLimitResp) × (sent : List RateLimitReq) × (async_request rt
              sum ceiling net now r peer n
            ≡ Async.finished n' resp sent)
          × IsServing rt sum ceiling laws n'.pool
          × (length sent ≤ 6)
          × (pos 0 <ℤ r.max_wait → length sent ≤ 1)
    unfolding async_request
    async_request_lem peer n bound s g v =
        let e = async_loop-Ended 7 0 "" peer n bound s g v (omega arith) (omega arith) in
        (e.node, e.resp, e.sent, e.is, e.serving, omega (arith, e.few), e.once)
