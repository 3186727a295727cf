-- ===== src/Client/Drain.antt =====
-- The runs of runBatch of peer_client.go go on: what waits is sent after at most one interval, and a
-- queue that Shutdown closed is sent to the end.
use gubernator.Client.Batches.{BatchLoop, Batching, take_request, queue_closed, batch_tick}
use gubernator.Client.Order.{joined, accounted, requests_in_order}
use gubernator.Client.Send.{Request}
use gubernator.Global.Batches.{on_its_way}
use gubernator.Global.Hits.{next}
use gubernator.Prelude.{
  ℕ, ◌<◌, List, [], ◌∷◌, ◌++◌, true, false, ◌≡◌, refl, sym, ◌∙◌, subst, inl, inr, arith, leb, ◌==◌,
  length, length-append, Bool-cases,
}
use mathlib.Core.List.{append-nil, append_assoc}

-- While the loop runs and requests wait in it, its interval is on its way.
pub queue_has_interval :
    {limit : ℕ} {s : BatchLoop} {rs : List Request} {sent : List (List Request)}
    → Batching limit s rs sent
    → 0 < length s.queue
    → on_its_way s.interval ≡ true
unfolding take_request queue_closed batch_tick next
queue_has_interval Batching.start p = absurd (omega arith)
queue_has_interval (Batching.enqueue r run a b) p = queue_has_interval run p
queue_has_interval {limit} (Batching.receive r rest {s} run a e) p =
    let grown = length-append s.queue (r ∷ []) in
    elim (Bool-cases (leb limit (length (s.queue ++ (r ∷ []))))) [
      | inl full ↦ ground (arith, p, full)
      | inr room ↦ elim (Bool-cases (length (s.queue ++ (r ∷ [])) == 1)) [
        | inl first ↦ rw (room, take_request) (rw (first, take_request) refl)
        | inr later ↦
            rw (room, take_request)
              (rw (later, take_request) (queue_has_interval run (ground (arith, grown, later))))
      ]
    ]
queue_has_interval (Batching.close run) p = queue_has_interval run p
queue_has_interval (Batching.end {s} run a b c) p = ground (arith, p)
queue_has_interval (Batching.tick {s} run a b) p = ground (arith, p)
queue_has_interval (Batching.sleep run a b) p = refl
queue_has_interval (Batching.wake run a b) p = ground arith

tick_sends :
    {limit : ℕ} {s : BatchLoop} {rs : List Request} {sent : List (List Request)}
    → Batching limit s rs sent
    → s.returned ≡ false
    → 0 < length s.queue
    → s.interval.ticked ≡ true
    → (s' : BatchLoop) × Batching limit s' rs (sent ++ (s.queue ∷ [])) × (s'.queue ≡ [])
unfolding batch_tick
tick_sends {limit} {s} {rs} {sent} run going p ticked =
    let more : (length s.queue == 0) ≡ false = ground (arith, p) in
    let sends : (batch_tick s).1 ≡ s.queue ∷ [] = rw (more, batch_tick) refl in
    (
      (batch_tick s).0,
      subst (λ (b : List (List Request)). Batching limit (batch_tick s).0 rs (sent ++ b)) sends
          (Batching.tick run going ticked),
      rw (more, batch_tick) refl,
    )

-- In every run of runBatch that has not returned and has requests in its queue, the run can go on,
-- without a further request, to send this queue as one batch and leave the queue empty.
pub waiting_queue_is_sent :
    {limit : ℕ} {s : BatchLoop} {rs : List Request} {sent : List (List Request)}
    → Batching limit s rs sent
    → s.returned ≡ false
    → 0 < length s.queue
    → (s' : BatchLoop) × Batching limit s' rs (sent ++ (s.queue ∷ [])) × (s'.queue ≡ [])
waiting_queue_is_sent {limit} {s} run going p = elim (Bool-cases s.interval.ticked) [
  | inl ticked ↦ tick_sends run going p ticked
  | inr not_yet ↦ elim (Bool-cases s.interval.sleeping) [
    | inl asleep ↦ tick_sends (Batching.wake run asleep not_yet) going p refl
    | inr awake ↦
        let queued : s.interval.queued ≡ true =
          ground (arith, queue_has_interval run p, not_yet, awake) in
        tick_sends (Batching.wake (Batching.sleep run queued awake) refl not_yet) going p refl
  ]
]

ended :
    (s : BatchLoop)
    → ((queue_closed s).0.queue ≡ [])
      × ((queue_closed s).0.channel ≡ s.channel)
      × ((queue_closed s).0.returned ≡ true)
unfolding queue_closed
ended s = elim (Bool-cases (length s.queue == 0)) [
  | inl none_left ↦ rw (none_left, queue_closed) (refl, refl, refl)
  | inr some_left ↦ rw (some_left, queue_closed) (refl, refl, refl)
]

taken :
    (limit : ℕ) (r : Request) (rest : List Request) (s : BatchLoop)
    → ((take_request limit r rest s).0.channel ≡ rest)
      × ((take_request limit r rest s).0.closed ≡ s.closed)
      × ((take_request limit r rest s).0.returned ≡ s.returned)
unfolding take_request
taken limit r rest s = elim (Bool-cases (leb limit (length (s.queue ++ (r ∷ []))))) [
  | inl full ↦ rw (full, take_request) (refl, refl, refl)
  | inr room ↦ rw (room, take_request) (refl, refl, refl)
]

all_sent :
    {limit : ℕ} {s : BatchLoop} {rs : List Request} {sent : List (List Request)}
    → Batching limit s rs sent
    → s.queue ≡ []
    → s.channel ≡ []
    → joined sent ≡ rs
all_sent {limit} {s} {rs} {sent} run q c =
    let whole : accounted s sent ≡ joined sent = rw q (rw c (append-nil (joined sent))) in
    sym whole ∙ requests_in_order run

drained :
    {limit : ℕ} (channel : List Request) {s : BatchLoop} {rs : List Request}
    {sent : List (List Request)}
    → Batching limit s rs sent
    → s.returned ≡ false
    → s.closed ≡ true
    → s.channel ≡ channel
    → (s' : BatchLoop) × (more : List (List Request)) × Batching limit s' rs (sent ++ more)
      × (s'.returned ≡ true)
      × (joined (sent ++ more) ≡ rs)
drained {limit} [] {s} {rs} {sent} run going shut e =
    let step = Batching.end run going shut e in
    let (q, c, done) = ended s in
    ((queue_closed s).0, (queue_closed s).1, step, done, all_sent step q (c ∙ e))
drained {limit} (r ∷ rest) {s} {rs} {sent} run going shut e =
    let (same, shut', going') = taken limit r rest s in
    let step = Batching.receive r rest run going e in
    let (s', more, run', done, all) = drained rest step (going' ∙ going) (shut' ∙ shut) same in
    let regroup = append_assoc sent (take_request limit r rest s).1 more in
    (
      s',
      (take_request limit r rest s).1 ++ more,
      subst (λ (l : List (List Request)). Batching limit s' rs l) regroup run',
      done,
      subst (λ (l : List (List Request)). joined l ≡ rs) regroup all,
    )

-- In every run of runBatch that has not returned and whose channel is closed, the run can go on
-- until it returns, and all requests that came have then been sent, in their order.
pub closed_queue_drains :
    {limit : ℕ} {s : BatchLoop} {rs : List Request} {sent : List (List Request)}
    → Batching limit s rs sent
    → s.returned ≡ false
    → s.closed ≡ true
    → (s' : BatchLoop) × (more : List (List Request)) × Batching limit s' rs (sent ++ more)
      × (s'.returned ≡ true)
      × (joined (sent ++ more) ≡ rs)
closed_queue_drains {limit} {s} run going shut = drained s.channel run going shut refl
