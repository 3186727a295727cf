-- ===== src/Client/Batches.antt =====
-- The queue of a peer's client and runBatch of peer_client.go, with Shutdown's close of the queue.
use gubernator.Client.Send.{Request}
use gubernator.Global.Hits.{Interval, next, new_interval}
use gubernator.Prelude.{
  ℕ, ◌<◌, List, [], ◌∷◌, ◌++◌, Bool, true, false, ◌≡◌, leb, ◌==◌, if◌then◌else◌, length,
}

-- `make(chan *request, 1000)`
abbrev pub queue_capacity : ℕ
queue_capacity = 1000

-- The channel, whether it is closed, and the variables of runBatch.
pub record BatchLoop : Type 0 where
  pub channel : List Request
  pub closed : Bool
  pub queue : List Request
  pub interval : Interval
  pub returned : Bool

abbrev pub new_batch_loop : BatchLoop
new_batch_loop = record {
  channel = [];
  closed = false;
  queue = [];
  interval = new_interval;
  returned = false;
}

-- The case of a request: the loop's new state, and the batch where one is sent.
unfoldable pub take_request :
    ℕ → Request → List Request → BatchLoop → BatchLoop × List (List Request)
take_request batch_limit r channel s =
    let queue = s.queue ++ (r ∷ []) in
    if leb batch_limit (length queue)
    then (record s { channel = channel; queue = [] }, queue ∷ [])
    else (
      record s {
        channel = channel;
        queue = queue;
        interval = if length queue == 1 then next s.interval else s.interval;
      },
      [],
    )

-- The case of a channel that is closed and empty: the rest of the queue is sent.
unfoldable pub queue_closed : BatchLoop → BatchLoop × List (List Request)
queue_closed s =
    let after : BatchLoop = record s { queue = []; returned = true } in
    if length s.queue == 0 then (after, []) else (after, s.queue ∷ [])

-- The case of a tick.
unfoldable pub batch_tick : BatchLoop → BatchLoop × List (List Request)
batch_tick s =
    let interval : Interval = record (s.interval) { ticked = false } in
    if length s.queue == 0
    then (record s { interval = interval }, [])
    else (record s { interval = interval; queue = [] }, s.queue ∷ [])

abbrev pub fall_asleep : BatchLoop → BatchLoop
fall_asleep s = record s { interval = record (s.interval) { queued = false; sleeping = true } }

abbrev pub wake_up : BatchLoop → BatchLoop
wake_up s = record s { interval = record (s.interval) { sleeping = false; ticked = true } }

-- The runs of the callers, the loop and the interval's goroutine in any order, with the requests
-- that were queued and the batches that were sent, oldest first. Shutdown closes the queue once the
-- callers have left; here it may close it at any time.
pub data Batching (limit : ℕ) : BatchLoop → List Request → List (List Request) → Type 0 where
  start : Batching limit new_batch_loop [] []
  enqueue :
      (r : Request) {s : BatchLoop} {rs : List Request} {sent : List (List Request)}
      → Batching limit s rs sent
      → s.closed ≡ false
      → length s.channel < queue_capacity
      → Batching limit (record s { channel = s.channel ++ (r ∷ []) }) (rs ++ (r ∷ [])) sent
  receive :
      (r : Request) (rest : List Request) {s : BatchLoop} {rs : List Request}
      {sent : List (List Request)}
      → Batching limit s rs sent
      → s.returned ≡ false
      → s.channel ≡ r ∷ rest
      → Batching limit (take_request limit r rest s).0 rs (sent ++ (take_request limit r rest s).1)
  close :
      {s : BatchLoop} {rs : List Request} {sent : List (List Request)}
      → Batching limit s rs sent
      → Batching limit (record s { closed = true }) rs sent
  end :
      {s : BatchLoop} {rs : List Request} {sent : List (List Request)}
      → Batching limit s rs sent
      → s.returned ≡ false
      → s.closed ≡ true
      → s.channel ≡ []
      → Batching limit (queue_closed s).0 rs (sent ++ (queue_closed s).1)
  tick :
      {s : BatchLoop} {rs : List Request} {sent : List (List Request)}
      → Batching limit s rs sent
      → s.returned ≡ false
      → s.interval.ticked ≡ true
      → Batching limit (batch_tick s).0 rs (sent ++ (batch_tick s).1)
  sleep :
      {s : BatchLoop} {rs : List Request} {sent : List (List Request)}
      → Batching limit s rs sent
      → s.interval.queued ≡ true
      → s.interval.sleeping ≡ false
      → Batching limit (fall_asleep s) rs sent
  wake :
      {s : BatchLoop} {rs : List Request} {sent : List (List Request)}
      → Batching limit s rs sent
      → s.interval.sleeping ≡ true
      → s.interval.ticked ≡ false
      → Batching limit (wake_up s) rs sent
