-- ===== src/Global/Hits.antt =====
-- The Interval of interval.go, and runAsyncHits of global.go: the hits on global rate limits that
-- others own are added up per key, and sent when the batch is full or the interval is over.
use gubernator.Prelude.GoMap.{GoMap, lookup, insert}
use gubernator.Prelude.{
  ℕ, pos, List, [], ◌∷◌, ◌++◌, none, some, Bool, true, false, ◌≡◌, ◌==◌, add64, eqb_ℤ,
  if◌then◌else◌, length,
}
use gubernator.Types.{RateLimitReq, hash_key, has_behavior, set_behavior, reset_remaining}

-- The two channels of capacity 1, and whether the goroutine between them sleeps.
pub record Interval : Type 0 where
  pub queued : Bool
  pub sleeping : Bool
  pub ticked : Bool

abbrev pub new_interval : Interval
new_interval = record { queued = false; sleeping = false; ticked = false }

-- Next: a send that is dropped when the channel is full.
unfoldable pub next : Interval → Interval
next i = record i { queued = true }

abbrev pub Hits : Type 0
Hits = GoMap RateLimitReq

pub record HitsLoop : Type 0 where
  pub hits : Hits
  pub interval : Interval

abbrev pub new_loop : HitsLoop
new_loop = record { hits = []; interval = new_interval }

-- QueueHit
unfoldable pub queue_hit : RateLimitReq → List RateLimitReq → List RateLimitReq
queue_hit r queue = if eqb_ℤ r.hits (pos 0) then queue else queue ++ (r ∷ [])

-- A hit on a key that the batch has; RESET_REMAINING is handed on to the owner.
unfoldable pub merge_hit : RateLimitReq → RateLimitReq → RateLimitReq
merge_hit r old = record old {
  behavior =
      if has_behavior r.behavior reset_remaining
      then set_behavior old.behavior reset_remaining true
      else old.behavior;
  hits = add64 old.hits r.hits;
}

unfoldable pub collect_hit : RateLimitReq → Hits → Hits
collect_hit r hits = elim (lookup (hash_key r) hits) [
  | some old ↦ insert (hash_key r) (merge_hit r old) hits
  | none ↦ insert (hash_key r) r hits
]

-- The case of a hit: the loop's new state, and the batch where one is sent.
unfoldable pub receive_hit : ℕ → RateLimitReq → HitsLoop → HitsLoop × List Hits
receive_hit batch_limit r s =
    let hits = collect_hit r s.hits in
    if length hits == batch_limit then (record s { hits = [] }, hits ∷ []) else (
      record { hits = hits; interval = if length hits == 1 then next s.interval else s.interval },
      [],
    )

-- The case of a tick.
unfoldable pub receive_tick : HitsLoop → HitsLoop × List Hits
receive_tick s =
    let interval : Interval = record (s.interval) { ticked = false } in
    if length s.hits == 0
    then (record s { interval = interval }, [])
    else (record { hits = []; interval = interval }, s.hits ∷ [])

-- The runs of the loop and of the interval's goroutine in any order, with the requests received and
-- the batches sent, newest first.
pub data Run (batch_limit : ℕ) : HitsLoop → List RateLimitReq → List Hits → Type 0 where
  start : Run batch_limit new_loop [] []
  hit :
      (r : RateLimitReq) {s : HitsLoop} {rs : List RateLimitReq} {sent : List Hits}
      → Run batch_limit s rs sent
      → Run batch_limit
          (receive_hit batch_limit r s).0
          (r ∷ rs)
          ((receive_hit batch_limit r s).1 ++ sent)
  tick :
      {s : HitsLoop} {rs : List RateLimitReq} {sent : List Hits}
      → Run batch_limit s rs sent
      → s.interval.ticked ≡ true
      → Run batch_limit (receive_tick s).0 rs ((receive_tick s).1 ++ sent)
  sleep :
      {s : HitsLoop} {rs : List RateLimitReq} {sent : List Hits}
      → Run batch_limit s rs sent
      → s.interval.queued ≡ true
      → s.interval.sleeping ≡ false
      → Run batch_limit
          (record s { interval = record (s.interval) { queued = false; sleeping = true } })
          rs
          sent
  wake :
      {s : HitsLoop} {rs : List RateLimitReq} {sent : List Hits}
      → Run batch_limit s rs sent
      → s.interval.sleeping ≡ true
      → s.interval.ticked ≡ false
      → Run batch_limit
          (record s { interval = record (s.interval) { sleeping = false; ticked = true } })
          rs
          sent
