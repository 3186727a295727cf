-- ===== src/Global/Batches.antt =====
-- The size of the batches of runAsyncHits of global.go, and the interval of a waiting batch.
use gubernator.Global.Hits.{
  Hits, HitsLoop, Interval, Run, next, merge_hit, collect_hit, receive_hit, receive_tick,
}
use gubernator.Prelude.GoMap.{GoMap, lookup, length-insert}
use gubernator.Prelude.{
  ℕ, String, suc, ◌≤◌, ◌<◌, List, [], ◌∷◌, some, Bool, true, ◌≡◌, inl, inr, refl, arith, All, ◌==◌,
  ==_iff, length, Bool-cases, Option-cases, ◌||◌,
}
use gubernator.Types.{RateLimitReq, hash_key}

nonempty : {V : Type 0} (k : String) (m : GoMap V) (v : V) → lookup k m ≡ some v → 0 < length m
unfolding lookup
nonempty k [] v e = ground arith
nonempty k (x ∷ m) v e = omega arith

-- A hit adds at most one entry, and leaves some.
length-collect_hit :
    (r : RateLimitReq) (hits : Hits)
    → (length (collect_hit r hits) ≤ suc (length hits))
      × ((0 < length (collect_hit r hits)) × (length hits ≤ length (collect_hit r hits)))
unfolding collect_hit
length-collect_hit r hits = elim (Option-cases (lookup (hash_key r) hits)) [
  | inl e ↦
      rw (e, collect_hit)
        (rw (length-insert (hash_key r) r hits) (rw e (omega arith, (omega arith, omega arith))))
  | inr (old, e) ↦
      let some_entry = nonempty (hash_key r) hits old e in
      rw (e, collect_hit)
        (rw (length-insert (hash_key r) (merge_hit r old) hits)
          (rw e (omega arith, (some_entry, omega arith))))
]

abbrev pub Fits : ℕ → Hits → Type 0
Fits n hits = (0 < length hits) × (length hits ≤ n)

-- In every run of runAsyncHits with a positive batch limit, fewer keys than the limit wait, and
-- every batch sent has at least one key and at most the limit.
pub batches_fit :
    {n : ℕ} {s : HitsLoop} {rs : List RateLimitReq} {sent : List Hits}
    → Run n s rs sent
    → 0 < n
    → (length s.hits < n) × All (Fits n) sent
unfolding receive_hit receive_tick
batches_fit Run.start p = (p, tt)
batches_fit {n} (Run.hit r {s} {rs} {sent} run) p =
    let (small, all) = batches_fit run p in
    let (grown, kept) = length-collect_hit r s.hits in
    elim (Bool-cases (length (collect_hit r s.hits) == n)) [
      | inl full ↦
          rw (full, receive_hit) (p, ((omega (arith, kept), ground (arith, ==_iff _ _, full)), all))
      | inr room ↦ rw (room, receive_hit) (ground (arith, small, grown), all)
    ]
batches_fit (Run.tick {s} {rs} {sent} run t) p =
    let (small, all) = batches_fit run p in
    elim (Bool-cases (length s.hits == 0)) [
      | inl none_yet ↦ rw (none_yet, receive_tick) (small, all)
      | inr some_hits ↦
          rw (some_hits, receive_tick) (p, ((ground arith, omega (arith, small)), all))
    ]
batches_fit (Run.sleep run a b) p = batches_fit run p
batches_fit (Run.wake run a b) p = batches_fit run p

abbrev pub on_its_way : Interval → Bool
on_its_way i = i.queued || (i.sleeping || i.ticked)

-- In every run of runAsyncHits, while hits wait, the interval has a start queued, sleeps, or has a
-- tick to be received.
pub waiting_batch_has_interval :
    {n : ℕ} {s : HitsLoop} {rs : List RateLimitReq} {sent : List Hits}
    → Run n s rs sent
    → 0 < length s.hits
    → on_its_way s.interval ≡ true
unfolding receive_hit receive_tick next
waiting_batch_has_interval Run.start p = absurd (omega arith)
waiting_batch_has_interval {n} (Run.hit r {s} run) p =
    let (grown, kept) = length-collect_hit r s.hits in
    elim (Bool-cases (length (collect_hit r s.hits) == n)) [
      | inl full ↦ ground (arith, p, full)
      | inr room ↦ elim (Bool-cases (length (collect_hit r s.hits) == 1)) [
        | inl first ↦ rw (room, receive_hit) (rw (first, receive_hit) refl)
        | inr later ↦
            rw (room, receive_hit)
              (rw (later, receive_hit)
                (waiting_batch_has_interval run (ground (arith, grown, kept, later))))
      ]
    ]
waiting_batch_has_interval (Run.tick {s} run t) p = ground (arith, p)
waiting_batch_has_interval (Run.sleep run a b) p = refl
waiting_batch_has_interval (Run.wake run a b) p = ground arith
