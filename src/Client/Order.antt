-- ===== src/Client/Order.antt =====
-- The runs of runBatch of peer_client.go: no request is lost, repeated or overtaken, and the batches
-- keep to the limit.
use gubernator.Client.Batches.{BatchLoop, Batching, take_request, queue_closed, batch_tick}
use gubernator.Client.Send.{Request}
use gubernator.Prelude.{
  empty_of_length, ℕ, ◌<◌, ◌≤◌, List, [], ◌∷◌, ◌++◌, ◌≡◌, refl, ap, sym, ◌∙◌, inl, inr, arith, All,
  All-append, leb, ◌==◌, length, length-append, Bool-cases,
}
use mathlib.Core.List.{append_assoc, append-nil}

abbrev pub joined : List (List Request) → List Request
joined [] = []
joined (b ∷ bs) = b ++ joined bs

joined-append : (a b : List (List Request)) → joined (a ++ b) ≡ joined a ++ joined b
joined-append [] b = refl
joined-append (x ∷ a) b = simp (joined-append a b, append_assoc)

-- What was sent, what waits in the loop and what waits in the channel.
abbrev pub accounted : BatchLoop → List (List Request) → List Request
accounted s sent = joined sent ++ (s.queue ++ s.channel)

module _ (limit : ℕ) where
  received_in_order :
      (r : Request) (rest : List Request) (s : BatchLoop) (sent : List (List Request))
      → s.channel ≡ r ∷ rest
      → accounted (take_request limit r rest s).0 (sent ++ (take_request limit r rest s).1)
        ≡ accounted s sent
  unfolding take_request
  received_in_order r rest s sent e = elim (Bool-cases (leb limit (length (s.queue ++ (r ∷ []))))) [
    | inl full ↦ rw (full, take_request) (rw e (simp (joined-append, append_assoc, append-nil)))
    | inr room ↦ rw (room, take_request) (rw e (simp (append_assoc, append-nil)))
  ]

  closed_in_order :
      (s : BatchLoop) (sent : List (List Request))
      → accounted (queue_closed s).0 (sent ++ (queue_closed s).1) ≡ accounted s sent
  unfolding queue_closed
  closed_in_order s sent = elim (Bool-cases (length s.queue == 0)) [
    | inl none_left ↦
        rw (none_left, queue_closed) (rw (empty_of_length s.queue none_left) (simp (append-nil)))
    | inr some_left ↦ rw (some_left, queue_closed) (simp (joined-append, append_assoc, append-nil))
  ]

  ticked_in_order :
      (s : BatchLoop) (sent : List (List Request))
      → accounted (batch_tick s).0 (sent ++ (batch_tick s).1) ≡ accounted s sent
  unfolding batch_tick
  ticked_in_order s sent = elim (Bool-cases (length s.queue == 0)) [
    | inl none_left ↦ rw (none_left, batch_tick) (simp (append-nil))
    | inr some_left ↦ rw (some_left, batch_tick) (simp (joined-append, append_assoc, append-nil))
  ]

-- In every run of runBatch, the batches sent, what waits in its queue and what waits in its channel
-- are, one after the other, the requests in the order in which they came.
pub requests_in_order :
    {limit : ℕ} {s : BatchLoop} {rs : List Request} {sent : List (List Request)}
    → Batching limit s rs sent
    → accounted s sent ≡ rs
requests_in_order Batching.start = refl
requests_in_order (Batching.enqueue r {s} {rs} {sent} run a b) =
    let regroup : accounted s sent ++ (r ∷ [])
        ≡ joined sent ++ (s.queue ++ (s.channel ++ (r ∷ []))) =
      simp (append_assoc) in
    sym regroup ∙ ap (λ (l : List Request). l ++ (r ∷ [])) (requests_in_order run)
requests_in_order {limit} (Batching.receive r rest {s} {rs} {sent} run a e) =
    received_in_order limit r rest s sent e ∙ requests_in_order run
requests_in_order (Batching.close run) = requests_in_order run
requests_in_order {limit} (Batching.end {s} {rs} {sent} run a b c) =
    closed_in_order limit s sent ∙ requests_in_order run
requests_in_order {limit} (Batching.tick {s} {rs} {sent} run a b) =
    ticked_in_order limit s sent ∙ requests_in_order run
requests_in_order (Batching.sleep run a b) = requests_in_order run
requests_in_order (Batching.wake run a b) = requests_in_order run

-- One of the sizes that a batch may have.
abbrev pub Fitting : ℕ → List Request → Type 0
Fitting limit batch = (0 < length batch) × (length batch ≤ limit)

nothing_more :
    (limit : ℕ) (sent : List (List Request))
    → All (Fitting limit) sent
    → All (Fitting limit) (sent ++ [])
nothing_more limit sent all = All-append (Fitting limit) sent [] all tt

one_more :
    (limit : ℕ) (sent : List (List Request)) (batch : List Request)
    → All (Fitting limit) sent
    → Fitting limit batch
    → All (Fitting limit) (sent ++ (batch ∷ []))
one_more limit sent batch all fit = All-append (Fitting limit) sent (batch ∷ []) all (fit, tt)

-- With a positive limit, fewer requests than the limit wait, and each batch sent has at least one
-- request and at most the limit.
pub batch_sizes :
    {limit : ℕ} {s : BatchLoop} {rs : List Request} {sent : List (List Request)}
    → Batching limit s rs sent
    → 0 < limit
    → (length s.queue < limit) × All (Fitting limit) sent
unfolding take_request queue_closed batch_tick
batch_sizes Batching.start p = (p, tt)
batch_sizes (Batching.enqueue r run a b) p = batch_sizes run p
batch_sizes {limit} (Batching.receive r rest {s} {rs} {sent} run a e) p =
    let (small, all) = batch_sizes run p in
    let grown = length-append s.queue (r ∷ []) in
    elim (Bool-cases (leb limit (length (s.queue ++ (r ∷ []))))) [
      | inl full ↦
          rw (full, take_request)
            (p, one_more limit sent _ all (omega (arith, grown), omega (arith, grown, small)))
      | inr room ↦ rw (room, take_request) (ground (arith, room), nothing_more limit sent all)
    ]
batch_sizes (Batching.close run) p = batch_sizes run p
batch_sizes {limit} (Batching.end {s} {rs} {sent} run a b c) p =
    let (small, all) = batch_sizes run p in
    elim (Bool-cases (length s.queue == 0)) [
      | inl none_left ↦ rw (none_left, queue_closed) (p, nothing_more limit sent all)
      | inr some_left ↦
          rw (some_left, queue_closed)
            (p, one_more limit sent _ all (ground (arith, some_left), omega (arith, small)))
    ]
batch_sizes {limit} (Batching.tick {s} {rs} {sent} run a b) p =
    let (small, all) = batch_sizes run p in
    elim (Bool-cases (length s.queue == 0)) [
      | inl none_left ↦ rw (none_left, batch_tick) (small, nothing_more limit sent all)
      | inr some_left ↦
          rw (some_left, batch_tick)
            (p, one_more limit sent _ all (ground (arith, some_left), omega (arith, small)))
    ]
batch_sizes (Batching.sleep run a b) p = batch_sizes run p
batch_sizes (Batching.wake run a b) p = batch_sizes run p
