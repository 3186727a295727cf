-- ===== src/Global/Conserved.antt =====
-- The hits on a key that runAsyncHits of global.go receives, holds and sends.
use gubernator.Global.Hits.{Hits, HitsLoop, Run, merge_hit, collect_hit, receive_hit, receive_tick}
use gubernator.Prelude.GoMap.{lookup, lookup-insert}
use gubernator.Prelude.{
  ℕ, ◌+◌, ◌^◌, ◌<◌, pos, pos_part, neg_part, String, List, [], ◌∷◌, ◌++◌, Option, none, some, ◌≡◌,
  ◌⊎◌, inl, inr, refl, arith, ap, sym, ◌∙◌, All, ◌==◌, str_eq, eq_iff, add64_nonneg, if◌then◌else◌,
  length, Bool-cases, Option-cases,
}
use gubernator.Types.{RateLimitReq, hash_key}

abbrev hits_of : Option RateLimitReq → ℕ
hits_of none = 0
hits_of (some r) = pos_part r.hits

-- The hits on a key in a batch, in the batches that were sent, and in the requests received.
abbrev pub batched : String → Hits → ℕ
batched k hits = hits_of (lookup k hits)

abbrev pub sent_hits : String → List Hits → ℕ
sent_hits k [] = 0
sent_hits k (hits ∷ sent) = batched k hits + sent_hits k sent

abbrev pub received_hits : String → List RateLimitReq → ℕ
received_hits k [] = 0
received_hits k (r ∷ rs) =
    (if str_eq (hash_key r) k then pos_part r.hits else 0) + received_hits k rs

abbrev negative_hits : String → Hits → ℕ
negative_hits k hits = elim (lookup k hits) [ none ↦ 0 | some r ↦ neg_part r.hits ]

abbrev share : String → RateLimitReq → ℕ
share k r = if str_eq (hash_key r) k then pos_part r.hits else 0

abbrev pub GivesNothingBack : List RateLimitReq → Type 0
GivesNothingBack rs = All (λ r. neg_part r.hits ≡ 0) rs

merge_sum :
    (r old : RateLimitReq)
    → neg_part r.hits ≡ 0
    → neg_part old.hits ≡ 0
    → pos_part old.hits + pos_part r.hits < 2 ^ 63
    → (merge_hit r old).hits ≡ pos (pos_part old.hits + pos_part r.hits)
unfolding merge_hit
merge_sum r old p q small = add64_nonneg old.hits r.hits q p small

abbrev merged : RateLimitReq → Option RateLimitReq → RateLimitReq
merged r none = r
merged r (some old) = merge_hit r old

-- What a batch holds of a key once a hit is collected.
pub lookup-collect_hit :
    (k : String) (r : RateLimitReq) (hits : Hits)
    → lookup k (collect_hit r hits)
      ≡ (if str_eq (hash_key r) k then some (merged r (lookup k hits)) else lookup k hits)
unfolding collect_hit
lookup-collect_hit k r hits =
    let w = λ (v : RateLimitReq). lookup-insert (hash_key r) k v hits in
    elim (Bool-cases (str_eq (hash_key r) k)) [
      | inl same ↦
          let here = ap (λ j. lookup j hits) ((eq_iff (hash_key r) k).0 same) in
          elim (Option-cases (lookup (hash_key r) hits)) [
            | inl e ↦ rw (e, collect_hit) (w r ∙ rw same (rw (sym here ∙ e) refl))
            | inr (old, e) ↦
                rw (e, collect_hit) (w (merge_hit r old) ∙ rw same (rw (sym here ∙ e) refl))
          ]
      | inr other ↦ elim (Option-cases (lookup (hash_key r) hits)) [
        | inl e ↦ rw (e, collect_hit) (w r ∙ rw other refl)
        | inr (old, e) ↦ rw (e, collect_hit) (w (merge_hit r old) ∙ rw other refl)
      ]
    ]

collected :
    (k : String) (r : RateLimitReq) (hits : Hits)
    → neg_part r.hits ≡ 0
    → negative_hits k hits ≡ 0
    → share k r + batched k hits < 2 ^ 63
    → (batched k (collect_hit r hits) ≡ share k r + batched k hits)
      × (negative_hits k (collect_hit r hits) ≡ 0)
collected k r hits p q small =
    let found = lookup-collect_hit k r hits in
    elim (Option-cases (lookup k hits)) [
      | inl e ↦ ground (arith, found, e)
      | inr (old, e) ↦ ground (arith, found, e, merge_sum r old)
    ]

received :
    (k : String) (n : ℕ) (r : RateLimitReq) (s : HitsLoop)
    → (sent_hits k (receive_hit n r s).1 + batched k (receive_hit n r s).0.hits
        ≡ batched k (collect_hit r s.hits))
      × ((negative_hits k (receive_hit n r s).0.hits ≡ 0)
          ⊎ (negative_hits k (receive_hit n r s).0.hits ≡ negative_hits k (collect_hit r s.hits)))
unfolding receive_hit lookup
received k n r s = elim (Bool-cases (length (collect_hit r s.hits) == n)) [
  | inl full ↦ rw full (omega arith, inl refl)
  | inr room ↦ rw room (omega arith, inr refl)
]

ticked :
    (k : String) (s : HitsLoop)
    → (sent_hits k (receive_tick s).1 + batched k (receive_tick s).0.hits ≡ batched k s.hits)
      × ((negative_hits k (receive_tick s).0.hits ≡ 0)
          ⊎ (negative_hits k (receive_tick s).0.hits ≡ negative_hits k s.hits))
unfolding receive_tick lookup
ticked k s = elim (Bool-cases (length s.hits == 0)) [
  | inl none_yet ↦ rw none_yet (omega arith, inr refl)
  | inr some_hits ↦ rw some_hits (omega arith, inl refl)
]

sent_hits-append :
    (k : String) (a b : List Hits) → sent_hits k (a ++ b) ≡ sent_hits k a + sent_hits k b
sent_hits-append k [] b = omega arith
sent_hits-append k (x ∷ a) b = omega (arith, sent_hits-append k a b)

conserved-Run :
    (k : String) {n : ℕ} {s : HitsLoop} {rs : List RateLimitReq} {sent : List Hits}
    → Run n s rs sent
    → GivesNothingBack rs
    → received_hits k rs < 2 ^ 63
    → (sent_hits k sent + batched k s.hits ≡ received_hits k rs) × (negative_hits k s.hits ≡ 0)
unfolding lookup
conserved-Run k Run.start g small = (omega arith, refl)
conserved-Run k {n} (Run.hit r {s} {rs} {sent} run) g small =
    let before = conserved-Run k run g.1 (omega arith) in
    let now = collected k r s.hits g.0 before.1 (omega (arith, before)) in
    let (moved, neg) = received k n r s in
    (
      omega (arith, before, now, moved, sent_hits-append k (receive_hit n r s).1 sent),
      ground (arith, neg, now),
    )
conserved-Run k (Run.tick {s} {rs} {sent} run t) g small =
    let before = conserved-Run k run g small in
    let (moved, neg) = ticked k s in
    (
      omega (arith, before, moved, sent_hits-append k (receive_tick s).1 sent),
      ground (arith, neg, before),
    )
conserved-Run k (Run.sleep run a b) g small = conserved-Run k run g small
conserved-Run k (Run.wake run a b) g small = conserved-Run k run g small

-- In every run of runAsyncHits on requests without negative hits, whose hits on a key add up to
-- less than 2 ^ 63, the hits on the key in the batches sent and in the batch that waits add up to
-- the hits received.
pub hits_conserved :
    (k : String) {n : ℕ} {s : HitsLoop} {rs : List RateLimitReq} {sent : List Hits}
    → Run n s rs sent
    → GivesNothingBack rs
    → received_hits k rs < 2 ^ 63
    → sent_hits k sent + batched k s.hits ≡ received_hits k rs
hits_conserved k run g small = (conserved-Run k run g small).0
