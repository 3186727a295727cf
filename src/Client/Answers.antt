-- ===== src/Client/Answers.antt =====
-- What sendBatch of peer_client.go answers to each request of a batch, and which error it records.
use mathlib.Core.List.{Perm, perm_middle, map-append, append-nil}
use mathlib.Core.List.Perm
use gubernator.Client.Errors.{ErrorCache}
use gubernator.Client.Send.{
  Request, Response, PeerAnswer, CtxErr, gone, skip_gone, fail_all, reply_each, wrong_size,
  call_error, deliver, send_live, send_batch,
}
use gubernator.Prelude.{
  Listed, Listed-left, Listed-right, ℕ, zero, suc, String, List, [], ◌∷◌, ◌++◌, map, Option, none,
  some, ◌≡◌, refl, ap, sym, ◌∙◌, subst, inl, inr, arith, ◌==◌, ==_iff, if◌then◌else◌, length,
  get_elem?, Bool-cases, Option-cases,
}
use gubernator.Types.{RateLimitReq, RateLimitResp}

abbrev pub addressees : List (Request × Response) → List Request
addressees replies = map (λ (p : Request × Response). p.0) replies

-- The requests whose caller still waits.
abbrev pub waiting : CtxErr → List Request → List Request
waiting ctx [] = []
waiting ctx (r ∷ rs) = elim (ctx r) [ some _ ↦ waiting ctx rs | none ↦ r ∷ waiting ctx rs ]

abbrev pub asked : CtxErr → List Request → List RateLimitReq
asked ctx queue = map (λ (q : Request). q.request) (waiting ctx queue)

-- What the request at a position of a call of `n` requests is answered.
abbrev pub reply_at : PeerAnswer → ℕ → ℕ → Option Response
reply_at (PeerAnswer.broken e) n i = some (Response.failed (call_error e))
reply_at (PeerAnswer.responded resps) n i =
    if length resps == n
    then (elim (get_elem? resps i) [ none ↦ none | some resp ↦ some (Response.rate_limit resp) ])
    else some (Response.failed wrong_size)

pub skip_gone-waiting :
    (ctx : CtxErr) (queue : List Request) → (skip_gone ctx queue).0 ≡ waiting ctx queue
unfolding skip_gone
skip_gone-waiting ctx [] = refl
skip_gone-waiting ctx (r ∷ rs) = elim (Option-cases (ctx r)) [
  | inl e ↦
      rw (e, skip_gone)
        (rw (e, waiting) (ap (λ (l : List Request). r ∷ l) (skip_gone-waiting ctx rs)))
  | inr (x, e) ↦ rw (e, skip_gone) (rw (e, waiting) (skip_gone-waiting ctx rs))
]

skip_gone-perm :
    (ctx : CtxErr) (queue : List Request)
    → Perm (addressees (skip_gone ctx queue).1 ++ (skip_gone ctx queue).0) queue
unfolding skip_gone
skip_gone-perm ctx [] = Perm.refl []
skip_gone-perm ctx (r ∷ rs) =
    let rest = skip_gone-perm ctx rs in
    elim (Option-cases (ctx r)) [
      | inl e ↦ rw (e, skip_gone) (Perm.trans (perm_middle _ _) (Perm.cons r rest))
      | inr (x, e) ↦ rw (e, skip_gone) (Perm.cons r rest)
    ]

skip_gone-gone :
    (ctx : CtxErr) (queue : List Request) (r : Request) (e : String)
    → Listed r queue
    → ctx r ≡ some e
    → Listed (r, gone e) (skip_gone ctx queue).1
unfolding skip_gone
skip_gone-gone ctx [] r e l h = absurd l
skip_gone-gone ctx (q ∷ rs) r e (inl same) h =
    let here : ctx q ≡ some e = ap ctx same ∙ h in
    rw (here, skip_gone) (inl (ap (λ (x : Request). (x, gone e)) same))
skip_gone-gone ctx (q ∷ rs) r e (inr l) h =
    let rest = skip_gone-gone ctx rs r e l h in
    elim (Option-cases (ctx q)) [
      | inl at ↦ rw (at, skip_gone) rest
      | inr (x, at) ↦ rw (at, skip_gone) (inr rest)
    ]

addressees-fail_all : (e : String) (rs : List Request) → addressees (fail_all e rs) ≡ rs
unfolding fail_all
addressees-fail_all e [] = refl
addressees-fail_all e (r ∷ rs) = ap (λ (l : List Request). r ∷ l) (addressees-fail_all e rs)

addressees-reply_each :
    (rs : List Request) (resps : List RateLimitResp)
    → length resps ≡ length rs
    → addressees (reply_each rs resps) ≡ rs
unfolding reply_each
addressees-reply_each [] resps h = refl
addressees-reply_each (r ∷ rs) [] h = absurd (omega (arith, h))
addressees-reply_each (r ∷ rs) (x ∷ resps) h =
    ap (λ (l : List Request). r ∷ l) (addressees-reply_each rs resps (omega (arith, h)))

fail_all-at :
    (e : String) (rs : List Request) (i : ℕ) (r : Request)
    → get_elem? rs i ≡ some r
    → Listed (r, Response.failed e) (fail_all e rs)
unfolding fail_all
fail_all-at e [] i r h = absurd (ground (arith, h))
fail_all-at e (q ∷ rs) zero r h = inl (ground (arith, h))
fail_all-at e (q ∷ rs) (suc i) r h = inr (fail_all-at e rs i r h)

reply_each-at :
    (rs : List Request) (resps : List RateLimitResp) (i : ℕ) (r : Request) (resp : RateLimitResp)
    → get_elem? rs i ≡ some r
    → get_elem? resps i ≡ some resp
    → Listed (r, Response.rate_limit resp) (reply_each rs resps)
unfolding reply_each
reply_each-at [] resps i r resp h k = absurd (ground (arith, h))
reply_each-at (q ∷ rs) [] i r resp h k = absurd (ground (arith, k))
reply_each-at (q ∷ rs) (x ∷ resps) zero r resp h k = inl (ground (arith, h, k))
reply_each-at (q ∷ rs) (x ∷ resps) (suc i) r resp h k = inr (reply_each-at rs resps i r resp h k)

-- Every request has one reply: that its caller left, or what the peer answered at its position.
abbrev pub AllAnswered :
    CtxErr → (List RateLimitReq → PeerAnswer) → List Request → List (Request × Response) → Type 0
AllAnswered ctx peer queue replies =
    Perm (addressees replies) queue
    × ((r : Request) (e : String) → Listed r queue → ctx r ≡ some e → Listed (r, gone e) replies)
    × ((i : ℕ) (r : Request) (resp : Response)
        → get_elem? (waiting ctx queue) i ≡ some r
        → reply_at (peer (asked ctx queue)) (length (waiting ctx queue)) i ≡ some resp
        → Listed (r, resp) replies)

module _ {E T : Type 0} (ec : ErrorCache E T) (address : String) where
  addressees-deliver :
      (now : T) (live : List Request) (answer : PeerAnswer) (errs : E)
      → addressees (deliver ec address now live answer errs).0 ≡ live
  unfolding deliver
  addressees-deliver now live (PeerAnswer.broken e) errs = addressees-fail_all (call_error e) live
  addressees-deliver now live (PeerAnswer.responded resps) errs =
      elim (Bool-cases (length resps == length live)) [
        | inl same ↦ rw (same, deliver) (addressees-reply_each live resps ((==_iff _ _).0 same))
        | inr other ↦ rw (other, deliver) (addressees-fail_all wrong_size live)
      ]

  deliver-at :
      (now : T) (live : List Request) (answer : PeerAnswer) (errs : E) (i : ℕ) (r : Request)
      (resp : Response)
      → get_elem? live i ≡ some r
      → reply_at answer (length live) i ≡ some resp
      → Listed (r, resp) (deliver ec address now live answer errs).0
  unfolding deliver
  deliver-at now live (PeerAnswer.broken e) errs i r resp h k =
      subst (λ (x : Response). Listed (r, x) (fail_all (call_error e) live)) (ground (arith, k))
        (fail_all-at (call_error e) live i r h)
  deliver-at now live (PeerAnswer.responded resps) errs i r resp h k =
      elim (Bool-cases (length resps == length live)) [
        | inl same ↦ elim (Option-cases (get_elem? resps i)) [
          | inl e ↦ absurd (ground (arith, k, same, e))
          | inr (x, e) ↦
              rw (same, deliver)
                (subst (λ (y : Response). Listed (r, y) (reply_each live resps))
                  (ground (arith, k, same, e)) (reply_each-at live resps i r x h e))
        ]
        | inr other ↦
            rw (other, deliver)
              (subst (λ (y : Response). Listed (r, y) (fail_all wrong_size live))
                (ground (arith, k, other)) (fail_all-at wrong_size live i r h))
      ]

  addressees-send_live :
      (now : T) (peer : List RateLimitReq → PeerAnswer) (live : List Request)
      (skipped : List (Request × Response)) (errs : E)
      → addressees (send_live ec address now peer live skipped errs).replies
        ≡ addressees skipped ++ live
  unfolding send_live
  addressees-send_live now peer [] skipped errs = simp (append-nil)
  addressees-send_live now peer (r ∷ rs) skipped errs =
      map-append (λ (p : Request × Response). p.0) skipped _
      ∙ ap (λ (l : List Request). addressees skipped ++ l) (addressees-deliver now (r ∷ rs) _ errs)

  send_live-skipped :
      (now : T) (peer : List RateLimitReq → PeerAnswer) (live : List Request)
      (skipped : List (Request × Response)) (errs : E) (a : Request × Response)
      → Listed a skipped
      → Listed a (send_live ec address now peer live skipped errs).replies
  unfolding send_live
  send_live-skipped now peer [] skipped errs a l = l
  send_live-skipped now peer (r ∷ rs) skipped errs a l = Listed-left a skipped _ l

  send_live-at :
      (now : T) (peer : List RateLimitReq → PeerAnswer) (live : List Request)
      (skipped : List (Request × Response)) (errs : E) (i : ℕ) (r : Request) (resp : Response)
      → get_elem? live i ≡ some r
      → reply_at (peer (map (λ (q : Request). q.request) live)) (length live) i ≡ some resp
      → Listed (r, resp) (send_live ec address now peer live skipped errs).replies
  unfolding send_live
  send_live-at now peer [] skipped errs i r resp h k = absurd (ground (arith, h))
  send_live-at now peer (q ∷ rs) skipped errs i r resp h k =
      Listed-right (r, resp) skipped _ (deliver-at now (q ∷ rs) _ errs i r resp h k)

  -- sendBatch gives each request of its queue one reply: the cancellation to a request whose caller
  -- is gone; and to each other one, in the order in which they were sent, the peer's response at
  -- its place when the peer answers with as many responses as there are requests, and the call's
  -- error or that of a wrong number when not.
  pub send_batch-replies :
      (now : T) (ctx : CtxErr) (peer : List RateLimitReq → PeerAnswer) (queue : List Request)
      (errs : E)
      → AllAnswered ctx peer queue (send_batch ec address now ctx peer queue errs).replies
  unfolding send_batch
  send_batch-replies now ctx peer queue errs =
      let live = skip_gone-waiting ctx queue in
      let who =
        addressees-send_live now peer (skip_gone ctx queue).0 (skip_gone ctx queue).1 errs in
      (
        subst (λ (l : List Request). Perm l queue) (sym who) (skip_gone-perm ctx queue),
        λ r e l h.
            send_live-skipped now peer (skip_gone ctx queue).0 (skip_gone ctx queue).1 errs
              (r, gone e) (skip_gone-gone ctx queue r e l h),
        λ i r resp h k.
            send_live-at now peer (skip_gone ctx queue).0 (skip_gone ctx queue).1 errs i r resp
              (rw live h) (rw live k),
      )
