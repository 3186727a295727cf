-- ===== src/Service/Unhealthy.antt =====
-- When HealthCheck of gubernator.go answers that the server is healthy, and how it follows from the
-- calls that failed.
use Prim.Native.String.{◌++◌ as join}
use gubernator.Client.Answers.{waiting}
use gubernator.Client.Faults.{batch_fault, send_batch-calls}
use gubernator.Client.Errors.{
  ErrorCache, ErrorCacheLaws, get_last_err, set_last_err, wrapped, get_last_err-set_last_err,
}
use gubernator.Client.Send.{Request, PeerAnswer, CtxErr, send_batch}
use gubernator.Types.{RateLimitReq}
use gubernator.Service.Health.{
  Remote, HealthStatus, HealthCheckResp, Health, own_peer_address, judge, health_result, gather,
  health_check,
}
use gubernator.Prelude.{
  All-Listed, Listed, String, List, [], ◌∷◌, ◌++◌, map, false, ◌==◌, str_eq, eq_iff, eq_refl,
  length, ◌≡◌, ◌≢◌, ◌↔◌, ◌⊎◌, inl, inr, refl, ap, sym, ◌∙◌, arith, All, Bool-cases, Option, some,
  subst,
}

-- Is the answer a response?
abbrev pub Serves : Health → Type 0
Serves (Health.serving h) = Unit
Serves (Health.unavailable msg) = ⊥

-- Is a peer with the address in the list?
abbrev pub HasAddress : {E : Type 0} → String → List (Remote E) → Type 0
HasAddress advertise [] = ⊥
HasAddress advertise (p ∷ ps) = (p.client.info.grpc_address ≡ advertise) ⊎ HasAddress advertise ps

own_stays :
    {E : Type 0} (advertise own : String) (ps : List (Remote E))
    → str_eq own "" ≡ false
    → own_peer_address advertise own ps ≡ own
unfolding own_peer_address
own_stays advertise own [] h = refl
own_stays advertise own (p ∷ ps) h = rw (h, own_peer_address) (own_stays advertise own ps h)

own_found :
    {E : Type 0} (advertise : String) (ps : List (Remote E))
    → str_eq advertise "" ≡ false
    → (str_eq (own_peer_address advertise "" ps) "" ≡ false) ↔ HasAddress advertise ps
unfolding own_peer_address
own_found advertise [] set = (λ h. absurd (cc h), λ h. absurd h)
own_found advertise (p ∷ ps) set = elim (Bool-cases (str_eq p.client.info.grpc_address advertise)) [
  | inl same ↦
      let is = (eq_iff p.client.info.grpc_address advertise).0 same in
      let fixed : str_eq p.client.info.grpc_address "" ≡ false = rw is set in
      rw same (λ h. inl is, λ h. rw (own_stays advertise p.client.info.grpc_address ps fixed) fixed)
  | inr other ↦
      let differs : p.client.info.grpc_address ≢ advertise =
        λ e. ground (arith, other, eq_iff p.client.info.grpc_address advertise, e) in
      let rest = own_found advertise ps set in
      rw other
        (λ h. inr (rest.0 h), λ h. elim h [ inl e ↦ absurd (differs e) | inr later ↦ rest.1 later ])
]

own_empty : {E : Type 0} (ps : List (Remote E)) → own_peer_address "" "" ps ≡ ""
unfolding own_peer_address
own_empty [] = refl
own_empty (p ∷ ps) = elim (Bool-cases (str_eq p.client.info.grpc_address "")) [
  | inl same ↦
      let is = (eq_iff p.client.info.grpc_address "").0 same in
      rw same (ap (λ (a : String). own_peer_address "" a ps) is ∙ own_empty ps)
  | inr other ↦ rw other (own_empty ps)
]

own_known :
    {E : Type 0} (advertise : String) (ps : List (Remote E))
    → advertise ≢ ""
    → HasAddress advertise ps
    → str_eq (own_peer_address advertise "" ps) "" ≡ false
own_known advertise ps set at = elim (Bool-cases (str_eq advertise "")) [
  | inl empty ↦ absurd (set ((eq_iff advertise "").0 empty))
  | inr named ↦ (own_found advertise ps named).1 at
]

own_iff :
    {E : Type 0} (advertise : String) (ps : List (Remote E))
    → str_eq (own_peer_address advertise "" ps) "" ≡ false
    → (advertise ≢ "") × HasAddress advertise ps
own_iff advertise ps own = elim (Bool-cases (str_eq advertise "")) [
  | inl empty ↦
      let unset = (eq_iff advertise "").0 empty in
      let gone =
        ap (λ (a : String). str_eq (own_peer_address a "" ps) "") unset
        ∙ ap (λ (a : String). str_eq a "") (own_empty ps) in
      absurd (ground (arith, own, gone, eq_refl ""))
  | inr named ↦
      (λ e. ground (arith, named, eq_iff advertise "", e), (own_found advertise ps named).0 own)
]

more_than_none : {A : Type 0} (x : A) (xs : List A) → (length (x ∷ xs) == 0) ≡ false
more_than_none x xs = ground arith

judge-Serves :
    (errs : List String) (h : HealthCheckResp)
    → h.status ≡ HealthStatus.healthy
    → Serves (health_result (judge errs h))
      ↔ ((errs ≡ []) × (str_eq h.advertise_address "" ≡ false))
unfolding judge health_result
judge-Serves [] h fine = elim (Bool-cases (str_eq h.advertise_address "")) [
  | inl empty ↦ rw (empty, judge) (λ s. absurd s, λ h. absurd (cc (h.1)))
  | inr known ↦ rw (known, judge) (rw (fine, health_result) (λ s. (refl, refl), λ h. tt))
]
judge-Serves (e ∷ errs) h fine = elim (Bool-cases (str_eq h.advertise_address "")) [
  | inl empty ↦
      rw (more_than_none e errs, judge) (rw (empty, judge) (λ s. absurd s, λ h. absurd (cc (h.0))))
  | inr known ↦
      rw (more_than_none e errs, judge) (rw (known, judge) (λ s. absurd s, λ h. absurd (cc (h.0))))
]

append_nil_iff : {A : Type 0} (xs ys : List A) → (xs ++ ys ≡ []) ↔ ((xs ≡ []) × (ys ≡ []))
append_nil_iff [] ys = (λ e. (refl, e), λ h. h.1)
append_nil_iff (x ∷ xs) ys = (λ e. absurd (cc e), λ h. absurd (cc (h.0)))

map_nil :
    {A B : Type 0} (f : A → B) (xs : List A) (ys : List B)
    → (map f xs ++ ys ≡ []) ↔ ((xs ≡ []) × (ys ≡ []))
map_nil f [] ys = (λ e. (refl, e), λ h. h.1)
map_nil f (x ∷ xs) ys = (λ e. absurd (cc e), λ h. absurd (cc (h.0)))

module _ {E T : Type 0} (ec : ErrorCache E T) (now : T) where
  -- Has the client of a peer no error to report?
  abbrev pub NoError : Remote E → Type 0
  NoError p = (get_last_err ec now p.last_errs).1 ≡ []

  gather-NoError :
      (intro : String) (ps : List (Remote E))
      → ((gather ec now intro ps).errs ≡ []) ↔ All NoError ps
  unfolding gather
  gather-NoError intro [] = (λ e. tt, λ h. refl)
  gather-NoError intro (p ∷ ps) =
      let rest = gather-NoError intro ps in
      let none_first =
        map_nil (join intro) (get_last_err ec now p.last_errs).1 (gather ec now intro ps).errs in
      (
        λ e. let (mine, others) = none_first.0 e in (mine, rest.0 others),
        λ h. none_first.1 (h.0, rest.1 h.1),
      )

  -- HealthCheck answers that the server is healthy exactly when no local and no region peer has an
  -- error to report, the advertised address is not empty, and a local peer has it.
  pub health_check-Serves_iff :
      (advertise : String) (locals regions : List (Remote E))
      → Serves (health_check ec now advertise locals regions).2 ↔ (
          All NoError locals × All NoError regions × (advertise ≢ "") × HasAddress advertise locals)
  unfolding health_check
  health_check-Serves_iff advertise locals regions =
      let here = gather ec now "error returned from local peer.GetLastErr: " locals in
      let there = gather ec now "error returned from region peer.GetLastErr: " regions in
      let no_local = gather-NoError "error returned from local peer.GetLastErr: " locals in
      let no_region = gather-NoError "error returned from region peer.GetLastErr: " regions in
      let both = append_nil_iff here.errs there.errs in
      let judged = judge-Serves (here.errs ++ there.errs) _ refl in
      (
        λ s.
            let (quiet, own) = judged.0 s in
            let (l, r) = both.0 quiet in
            let (set, at) = own_iff advertise locals own in (no_local.0 l, no_region.0 r, set, at),
        λ (l, r, set, at).
            judged.1 (both.1 (no_local.1 l, no_region.1 r), own_known advertise locals set at),
      )

  -- When the error cache keeps its laws, and the call of a batch's live requests failed with an
  -- error, then HealthCheck at the same time answers that the server is unhealthy, for any lists of
  -- peers in which a local peer has the errors that sendBatch left.
  pub failed_batch_is_reported :
      ErrorCacheLaws ec
      → (ctx : CtxErr) (peer : List RateLimitReq → PeerAnswer) (queue : List Request) (errs : E)
        (advertise : String) (p : Remote E) (locals regions : List (Remote E)) (e : String)
      → batch_fault ec p.client.info.grpc_address peer (waiting ctx queue) ≡ some e
      → p.last_errs ≡ (send_batch ec p.client.info.grpc_address now ctx peer queue errs).last_errs
      → Listed p locals
      → ¬ Serves (health_check ec now advertise locals regions).2
  failed_batch_is_reported laws ctx peer queue errs advertise p locals regions e fault left at s =
      let address = p.client.info.grpc_address in
      let recorded : p.last_errs ≡ set_last_err ec now address (some e) errs =
        left
        ∙ (send_batch-calls ec address now ctx peer queue errs).1
        ∙ ap (λ (f : Option String). set_last_err ec now address f errs) fault in
      let quiet =
        All-Listed NoError p locals ((health_check-Serves_iff advertise locals regions).0 s).0 at in
      let told = get_last_err-set_last_err ec laws now address e errs in
      subst (λ (l : List String). Listed (wrapped e (join "from host " address)) l)
        (ap (λ (x : E). (get_last_err ec now x).1) (sym recorded) ∙ quiet) told
