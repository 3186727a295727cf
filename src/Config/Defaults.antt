-- ===== src/Config/Defaults.antt =====
-- BehaviorConfig, Config and SetDefaults of config.go. Durations are in nanoseconds. The loggers,
-- the TLS config, the cache's factory and the pickers' hash functions are left out.
use gubernator.Config.Setter.{Setter, SetterLaws}
use gubernator.Prelude.{
  ℕ, ◌<◌, ℤ, pos, pos_part, ◌≤ℤ◌, ◌<ℤ◌, String, [], ◌∷◌, Option, none, some, Bool, false, ◌≡◌, ◌≢◌,
  ◌↔◌, inl, inr, refl, ap, ◌∙◌, arith, ltb_ℤ, eqb_ℤ, if◌then◌else◌, Bool-cases,
}

pub record BehaviorConfig : Type 0 where
  pub batch_timeout : ℤ
  pub batch_wait : ℤ
  pub batch_limit : ℤ
  pub disable_batching : Bool
  pub global_sync_wait : ℤ
  pub global_timeout : ℤ
  pub global_batch_limit : ℤ
  pub force_global : Bool
  pub global_peer_requests_concurrency : ℤ
  pub schedule_max_wait : ℤ

pub record ServerConfig : Type 0 where
  pub instance_id : String
  pub behaviors : BehaviorConfig
  pub cache_size : ℤ
  pub workers : ℤ

abbrev pub max_batch : ℤ
max_batch = pos 1000

-- 5 * time.Minute
abbrev pub default_schedule_max_wait : ℤ
default_schedule_max_wait = pos 300_000_000_000

pub data ConfigError : Type 0 where
  negative_schedule_max_wait : ConfigError
  batch_limit_exceeded : ConfigError

unfoldable pub config_error_text : ConfigError → String
config_error_text negative_schedule_max_wait = "Behaviors.ScheduleMaxWait cannot be negative"
config_error_text batch_limit_exceeded = "Behaviors.BatchLimit cannot exceed '1000'"

pos_nonzero : (n : ℕ) → 0 < n → pos n ≢ pos 0
pos_nonzero n p e = omega (arith, ap pos_part e)

module _ (s : Setter) where
  -- the defaults that are set before the first check
  unfoldable pub behavior_defaults : BehaviorConfig → BehaviorConfig
  behavior_defaults b = record b {
    batch_timeout = s.int b.batch_timeout (pos 500_000_000 ∷ []);
    batch_limit = s.int b.batch_limit (max_batch ∷ []);
    batch_wait = s.int b.batch_wait (pos 500_000 ∷ []);
    global_timeout = s.int b.global_timeout (pos 500_000_000 ∷ []);
    global_batch_limit = s.int b.global_batch_limit (max_batch ∷ []);
    global_sync_wait = s.int b.global_sync_wait (pos 100_000_000 ∷ []);
    global_peer_requests_concurrency = s.int b.global_peer_requests_concurrency (pos 100 ∷ []);
  }

  unfoldable pub later_defaults : ℤ → String → ServerConfig → ServerConfig
  later_defaults num_cpu generated_id c = record c {
    behaviors = record (c.behaviors) {
      schedule_max_wait = s.int c.behaviors.schedule_max_wait (default_schedule_max_wait ∷ []);
    };
    cache_size = s.int c.cache_size (pos 50_000 ∷ []);
    workers = s.int c.workers (num_cpu ∷ []);
    instance_id = s.string c.instance_id (generated_id ∷ []);
  }

  -- SetDefaults changes the config also where it returns an error.
  unfoldable pub set_defaults : ℤ → String → ServerConfig → ServerConfig × Option ConfigError
  set_defaults num_cpu generated_id c =
      let early : ServerConfig = record c { behaviors = behavior_defaults c.behaviors } in
      if ltb_ℤ c.behaviors.schedule_max_wait (pos 0)
      then (early, some negative_schedule_max_wait)
      else let late = later_defaults num_cpu generated_id early in
        if ltb_ℤ max_batch late.behaviors.batch_limit
        then (late, some batch_limit_exceeded)
        else (late, none)

  module _ (laws : SetterLaws s) where
    int_default : (a d : ℤ) → d ≢ pos 0 → s.int a (d ∷ []) ≡ (if eqb_ℤ a (pos 0) then d else a)
    int_default a d n = elim (Bool-cases (eqb_ℤ a (pos 0))) [
      | inl same ↦
          let is : a ≡ pos 0 = ground (arith, same) in
          rw same
            (ap (λ (x : ℤ). s.int x (d ∷ [])) is ∙ laws.ints.next d [] ∙ laws.ints.kept d [] n)
      | inr other ↦
          let differs : a ≢ pos 0 = λ e. ground (arith, other, e) in
          rw other (laws.ints.kept a (d ∷ []) differs)
    ]

    -- A configuration that the server can run with.
    abbrev pub Usable : ServerConfig → Type 0
    Usable c =
        (c.behaviors.batch_timeout ≢ pos 0)
        × (c.behaviors.batch_limit ≢ pos 0)
        × (c.behaviors.batch_limit ≤ℤ max_batch)
        × (c.behaviors.batch_wait ≢ pos 0)
        × (c.behaviors.global_timeout ≢ pos 0)
        × (c.behaviors.global_batch_limit ≢ pos 0)
        × (c.behaviors.global_sync_wait ≢ pos 0)
        × (c.behaviors.global_peer_requests_concurrency ≢ pos 0)
        × (pos 0 <ℤ c.behaviors.schedule_max_wait)
        × (c.cache_size ≢ pos 0)
        × (c.workers ≢ pos 0)

    default_nonzero : (a d : ℤ) → d ≢ pos 0 → s.int a (d ∷ []) ≢ pos 0
    default_nonzero a d n e = ground (arith, int_default a d n, e, n)

    -- SetDefaults succeeds exactly when the ceiling on a wait is not negative and the batch limit is at
    -- most the largest batch.
    pub set_defaults_lem :
        (num_cpu : ℤ) (generated_id : String) (c : ServerConfig)
        → num_cpu ≢ pos 0
        → ((set_defaults num_cpu generated_id c).1 ≡ none)
          ↔ ((pos 0 ≤ℤ c.behaviors.schedule_max_wait) × (c.behaviors.batch_limit ≤ℤ max_batch))
    unfolding set_defaults later_defaults behavior_defaults
    set_defaults_lem num_cpu generated_id c cpus =
        let limit =
          int_default c.behaviors.batch_limit max_batch (pos_nonzero 1000 (omega arith)) in
        elim (Bool-cases (ltb_ℤ c.behaviors.schedule_max_wait (pos 0))) [
          | inl negative ↦
              rw (negative, set_defaults)
                (λ e. absurd (cc e), λ h. absurd (ground (arith, negative, h.0)))
          | inr fine ↦
              rw (fine, set_defaults)
                (elim (Bool-cases
                  (ltb_ℤ max_batch (s.int c.behaviors.batch_limit (max_batch ∷ [])))) [
                    | inl over ↦
                        rw (over, set_defaults)
                          (λ e. absurd (cc e), λ h. absurd (ground (arith, over, limit, h.1)))
                    | inr within ↦
                        rw (within, set_defaults)
                          (λ e. (ground (arith, fine), ground (arith, within, limit)), λ h. refl)
                  ])
        ]

    -- When SetDefault does as documented, the number of CPUs is not 0 and SetDefaults returns no
    -- error, then the timeouts, limits, waits, concurrency, cache size and workers are not 0, the
    -- batch limit is at most the largest batch, and the ceiling on a booked wait is positive.
    pub set_defaults-Usable :
        (num_cpu : ℤ) (generated_id : String) (c : ServerConfig)
        → num_cpu ≢ pos 0
        → (set_defaults num_cpu generated_id c).1 ≡ none
        → Usable (set_defaults num_cpu generated_id c).0
    unfolding set_defaults later_defaults behavior_defaults
    set_defaults-Usable num_cpu generated_id c cpus done =
        let b = c.behaviors in
        let (waits, fits) = (set_defaults_lem num_cpu generated_id c cpus).0 done in
        let limit = int_default b.batch_limit max_batch (pos_nonzero 1000 (omega arith)) in
        let wait =
          int_default b.schedule_max_wait default_schedule_max_wait
            (pos_nonzero 300_000_000_000 (omega arith)) in
        let fine : ltb_ℤ b.schedule_max_wait (pos 0) ≡ false = ground (arith, waits) in
        let within : ltb_ℤ max_batch (s.int b.batch_limit (max_batch ∷ [])) ≡ false =
          ground (arith, limit, fits) in
        rw (fine, set_defaults)
          (rw (within, set_defaults)
            (
              default_nonzero b.batch_timeout (pos 500_000_000)
                  (pos_nonzero 500_000_000 (omega arith)),
              default_nonzero b.batch_limit max_batch (pos_nonzero 1000 (omega arith)),
              ground (arith, limit, fits),
              default_nonzero b.batch_wait (pos 500_000) (pos_nonzero 500_000 (omega arith)),
              default_nonzero b.global_timeout (pos 500_000_000)
                  (pos_nonzero 500_000_000 (omega arith)),
              default_nonzero b.global_batch_limit max_batch (pos_nonzero 1000 (omega arith)),
              default_nonzero b.global_sync_wait (pos 100_000_000)
                  (pos_nonzero 100_000_000 (omega arith)),
              default_nonzero b.global_peer_requests_concurrency (pos 100)
                  (pos_nonzero 100 (omega arith)),
              ground (arith, wait, waits),
              default_nonzero c.cache_size (pos 50_000) (pos_nonzero 50_000 (omega arith)),
              default_nonzero c.workers num_cpu cpus,
            ))
