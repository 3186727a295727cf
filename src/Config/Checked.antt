-- ===== src/Config/Checked.antt =====
-- What holds of every configuration that SetupDaemonConfig of config.go returns.
use gubernator.Config.Daemon.{
  discovery_types, log_error, main_config, advertised, client_auth_is_valid, member_list_config,
  k8s_config, picker_config, k8s_error, discovery_error, complete, setup_daemon_config,
}
use gubernator.Config.Settings.{
  Host, MemberListConfig, K8sConfig, PickerConfig, MainConfig, DaemonConfig, Setup,
}
use gubernator.Config.Env.{
  WatchMechanism, endpoint_slices, pods, getenv, one_of, any_has_prefix,
  watch_mechanism_from_string, resolve_host_ip,
}
use gubernator.Config.Setter.{Setter, SetterLaws}
use gubernator.Prelude.{
  ◌<◌, String, [], ◌∷◌, Option, none, Bool, true, false, str_eq, length, ◌≡◌, inl, inr, ◌∙◌, subst,
  arith, Bool-cases, Option-cases,
}

module _ (s : Setter) (h : Host) where
  -- The settings that the watch mechanism needs.
  abbrev pub HasService : K8sConfig → WatchMechanism → Type 0
  HasService k endpoint_slices = str_eq k.service_name "" ≡ false
  HasService k pods = str_eq k.selector "" ≡ false

  -- What the checks ensure.
  pub record IsChecked (c : DaemonConfig) : Type 0 where
    pub discovery : one_of c.main.peer_discovery_type discovery_types ≡ true
    pub auth : client_auth_is_valid s h ≡ true
    pub service : any_has_prefix "GUBER_K8S_" h.env ≡ true → HasService c.k8s c.k8s.mechanism
    pub nodes :
        any_has_prefix "GUBER_MEMBERLIST_" h.env ≡ true → 0 < length c.member_list.known_nodes
    pub incoming : c.member_list.gossip_verify_incoming ≡ true
    pub outgoing : c.member_list.gossip_verify_outgoing ≡ true

  always_true : SetterLaws s → (b : Bool) → s.bool false (b ∷ true ∷ []) ≡ true
  always_true laws true =
      laws.bools.next true (true ∷ []) ∙ laws.bools.kept true (true ∷ []) (λ e. cc)
  always_true laws false =
      laws.bools.next false (true ∷ [])
      ∙ laws.bools.next true []
      ∙ laws.bools.kept true [] (λ e. cc)

  k8s_error-none :
      (k : K8sConfig) (mechanism : WatchMechanism)
      → k8s_error k mechanism ≡ none
      → HasService k mechanism
  unfolding k8s_error
  k8s_error-none k endpoint_slices e = ground (arith, e)
  k8s_error-none k pods e = ground (arith, e)

  discovery_error-none :
      (k : K8sConfig) (m : MemberListConfig)
      → discovery_error s h k m ≡ none
      → (any_has_prefix "GUBER_K8S_" h.env ≡ true → k8s_error k k.mechanism ≡ none)
        × (any_has_prefix "GUBER_MEMBERLIST_" h.env ≡ true → 0 < length m.known_nodes)
  unfolding discovery_error
  discovery_error-none k m e = (
    λ p. elim (Option-cases (k8s_error k k.mechanism)) [
      | inl fine ↦ fine
      | inr (x, bad) ↦ absurd (ground (arith, e, p, bad))
    ],
    λ p. elim (Bool-cases (any_has_prefix "GUBER_K8S_" h.env)) [
      | inl k8s ↦ elim (Option-cases (k8s_error k k.mechanism)) [
        | inl fine ↦ ground (arith, e, p, k8s, fine)
        | inr (x, bad) ↦ absurd (ground (arith, e, k8s, bad))
      ]
      | inr other ↦ ground (arith, e, p, other)
    ],
  )

  picker_config-inv :
      (rest : Option PickerConfig → Setup) (c : DaemonConfig)
      → picker_config s h rest ≡ Setup.configured c
      → (picker : Option PickerConfig) × (rest picker ≡ Setup.configured c)
  unfolding picker_config
  picker_config-inv rest c e =
      let pp = getenv h.env "GUBER_PEER_PICKER" in
      let hash = s.string "" (getenv h.env "GUBER_PEER_PICKER_HASH" ∷ "fnv1a" ∷ []) in
      elim (Bool-cases (str_eq pp "")) [
        | inl unset ↦ (none, ground (arith, e, unset))
        | inr named ↦ elim (Bool-cases (str_eq pp "replicated-hash")) [
          | inr other ↦ absurd (ground (arith, e, named, other))
          | inl known ↦ elim (Bool-cases (one_of hash ("fnv1a" ∷ "fnv1" ∷ []))) [
            | inr bad ↦ absurd (cc (rw (named, known, bad, picker_config) at e))
            | inl fine ↦ (_, rw (named, known, fine, picker_config) at e)
          ]
        ]
      ]

  advertised-inv :
      (m : MainConfig) (rest : String × String → Setup) (c : DaemonConfig)
      → advertised s h m rest ≡ Setup.configured c
      → (at : String × String) × (rest at ≡ Setup.configured c)
  unfolding advertised
  advertised-inv m rest c e = elim (Bool-cases (str_eq m.peer_discovery_type "k8s")) [
    | inl k8s ↦ (("", m.advertise_address), ground (arith, e, k8s))
    | inr other ↦ elim (Option-cases (h.split_host_port m.advertise_address)) [
      | inl bad ↦ absurd (ground (arith, e, other, bad))
      | inr ((host, port), parts) ↦ elim (Option-cases (resolve_host_ip h.network host)) [
        | inl bad ↦ absurd (ground (arith, e, other, parts, bad))
        | inr (ip, found) ↦ ((ip, h.join_host_port ip port), ground (arith, e, other, parts, found))
      ]
    ]
  ]

  configured-inj : (a c : DaemonConfig) → Setup.configured a ≡ Setup.configured c → a ≡ c
  configured-inj a c e = cc

  complete-IsChecked :
      SetterLaws s
      → (host : String) (m : MainConfig) (c : DaemonConfig)
      → one_of m.peer_discovery_type discovery_types ≡ true
      → complete s h host m ≡ Setup.configured c
      → IsChecked c
  unfolding complete k8s_config member_list_config
  complete-IsChecked laws host m c d e = elim (Bool-cases (client_auth_is_valid s h)) [
    | inr bad ↦ absurd (ground (arith, e, bad))
    | inl auth ↦
        elim (Option-cases
          (watch_mechanism_from_string (getenv h.env "GUBER_K8S_WATCH_MECHANISM"))) [
            | inl bad ↦ absurd (ground (arith, e, auth, bad))
            | inr (mechanism, at) ↦
                let members = member_list_config s h host m in
                let k8s = k8s_config s h mechanism in
                let (picker, e') = picker_config-inv _ c (rw (auth, at, complete) at e) in
                elim (Option-cases (discovery_error s h k8s members)) [
                  | inr (x, bad) ↦ absurd (cc (rw bad at e'))
                  | inl fine ↦
                      let is = configured-inj _ c (rw fine at e') in
                      let (service, nodes) = discovery_error-none k8s members fine in
                      subst IsChecked is (record {
                        discovery = d;
                        auth = auth;
                        service = λ p. k8s_error-none k8s mechanism (service p);
                        nodes = nodes;
                        incoming = always_true laws _;
                        outgoing = always_true laws _;
                      })
                ]
          ]
  ]

  -- When SetDefault does as documented and SetupDaemonConfig returns a configuration, then its kind
  -- of discovery is one of the five and the client authentication is valid; the watch of
  -- Kubernetes, when one of its variables is set, has its service or selector; the gossip, when one
  -- of its variables is set, has a known node; and both gossip verifications are on, whatever the
  -- environment says.
  pub setup_daemon_config-IsChecked :
      SetterLaws s → (c : DaemonConfig) → setup_daemon_config s h ≡ Setup.configured c → IsChecked c
  unfolding setup_daemon_config
  setup_daemon_config-IsChecked laws c e = elim (Option-cases (log_error s h)) [
    | inr (x, bad) ↦ absurd (cc (rw (bad, setup_daemon_config) at e))
    | inl quiet ↦
        let m = main_config s h in
        elim (Bool-cases (one_of m.peer_discovery_type discovery_types)) [
          | inr bad ↦ absurd (cc (rw (quiet, bad, setup_daemon_config) at e))
          | inl known ↦
              let ((host, address), e') =
                advertised-inv m _ c (rw (quiet, known, setup_daemon_config) at e) in
              complete-IsChecked laws host (record m { advertise_address = address }) c known e'
        ]
  ]
