-- ===== src/Config/Daemon.antt =====
-- SetupDaemonConfig of config.go, from the environment on. Left out: the loggers but for their
-- checks, TLS but for the client's authentication, and etcd's credentials and TLS. The hash of a
-- picker is its name.
use Prim.Native.String.{◌++◌ as join}
use gubernator.Config.Defaults.{BehaviorConfig}
use gubernator.Config.Env.{
  WatchMechanism, endpoint_slices, pods, getenv, one_of, any_has_prefix,
  watch_mechanism_from_string, get_env_bool, get_env_number, get_env_slice, get_env_metric_flags,
  get_tracing_level, get_instance_id, local_host, resolve_host_ip, codes,
}
use gubernator.Config.EnvFile.{Text}
use gubernator.Config.Setter.{Setter}
use gubernator.Prelude.{
  ℤ, pos, String, List, [], ◌∷◌, Option, none, some, Bool, true, false, not, ◌&&◌, ◌||◌, ◌==◌,
  str_eq, if◌then◌else◌, length,
}
use gubernator.Config.Settings.{
  Host, SetupError, MemberListConfig, K8sConfig, DnsConfig, PickerConfig, EtcdConfig, MainConfig,
  Setup, log_format, log_level, discovery_type, advertise_format, advertise_ip, client_auth,
  watch_mechanism, picker_name, picker_hash, service_name, selector, known_nodes,
}

abbrev pub discovery_types : List String
discovery_types = "member-list" ∷ "k8s" ∷ "etcd" ∷ "dns" ∷ "none" ∷ []

-- What the watch mechanism needs.
unfoldable pub k8s_error : K8sConfig → WatchMechanism → Option SetupError
k8s_error k endpoint_slices = if str_eq k.service_name "" then some service_name else none
k8s_error k pods = if str_eq k.selector "" then some selector else none

module _ (s : Setter) (h : Host) where
  abbrev text : String → List String → String
  text name ds = s.string "" (getenv h.env name ∷ ds)

  abbrev integer : String → List ℤ → ℤ
  integer name ds = s.int (pos 0) (get_env_number h.env h.parse_int name ∷ ds)

  abbrev duration : String → List ℤ → ℤ
  duration name ds = s.int (pos 0) (get_env_number h.env h.parse_duration name ∷ ds)

  abbrev flag : String → List Bool → Bool
  flag name ds = s.bool false (get_env_bool h.env name ∷ ds)

  -- A list that is not nil is not replaced.
  abbrev texts : String → List Text → List Text
  texts name d = let v = get_env_slice h.env name in if length v == 0 then d else v

  unfoldable pub log_error : Option SetupError
  log_error =
      if not (str_eq (text "GUBER_LOG_FORMAT" []) "")
        && not (one_of (text "GUBER_LOG_FORMAT" []) ("json" ∷ "text" ∷ []))
      then some log_format
      else if not (get_env_bool h.env "GUBER_DEBUG")
          && (not (str_eq (text "GUBER_LOG_LEVEL" []) "")
              && not (h.is_level (text "GUBER_LOG_LEVEL" [])))
      then some log_level
      else none

  unfoldable pub main_config : MainConfig
  main_config =
      let listen = text "GUBER_GRPC_ADDRESS" (join (local_host h.env h.goos) ":1051" ∷ []) in
      record {
        grpc_listen_address = listen;
        http_listen_address =
            text "GUBER_HTTP_ADDRESS" (join (local_host h.env h.goos) ":1050" ∷ []);
        instance_id = s.string "" (get_instance_id h.env s h.docker_cid h.generated_id ∷ []);
        http_status_listen_address = text "GUBER_STATUS_HTTP_ADDRESS" ("" ∷ []);
        grpc_max_connection_age_seconds = integer "GUBER_GRPC_MAX_CONN_AGE_SEC" (pos 0 ∷ []);
        graceful_termination_delay_seconds =
            integer "GUBER_GRACEFUL_TERMINATION_DELAY_SEC" (pos 0 ∷ []);
        cache_size = integer "GUBER_CACHE_SIZE" (pos 50_000 ∷ []);
        workers = integer "GUBER_WORKER_COUNT" (pos 0 ∷ []);
        advertise_address = text "GUBER_ADVERTISE_ADDRESS" (listen ∷ []);
        data_center = text "GUBER_DATA_CENTER" ("" ∷ []);
        metric_flags = get_env_metric_flags h.env "GUBER_METRIC_FLAGS";
        peer_discovery_type = text "GUBER_PEER_DISCOVERY_TYPE" ("member-list" ∷ []);
      }

  -- The advertised host and address; k8s finds its own.
  unfoldable pub advertised : MainConfig → (String × String → Setup) → Setup
  advertised m rest =
      if str_eq m.peer_discovery_type "k8s"
      then rest ("", m.advertise_address)
      else (elim (h.split_host_port m.advertise_address) [
        | none ↦ Setup.invalid advertise_format
        | some (host, port) ↦ elim (resolve_host_ip h.network host) [
          | none ↦ Setup.invalid advertise_ip
          | some ip ↦ rest (ip, h.join_host_port ip port)
        ]
      ])

  unfoldable pub behaviors_from_env : BehaviorConfig
  behaviors_from_env = record {
    batch_timeout = duration "GUBER_BATCH_TIMEOUT" [];
    batch_limit = integer "GUBER_BATCH_LIMIT" [];
    batch_wait = duration "GUBER_BATCH_WAIT" [];
    disable_batching = flag "GUBER_DISABLE_BATCHING" [];
    global_timeout = duration "GUBER_GLOBAL_TIMEOUT" [];
    global_batch_limit = integer "GUBER_GLOBAL_BATCH_LIMIT" [];
    global_sync_wait = duration "GUBER_GLOBAL_SYNC_WAIT" [];
    force_global = flag "GUBER_FORCE_GLOBAL" [];
    global_peer_requests_concurrency = pos 0;
    schedule_max_wait = duration "GUBER_SCHEDULE_MAX_WAIT" [];
  }

  -- GUBER_TLS_CLIENT_AUTH, which is read where there is any TLS variable.
  unfoldable pub client_auth_is_valid : Bool
  client_auth_is_valid =
      not (any_has_prefix "GUBER_TLS_" h.env)
      || one_of (getenv h.env "GUBER_TLS_CLIENT_AUTH")
          ("" ∷ "request-cert" ∷ "verify-cert" ∷ "require-any-cert" ∷ "require-and-verify" ∷ [])

  unfoldable pub etcd_config : MainConfig → EtcdConfig
  etcd_config m = record {
    key_prefix = text "GUBER_ETCD_KEY_PREFIX" ("/gubernator-peers" ∷ []);
    endpoints = texts "GUBER_ETCD_ENDPOINTS" (codes "localhost:2379" ∷ []);
    dial_timeout = duration "GUBER_ETCD_DIAL_TIMEOUT" (pos 5_000_000_000 ∷ []);
    advertise_grpc = text "GUBER_ETCD_ADVERTISE_ADDRESS" (m.advertise_address ∷ []);
    advertise_data_center = text "GUBER_ETCD_DATA_CENTER" (m.data_center ∷ []);
  }

  unfoldable pub member_list_config : String → MainConfig → MemberListConfig
  member_list_config host m = record {
    node_name = text "GUBER_MEMBERLIST_NODE_NAME" ("" ∷ []);
    advertise_grpc = text "GUBER_MEMBERLIST_ADVERTISE_ADDRESS" (m.advertise_address ∷ []);
    advertise_data_center = s.string "" (m.data_center ∷ []);
    address = text "GUBER_MEMBERLIST_ADDRESS" (join host ":7946" ∷ []);
    bind_address = text "GUBER_MEMBERLIST_BIND_ADDRESS" [];
    known_nodes = texts "GUBER_MEMBERLIST_KNOWN_NODES" [];
    secret_keys = texts "GUBER_MEMBERLIST_SECRET_KEYS" [];
    gossip_verify_incoming = flag "GUBER_MEMBERLIST_GOSSIP_VERIFY_INCOMING" (true ∷ []);
    gossip_verify_outgoing = flag "GUBER_MEMBERLIST_GOSSIP_VERIFY_OUTGOING" (true ∷ []);
  }

  unfoldable pub k8s_config : WatchMechanism → K8sConfig
  k8s_config mechanism =
      let named = getenv h.env "GUBER_K8S_SELECTOR" in
      record {
        namespace = text "GUBER_K8S_NAMESPACE" ("default" ∷ []);
        pod_ip = getenv h.env "GUBER_K8S_POD_IP";
        pod_port = getenv h.env "GUBER_K8S_POD_PORT";
        selector = if str_eq named "" then getenv h.env "GUBER_K8S_ENDPOINTS_SELECTOR" else named;
        service_name = getenv h.env "GUBER_K8S_SERVICE_NAME";
        mechanism = mechanism;
      }

  -- The data center in canonical form, where peers are found by DNS.
  unfoldable pub canonical_data_center : MainConfig → String
  canonical_data_center m =
      if str_eq m.peer_discovery_type "dns" && not (str_eq m.data_center "")
      then h.fqdn m.data_center
      else m.data_center

  unfoldable pub dns_config : MainConfig → DnsConfig
  dns_config m = record {
    data_center =
        if str_eq m.peer_discovery_type "dns" && not (str_eq m.data_center "")
        then h.fqdn m.data_center
        else s.string "" (m.data_center ∷ []);
    fqdn = text "GUBER_DNS_FQDN" [];
    resolv_conf = text "GUBER_RESOLV_CONF" ("/etc/resolv.conf" ∷ []);
    own_address = s.string "" (m.advertise_address ∷ []);
  }

  -- The picker, if the environment names one.
  unfoldable pub picker_config : (Option PickerConfig → Setup) → Setup
  picker_config rest =
      let pp = getenv h.env "GUBER_PEER_PICKER" in
      let hash = text "GUBER_PEER_PICKER_HASH" ("fnv1a" ∷ []) in
      if str_eq pp ""
      then rest none
      else if str_eq pp "replicated-hash"
      then (if one_of hash ("fnv1a" ∷ "fnv1" ∷ [])
          then rest (
              some (record {
                replicas = integer "GUBER_REPLICATED_HASH_REPLICAS" (pos 512 ∷ []);
                hash = hash;
              }))
          else Setup.invalid picker_hash)
      else Setup.invalid picker_name

  -- The checks of the discovery's own settings.
  unfoldable pub discovery_error : K8sConfig → MemberListConfig → Option SetupError
  discovery_error k m =
      let list_error : Option SetupError =
        if any_has_prefix "GUBER_MEMBERLIST_" h.env && length m.known_nodes == 0
        then some known_nodes
        else none in
      if any_has_prefix "GUBER_K8S_" h.env
      then (elim (k8s_error k k.mechanism) [ none ↦ list_error | some e ↦ some e ])
      else list_error

  -- From the advertised address on.
  unfoldable pub complete : String → MainConfig → Setup
  complete host m =
      if client_auth_is_valid
      then (elim (watch_mechanism_from_string (getenv h.env "GUBER_K8S_WATCH_MECHANISM")) [
        | none ↦ Setup.invalid watch_mechanism
        | some mechanism ↦
            let members = member_list_config host m in
            let k8s = k8s_config mechanism in
            picker_config λ picker. elim (discovery_error k8s members) [
              | some e ↦ Setup.invalid e
              | none ↦ Setup.configured (record {
                main = record m { data_center = canonical_data_center m };
                behaviors = behaviors_from_env;
                etcd = etcd_config m;
                member_list = members;
                k8s = k8s;
                dns = dns_config m;
                picker = picker;
                trace_level = get_tracing_level h.env;
              })
            ]
      ])
      else Setup.invalid client_auth

  unfoldable pub setup_daemon_config : Setup
  setup_daemon_config = elim log_error [
    | some e ↦ Setup.invalid e
    | none ↦
        let m = main_config in
        if one_of m.peer_discovery_type discovery_types
        then advertised m
            (λ (host, address). complete host (record m { advertise_address = address }))
        else Setup.invalid discovery_type
  ]
