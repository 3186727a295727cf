-- ===== src/Config/Settings.antt =====
-- The settings that SetupDaemonConfig of config.go reads, and what it reads them from.
use gubernator.Config.Defaults.{BehaviorConfig}
use gubernator.Config.Env.{HostNetwork, MetricFlags, TracingLevel, WatchMechanism}
use gubernator.Config.EnvFile.{Text}
use gubernator.Prelude.GoMap.{GoMap}
use gubernator.Prelude.{ℤ, String, List, Option, Bool}

-- What the host gives besides its network: os.Environ, runtime.GOOS, the container's id, a random id,
-- net.SplitHostPort, net.JoinHostPort, dns.Fqdn, logrus.ParseLevel, strconv.ParseInt and
-- time.ParseDuration.
pub record Host : Type 0 where
  pub env : GoMap String
  pub goos : String
  pub docker_cid : String
  pub generated_id : String
  pub network : HostNetwork
  pub split_host_port : String → Option (String × String)
  pub join_host_port : String → String → String
  pub fqdn : String → String
  pub is_level : String → Bool
  pub parse_int : String → Option ℤ
  pub parse_duration : String → Option ℤ

pub data SetupError : Type 0 where
  log_format log_level discovery_type advertise_format advertise_ip client_auth : SetupError
  watch_mechanism picker_name picker_hash service_name selector known_nodes : SetupError

pub record MemberListConfig : Type 0 where
  pub node_name : String
  pub advertise_grpc : String
  pub advertise_data_center : String
  pub address : String
  pub bind_address : String
  pub known_nodes : List Text
  pub secret_keys : List Text
  pub gossip_verify_incoming : Bool
  pub gossip_verify_outgoing : Bool

pub record K8sConfig : Type 0 where
  pub namespace : String
  pub pod_ip : String
  pub pod_port : String
  pub selector : String
  pub service_name : String
  pub mechanism : WatchMechanism

pub record DnsConfig : Type 0 where
  pub data_center : String
  pub fqdn : String
  pub resolv_conf : String
  pub own_address : String

pub record PickerConfig : Type 0 where
  pub replicas : ℤ
  pub hash : String

pub record EtcdConfig : Type 0 where
  pub key_prefix : String
  pub endpoints : List Text
  pub dial_timeout : ℤ
  pub advertise_grpc : String
  pub advertise_data_center : String

-- The main settings, up to the metric flags.
pub record MainConfig : Type 0 where
  pub grpc_listen_address : String
  pub http_listen_address : String
  pub instance_id : String
  pub http_status_listen_address : String
  pub grpc_max_connection_age_seconds : ℤ
  pub graceful_termination_delay_seconds : ℤ
  pub cache_size : ℤ
  pub workers : ℤ
  pub advertise_address : String
  pub data_center : String
  pub metric_flags : MetricFlags
  pub peer_discovery_type : String

pub record DaemonConfig : Type 0 where
  pub main : MainConfig
  pub behaviors : BehaviorConfig
  pub etcd : EtcdConfig
  pub member_list : MemberListConfig
  pub k8s : K8sConfig
  pub dns : DnsConfig
  pub picker : Option PickerConfig
  pub trace_level : TracingLevel

pub data Setup : Type 0 where
  configured : DaemonConfig → Setup
  invalid : SetupError → Setup
