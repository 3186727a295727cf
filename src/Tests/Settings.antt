-- ===== src/Tests/Settings.antt =====
-- The theorems on the configuration and on the discovery of peers at concrete inputs.
use gubernator.Config.Checked.{IsChecked, setup_daemon_config-IsChecked}
use gubernator.Config.Daemon.{
  log_error, main_config, advertised, client_auth_is_valid, etcd_config, member_list_config,
  k8s_config, dns_config, picker_config, discovery_error, canonical_data_center, behaviors_from_env,
  complete, setup_daemon_config,
}
use gubernator.Config.Settings.{Host, MainConfig, DaemonConfig}
use gubernator.Config.Defaults.{
  BehaviorConfig, ServerConfig, Usable, set_defaults, behavior_defaults, later_defaults,
  set_defaults-Usable,
}
use gubernator.Config.Env.{
  getenv, any_has_prefix, get_env_bool, get_env_number, get_env_slice, get_env_metric_flags,
  metric_flags_of, get_tracing_level, get_instance_id, local_host, endpoint_slices, resolve_host_ip,
  watch_mechanism_from_string, codes,
}
use gubernator.Config.EnvFile.{
  Outcome, from_env_file, trim_space, trim_left, trim_right, starts_with, leading_of, cut_left,
}
use gubernator.Config.RoundTrip.{
  Line, IsLine, setting, skipped, file_text, settings_of, from_env_file-file_text,
}
use gubernator.Config.Setter.{SetsDefault, Setter, SetterLaws}
use gubernator.Discovery.Dns.{RecordType, type_a, type_aaaa, DnsRecord, address, DnsPool, poll}
use gubernator.Discovery.Gathering.{UpToDate, history, handle_members_lem}
use gubernator.Discovery.Gossip.{
  Decoders, MemberEvent, notify_join, notify_leave, notify_update, handle_members, peer_of_address,
}
use gubernator.Discovery.Kubernetes.{Endpoint, EndpointSlice, is_ready, pod_peer, add_slices}
use gubernator.Discovery.Ready.{OfPods, is_offered, lookup-add_slices}
use gubernator.Discovery.Polling.{IsPolled, poll-IsPolled}
use gubernator.Prelude.GoMap.{lookup}
use gubernator.Prelude.{
  pos, pos_part, String, List, [], ◌∷◌, Option, none, some, Bool, true, false, ◌≡◌, ◌≢◌, refl,
  arith, inl, inr, All, eqb_ℤ, str_eq, eq_iff, if◌then◌else◌, ap, Bool-cases, ◌==◌,
}

-- The first value that is not zero.
abbrev first_set : {A : Type 0} → (A → Bool) → A → List A → A
first_set zero? a [] = a
first_set zero? a (d ∷ ds) = if zero? a then first_set zero? d ds else a

abbrev is_false : Bool → Bool
is_false b = if b then false else true

first_set-SetsDefault :
    {A : Type 0} (zero? : A → Bool) (z : A)
    → ((a : A) → zero? a ≡ true → a ≡ z)
    → zero? z ≡ true
    → SetsDefault z (first_set zero?)
first_set-SetsDefault zero? z only is = record {
  kept = λ a ds n. kept a ds n;
  nothing = refl;
  next = λ d ds. rw is refl;
}
  where
    kept : (a : _) (ds : List _) → a ≢ z → first_set zero? a ds ≡ a
    kept a [] n = refl
    kept a (d ∷ ds) n = elim (Bool-cases (zero? a)) [
      | inl e ↦ absurd (n (only a e))
      | inr e ↦ rw e refl
    ]

abbrev setter : Setter
setter = record {
  int = first_set (λ a. eqb_ℤ a (pos 0));
  string = first_set (λ a. str_eq a "");
  bool = first_set is_false;
}

setter-SetterLaws : SetterLaws setter
setter-SetterLaws = record {
  ints = first_set-SetsDefault (λ a. eqb_ℤ a (pos 0)) (pos 0) (λ a e. ground (arith, e)) refl;
  strings = first_set-SetsDefault (λ a. str_eq a "") "" (λ a e. (eq_iff a "").0 e) refl;
  bools = first_set-SetsDefault is_false false (λ a e. ground (arith, e)) refl;
}

abbrev unset_behaviors : BehaviorConfig
unset_behaviors = record {
  batch_timeout = pos 0;
  batch_wait = pos 0;
  batch_limit = pos 0;
  disable_batching = false;
  global_sync_wait = pos 0;
  global_timeout = pos 0;
  global_batch_limit = pos 0;
  force_global = false;
  global_peer_requests_concurrency = pos 0;
  schedule_max_wait = pos 0;
}

abbrev unset : ServerConfig
unset = record {
  instance_id = "";
  behaviors = unset_behaviors;
  cache_size = pos 0;
  workers = pos 0;
}

eight_cpus : pos 8 ≢ pos 0
eight_cpus e = omega (arith, ap pos_part e)

set_defaults-Usable_example :
    Usable setter setter-SetterLaws (set_defaults setter (pos 8) "id" unset).0
unfolding set_defaults behavior_defaults later_defaults
set_defaults-Usable_example =
    set_defaults-Usable setter setter-SetterLaws (pos 8) "id" unset eight_cpus refl

-- A comment and a setting.
abbrev two_lines : List Line
two_lines = skipped (codes "# debug") ∷ setting (codes "GUBER_DEBUG") (codes "true") ∷ []

two_lines-IsLine : All IsLine two_lines
unfolding trim_space trim_left trim_right starts_with leading_of cut_left
two_lines-IsLine = (
  ((refl, (refl, (refl, (refl, (refl, (refl, (refl, tt))))))), refl),
  (
    (
      record { one_line = no_break_in_name; trimmed = refl },
      record { one_line = (refl, (refl, (refl, (refl, tt)))); trimmed = refl },
      no_equals_in_name,
      refl,
      refl,
    ),
    tt,
  ),
)
  where
    no_break_in_name : All (λ c. (c == b'\n') ≡ false) (codes "GUBER_DEBUG")
    no_break_in_name = ground arith

    no_equals_in_name : All (λ c. (c == b'=') ≡ false) (codes "GUBER_DEBUG")
    no_equals_in_name = ground arith

-- A no-break space, U+00A0, is white space.
no_break_space_is_cut : trim_space (194 ∷ 160 ∷ 97 ∷ 194 ∷ 160 ∷ []) ≡ 97 ∷ []
unfolding trim_space trim_left trim_right starts_with leading_of cut_left
no_break_space_is_cut = refl

from_env_file-file_text_example :
    from_env_file (file_text two_lines)
    ≡ record { settings = settings_of two_lines; outcome = Outcome.finished }
from_env_file-file_text_example = from_env_file-file_text two_lines two_lines-IsLine

abbrev host : Host
host = record {
  env = [];
  goos = "linux";
  docker_cid = "";
  generated_id = "id";
  network = record { hostname = none; discovered_ip = none; lookup_host = λ name. none };
  split_host_port = λ a. some ("localhost", "1051");
  join_host_port = λ ip port. "localhost:1051";
  fqdn = λ name. name;
  is_level = λ name. true;
  parse_int = λ v. none;
  parse_duration = λ v. none;
}

abbrev advertised_main : MainConfig
advertised_main = record (main_config setter host) { advertise_address = "localhost:1051" }

abbrev daemon : DaemonConfig
daemon = record {
  main = record advertised_main { data_center = canonical_data_center setter host advertised_main };
  behaviors = behaviors_from_env setter host;
  etcd = etcd_config setter host advertised_main;
  member_list = member_list_config setter host "localhost" advertised_main;
  k8s = k8s_config setter host endpoint_slices;
  dns = dns_config setter host advertised_main;
  picker = none;
  trace_level = get_tracing_level [];
}

setup_daemon_config-IsChecked_example : IsChecked setter host daemon
unfolding setup_daemon_config complete main_config advertised log_error client_auth_is_valid getenv
    lookup get_env_bool get_env_number get_env_slice get_env_metric_flags metric_flags_of
    any_has_prefix watch_mechanism_from_string resolve_host_ip local_host get_instance_id
    picker_config discovery_error
setup_daemon_config-IsChecked_example =
    setup_daemon_config-IsChecked setter host setter-SetterLaws daemon refl

-- A node joins, and its metadata cannot be read when it is updated.
abbrev decoders : Decoders
decoders = record {
  json = λ meta.
      if str_eq meta "a" then (peer_of_address "a:1051", true) else (peer_of_address "", false);
  gob = λ meta p. (p, false);
  host_of = λ a. a;
  join_port = λ ip port. ip;
}

abbrev events : List MemberEvent
events =
    notify_join (record { address = "10.0.0.1"; meta = "a" })
    ∷ notify_update (record { address = "10.0.0.1"; meta = "?" })
    ∷ notify_leave (record { address = "10.0.0.2"; meta = "" })
    ∷ []

handle_members_lem_example :
    UpToDate decoders "a:1051"
      (handle_members decoders "a:1051" events [] none).0
      (handle_members decoders "a:1051" events [] none).1
    × ((ip : String)
        → lookup ip (handle_members decoders "a:1051" events [] none).0
          ≡ history decoders ip events (lookup ip []))
handle_members_lem_example = handle_members_lem decoders "a:1051" events [] none tt

abbrev pool : DnsPool
pool = record {
  fqdns = "peers.example." ∷ [];
  own_ip = "10.0.0.1";
  own_port = "1051";
  data_center = "";
}

abbrev answers : String → RecordType → Option (List DnsRecord)
answers fqdn type_a = some (address "10.0.0.1" 60 ∷ address "10.0.0.2" 30 ∷ [])
answers fqdn type_aaaa = none

poll-IsPolled_example : IsPolled pool answers (poll pool answers)
poll-IsPolled_example = poll-IsPolled pool answers

-- One slice with the own endpoint, which is not ready, one that is, and one that is not.
abbrev endpoint : String → Option Bool → Endpoint
endpoint ip ready = record { addresses = ip ∷ []; ready = ready }

abbrev slices : List EndpointSlice
slices =
    record {
      is_ipv4 = true;
      endpoints =
          endpoint "10.0.0.1" (some false)
          ∷ endpoint "10.0.0.2" none
          ∷ endpoint "10.0.0.3" (some false)
          ∷ [];
    }
    ∷ record { is_ipv4 = false; endpoints = endpoint "fd00::1" none ∷ [] }
    ∷ []

no_peers-OfPods : OfPods "10.0.0.1" "1051" []
unfolding lookup
no_peers-OfPods ip p e = absurd (ground (arith, e))

lookup-add_slices_example :
    lookup "10.0.0.2" (add_slices "10.0.0.1" "1051" slices [])
    ≡ some (pod_peer "10.0.0.1" "1051" "10.0.0.2")
unfolding is_ready
lookup-add_slices_example = lookup-add_slices "10.0.0.1" "1051" slices [] no_peers-OfPods "10.0.0.2"

third_skipped : is_offered "10.0.0.1" "10.0.0.3" slices ≡ false
unfolding is_ready
third_skipped = refl
