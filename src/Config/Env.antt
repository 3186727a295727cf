-- ===== src/Config/Env.antt =====
-- The readers of environment variables of config.go, flags.go and kubernetes.go, and ResolveHostIP of
-- net.go. strconv.ParseInt and time.ParseDuration are parameters, and so is the host's network.
use Prim.Native.Char.{code}
use Prim.Native.String.{◌++◌ as join}
use gubernator.Config.EnvFile.{Text, split}
use gubernator.Config.Setter.{Setter}
use gubernator.Prelude.GoMap.{GoMap, lookup}
use gubernator.Prelude.{
  ℤ, pos, String, List, [], ◌∷◌, Option, none, some, Bool, true, false, ◌&&◌, ◌||◌, ◌==◌, str_eq,
  if◌then◌else◌, length,
}

-- os.Getenv
unfoldable pub getenv : GoMap String → String → String
getenv env name = elim (lookup name env) [ none ↦ "" | some v ↦ v ]

-- the bytes of a text
abbrev pub codes : String → Text
codes String.[] = []
codes (String.◌∷◌ c rest) = code c ∷ codes rest

-- strings.HasPrefix
unfoldable pub has_prefix : Text → Text → Bool
has_prefix text [] = true
has_prefix [] (p ∷ prefix) = false
has_prefix (c ∷ text) (p ∷ prefix) = c == p && has_prefix text prefix

-- anyHasPrefix over os.Environ(), whose items are `NAME=value`
unfoldable pub any_has_prefix : String → GoMap String → Bool
any_has_prefix prefix [] = false
any_has_prefix prefix ((name, value) ∷ env) =
    has_prefix (codes (join name (join "=" value))) (codes prefix) || any_has_prefix prefix env

abbrev pub one_of : String → List String → Bool
one_of v [] = false
one_of v (x ∷ xs) = str_eq v x || one_of v xs

-- strconv.ParseBool
unfoldable pub parse_bool : String → Option Bool
parse_bool v =
    if one_of v ("1" ∷ "t" ∷ "T" ∷ "TRUE" ∷ "true" ∷ "True" ∷ [])
    then some true
    else if one_of v ("0" ∷ "f" ∷ "F" ∷ "FALSE" ∷ "false" ∷ "False" ∷ [])
    then some false
    else none

-- crypto/tls
pub data TlsVersion : Type 0 where
  tls10 tls11 tls12 tls13 : TlsVersion

pub data TracingLevel : Type 0 where
  error_level info_level debug_level : TracingLevel

pub data WatchMechanism : Type 0 where
  endpoint_slices pods : WatchMechanism

unfoldable pub watch_mechanism_from_string : String → Option WatchMechanism
watch_mechanism_from_string mechanism =
    if one_of mechanism ("" ∷ "endpointslices" ∷ "endpoints" ∷ [])
    then some endpoint_slices
    else if str_eq mechanism "pods"
    then some pods
    else none

-- FlagOSMetrics and FlagGolangMetrics
pub record MetricFlags : Type 0 where
  pub os_metrics : Bool
  pub golang_metrics : Bool

unfoldable pub metric_flags_of : List Text → MetricFlags
metric_flags_of [] = record { os_metrics = false; golang_metrics = false }
metric_flags_of (f ∷ fs) =
    let rest = metric_flags_of fs in
    if has_prefix f (codes "os") && length f == 2
    then record rest { os_metrics = true }
    else if has_prefix f (codes "golang") && length f == 6
    then record rest { golang_metrics = true }
    else rest

module _ (env : GoMap String) where
  unfoldable pub get_env_bool : String → Bool
  get_env_bool name =
      let v = getenv env name in
      if str_eq v "" then false else (elim (parse_bool v) [ none ↦ false | some b ↦ b ])

  unfoldable pub get_env_min_version : String → TlsVersion
  get_env_min_version name =
      let v = getenv env name in
      if str_eq v "1.0"
      then tls10
      else if str_eq v "1.1"
      then tls11
      else if str_eq v "1.2"
      then tls12
      else tls13

  -- getEnvInteger with strconv.ParseInt, and getEnvDuration with time.ParseDuration
  unfoldable pub get_env_number : (String → Option ℤ) → String → ℤ
  get_env_number parse name =
      let v = getenv env name in
      if str_eq v "" then pos 0 else (elim (parse v) [ none ↦ pos 0 | some i ↦ i ])

  unfoldable pub get_env_slice : String → List Text
  get_env_slice name = let v = getenv env name in if str_eq v "" then [] else split b',' (codes v)

  unfoldable pub get_env_metric_flags : String → MetricFlags
  get_env_metric_flags name = metric_flags_of (get_env_slice name)

  unfoldable pub get_tracing_level : TracingLevel
  get_tracing_level =
      let v = getenv env "GUBER_TRACING_LEVEL" in
      if str_eq v "ERROR" then error_level else if str_eq v "DEBUG" then debug_level else info_level

  -- GetInstanceID: the variable, the container's id, or a random id
  unfoldable pub get_instance_id : Setter → String → String → String
  get_instance_id s docker_cid generated =
      s.string "" (getenv env "GUBER_INSTANCE_ID" ∷ docker_cid ∷ generated ∷ [])

  -- LocalHost, with runtime.GOOS
  unfoldable pub local_host : String → String
  local_host goos =
      if str_eq goos "darwin"
      then "127.0.0.1"
      else if str_eq (getenv env "RUNNER_OS") ""
      then "localhost"
      else "127.0.0.1"

-- os.Hostname, discoverIP and net.LookupHost; `none` is an error.
pub record HostNetwork : Type 0 where
  pub hostname : Option String
  pub discovered_ip : Option String
  pub lookup_host : String → Option (List String)

-- ResolveHostIP; errors.Wrapf of no error is no error, so a host without addresses gives "".
unfoldable pub resolve_host_ip : HostNetwork → String → Option String
resolve_host_ip net addr =
    if one_of addr ("0.0.0.0" ∷ "::" ∷ "0:0:0:0:0:0:0:0" ∷ "" ∷ [])
    then (elim net.hostname [
      | none ↦ net.discovered_ip
      | some name ↦ elim (net.lookup_host name) [
        | none ↦ none
        | some addrs ↦ elim addrs [ [] ↦ some "" | a ∷ rest ↦ some a ]
      ]
    ])
    else some addr
