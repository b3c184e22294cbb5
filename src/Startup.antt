-- ===== src/Startup.antt =====
-- `main` of cmd/main.go and `InitDefaults` of internal/validate/init.go: the flags, the options of
-- the manager, and the steps of a start in their order. Parsing the flags, the manager, its servers
-- and logging are libraries.
pub mod Laws
pub mod Ready
use runtime_overrides_operat.Prelude.{
  Str, bytes, str_eq, Bool, true, false, not, Option, none, some, List, [], ◌∷◌, ◌++◌, map, Dict,
  if◌then◌else◌,
}
use runtime_overrides_operat.Api.{NamespacedName}
use runtime_overrides_operat.Platform.{Error}
use runtime_overrides_operat.Config.{
  TargetConfig, Targets, validate_targets, Registration, registrations, cache_namespaces,
}

pub record Flags : Type 0 where
  pub metrics_bind_address : Str
  pub health_probe_bind_address : Str
  pub leader_elect : Bool
  pub metrics_secure : Bool
  pub webhook_cert_path : Str
  pub webhook_cert_name : Str
  pub webhook_cert_key : Str
  pub metrics_cert_path : Str
  pub metrics_cert_name : Str
  pub metrics_cert_key : Str
  pub enable_http2 : Bool
  pub loki_enabled : Bool
  pub loki_output_cm_name : Str
  pub loki_output_cm_namespace : Str
  pub mimir_enabled : Bool
  pub enable_webhook : Bool
  pub mimir_output_cm_name : Str
  pub mimir_output_cm_namespace : Str

-- The flags that are not given.
unfoldable pub default_flags : Flags
default_flags = record {
  metrics_bind_address = bytes "0";
  health_probe_bind_address = bytes ":8081";
  leader_elect = false;
  metrics_secure = true;
  webhook_cert_path = [];
  webhook_cert_name = bytes "tls.crt";
  webhook_cert_key = bytes "tls.key";
  metrics_cert_path = [];
  metrics_cert_name = bytes "tls.crt";
  metrics_cert_key = bytes "tls.key";
  enable_http2 = false;
  loki_enabled = true;
  loki_output_cm_name = bytes "loki-runtime-tenants";
  loki_output_cm_namespace = bytes "monitoring";
  mimir_enabled = false;
  enable_webhook = false;
  mimir_output_cm_name = bytes "mimir-runtime-tenants";
  mimir_output_cm_namespace = bytes "monitoring";
}

-- `CertDir`, `CertName` and `KeyName`, where they are set.
pub record CertFiles : Type 0 where
  pub cert_dir : Str
  pub cert_name : Str
  pub key_name : Str

-- `NextProtos` of the TLS configuration, `none` where no option sets it.
abbrev pub NextProtos : Type 0
NextProtos = Option (List Str)

pub record WebhookOptions : Type 0 where
  pub next_protos : NextProtos
  pub certs : Option CertFiles

pub record MetricsOptions : Type 0 where
  pub bind_address : Str
  pub secure_serving : Bool
  pub next_protos : NextProtos
  pub with_authentication_and_authorization : Bool
  pub certs : Option CertFiles

pub record ManagerOptions : Type 0 where
  pub metrics : MetricsOptions
  pub webhook_server : WebhookOptions
  pub health_probe_bind_address : Str
  pub leader_election : Bool
  pub leader_election_id : Str
  pub config_map_namespaces : Dict (Unit {0})

abbrev pub disable_http2 : NextProtos
disable_http2 = some (bytes "http/1.1" ∷ [])

abbrev pub tls_options : Flags → NextProtos
tls_options f = if not f.enable_http2 then disable_http2 else none

abbrev cert_files : Str → Str → Str → Option CertFiles
cert_files path name key =
    if str_eq path []
    then none
    else some (record { cert_dir = path; cert_name = name; key_name = key })

unfoldable pub webhook_options : Flags → WebhookOptions
webhook_options f = record {
  next_protos = tls_options f;
  certs = cert_files f.webhook_cert_path f.webhook_cert_name f.webhook_cert_key;
}

unfoldable pub metrics_options : Flags → MetricsOptions
metrics_options f = record {
  bind_address = f.metrics_bind_address;
  secure_serving = f.metrics_secure;
  next_protos = tls_options f;
  with_authentication_and_authorization = f.metrics_secure;
  certs = cert_files f.metrics_cert_path f.metrics_cert_name f.metrics_cert_key;
}

unfoldable pub targets_of : Flags → Targets
targets_of f = record {
  loki = record {
    enabled = f.loki_enabled;
    output_cm = record { namespace = f.loki_output_cm_namespace; name = f.loki_output_cm_name };
  };
  mimir = record {
    enabled = f.mimir_enabled;
    output_cm = record { namespace = f.mimir_output_cm_namespace; name = f.mimir_output_cm_name };
  };
}

unfoldable pub manager_options : Flags → ManagerOptions
unfolding webhook_options metrics_options targets_of
manager_options f = record {
  metrics = metrics_options f;
  webhook_server = webhook_options f;
  health_probe_bind_address = f.health_probe_bind_address;
  leader_election = f.leader_elect;
  leader_election_id = bytes "d9d7635e.runtimeoverrides.io";
  config_map_namespaces = cache_namespaces (targets_of f);
}

pub data Step : Type 0 where
  new_manager : ManagerOptions → Step
  check_targets : Targets → Step
  init_defaults : Step
  register : Registration → Step
  add_healthz_check : Step
  add_readyz_check : Step
  write_banner : Step
  start_manager : Step

unfoldable pub steps : Flags → List Step
unfolding manager_options
steps f =
    new_manager (manager_options f)
    ∷ check_targets (targets_of f)
    ∷ init_defaults
    ∷ (map register (registrations (targets_of f) f.enable_webhook)
        ++ (add_healthz_check ∷ add_readyz_check ∷ write_banner ∷ start_manager ∷ []))

-- The error of a step: of the program's own check, of none, or of the library.
abbrev pub step_error : (Step → Option Error) → Step → Option Error
step_error fails (check_targets t) = validate_targets t
step_error fails init_defaults = none
step_error fails write_banner = none
step_error fails s = fails s

pub data Exit : Type 0 where
  exit_success exit_failure : Exit

-- The steps that are tried, up to the first that fails, which ends the program with status 1.
unfoldable pub run_steps : (Step → Option Error) → List Step → List Step × Exit
run_steps fails [] = ([], exit_success)
run_steps fails (s ∷ ss) =
    let rest = run_steps fails ss in
    elim (step_error fails s) [ some e ↦ (s ∷ [], exit_failure) | none ↦ (s ∷ rest.0, rest.1) ]

unfoldable pub run_main : (Step → Option Error) → Flags → List Step × Exit
unfolding steps run_steps
run_main fails f = run_steps fails (steps f)

-- `InitDefaults` of internal/validate/init.go: `once` and the package-level defaults of the two
-- backends, `none` before they are set. The flag-registered defaults are the backends' own.
pub record Defaults (L M : Type 0) : Type 0 where
  pub once : Bool
  pub loki_defaults : Option L
  pub mimir_defaults : Option M

unfoldable pub set_defaults : {L M : Type 0} → L → M → Defaults L M → Defaults L M
set_defaults loki_flags mimir_flags d =
    if d.once
    then d
    else record { once = true; loki_defaults = some loki_flags; mimir_defaults = some mimir_flags }

abbrev pub no_defaults : {L M : Type 0} → Defaults L M
no_defaults = record { once = false; loki_defaults = none; mimir_defaults = none }

-- What a step does to the defaults.
unfoldable pub step_defaults : {L M : Type 0} → L → M → Step → Defaults L M → Defaults L M
unfolding set_defaults
step_defaults l m init_defaults d = set_defaults l m d
step_defaults l m s d = d

unfoldable pub defaults_after : {L M : Type 0} → L → M → List Step → Defaults L M → Defaults L M
unfolding step_defaults
defaults_after l m [] d = d
defaults_after l m (s ∷ ss) d = defaults_after l m ss (step_defaults l m s d)
