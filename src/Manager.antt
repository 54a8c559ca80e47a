-- ===== src/Manager.antt =====
-- cmd/manager/main.go: how the manager is put together from its flags and its environment. The
-- framework and the certificate watchers are parameters: `W` is a watcher, `M` a manager.
pub mod Setup
pub mod Standby
pub mod Serve
pub mod Ended
pub mod Unawaited
mod Tests
use kubevirt_wol.Common.{
  String, ℕ, ltb, length, [], none, some, true, false, ok, err, codes, Text, Result, Option, List,
  Bool, not, if◌then◌else◌, text_eq, ◌∷◌, ◌++◌,
}

pub record Flags : Type 0 where
  pub metrics_addr : Text
  pub probe_addr : Text
  pub enable_leader_election : Bool
  pub secure_metrics : Bool
  pub enable_http2 : Bool
  pub webhook_cert_path : Text
  pub webhook_cert_name : Text
  pub webhook_cert_key : Text
  pub metrics_cert_path : Text
  pub metrics_cert_name : Text
  pub metrics_cert_key : Text

abbrev pub default_flags : Flags
default_flags = record {
  metrics_addr = codes "0";
  probe_addr = codes ":8081";
  enable_leader_election = false;
  secure_metrics = true;
  enable_http2 = false;
  webhook_cert_path = [];
  webhook_cert_name = codes "tls.crt";
  webhook_cert_key = codes "tls.key";
  metrics_cert_path = [];
  metrics_cert_name = codes "tls.crt";
  metrics_cert_key = codes "tls.key";
}

-- The environment variables AGENT_IMAGE and POD_NAMESPACE, empty where they are not set.
pub record Environment : Type 0 where
  pub agent_image : Text
  pub pod_namespace : Text

-- The fields of tls.Config that the program sets.
pub record TlsConfig (W : Type 0) : Type 0 where
  pub next_protos : List Text
  pub get_certificate : Option W

-- What is run with the manager.
pub data Runnable (W : Type 0) : Type 0 where
  cert_watcher : W → Runnable W
  startup_reconciler : Environment → Runnable W

abbrev pub TlsOption : Type 0 → Type 0
TlsOption W = TlsConfig W → TlsConfig W

unfoldable pub disable_http2 : {W : Type 0} → TlsOption W
disable_http2 c = record c { next_protos = codes "http/1.1" ∷ [] }

unfoldable pub use_certificate : {W : Type 0} → W → TlsOption W
use_certificate w c = record c { get_certificate = some w }

-- The slice that both servers start from. Its capacity is its length, so `append` copies it.
unfoldable pub tls_options : {W : Type 0} → Flags → List (TlsOption W)
tls_options flags = if not flags.enable_http2 then disable_http2 ∷ [] else []

abbrev pub with_watcher : {W : Type 0} → List (TlsOption W) → Option W → List (TlsOption W)
with_watcher opts none = opts
with_watcher opts (some w) = opts ++ use_certificate w ∷ []

-- ctrl.Options, with those of the webhook server and of the metrics server in it.
pub record ManagerOptions (W : Type 0) : Type 0 where
  pub webhook_tls : List (TlsOption W)
  pub metrics_bind_address : Text
  pub metrics_secure_serving : Bool
  pub metrics_tls : List (TlsOption W)
  pub metrics_authorized : Bool
  pub health_probe_bind_address : Text
  pub leader_election : Bool
  pub leader_election_id : Text

unfoldable pub manager_options : {W : Type 0} → Flags → Option W → Option W → ManagerOptions W
manager_options flags webhook_watcher metrics_watcher = record {
  webhook_tls = with_watcher (tls_options flags) webhook_watcher;
  metrics_bind_address = flags.metrics_addr;
  metrics_secure_serving = flags.secure_metrics;
  metrics_tls = with_watcher (tls_options flags) metrics_watcher;
  metrics_authorized = flags.secure_metrics;
  health_probe_bind_address = flags.probe_addr;
  leader_election = flags.enable_leader_election;
  leader_election_id = codes "4e0101f7.pillon.org";
}

-- The calls on the framework: `watcher` is certwatcher.New, `in_directory` is filepath.Join,
-- `setup_controller` registers the reconciler of WolConfigs, and `add_check` a health check.
pub record Framework (W M : Type 0) : Type 0 where
  pub watcher : Text → Text → Result Text W
  pub in_directory : Text → Text → Text
  pub new_manager : ManagerOptions W → Result Text M
  pub setup_controller : Environment → M → Result Text M
  pub add : Runnable W → M → Result Text M
  pub add_healthz_check : Text → M → Result Text M
  pub add_readyz_check : Text → M → Result Text M

-- `os.Exit(1)` ends the program with what was logged.
infixl 5 ◌>>=◌
abbrev ◌>>=◌ : {A B : Type 0} → Result Text A → (A → Result Text B) → Result Text B
ok a >>= f = f a
err e >>= f = err e

abbrev pub exit_with {ℓ} : {A : Type ℓ} → String → Result Text A → Result Text A
exit_with message (ok a) = ok a
exit_with message (err e) = err (codes message ++ (codes ": " ++ e))

abbrev pub watched : {W : Type 0} → Result Text W → Result Text (Option W)
watched (ok w) = ok (some w)
watched (err e) = err e

module _ {W M : Type 0} (fw : Framework W M) where
  -- A watcher is made where a path is given.
  unfoldable pub cert_watcher_for : String → Text → Text → Text → Result Text (Option W)
  cert_watcher_for message path name key =
      if ltb 0 (length path)
      then exit_with message
          (watched (fw.watcher (fw.in_directory path name) (fw.in_directory path key)))
      else ok none

  abbrev pub add_startup_reconciler : Environment → M → Result Text M
  add_startup_reconciler env m =
      if not (text_eq env.agent_image [])
      then exit_with "unable to add startup reconciler" (fw.add (startup_reconciler env) m)
      else ok m

  abbrev pub add_cert_watcher : String → Option W → M → Result Text M
  add_cert_watcher message none m = ok m
  add_cert_watcher message (some w) m = exit_with message (fw.add (cert_watcher w) m)

  -- `main`, until the gRPC server and the manager are started.
  unfoldable pub setup : Flags → Environment → Result Text M
  setup flags env = do
    webhook ←
        cert_watcher_for "Failed to initialize webhook certificate watcher" flags.webhook_cert_path
          flags.webhook_cert_name flags.webhook_cert_key
    metrics ←
        cert_watcher_for "Failed to initialize metrics certificate watcher" flags.metrics_cert_path
          flags.metrics_cert_name flags.metrics_cert_key
    m ← exit_with "unable to start manager" (fw.new_manager (manager_options flags webhook metrics))
    m ← exit_with "unable to create controller" (fw.setup_controller env m)
    m ← add_startup_reconciler env m
    m ← add_cert_watcher "Unable to add metrics certificate watcher to manager" metrics m
    m ← add_cert_watcher "Unable to add webhook certificate watcher to manager" webhook m
    m ← exit_with "unable to set up health check" (fw.add_healthz_check (codes "healthz") m)
    exit_with "unable to set up ready check" (fw.add_readyz_check (codes "readyz") m)
