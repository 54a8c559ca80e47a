-- ===== src/Kube.antt =====
-- The Kubernetes objects that the controller writes, with the fields it sets, and the calls of the
-- API that it makes, which are a parameter of the model. `S` is the state of the cluster.
use kubevirt_wol.Common.{ℕ, List, Bool, Text, Assoc, ℤ, Result}
use kubevirt_wol.Api.{WolConfig, Resources, Toleration, UpdateStrategy}

pub data EnvSource : Type 0 where
  value : Text → EnvSource
  field_path : Text → EnvSource

pub record EnvVar : Type 0 where
  pub name : Text
  pub source : EnvSource

pub record SecurityContext : Type 0 where
  pub run_as_user : ℕ
  pub allow_privilege_escalation : Bool
  pub added : List Text
  pub dropped : List Text

-- an HTTP probe
pub record Probe : Type 0 where
  pub path : Text
  pub port : ℕ
  pub scheme : Text
  pub initial_delay_seconds : ℕ
  pub period_seconds : ℕ
  pub timeout_seconds : ℕ
  pub failure_threshold : ℕ

pub record Container : Type 0 where
  pub name : Text
  pub image : Text
  pub image_pull_policy : Text
  pub args : List Text
  pub env : List EnvVar
  pub security_context : SecurityContext
  pub resources : Resources
  pub liveness_probe : Probe
  pub readiness_probe : Probe

pub record PodSpec : Type 0 where
  pub host_network : Bool
  pub dns_policy : Text
  pub service_account_name : Text
  pub termination_grace_period_seconds : ℕ
  pub run_as_user : ℕ
  pub containers : List Container
  pub node_selector : Assoc Text
  pub tolerations : List Toleration
  pub priority_class_name : Text

pub record DaemonSetSpec : Type 0 where
  pub selector : Assoc Text
  pub update_strategy : UpdateStrategy
  pub template_labels : Assoc Text
  pub template_spec : PodSpec

pub record DaemonSetStatus : Type 0 where
  pub desired_number_scheduled : ℤ
  pub number_ready : ℤ
  pub number_available : ℤ

-- `owners` are the names in the owner references.
pub record DaemonSet : Type 0 where
  pub name : Text
  pub namespace : Text
  pub labels : Assoc Text
  pub owners : List Text
  pub spec : DaemonSetSpec
  pub status : DaemonSetStatus

pub record ServiceAccount : Type 0 where
  pub name : Text
  pub namespace : Text

pub record ServicePort : Type 0 where
  pub name : Text
  pub port : ℤ

pub record Service : Type 0 where
  pub name : Text
  pub namespace : Text
  pub ports : List ServicePort

-- An error, and whether `errors.IsNotFound` holds of it.
pub data ApiError : Type 0 where
  not_found failed : Text → ApiError

abbrev pub text_of : ApiError → Text
text_of (not_found e) = e
text_of (failed e) = e

-- Lists take a namespace, and the labels to match where there are some. `update_config_status` gives
-- also the object as the client leaves it, which it reads from the answer.
pub record KubeClient (S : Type 0) : Type 0 where
  pub get_config : S → Text → Result ApiError WolConfig
  pub list_configs : S → Result Text (List WolConfig)
  pub update_config : S → WolConfig → Result Text S
  pub update_config_status : S → WolConfig → Result Text (S × WolConfig)
  pub list_service_accounts : S → Text → Assoc Text → Result Text (List ServiceAccount)
  pub list_services : S → Text → Assoc Text → Result Text (List Service)
  pub get_daemon_set : S → Text → Text → Result ApiError DaemonSet
  pub list_daemon_sets : S → Text → Result Text (List DaemonSet)
  pub create_daemon_set : S → DaemonSet → Result Text S
  pub update_daemon_set : S → DaemonSet → Result Text S
  pub set_controller_reference : WolConfig → DaemonSet → Result Text DaemonSet
