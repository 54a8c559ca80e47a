-- ===== src/Api.antt =====
-- api/v1beta1/wolconfig_types.go: the WolConfig resource. Fields of Kubernetes' own types hold what
-- the program reads or writes of them.
use kubevirt_wol.Common.{ℕ, List, Option, Text, Assoc, Bool, ℤ}

-- A string with three constants; `unset` is "", `other` is any other text.
pub data DiscoveryMode : Type 0 where
  all label_selector explicit unset : DiscoveryMode
  other : Text → DiscoveryMode

-- metav1.LabelSelector
pub record Requirement : Type 0 where
  pub key : Text
  pub operator : Text
  pub values : List Text

pub record LabelSelector : Type 0 where
  pub match_labels : Assoc Text
  pub match_expressions : List Requirement

pub record MacVmMapping : Type 0 where
  pub mac_address : Text
  pub vm_name : Text
  pub namespace : Text

-- corev1.Toleration
pub record Toleration : Type 0 where
  pub key : Text
  pub operator : Text
  pub value : Text
  pub effect : Text

-- corev1.ResourceRequirements; `none` is a nil map
pub record Resources : Type 0 where
  pub requests : Option (Assoc Text)
  pub limits : Option (Assoc Text)

-- appsv1.DaemonSetUpdateStrategy
pub record UpdateStrategy : Type 0 where
  pub strategy_type : Text
  pub max_unavailable : Option ℤ

pub record AgentSpec : Type 0 where
  pub node_selector : Assoc Text
  pub tolerations : List Toleration
  pub resources : Resources
  pub image : Text
  pub image_pull_policy : Text
  pub update_strategy : Option UpdateStrategy
  pub priority_class_name : Text

pub record WolConfigSpec : Type 0 where
  pub discovery_mode : DiscoveryMode
  pub namespace_selectors : List Text
  pub vm_selector : Option LabelSelector
  pub explicit_mappings : List MacVmMapping
  pub wol_ports : List ℤ
  pub cache_ttl : ℤ
  pub agent : AgentSpec

pub record AgentStatus : Type 0 where
  pub daemon_set_name : Text
  pub desired_number_scheduled : ℤ
  pub number_ready : ℤ
  pub number_available : ℤ

-- metav1.Condition
pub record Condition : Type 0 where
  pub condition_type : Text
  pub status : Bool
  pub observed_generation : ℤ
  pub last_transition_time : ℕ
  pub reason : Text
  pub message : Text

pub record WolConfigStatus : Type 0 where
  pub managed_vms : ℕ
  pub last_sync : Option ℕ
  pub conditions : List Condition
  pub agent_status : Option AgentStatus

-- `annotations` is `none` for a nil map.
pub record WolConfig : Type 0 where
  pub name : Text
  pub generation : ℤ
  pub annotations : Option (Assoc Text)
  pub spec : WolConfigSpec
  pub status : WolConfigStatus
