-- ===== src/Agents/Spec.antt =====
-- internal/controller/daemonset.go: the DaemonSet that is built for a WolConfig, and how the operator is
-- found.
use kubevirt_wol.Common.{
  ℕ, List, [], ◌∷◌, ◌++◌, map, Bool, true, false, Option, none, some, ◌||◌, Text, codes, text_eq,
  Assoc, ℤ, pos, eq_ℤ, format_int, join, if◌then◌else◌, Result, ok, err,
}
use kubevirt_wol.Api.{WolConfig, Toleration, Resources, UpdateStrategy}
use kubevirt_wol.Kube.{
  value, field_path, Probe, Container, PodSpec, DaemonSet, ServiceAccount, ServicePort, Service,
}

abbrev pub default_agent_image : Text
default_agent_image = codes "quay.io/kubevirtwol/kubevirt-wol-agent:latest"

abbrev pub default_operator_address : Text
default_operator_address = codes "kubevirt-wol-grpc.kubevirt-wol-system.svc:9090"

abbrev pub default_operator_namespace : Text
default_operator_namespace = codes "kubevirt-wol-system"

abbrev pub default_agent_service_account : Text
default_agent_service_account = codes "kubevirt-wol-wol-agent"

-- The settings of the reconciler, from AGENT_IMAGE and POD_NAMESPACE.
pub record Operator : Type 0 where
  pub agent_image : Text
  pub operator_namespace : Text

-- a text, or the default where it is empty
abbrev pub or_default : Text → Text → Text
or_default [] d = d
or_default (c ∷ s) d = c ∷ s

abbrev pub namespace_of : Operator → Text
namespace_of op = or_default op.operator_namespace default_operator_namespace

unfoldable pub get_daemon_set_name : WolConfig → Text
get_daemon_set_name config = codes "wol-agent-" ++ config.name

abbrev pub account_labels : Assoc Text
account_labels =
    (codes "app.kubernetes.io/name", codes "wol-agent")
    ∷ (codes "app.kubernetes.io/component", codes "agent")
    ∷ []

abbrev pub grpc_labels : Assoc Text
grpc_labels =
    (codes "app.kubernetes.io/name", codes "kubevirt-wol")
    ∷ (codes "app.kubernetes.io/component", codes "grpc")
    ∷ []

abbrev pub first_account : Result Text (List ServiceAccount) → Result Text Text
first_account (err e) = err (codes "failed to list service accounts: " ++ e)
first_account (ok []) = ok default_agent_service_account
first_account (ok (sa ∷ _)) = ok sa.name

abbrev pub is_grpc_port : ServicePort → Bool
is_grpc_port p = text_eq p.name (codes "grpc") || eq_ℤ p.port (pos 9090)

-- the first port that is named grpc or is 9090; 0 if there is none
unfoldable pub grpc_port : List ServicePort → ℤ
grpc_port [] = pos 0
grpc_port (p ∷ ports) = if is_grpc_port p then p.port else grpc_port ports

abbrev pub first_port : List ServicePort → ℤ
first_port [] = pos 0
first_port (p ∷ _) = p.port

unfoldable pub service_port : List ServicePort → ℤ
service_port ports =
    let port = grpc_port ports in if eq_ℤ port (pos 0) then first_port ports else port

abbrev pub address_of : Service → ℤ → Text
address_of service port =
    if eq_ℤ port (pos 0)
    then default_operator_address
    else service.name ++ codes "." ++ service.namespace ++ codes ".svc:" ++ format_int port

abbrev pub first_service : Result Text (List Service) → Result Text Text
first_service (err e) = err (codes "failed to list services: " ++ e)
first_service (ok []) = ok default_operator_address
first_service (ok (service ∷ _)) = ok (address_of service (service_port service.ports))

abbrev pub agent_labels : WolConfig → Assoc Text
agent_labels config =
    (codes "app", codes "wol-agent")
    ∷ (codes "app.kubernetes.io/name", codes "wol-agent")
    ∷ (codes "app.kubernetes.io/component", codes "agent")
    ∷ (codes "app.kubernetes.io/part-of", codes "kubevirt-wol")
    ∷ (codes "app.kubernetes.io/managed-by", codes "kubevirt-wol-controller")
    ∷ (codes "wol.pillon.org/wolconfig", config.name)
    ∷ []

abbrev pub image_of : Operator → WolConfig → Text
image_of op config =
    or_default config.spec.agent.image (or_default op.agent_image default_agent_image)

abbrev pub ports_or_default : List ℤ → List ℤ
ports_or_default [] = pos 9 ∷ []
ports_or_default (p ∷ ports) = p ∷ ports

-- strings.Join(portsStr, ",")
unfoldable pub ports_text : List ℤ → Text
ports_text ports = join b',' (map format_int (ports_or_default ports))

abbrev pub default_resources : Resources
default_resources = record {
  requests = some ((codes "cpu", codes "50m") ∷ (codes "memory", codes "64Mi") ∷ []);
  limits = some ((codes "cpu", codes "100m") ∷ (codes "memory", codes "128Mi") ∷ []);
}

-- the defaults where both are nil
abbrev pub resources_or_default : Option (Assoc Text) → Option (Assoc Text) → Resources
resources_or_default none none = default_resources
resources_or_default (some r) limits = record { requests = some r; limits = limits }
resources_or_default none (some l) = record { requests = none; limits = some l }

abbrev pub probe : Text → ℕ → ℕ → ℕ → Probe
probe path delay period timeout = record {
  path = path;
  port = 8080;
  scheme = codes "HTTP";
  initial_delay_seconds = delay;
  period_seconds = period;
  timeout_seconds = timeout;
  failure_threshold = 3;
}

abbrev pub ports_arg : Text
ports_arg = codes "--ports="

unfoldable pub agent_container : Operator → WolConfig → Text → Container
agent_container op config operator_address = record {
  name = codes "agent";
  image = image_of op config;
  image_pull_policy = or_default config.spec.agent.image_pull_policy (codes "Always");
  args =
      codes "--node-name=$(NODE_NAME)"
      ∷ (codes "--operator-address=" ++ operator_address)
      ∷ (ports_arg ++ ports_text config.spec.wol_ports)
      ∷ codes "--zap-log-level=info"
      ∷ [];
  env =
      record { name = codes "NODE_NAME"; source = field_path (codes "spec.nodeName") }
      ∷ record { name = codes "POD_NAMESPACE"; source = field_path (codes "metadata.namespace") }
      ∷ record { name = codes "WOLCONFIG_NAME"; source = value config.name }
      ∷ [];
  security_context = record {
    run_as_user = 0;
    allow_privilege_escalation = false;
    added = codes "NET_BIND_SERVICE" ∷ codes "NET_RAW" ∷ [];
    dropped = codes "ALL" ∷ [];
  };
  resources = let r = config.spec.agent.resources in resources_or_default r.requests r.limits;
  liveness_probe = probe (codes "/healthz") 15 30 5;
  readiness_probe = probe (codes "/readyz") 5 10 3;
}

abbrev pub exists : Text → Toleration
exists effect = record { key = []; operator = codes "Exists"; value = []; effect = effect }

abbrev pub tolerations_or_default : List Toleration → List Toleration
tolerations_or_default [] = exists (codes "NoSchedule") ∷ exists (codes "NoExecute") ∷ []
tolerations_or_default (t ∷ ts) = t ∷ ts

abbrev pub strategy_or_default : Option UpdateStrategy → UpdateStrategy
strategy_or_default none = record {
  strategy_type = codes "RollingUpdate";
  max_unavailable = some (pos 1);
}
strategy_or_default (some s) = s

unfoldable pub agent_pod_spec : Operator → WolConfig → Text → Text → PodSpec
agent_pod_spec op config operator_address service_account_name = record {
  host_network = true;
  dns_policy = codes "ClusterFirstWithHostNet";
  service_account_name = service_account_name;
  termination_grace_period_seconds = 10;
  run_as_user = 0;
  containers = agent_container op config operator_address ∷ [];
  node_selector = config.spec.agent.node_selector;
  tolerations = tolerations_or_default config.spec.agent.tolerations;
  priority_class_name = config.spec.agent.priority_class_name;
}

unfoldable pub build_agent_daemon_set : Operator → WolConfig → Text → Text → Text → DaemonSet
build_agent_daemon_set op config name operator_address service_account_name = record {
  name = name;
  namespace = namespace_of op;
  labels = agent_labels config;
  owners = [];
  spec = record {
    selector = agent_labels config;
    update_strategy = strategy_or_default config.spec.agent.update_strategy;
    template_labels = agent_labels config;
    template_spec = agent_pod_spec op config operator_address service_account_name;
  };
  status = record {
    desired_number_scheduled = pos 0;
    number_ready = pos 0;
    number_available = pos 0;
  };
}
