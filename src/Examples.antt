-- ===== src/Examples.antt =====
-- Concrete data for the tests: a cluster of one VM, configurations and messages.
use kubevirt_wol.Common.{
  ◌*◌, ℕ, List, [], ◌∷◌, true, false, none, some, Text, codes, ok, err, if◌then◌else◌, pos, get,
}
use kubevirt_wol.Api.{MacVmMapping, WolConfigSpec, WolConfig, DiscoveryMode, explicit}
use kubevirt_wol.Cluster.{Vm, VmClient, Selector, once, unset, running, Metrics}
use kubevirt_wol.Mapper.{MacMapper, VmInfo}
use kubevirt_wol.VmStarter.{World}
use kubevirt_wol.Aggregator.{Aggregator, WolEvent, Readings, Received, second}

-- 52:54:00:ab:cd:ef
abbrev pub sample_address : List ℕ
sample_address = 82 ∷ 84 ∷ 0 ∷ 171 ∷ 205 ∷ 239 ∷ []

abbrev pub sample_mac : Text
sample_mac = codes "52:54:00:ab:cd:ef"

abbrev pub sample_vm : Vm
sample_vm = record {
  name = codes "vm";
  namespace = codes "ns";
  labels = (codes "wol", codes "on") ∷ [];
  template = some (record { mac_address = codes "52:54:00:AB:CD:EF" } ∷ []);
  run_strategy = some once;
  is_running = none;
  ready = false;
  printable_status = unset;
}

abbrev pub up_vm : Vm
up_vm = record sample_vm { printable_status = running }

abbrev pub sample_info : VmInfo
sample_info = record { name = codes "vm"; namespace = codes "ns" }

abbrev pub selects_wol : Selector
selects_wol labels = elim (get (codes "wol") labels) [ none ↦ false | some v ↦ true ]

-- A cluster of one VM, which every call finds.
abbrev pub one_vm : VmClient Vm
one_vm = record {
  list_vms =
      λ s ns sel. elim sel [ none ↦ ok (s ∷ []) | some p ↦ ok (if p s.labels then s ∷ [] else []) ];
  get_vm = λ s ns name. ok s;
  patch_vm = λ s vm vm'. ok vm';
  as_selector = λ raw. ok selects_wol;
}

-- The same, where no call is answered.
abbrev pub no_answer : VmClient Vm
no_answer = record {
  list_vms = λ s ns sel. err (codes "down");
  get_vm = λ s ns name. err (codes "down");
  patch_vm = λ s vm vm'. err (codes "down");
  as_selector = λ raw. err (codes "down");
}

abbrev pub sample_mapping : MacVmMapping
sample_mapping = record {
  mac_address = codes "52:54:00:AB:CD:EF";
  vm_name = codes "vm";
  namespace = codes "ns";
}

abbrev pub sample_spec : DiscoveryMode → WolConfigSpec
sample_spec mode = record {
  discovery_mode = mode;
  namespace_selectors = [];
  vm_selector = some (record { match_labels = []; match_expressions = [] });
  explicit_mappings = sample_mapping ∷ [];
  wol_ports = pos 9 ∷ [];
  cache_ttl = pos 300;
  agent = record {
    node_selector = [];
    tolerations = [];
    resources = record { requests = none; limits = none };
    image = [];
    image_pull_policy = [];
    update_strategy = none;
    priority_class_name = [];
  };
}

abbrev pub sample_config : DiscoveryMode → WolConfig
sample_config mode = record {
  name = codes "cfg";
  generation = pos 1;
  annotations = none;
  spec = sample_spec mode;
  status = record { managed_vms = 0; last_sync = none; conditions = []; agent_status = none };
}

abbrev pub sample_mapper : DiscoveryMode → MacMapper
sample_mapper mode = record {
  mapping = (sample_mac, sample_info) ∷ [];
  last_sync = 0;
  cache_ttl = pos 300;
  config = some (sample_config mode);
}

abbrev pub no_metrics : Metrics
no_metrics = record { packets = 0; vm_started = 0; errors = 0; managed_vms = 0 }

abbrev pub sample_world : Vm → World Vm
sample_world vm = record { cluster = vm; metrics = no_metrics; restores = [] }

abbrev pub sample_aggregator : Aggregator
sample_aggregator = record {
  mapper = sample_mapper explicit;
  dedupe_map = [];
  dedupe_duration = 10 * second;
}

abbrev pub sample_event : WolEvent
sample_event = record {
  mac_address = sample_mac;
  timestamp = 0;
  node_name = codes "node";
  source_ip = codes "10.0.0.1";
  source_port = 9;
  packet_size = 102;
}

abbrev pub readings_at : ℕ → Readings
readings_at n = record { started = n; checked = n; answered = n; recorded = n }

abbrev pub received_at : ℕ → Received
received_at n = record { readings = readings_at n; event = sample_event; send_error = none }
