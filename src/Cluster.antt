-- ===== src/Cluster.antt =====
-- What the program sees of KubeVirt and of the Kubernetes API: the fields of a VirtualMachine that it
-- reads, and the calls that it makes, which are a parameter of the model. `S` is the state of the
-- cluster behind the calls.
use kubevirt_wol.Common.{ℕ, ◌+◌, List, Option, Text, Assoc, Bool, Result}
use kubevirt_wol.Api.{LabelSelector}

-- VirtualMachineRunStrategy
pub data RunStrategy : Type 0 where
  always halted manual rerun_on_failure once : RunStrategy
  other : Text → RunStrategy

-- VirtualMachinePrintableStatus; `unset` is ""
pub data PrintableStatus : Type 0 where
  unset running starting : PrintableStatus
  other : Text → PrintableStatus

pub record Interface : Type 0 where
  pub mac_address : Text

-- `template` holds the interfaces of `Spec.Template`, `none` if that is nil.
pub record Vm : Type 0 where
  pub name : Text
  pub namespace : Text
  pub labels : Assoc Text
  pub template : Option (List Interface)
  pub run_strategy : Option RunStrategy
  pub is_running : Option Bool
  pub ready : Bool
  pub printable_status : PrintableStatus

-- labels.Selector, by its `Matches`
abbrev pub Selector : Type 0
Selector = Assoc Text → Bool

-- An error is the text of its `Error()`. `list_vms` takes a namespace and a selector, each optional;
-- `patch_vm` takes the VM as it was read and as it shall be.
pub record VmClient (S : Type 0) : Type 0 where
  pub list_vms : S → Option Text → Option Selector → Result Text (List Vm)
  pub get_vm : S → Text → Text → Result Text Vm
  pub patch_vm : S → Vm → Vm → Result Text S
  pub as_selector : LabelSelector → Result Text Selector

-- metrics.go: the counters and the gauge, which the program only ever raises or sets.
pub record Metrics : Type 0 where
  pub packets : ℕ
  pub vm_started : ℕ
  pub errors : ℕ
  pub managed_vms : ℕ

unfoldable pub count_packet : Metrics → Metrics
count_packet m = record m { packets = m.packets + 1 }

unfoldable pub count_vm_started : Metrics → Metrics
count_vm_started m = record m { vm_started = m.vm_started + 1 }

unfoldable pub count_error : Metrics → Metrics
count_error m = record m { errors = m.errors + 1 }
