-- ===== src/Mapper/Tests.antt =====
-- Runs of the mapper, and its theorems at concrete configurations.
use kubevirt_wol.Common.{
  ◌≡◌, refl, List, [], ◌∷◌, true, Text, codes, Option, none, some, arith, ok, get, text_eq,
  trim_space, to_lower, trim_left, trim_right, lower, is_space, put, delete, All,
}
use kubevirt_wol.Api.{all}
use kubevirt_wol.Cluster.{Vm}
use kubevirt_wol.Mapper.{
  normalize_mac_address, lookup, refresh_mapping, new_mapping, explicit_mapping, discover_all_vms,
  discover_vms_with_selector, extract_macs_from_vms, extract_vm, extract_interfaces,
}
use kubevirt_wol.Mapper.Lookup.{last_explicit, last_owner, owns, has_mac}
use kubevirt_wol.Mapper.Normalize.{Spells, byte, bytes}
use kubevirt_wol.Mapper.Refresh
use kubevirt_wol.Mapper.Refresh.{refreshed, outcome}
use kubevirt_wol.Mapper.NewMapping.{every}
use kubevirt_wol.Examples.{
  sample_mac, sample_address, sample_vm, sample_info, one_vm, selects_wol, sample_config,
  sample_mapper, no_metrics,
}

program : Unit {0}
unfolding text_eq get put delete trim_left trim_right trim_space is_space lower to_lower
    normalize_mac_address lookup refresh_mapping new_mapping explicit_mapping discover_all_vms
    discover_vms_with_selector extract_macs_from_vms extract_vm extract_interfaces last_explicit
    last_owner owns has_mac
program = tt

finds :
    lookup
      (codes " 52:54:00:ab:CD:ef ")
      (refreshed one_vm sample_vm 5 (sample_mapper all) no_metrics)
    ≡ some sample_info
unfolding program
finds = refl

spelled : Spells (codes "52:54:00:AB:cd:eF") sample_address
spelled = bytes {hi = 5} {lo = 2} (omega arith) (omega arith) refl (
    bytes {hi = 5} {lo = 4} (omega arith) (omega arith) refl (
      bytes {hi = 0} {lo = 0} (omega arith) (omega arith) refl (
        bytes {hi = 10} {lo = 11} (omega arith) (omega arith) refl (
          bytes {hi = 12} {lo = 13} (omega arith) (omega arith) refl
            (byte {hi = 14} {lo = 15} (omega arith) (omega arith) refl)))))

lookup-refresh_discovered_example :
    (outcome one_vm sample_vm 5 (sample_mapper all) no_metrics ≡ ok tt)
    × (lookup sample_mac (refreshed one_vm sample_vm 5 (sample_mapper all) no_metrics)
        ≡ last_owner (normalize_mac_address sample_mac) (sample_vm ∷ []))
lookup-refresh_discovered_example =
    Refresh.lookup-refresh_discovered one_vm sample_vm 5 (sample_mapper all) no_metrics
      (sample_config all) sample_mac {sel = none} refl (every (λ h. cc) (λ h. cc) refl) refl

selected_law :
    (ns : Option Text) (found : List Vm)
    → one_vm.list_vms sample_vm ns (some selects_wol) ≡ ok found
    → All (λ vm. selects_wol vm.labels ≡ true) found
unfolding program
selected_law ns [] h = tt
selected_law ns (vm ∷ []) h = let e : sample_vm ≡ vm = cc in (rw (← e) refl, tt)
selected_law ns (vm ∷ vm' ∷ vms) h = cc
