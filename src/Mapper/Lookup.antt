-- ===== src/Mapper/Lookup.antt =====
-- What the loops of the mapper leave in a mapping: for each address its last owner.
use kubevirt_wol.Common.{
  ◌≡◌, refl, List, [], ◌∷◌, ◌++◌, Bool, false, Option, none, some, Text, arith, if◌then◌else◌,
  Assoc, get, put, get-put, IsMap, put-IsMap, text_eq, not, ◌||◌, ◌&&◌, Result, ok, err,
  Result-cases, Bool-cases, inl, inr,
}
use kubevirt_wol.Api.{MacVmMapping}
use kubevirt_wol.Cluster.{Vm, Interface, VmClient, Selector}
use kubevirt_wol.Mapper.{
  VmInfo, normalize_mac_address, explicit_mapping, extract_interfaces, extract_vm,
  extract_macs_from_vms, discover_namespaces,
}

abbrev pub or_else : Option VmInfo → Option VmInfo → Option VmInfo
or_else (some v) o = some v
or_else none o = o

or_else_assoc : (a b c : Option VmInfo) → or_else (or_else a b) c ≡ or_else a (or_else b c)
or_else_assoc none b c = refl
or_else_assoc (some v) b c = refl

pub or_else-none : (a : Option VmInfo) → or_else a none ≡ a
or_else-none none = refl
or_else-none (some v) = refl

-- The last explicit mapping for the address.
unfoldable pub last_explicit : Text → List MacVmMapping → Option VmInfo
last_explicit k [] = none
last_explicit k (e ∷ es) = or_else (last_explicit k es) (
    if text_eq (normalize_mac_address e.mac_address) k
    then some (record { name = e.vm_name; namespace = e.namespace })
    else none)

-- The VM has an interface with the address.
unfoldable pub has_mac : Text → List Interface → Bool
has_mac k [] = false
has_mac k (iface ∷ networks) =
    not (text_eq iface.mac_address []) && text_eq (normalize_mac_address iface.mac_address) k
    || has_mac k networks

unfoldable pub owns : Text → Option (List Interface) → Bool
owns k none = false
owns k (some networks) = has_mac k networks

abbrev pub info : Vm → VmInfo
info vm = record { name = vm.name; namespace = vm.namespace }

-- The last VM of the list with the address.
unfoldable pub last_owner : Text → List Vm → Option VmInfo
last_owner k [] = none
last_owner k (vm ∷ vms) =
    or_else (last_owner k vms) (if owns k vm.template then some (info vm) else none)

pub get-explicit_mapping :
    (k : Text) (es : List MacVmMapping) (m : Assoc VmInfo)
    → get k (explicit_mapping es m) ≡ or_else (last_explicit k es) (get k m)
unfolding explicit_mapping last_explicit
get-explicit_mapping k [] m = refl
get-explicit_mapping k (e ∷ es) m =
    let v : VmInfo = record { name = e.vm_name; namespace = e.namespace } in
    let j = normalize_mac_address e.mac_address in
    ground (arith, get-explicit_mapping k es (put j v m), get-put j k v m)

get-extract_interfaces :
    (k : Text) (vm : Vm) (networks : List Interface) (m : Assoc VmInfo)
    → get k (extract_interfaces vm networks m)
      ≡ (if has_mac k networks then some (info vm) else get k m)
unfolding extract_interfaces has_mac
get-extract_interfaces k vm [] m = refl
get-extract_interfaces k vm (iface ∷ networks) m =
    let j = normalize_mac_address iface.mac_address in
    ground (
      arith,
      get-extract_interfaces k vm networks m,
      get-extract_interfaces k vm networks (put j (info vm) m),
      get-put j k (info vm) m,
    )

get-extract_vm :
    (k : Text) (vm : Vm) (t : Option (List Interface)) (m : Assoc VmInfo)
    → get k (extract_vm vm t m) ≡ (if owns k t then some (info vm) else get k m)
unfolding extract_vm owns
get-extract_vm k vm none m = refl
get-extract_vm k vm (some networks) m = get-extract_interfaces k vm networks m

pub get-extract_macs_from_vms :
    (k : Text) (vms : List Vm) (m : Assoc VmInfo)
    → get k (extract_macs_from_vms vms m) ≡ or_else (last_owner k vms) (get k m)
unfolding extract_macs_from_vms last_owner
get-extract_macs_from_vms k [] m = refl
get-extract_macs_from_vms k (vm ∷ vms) m = ground (
  arith,
  get-extract_macs_from_vms k vms (extract_vm vm vm.template m),
  get-extract_vm k vm vm.template m,
)

pub extract-append :
    (xs ys : List Vm) (m : Assoc VmInfo)
    → extract_macs_from_vms (xs ++ ys) m ≡ extract_macs_from_vms ys (extract_macs_from_vms xs m)
unfolding extract_macs_from_vms
extract-append [] ys m = refl
extract-append (x ∷ xs) ys m = extract-append xs ys (extract_vm x x.template m)

extract-nil : (m : Assoc VmInfo) → extract_macs_from_vms [] m ≡ m
unfolding extract_macs_from_vms
extract-nil m = refl

-- The VMs of the namespaces that can be listed.
module _ {S : Type 0} (client : VmClient S) (s : S) (sel : Option Selector) where
  abbrev listed_in : Result Text (List Vm) → List Vm
  listed_in (ok vms) = vms
  listed_in (err e) = []

  unfoldable pub listed : List Text → List Vm
  listed [] = []
  listed (ns ∷ namespaces) = listed_in (client.list_vms s (some ns) sel) ++ listed namespaces

  pub discover_namespaces-listed :
      (namespaces : List Text) (m : Assoc VmInfo)
      → discover_namespaces client s sel namespaces m ≡ extract_macs_from_vms (listed namespaces) m
  unfolding discover_namespaces listed
  discover_namespaces-listed [] m = rw extract-nil
  discover_namespaces-listed (ns ∷ namespaces) m =
      elim (Result-cases (client.list_vms s (some ns) sel)) [
        | inl (vms, e) ↦
            rw (e, extract-append vms (listed namespaces) m)
              (discover_namespaces-listed namespaces (extract_macs_from_vms vms m))
        | inr (x, e) ↦ rw e (discover_namespaces-listed namespaces m)
      ]

-- The mapping is a map.
pub explicit_mapping-IsMap :
    (es : List MacVmMapping) (m : Assoc VmInfo) → IsMap m → IsMap (explicit_mapping es m)
unfolding explicit_mapping
explicit_mapping-IsMap [] m h = h
explicit_mapping-IsMap (e ∷ es) m h = explicit_mapping-IsMap es _ (
    put-IsMap (normalize_mac_address e.mac_address)
      (record { name = e.vm_name; namespace = e.namespace }) m h)

extract_interfaces-IsMap :
    (vm : Vm) (networks : List Interface) (m : Assoc VmInfo)
    → IsMap m
    → IsMap (extract_interfaces vm networks m)
unfolding extract_interfaces
extract_interfaces-IsMap vm [] m h = h
extract_interfaces-IsMap vm (iface ∷ networks) m h =
    elim (Bool-cases (not (text_eq iface.mac_address []))) [
      | inl named ↦ rw named (
          extract_interfaces-IsMap vm networks _
            (put-IsMap (normalize_mac_address iface.mac_address) (info vm) m h))
      | inr unnamed ↦ rw unnamed (extract_interfaces-IsMap vm networks m h)
    ]

extract_vm-IsMap :
    (vm : Vm) (t : Option (List Interface)) (m : Assoc VmInfo) → IsMap m → IsMap (extract_vm vm t m)
unfolding extract_vm
extract_vm-IsMap vm none m h = h
extract_vm-IsMap vm (some networks) m h = extract_interfaces-IsMap vm networks m h

pub extract_macs_from_vms-IsMap :
    (vms : List Vm) (m : Assoc VmInfo) → IsMap m → IsMap (extract_macs_from_vms vms m)
unfolding extract_macs_from_vms
extract_macs_from_vms-IsMap [] m h = h
extract_macs_from_vms-IsMap (vm ∷ vms) m h =
    extract_macs_from_vms-IsMap vms _ (extract_vm-IsMap vm vm.template m h)
