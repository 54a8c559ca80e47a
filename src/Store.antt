-- ===== src/Store.antt =====
-- A small cluster for the tests: one VM, one WolConfig and at most one DaemonSet.
use kubevirt_wol.Common.{
  inl, inr, Bool-cases, ◌≡◌, refl, List, [], ◌∷◌, Bool, ◌&&◌, Option, none, some, Text, codes,
  text_eq, text_eq_refl, text_eq_iff, Assoc, pos, Result, ok, err, if◌then◌else◌, map, arith,
}
use kubevirt_wol.Api.{WolConfig}
use kubevirt_wol.Cluster.{Vm, VmClient}
use kubevirt_wol.Kube.{DaemonSet, ApiError, not_found, failed, KubeClient, Service}
use kubevirt_wol.Agents.Reconciled.{Keeps}
use kubevirt_wol.Examples.{selects_wol}

pub record Store : Type 0 where
  pub vm : Vm
  pub config : WolConfig
  pub daemon_set : Option DaemonSet

abbrev pub store_vms : VmClient Store
store_vms = record {
  list_vms = λ s ns sel. elim sel [
    | none ↦ ok (s.vm ∷ [])
    | some p ↦ ok (if p s.vm.labels then s.vm ∷ [] else [])
  ];
  get_vm = λ s ns name. ok s.vm;
  patch_vm = λ s vm vm'. ok (record s { vm = vm' });
  as_selector = λ raw. ok selects_wol;
}

abbrev pub find_daemon_set : Text → Text → Option DaemonSet → Result ApiError DaemonSet
find_daemon_set ns name none = err (not_found (codes "no DaemonSet"))
find_daemon_set ns name (some ds) =
    if text_eq ds.namespace ns && text_eq ds.name name
    then ok ds
    else err (not_found (codes "no such DaemonSet"))

abbrev pub list_of : Option DaemonSet → List DaemonSet
list_of none = []
list_of (some ds) = ds ∷ []

abbrev grpc_service : Service
grpc_service = record {
  name = codes "grpc";
  namespace = codes "wol";
  ports = record { name = codes "grpc"; port = pos 9090 } ∷ [];
}

abbrev pub store_kube : KubeClient Store
store_kube = record {
  get_config = λ s name.
      if text_eq s.config.name name then ok s.config else err (not_found (codes "no WolConfig"));
  list_configs = λ s. ok (s.config ∷ []);
  update_config = λ s config. ok (record s { config = config });
  update_config_status =
      λ s config. ok (record s { config = record s.config { status = config.status } }, config);
  list_service_accounts = λ s ns labels. ok [];
  list_services = λ s ns labels. ok (grpc_service ∷ []);
  get_daemon_set = λ s ns name. find_daemon_set ns name s.daemon_set;
  list_daemon_sets = λ s ns. ok (list_of s.daemon_set);
  create_daemon_set = λ s ds. ok (record s { daemon_set = some ds });
  update_daemon_set = λ s ds. ok (record s { daemon_set = some ds });
  set_controller_reference = λ config ds. ok (record ds { owners = config.name ∷ [] });
}

-- An API that answers no call.
abbrev pub down_kube : KubeClient Store
down_kube = record {
  get_config = λ s name. err (failed (codes "down"));
  list_configs = λ s. err (codes "down");
  update_config = λ s config. err (codes "down");
  update_config_status = λ s config. err (codes "down");
  list_service_accounts = λ s ns labels. err (codes "down");
  list_services = λ s ns labels. err (codes "down");
  get_daemon_set = λ s ns name. err (failed (codes "down"));
  list_daemon_sets = λ s ns. err (codes "down");
  create_daemon_set = λ s ds. err (codes "down");
  update_daemon_set = λ s ds. err (codes "down");
  set_controller_reference = λ config ds. err (codes "down");
}

-- the keys of a map in the order in which they stand
abbrev pub keys : Assoc Bool → List Text
keys m = map (λ (k, v). k) m

found-stored :
    (s : Store) (ds : DaemonSet) {s' : Store}
    → (let r : Result Text Store = ok (record s { daemon_set = some ds }) in r) ≡ ok s'
    → find_daemon_set ds.namespace ds.name s'.daemon_set ≡ ok ds
found-stored s ds {s'} h =
    let e : record s { daemon_set = some ds } ≡ s' = cc in
    rw (← e) (ground (arith, text_eq_refl ds.namespace, text_eq_refl ds.name))

found-named :
    (ns name : Text) (o : Option DaemonSet) {ds : DaemonSet}
    → find_daemon_set ns name o ≡ ok ds
    → (ds.namespace ≡ ns) × (ds.name ≡ name)
found-named ns name none h = cc
found-named ns name (some d) {ds} h =
    elim (Bool-cases (text_eq d.namespace ns && text_eq d.name name)) [
      | inl e ↦
          let same : d ≡ ds = ground arith in
          rw (← same) (ground (arith, text_eq_iff d.namespace ns, text_eq_iff d.name name))
      | inr e ↦ absurd (ground (arith, e))
    ]

pub store_kube-Keeps : Keeps store_kube
store_kube-Keeps = record {
  created = λ {s} {s'} {ds} h. (ds, found-stored s ds h, refl);
  updated = λ {s} {s'} {ds} h. (ds, found-stored s ds h, refl);
  named = λ {s} {namespace} {name} h. found-named namespace name s.daemon_set h;
  owned = λ {config} {ds} {ds'} h.
      let e : record ds { owners = config.name ∷ [] } ≡ ds' = cc in rw (← e) (refl, refl, refl);
}
