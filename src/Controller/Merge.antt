-- ===== src/Controller/Merge.antt =====
-- `refreshAllConfigs`: what the mapper finds after the configs were merged.
use kubevirt_wol.Common.{
  sym, ◌∙◌, ℕ, ◌≡◌, ◌≢◌, refl, List, [], ◌∷◌, ◌++◌, Bool, true, Option, none, Text, Assoc, put,
  Result, ok, err, append_assoc, append-nil,
}
use kubevirt_wol.Api.{
  WolConfig, MacVmMapping, DiscoveryMode, all, label_selector, explicit, unset, other,
}
use kubevirt_wol.Cluster.{VmClient, Vm, Metrics}
use kubevirt_wol.Kube.{KubeClient}
use kubevirt_wol.Mapper.{
  VmInfo, get_mapping_count, lookup, normalize_mac_address, MacMapper, refresh_mapping,
  update_config,
}
use kubevirt_wol.Mapper.Lookup.{last_explicit, last_owner}
use kubevirt_wol.Mapper.Refresh.{lookup-refresh_explicit, lookup-refresh_discovered}
use kubevirt_wol.Mapper.NewMapping.{watched, every}
use kubevirt_wol.Agents.{Operator}
use kubevirt_wol.Controller.{
  collect, collect_in, Collected, add_namespaces, merged_config, merged_mode, State,
  refresh_all_configs, after_refresh,
}

-- The mappings of the configs in Explicit mode, one config after the other.
abbrev pub mappings_in : WolConfig → DiscoveryMode → List MacVmMapping → List MacVmMapping
mappings_in config explicit rest = config.spec.explicit_mappings ++ rest
mappings_in config _ rest = rest

unfoldable pub explicit_of : List WolConfig → List MacVmMapping
explicit_of [] = []
explicit_of (config ∷ configs) = mappings_in config config.spec.discovery_mode (explicit_of configs)

-- The namespaces that the configs in All mode name.
abbrev pub namespaces_in : WolConfig → DiscoveryMode → List Text → List Text
namespaces_in config all rest = config.spec.namespace_selectors ++ rest
namespaces_in config _ rest = rest

unfoldable pub namespaces_of : List WolConfig → List Text
namespaces_of [] = []
namespaces_of (config ∷ configs) =
    namespaces_in config config.spec.discovery_mode (namespaces_of configs)

merged_mode-explicit : (es : List MacVmMapping) → es ≢ [] → merged_mode es ≡ explicit
merged_mode-explicit [] h = absurd (h refl)
merged_mode-explicit (e ∷ es) h = refl

add_namespaces-append :
    (xs ys : List Text) (m : Assoc Bool)
    → add_namespaces (xs ++ ys) m ≡ add_namespaces ys (add_namespaces xs m)
unfolding add_namespaces
add_namespaces-append [] ys m = refl
add_namespaces-append (x ∷ xs) ys m = add_namespaces-append xs ys (put x true m)

module _ {S : Type 0} (kube : KubeClient S) (vms : VmClient S) (op : Operator)
    (visit : Assoc Bool → List Text) (now : ℕ) (s : S) where
  collect_in-mappings :
      (config : WolConfig) (c : Collected) (mode : DiscoveryMode) (rest : List MacVmMapping)
      → (collect_in kube vms op visit now s config c mode).mappings ++ rest
        ≡ c.mappings ++ mappings_in config mode rest
  collect_in-mappings config c all rest = refl
  collect_in-mappings config c label_selector rest = refl
  collect_in-mappings config c explicit rest =
      append_assoc c.mappings config.spec.explicit_mappings rest
  collect_in-mappings config c unset rest = refl
  collect_in-mappings config c (other t) rest = refl

  collect-mappings :
      (configs : List WolConfig) (c : Collected)
      → (collect kube vms op visit now s configs c).mappings ≡ c.mappings ++ explicit_of configs
  unfolding collect explicit_of
  collect-mappings [] c = sym (append-nil c.mappings)
  collect-mappings (config ∷ configs) c =
      collect-mappings configs
        (collect_in kube vms op visit now s config c config.spec.discovery_mode)
      ∙ collect_in-mappings config c config.spec.discovery_mode (explicit_of configs)

  collect_in-namespaces :
      (config : WolConfig) (c : Collected) (mode : DiscoveryMode) (rest : List Text)
      → add_namespaces rest (collect_in kube vms op visit now s config c mode).namespaces
        ≡ add_namespaces (namespaces_in config mode rest) c.namespaces
  collect_in-namespaces config c all rest =
      sym (add_namespaces-append config.spec.namespace_selectors rest c.namespaces)
  collect_in-namespaces config c label_selector rest = refl
  collect_in-namespaces config c explicit rest = refl
  collect_in-namespaces config c unset rest = refl
  collect_in-namespaces config c (other t) rest = refl

  collect-namespaces :
      (configs : List WolConfig) (c : Collected)
      → (collect kube vms op visit now s configs c).namespaces
        ≡ add_namespaces (namespaces_of configs) c.namespaces
  unfolding collect namespaces_of add_namespaces
  collect-namespaces [] c = refl
  collect-namespaces (config ∷ configs) c =
      collect-namespaces configs
        (collect_in kube vms op visit now s config c config.spec.discovery_mode)
      ∙ collect_in-namespaces config c config.spec.discovery_mode (namespaces_of configs)

  -- The namespaces that `range` visits, after all configs.
  abbrev pub visited : List WolConfig → List Text
  visited configs = visit (add_namespaces (namespaces_of configs) [])

  unfoldable pub collected : List WolConfig → Metrics → Collected
  collected configs metrics =
      collect kube vms op visit now s configs
        (record { namespaces = []; mappings = []; metrics = metrics })

  unfoldable pub merged_by : List WolConfig → WolConfig
  merged_by configs = merged_config (visited configs) (explicit_of configs)

  merged-collected :
      (configs : List WolConfig) (metrics : Metrics)
      → merged_config
          (visit (collected configs metrics).namespaces)
          (collected configs metrics).mappings
        ≡ merged_by configs
  unfolding collected merged_by
  merged-collected configs metrics =
      let c : Collected = record { namespaces = []; mappings = []; metrics = metrics } in
      rw (collect-mappings configs c, collect-namespaces configs c)

  after_refresh-ok :
      (r : MacMapper × Metrics × Result Text (Unit {0}))
      → r.2 ≡ ok tt
      → ((after_refresh kube vms op visit s r).0.mapper ≡ r.0)
        × ((after_refresh kube vms op visit s r).1 ≡ ok (get_mapping_count r.0))
  after_refresh-ok (mapper, metrics, ok u) h = (refl, refl)
  after_refresh-ok (mapper, metrics, err e) h = cc

module _ {S : Type 0} (kube : KubeClient S) (vms : VmClient S) (op : Operator)
    (visit : Assoc Bool → List Text) (now : ℕ) (st : State S) (configs : List WolConfig)
    (listed : kube.list_configs st.cluster ≡ ok configs) where
  -- the merged mapper before it is refreshed
  unfoldable pub merged : MacMapper
  merged = update_config (merged_by kube vms op visit now st.cluster configs) st.mapper

  pub refresh-merged :
      refresh_all_configs kube vms op visit now st
      ≡ after_refresh kube vms op visit st.cluster (
          refresh_mapping vms st.cluster now merged
            (collected kube vms op visit now st.cluster configs st.metrics).metrics)
  unfolding refresh_all_configs collected merged
  refresh-merged = rw (listed, merged-collected kube vms op visit now st.cluster configs st.metrics)

  refresh-result :
      (mac : Text) (o : Option VmInfo)
      → ((refresh_mapping vms st.cluster now merged
            (collected kube vms op visit now st.cluster configs st.metrics).metrics).2
          ≡ ok tt)
        × (lookup mac
              (refresh_mapping vms st.cluster now merged
                (collected kube vms op visit now st.cluster configs st.metrics).metrics).0
            ≡ o)
      → (n : ℕ) × ((refresh_all_configs kube vms op visit now st).1 ≡ ok n)
        × (lookup mac (refresh_all_configs kube vms op visit now st).0.mapper ≡ o)
  refresh-result mac o (fine, finds) =
      let r =
        refresh_mapping vms st.cluster now merged
          (collected kube vms op visit now st.cluster configs st.metrics).metrics in
      let (kept, counted) = after_refresh-ok kube vms op visit now st.cluster r fine in
      (get_mapping_count r.0, rw refresh-merged counted, rw (refresh-merged, kept) finds)

  -- Where a config in Explicit mode has a mapping, the refresh succeeds and the mapper finds the
  -- last mapping of all the configs in Explicit mode for the address, and nothing else: what the
  -- configs in the other modes ask for is not mapped.
  pub merge_explicit :
      (mac : Text)
      → explicit_of configs ≢ []
      → (n : ℕ) × ((refresh_all_configs kube vms op visit now st).1 ≡ ok n)
        × (lookup mac (refresh_all_configs kube vms op visit now st).0.mapper
            ≡ last_explicit (normalize_mac_address mac) (explicit_of configs))
  unfolding merged merged_by merged_config update_config
  merge_explicit mac some_mapping =
      refresh-result mac (last_explicit (normalize_mac_address mac) (explicit_of configs)) (
        lookup-refresh_explicit vms st.cluster now merged
          (collected kube vms op visit now st.cluster configs st.metrics).metrics
          (merged_by kube vms op visit now st.cluster configs) mac refl
          (merged_mode-explicit (explicit_of configs) some_mapping))

  -- Where none has, and the VMs in view can be listed, the mapper finds the last VM with the
  -- address among those of the namespaces collected from the configs in All mode, in the order in
  -- which `range` visits them, or of the whole cluster if there is none.
  pub merge_discovered :
      (mac : Text) {found : List Vm}
      → explicit_of configs ≡ []
      → watched vms st.cluster none (visited kube vms op visit now st.cluster configs) ≡ ok found
      → (n : ℕ) × ((refresh_all_configs kube vms op visit now st).1 ≡ ok n)
        × (lookup mac (refresh_all_configs kube vms op visit now st).0.mapper
            ≡ last_owner (normalize_mac_address mac) found)
  unfolding merged merged_by merged_config update_config
  merge_discovered mac {found} no_mapping view =
      let mode : merged_mode (explicit_of configs) ≡ all = rw no_mapping refl in
      refresh-result mac (last_owner (normalize_mac_address mac) found) (
        lookup-refresh_discovered vms st.cluster now merged
          (collected kube vms op visit now st.cluster configs st.metrics).metrics
          (merged_by kube vms op visit now st.cluster configs) mac {sel = none} refl
          (every (λ h. cc) (λ h. cc) refl) view)
