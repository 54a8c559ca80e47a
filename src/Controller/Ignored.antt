-- ===== src/Controller/Ignored.antt =====
-- What `refreshAllConfigs` does not depend on.
use kubevirt_wol.Common.{
  Option-cases, ap, inl, inr, Result-cases, ℕ, ◌≡◌, refl, List, [], ◌∷◌, Bool, true, false, ◌||◌,
  some, Text, arith, Assoc, get, put, get-put, text_eq, Result, ok, if◌then◌else◌, is_some,
}
use kubevirt_wol.Api.{WolConfig, DiscoveryMode, all, label_selector, explicit, unset, other}
use kubevirt_wol.Cluster.{VmClient, Metrics}
use kubevirt_wol.Kube.{KubeClient}
use kubevirt_wol.Mapper.{MacMapper, refresh_mapping, new_mapping}
use kubevirt_wol.Agents.{Operator}
use kubevirt_wol.Controller.{State, refresh_all_configs, add_namespaces, after_refresh}
use kubevirt_wol.Controller.Merge.{
  explicit_of, namespaces_of, visited, merged_by, merged, refresh-merged, collected, mappings_in,
  namespaces_in,
}

abbrev keep_in : WolConfig → DiscoveryMode → List WolConfig → List WolConfig
keep_in config label_selector rest = rest
keep_in config _ rest = config ∷ rest

-- The configs that are not in LabelSelector mode.
unfoldable pub without_selectors : List WolConfig → List WolConfig
without_selectors [] = []
without_selectors (config ∷ configs) =
    keep_in config config.spec.discovery_mode (without_selectors configs)

explicit_of-keep_in :
    (config : WolConfig) (mode : DiscoveryMode) (rest : List WolConfig)
    → config.spec.discovery_mode ≡ mode
    → explicit_of (keep_in config mode rest) ≡ mappings_in config mode (explicit_of rest)
unfolding explicit_of
explicit_of-keep_in config all rest h = rw h
explicit_of-keep_in config label_selector rest h = refl
explicit_of-keep_in config explicit rest h = rw h
explicit_of-keep_in config unset rest h = rw h
explicit_of-keep_in config (other t) rest h = rw h

namespaces_of-keep_in :
    (config : WolConfig) (mode : DiscoveryMode) (rest : List WolConfig)
    → config.spec.discovery_mode ≡ mode
    → namespaces_of (keep_in config mode rest) ≡ namespaces_in config mode (namespaces_of rest)
unfolding namespaces_of
namespaces_of-keep_in config all rest h = rw h
namespaces_of-keep_in config label_selector rest h = refl
namespaces_of-keep_in config explicit rest h = rw h
namespaces_of-keep_in config unset rest h = rw h
namespaces_of-keep_in config (other t) rest h = rw h

explicit_of-without_selectors :
    (configs : List WolConfig) → explicit_of (without_selectors configs) ≡ explicit_of configs
unfolding explicit_of without_selectors
explicit_of-without_selectors [] = refl
explicit_of-without_selectors (config ∷ configs) = rw (
  explicit_of-keep_in config config.spec.discovery_mode (without_selectors configs) refl,
  explicit_of-without_selectors configs,
)

namespaces_of-without_selectors :
    (configs : List WolConfig) → namespaces_of (without_selectors configs) ≡ namespaces_of configs
unfolding namespaces_of without_selectors
namespaces_of-without_selectors [] = refl
namespaces_of-without_selectors (config ∷ configs) = rw (
  namespaces_of-keep_in config config.spec.discovery_mode (without_selectors configs) refl,
  namespaces_of-without_selectors configs,
)

-- the mapper and the result
abbrev seen_of : {S : Type 0} → State S × Result Text ℕ → MacMapper × Result Text ℕ
seen_of (st, r) = (st.mapper, r)

module _ {S : Type 0} (kube kube' : KubeClient S) (vms : VmClient S) (op : Operator)
    (visit : Assoc Bool → List Text) (now : ℕ) (st : State S) where
  seen-metrics :
      (m : MacMapper) (metrics metrics' : Metrics)
      → seen_of (
          after_refresh kube vms op visit st.cluster (refresh_mapping vms st.cluster now m metrics))
        ≡ seen_of (
            after_refresh kube' vms op visit st.cluster
              (refresh_mapping vms st.cluster now m metrics'))
  unfolding refresh_mapping
  seen-metrics m metrics metrics' = elim (Option-cases m.config) [
    | inl no_config ↦ rw no_config refl
    | inr (config, e) ↦ elim (Result-cases (new_mapping vms st.cluster config)) [
      | inl (mapping, f) ↦ rw (e, f) refl
      | inr (x, f) ↦ rw (e, f) refl
    ]
  ]

  -- To remove the configs in LabelSelector mode from the cluster changes neither the mapper nor the count
  -- of a refresh, whatever their selectors.
  pub selectors_ignored :
      (configs : List WolConfig)
      → kube.list_configs st.cluster ≡ ok configs
      → kube'.list_configs st.cluster ≡ ok (without_selectors configs)
      → ((refresh_all_configs kube vms op visit now st).0.mapper
          ≡ (refresh_all_configs kube' vms op visit now st).0.mapper)
        × ((refresh_all_configs kube vms op visit now st).1
            ≡ (refresh_all_configs kube' vms op visit now st).1)
  unfolding merged merged_by
  selectors_ignored configs h h' =
      let before = refresh-merged kube vms op visit now st configs h in
      let after = refresh-merged kube' vms op visit now st (without_selectors configs) h' in
      let same =
        seen-metrics (merged kube vms op visit now st configs h)
          (collected kube vms op visit now st.cluster configs st.metrics).metrics
          (collected kube' vms op visit now st.cluster (without_selectors configs)
            st.metrics).metrics in
      let e = explicit_of-without_selectors configs in
      let n = namespaces_of-without_selectors configs in
      (rw (before, after, e, n) (ap (λ p. p.0) same), rw (before, after, e, n) (ap (λ p. p.1) same))

-- the text stands in the list
unfoldable pub is_in : Text → List Text → Bool
is_in t [] = false
is_in t (s ∷ l) = text_eq s t || is_in t l

get-add_namespaces :
    (ns : Text) (l : List Text) (m : Assoc Bool)
    → get ns (add_namespaces l m) ≡ (if is_in ns l then some true else get ns m)
unfolding add_namespaces is_in
get-add_namespaces ns [] m = refl
get-add_namespaces ns (x ∷ l) m =
    ground (arith, get-add_namespaces ns l (put x true m), get-put x ns true m)

-- Where `range` visits exactly the keys of a map, in whatever order, the namespaces whose VMs are
-- listed are exactly those that some config in All mode names.
pub visited_iff :
    {S : Type 0} (kube : KubeClient S) (vms : VmClient S) (op : Operator)
    (visit : Assoc Bool → List Text) (now : ℕ) (s : S) (configs : List WolConfig) (ns : Text)
    → ((m : Assoc Bool) (k : Text) → is_in k (visit m) ≡ is_some (get k m))
    → is_in ns (visited kube vms op visit now s configs) ≡ is_in ns (namespaces_of configs)
unfolding get
visited_iff kube vms op visit now s configs ns law = ground (
  arith,
  law (add_namespaces (namespaces_of configs) []) ns,
  get-add_namespaces ns (namespaces_of configs) [],
)
