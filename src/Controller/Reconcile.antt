-- ===== src/Controller/Reconcile.antt =====
-- `Reconcile`: what holds when it returns without an error, and what an invalid config leaves.
use kubevirt_wol.Common.{
  ap, text_eq_refl, ℕ, ◌≡◌, refl, ◌⊎◌, inl, inr, List, Bool, true, none, some, Text, codes, arith,
  Assoc, pos, Result, ok, err, Result-cases,
}
use kubevirt_wol.Api.{WolConfig}
use kubevirt_wol.Cluster.{VmClient}
use kubevirt_wol.Kube.{DaemonSet, KubeClient, ApiError, not_found, failed}
use kubevirt_wol.Agents.{get_daemon_set_name, namespace_of, Operator, reconcile_agent_daemon_set}
use kubevirt_wol.Controller.{
  condition_type_ready, agent_status_of, with_condition, synced_config, State, Times, Outcome,
  finished, reconcile, reconcile_found, reconcile_valid, reconcile_agents, reconcile_refreshed,
  refresh_all_configs, ready_condition, reason_mapping_updated, requeue_after_ttl, ttl_delay,
  validate_config, update_status, update_agent_status,
}
use kubevirt_wol.Controller.Validate.{IsValid, validate_config_iff}
use kubevirt_wol.Controller.Conditions.{ready_of, set_condition_lem}

module _ {S : Type 0} (kube : KubeClient S) (vms : VmClient S) (op : Operator)
    (visit : Assoc Bool → List Text) (t : Times) (st : State S) where
  -- A status written for a refresh that counted `count` addresses.
  pub record Written (config written : WolConfig) (count : ℕ) : Type 0 where
    pub ready :
        ready_of written.status.conditions
        ≡ some (
            ready_condition t.written config true reason_mapping_updated
              (codes "VM mapping refreshed successfully"))
    pub counted : written.status.managed_vms ≡ count
    pub synced : written.status.last_sync ≡ some t.synced
    pub same_spec : written.spec ≡ config.spec

  -- A reconciliation of `config` that went all the way, with its result.
  pub record Completed (config : WolConfig) (result : State S × Outcome) : Type 0 where
    pub valid : IsValid config.spec
    pub validated : WolConfig
    pub accepted : validate_config config ≡ (validated, ok tt)
    pub with_agents : S
    pub agents : reconcile_agent_daemon_set kube op validated st.cluster ≡ (with_agents, ok tt)
    pub refreshed : State S
    pub count : ℕ
    pub mapped :
        refresh_all_configs kube vms op visit t.refreshed (record st { cluster = with_agents })
        ≡ (refreshed, ok count)
    pub written : WolConfig
    pub answered : WolConfig
    pub final : S
    pub status : kube.update_config_status refreshed.cluster written ≡ ok (final, answered)
    pub as_written : Written validated written count
    pub state : result.0 ≡ record refreshed { cluster = final }
    pub delay : result.1.requeue_after ≡ requeue_after_ttl (ttl_delay answered.spec.cache_ttl)

  with_condition-Written :
      (config config' : WolConfig) (count : ℕ)
      → config'.generation ≡ config.generation
      → config'.status.managed_vms ≡ count
      → config'.status.last_sync ≡ some t.synced
      → config'.spec ≡ config.spec
      → Written config
          (with_condition t.written config' true reason_mapping_updated
            (codes "VM mapping refreshed successfully"))
          count
  with_condition-Written config config' count g n l e = record {
    ready =
        rw (← g)
          (set_condition_lem
            (ready_condition t.written config' true reason_mapping_updated
              (codes "VM mapping refreshed successfully"))
            config'.status.conditions (text_eq_refl condition_type_ready)).0;
    counted = n;
    synced = l;
    same_spec = e;
  }

  agent_status_of-Written :
      (config : WolConfig) (count : ℕ) (found : Result ApiError DaemonSet)
      → Written config
          (with_condition t.written
            (agent_status_of kube vms op visit
              (synced_config kube vms op visit t config count)
              found)
            true
            reason_mapping_updated
            (codes "VM mapping refreshed successfully"))
          count
  agent_status_of-Written config count (err (not_found e)) =
      with_condition-Written config _ count refl refl refl refl
  agent_status_of-Written config count (err (failed e)) =
      with_condition-Written config _ count refl refl refl refl
  agent_status_of-Written config count (ok ds) =
      with_condition-Written config _ count refl refl refl refl

  reconcile_refreshed-Written :
      (config : WolConfig) (s₁ : State S) (count : ℕ)
      → (reconcile_refreshed kube vms op visit t config (s₁, ok count)).1.error ≡ none
      → (written : WolConfig) × (answered : WolConfig) × (final : S) × (kube.update_config_status
            s₁.cluster written
          ≡ ok (final, answered))
        × Written config written count
        × ((reconcile_refreshed kube vms op visit t config (s₁, ok count)).0
            ≡ record s₁ { cluster = final })
        × ((reconcile_refreshed kube vms op visit t config (s₁, ok count)).1.requeue_after
            ≡ requeue_after_ttl (ttl_delay answered.spec.cache_ttl))
  unfolding update_status update_agent_status
  reconcile_refreshed-Written config s₁ count h =
      let config' =
        update_agent_status kube vms op visit s₁.cluster
          (synced_config kube vms op visit t config count) in
      let w =
        with_condition t.written config' true reason_mapping_updated
          (codes "VM mapping refreshed successfully") in
      let made = agent_status_of-Written config count (
        kube.get_daemon_set s₁.cluster (namespace_of op)
          (get_daemon_set_name (synced_config kube vms op visit t config count))) in
      elim (Result-cases (kube.update_config_status s₁.cluster w)) [
        | inl ((s, answered), e) ↦ (w, answered, s, e, made, rw e refl, rw e refl)
        | inr (x, e) ↦ absurd (ground (arith, e))
      ]

  refreshed-Completed :
      (config c : WolConfig) (s : S) (r : State S × Result Text ℕ)
      → validate_config config ≡ (c, ok tt)
      → reconcile_agent_daemon_set kube op c st.cluster ≡ (s, ok tt)
      → refresh_all_configs kube vms op visit t.refreshed (record st { cluster = s }) ≡ r
      → (reconcile_refreshed kube vms op visit t c r).1.error ≡ none
      → Completed config (reconcile_refreshed kube vms op visit t c r)
  refreshed-Completed config c s (s₁, err e) v a m h = cc
  refreshed-Completed config c s (s₁, ok count) v a m h =
      let (written, answered, final, status, made, state, delay) =
        reconcile_refreshed-Written c s₁ count h in
      record {
        valid = (validate_config_iff config).0 (ap (λ r. r.1) v);
        validated = c;
        accepted = v;
        with_agents = s;
        agents = a;
        refreshed = s₁;
        count = count;
        mapped = m;
        written = written;
        answered = answered;
        final = final;
        status = status;
        as_written = made;
        state = state;
        delay = delay;
      }

  agents-Completed :
      (config c : WolConfig) (a : S × Result Text (Unit {0}))
      → validate_config config ≡ (c, ok tt)
      → reconcile_agent_daemon_set kube op c st.cluster ≡ a
      → (reconcile_agents kube vms op visit t c st a).1.error ≡ none
      → Completed config (reconcile_agents kube vms op visit t c st a)
  agents-Completed config c (s, err e) v a h = cc
  agents-Completed config c (s, ok u) v a h =
      refreshed-Completed config c s
        (refresh_all_configs kube vms op visit t.refreshed (record st { cluster = s })) v a refl h

  valid-Completed :
      (config : WolConfig) (v : WolConfig × Result Text (Unit {0}))
      → validate_config config ≡ v
      → (reconcile_valid kube vms op visit t st v).1.error ≡ none
      → Completed config (reconcile_valid kube vms op visit t st v)
  valid-Completed config (c, err e) v h = cc
  valid-Completed config (c, ok u) v h =
      agents-Completed config c (reconcile_agent_daemon_set kube op c st.cluster) v refl h

  -- Either the WolConfig is gone and nothing happened, or it went all the way.
  abbrev pub Settled : Result ApiError WolConfig → State S × Outcome → Type 0
  Settled found result =
      ((e : Text) × (found ≡ err (not_found e)) × (result ≡ (st, finished (pos 0))))
      ⊎ ((config : WolConfig) × (found ≡ ok config) × Completed config result)

  found-Settled :
      (found : Result ApiError WolConfig)
      → (reconcile_found kube vms op visit t st found).1.error ≡ none
      → Settled found (reconcile_found kube vms op visit t st found)
  found-Settled (err (not_found e)) h = inl (e, refl, refl)
  found-Settled (err (failed e)) h = cc
  found-Settled (ok config) h =
      inr (config, refl, valid-Completed config (validate_config config) refl h)

  -- When a reconciliation returns no error, either the WolConfig is gone and nothing happened; or it is
  -- valid, its DaemonSet was reconciled with its defaults written in, then the mapper was refreshed from
  -- all WolConfigs, and the status that was written has a true Ready condition, the number of addresses
  -- mapped and the time; and the next reconciliation is due after the TTL of the config as that write
  -- left it.
  pub reconcile-Settled :
      (name : Text)
      → (reconcile kube vms op visit t name st).1.error ≡ none
      → Settled (kube.get_config st.cluster name) (reconcile kube vms op visit t name st)
  unfolding reconcile
  reconcile-Settled name h = found-Settled (kube.get_config st.cluster name) h
