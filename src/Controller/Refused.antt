-- ===== src/Controller/Refused.antt =====
-- A reconciliation of a config that is not valid.
use kubevirt_wol.Common.{
  ap, text_eq_refl, ◌≡◌, refl, ◌⊎◌, inl, inr, List, Bool, false, some, Text, Assoc, pos, Result, ok,
  err, Result-cases,
}
use kubevirt_wol.Api.{WolConfig}
use kubevirt_wol.Cluster.{VmClient}
use kubevirt_wol.Kube.{KubeClient}
use kubevirt_wol.Agents.{Operator}
use kubevirt_wol.Controller.{
  failed_after, condition_type_ready, with_condition, State, Times, Outcome, reconcile,
  reconcile_valid, ready_condition, reason_invalid_config, validate_config, update_status,
}
use kubevirt_wol.Controller.Validate.{IsValid, validate_config_iff}
use kubevirt_wol.Controller.Conditions.{ready_of, set_condition_lem}

module _ {S : Type 0} (kube : KubeClient S) (vms : VmClient S) (op : Operator)
    (visit : Assoc Bool → List Text) (t : Times) (st : State S) where
  -- The config was refused with the error `e`: at most its status was written.
  abbrev pub Refused : WolConfig → Text → State S × Outcome → Type 0
  Refused config e result =
      (result.1 ≡ failed_after (pos 0) e)
      × (result.0.mapper ≡ st.mapper)
      × (result.0.metrics ≡ st.metrics)
      × ((result.0.cluster ≡ st.cluster)
          ⊎ ((written : WolConfig) × (answered : WolConfig) × (kube.update_config_status st.cluster
                  written
                ≡ ok (result.0.cluster, answered))
              × (ready_of written.status.conditions
                  ≡ some (ready_condition t.written config false reason_invalid_config e))))

  pub give_up-Refused :
      (c : WolConfig) (e : Text) → Refused c e (reconcile_valid kube vms op visit t st (c, err e))
  unfolding update_status
  give_up-Refused c e =
      let w = with_condition t.written c false reason_invalid_config e in
      elim (Result-cases (kube.update_config_status st.cluster w)) [
        | inl ((s, answered), h) ↦ (
          refl,
          refl,
          refl,
          inr (
            w,
            answered,
            rw h refl,
            (set_condition_lem (ready_condition t.written c false reason_invalid_config e)
                c.status.conditions (text_eq_refl condition_type_ready)).0,
          ),
        )
        | inr (x, h) ↦ (refl, refl, refl, inl (rw h refl))
      ]

  pub valid-Refused :
      (config : WolConfig) (v : WolConfig × Result Text (Unit {0}))
      → validate_config config ≡ v
      → ¬ IsValid config.spec
      → (e : Text) × Refused v.0 e (reconcile_valid kube vms op visit t st v)
  valid-Refused config (c, err e) h invalid = (e, give_up-Refused c e)
  valid-Refused config (c, ok u) h invalid =
      absurd (invalid ((validate_config_iff config).0 (ap (λ r. r.1) h)))

  -- A config that is not valid reaches neither its DaemonSet nor the mapper: at most its status is
  -- written, with a Ready condition that is false and tells the error, which is returned.
  pub reconcile-Refused :
      (name : Text) (config : WolConfig)
      → kube.get_config st.cluster name ≡ ok config
      → ¬ IsValid config.spec
      → (e : Text) × Refused (validate_config config).0 e (reconcile kube vms op visit t name st)
  unfolding reconcile
  reconcile-Refused name config found invalid =
      rw found (valid-Refused config (validate_config config) refl invalid)
