-- ===== src/Startup/Built.antt =====
-- What a reconciliation builds has not drifted.
use kubevirt_wol.Common.{sym, ◌∙◌, ap, ◌≡◌, ◌≢◌, refl, List, [], ◌∷◌, Text}
use kubevirt_wol.Api.{WolConfig}
use kubevirt_wol.Kube.{Container, DaemonSet, KubeClient}
use kubevirt_wol.Agents.{
  agent_container, default_agent_image, or_default, agent_pod_spec, build_agent_daemon_set,
  image_of, Operator,
}
use kubevirt_wol.Startup.Drift.{Drifted}

module _ {S : Type 0} (kube : KubeClient S) (op : Operator) where
  image_of-agent :
      (config : WolConfig)
      → config.spec.agent.image ≡ []
      → op.agent_image ≢ []
      → image_of op config ≡ op.agent_image
  image_of-agent config own h = rw own (or_default_of_ne op.agent_image h)
    where
      or_default_of_ne : (t : Text) → t ≢ [] → or_default t default_agent_image ≡ t
      or_default_of_ne [] h = absurd (h refl)
      or_default_of_ne (c ∷ t) h = refl

  -- A DaemonSet with the spec that a reconciliation builds has not drifted, as long as the image that its
  -- WolConfig names stays the same: the check finds nothing more to do.
  pub built-Drifted :
      (s : S) (ds : DaemonSet) (built config : WolConfig) (name address account : Text)
      → ds.spec ≡ (build_agent_daemon_set op built name address account).spec
      → built.spec.agent.image ≡ config.spec.agent.image
      → ¬ Drifted kube op s ds config
  unfolding build_agent_daemon_set agent_pod_spec agent_container
  built-Drifted s ds built config name address account e same d =
      let listed : ◌≡◌ {A = List Container} (agent_container op built address ∷ [])
          (d.container ∷ d.sidecars) =
        ap (λ x. x.template_spec.containers) (sym e) ∙ d.containers in
      let first : agent_container op built address ≡ d.container = cc in
      d.other_image
        (ap (λ c. c.image) (sym first) ∙ image_of-agent built (same ∙ d.no_override) d.has_image)
