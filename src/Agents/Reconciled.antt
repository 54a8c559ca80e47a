-- ===== src/Agents/Reconciled.antt =====
-- What `reconcileAgentDaemonSet` leaves in the cluster, where the API behaves as documented.
use kubevirt_wol.Common.{◌∙◌, codes, ap, ◌≡◌, refl, Text, arith, Result, ok, err}
use kubevirt_wol.Api.{WolConfig}
use kubevirt_wol.Kube.{DaemonSet, DaemonSetSpec, ApiError, not_found, failed, KubeClient}
use kubevirt_wol.Agents.{
  failing, Operator, namespace_of, get_daemon_set_name, build_agent_daemon_set,
  discover_operator_address, discover_agent_service_account, reconcile_agent_daemon_set,
  create_or_update, reconcile_owned, reconcile_with,
}

-- There is a DaemonSet of that name, with that spec.
abbrev pub Runs : {S : Type 0} → KubeClient S → S → Text → Text → DaemonSetSpec → Type 0
Runs client s namespace name spec =
    (ds : DaemonSet) × (client.get_daemon_set s namespace name ≡ ok ds) × (ds.spec ≡ spec)

module _ {S : Type 0} (client : KubeClient S) where
  -- A DaemonSet that was written is found as it was written, and a DaemonSet is found by its own name.
  pub record Keeps : Type 0 where
    pub created :
        {s s' : S} {ds : DaemonSet}
        → client.create_daemon_set s ds ≡ ok s'
        → Runs client s' ds.namespace ds.name ds.spec
    pub updated :
        {s s' : S} {ds : DaemonSet}
        → client.update_daemon_set s ds ≡ ok s'
        → Runs client s' ds.namespace ds.name ds.spec
    pub named :
        {s : S} {namespace name : Text} {ds : DaemonSet}
        → client.get_daemon_set s namespace name ≡ ok ds
        → (ds.namespace ≡ namespace) × (ds.name ≡ name)
    pub owned :
        {config : WolConfig} {ds ds' : DaemonSet}
        → client.set_controller_reference config ds ≡ ok ds'
        → (ds'.namespace ≡ ds.namespace) × (ds'.name ≡ ds.name) × (ds'.spec ≡ ds.spec)

module _ {S : Type 0} (client : KubeClient S) (op : Operator) (config : WolConfig) (s : S) where
  -- A DaemonSet that cannot be reconciled leaves the cluster as it was.
  pub reconcile-err :
      {e : Text}
      → (reconcile_agent_daemon_set client op config s).1 ≡ err e
      → (reconcile_agent_daemon_set client op config s).0 ≡ s
  unfolding reconcile_agent_daemon_set
  reconcile-err h = ground arith

  failing-ok :
      {s' : S} {u : Unit {0}} (what : Text) (r : Result Text S)
      → failing client op what s r ≡ (s', ok u)
      → r ≡ ok s'
  failing-ok what (ok s'') h = ground arith
  failing-ok what (err e) h = cc

  create_or_update-Runs :
      {s' : S} {u : Unit {0}} (desired : DaemonSet) (namespace name : Text)
      (found : Result ApiError DaemonSet)
      → Keeps client
      → client.get_daemon_set s namespace name ≡ found
      → desired.namespace ≡ namespace
      → desired.name ≡ name
      → create_or_update client op s desired found ≡ (s', ok u)
      → Runs client s' namespace name desired.spec
  create_or_update-Runs desired namespace name (err (not_found e)) law f hn hm h =
      rw (← hn, ← hm)
        (law.created (
          failing-ok (codes "failed to create DaemonSet: ") (client.create_daemon_set s desired) h))
  create_or_update-Runs desired namespace name (err (failed e)) law f hn hm h = cc
  create_or_update-Runs desired namespace name (ok existing) law f hn hm h =
      let (n, m) = law.named f in
      rw (← n, ← m)
        (law.updated (
          failing-ok (codes "failed to update DaemonSet: ")
            (client.update_daemon_set s (record existing { spec = desired.spec })) h))

  reconcile_owned-Runs :
      {s' : S} {u : Unit {0}} (desired : DaemonSet) (name : Text) (r : Result Text DaemonSet)
      → Keeps client
      → client.set_controller_reference config desired ≡ r
      → desired.namespace ≡ namespace_of op
      → desired.name ≡ name
      → reconcile_owned client op s name r ≡ (s', ok u)
      → Runs client s' (namespace_of op) name desired.spec
  reconcile_owned-Runs desired name (err e) law f hn hm h = cc
  reconcile_owned-Runs desired name (ok ds) law f hn hm h =
      let (n, m, e) = law.owned f in
      rw (← e) (
        create_or_update-Runs ds (namespace_of op) name
          (client.get_daemon_set s (namespace_of op) name) law refl (n ∙ hn) (m ∙ hm) h)

  -- what the theorem states, for the results `a` and `b` of the two discoveries
  abbrev Reconciled : S → Result Text Text → Result Text Text → Type 0
  Reconciled s' a b =
      (address account : Text) × (a ≡ ok address)
      × (b ≡ ok account)
      × Runs client s' (namespace_of op) (get_daemon_set_name config)
          (build_agent_daemon_set op config (get_daemon_set_name config) address account).spec

  reconcile_with-Runs :
      {s' : S} {u : Unit {0}} (a b : Result Text Text)
      → Keeps client
      → reconcile_with client op s config a b ≡ (s', ok u)
      → Reconciled s' a b
  unfolding build_agent_daemon_set
  reconcile_with-Runs (err e) b law h = cc
  reconcile_with-Runs (ok address) (err e) law h = cc
  reconcile_with-Runs (ok address) (ok account) law h =
      let name = get_daemon_set_name config in
      let desired = build_agent_daemon_set op config name address account in
      (
        address,
        account,
        refl,
        refl,
        reconcile_owned-Runs desired name (client.set_controller_reference config desired) law refl
            refl refl h,
      )

  as_pair : (r : S × Result Text (Unit {0})) → r.1 ≡ ok tt → r ≡ (r.0, ok tt)
  as_pair (s', r) h = ap (λ x. (s', x)) h

  -- Where the API keeps what is written to it: if the DaemonSet of a WolConfig was reconciled, whether it
  -- existed before or not, there is one of its name whose spec is the one built for the WolConfig, with
  -- the operator's address and the service account that were discovered.
  pub reconcile-Runs :
      Keeps client
      → (reconcile_agent_daemon_set client op config s).1 ≡ ok tt
      → (address account : Text) × (discover_operator_address client op s ≡ ok address)
        × (discover_agent_service_account client op s ≡ ok account)
        × Runs client
            (reconcile_agent_daemon_set client op config s).0
            (namespace_of op)
            (get_daemon_set_name config)
            (build_agent_daemon_set op config (get_daemon_set_name config) address account).spec
  unfolding reconcile_agent_daemon_set
  reconcile-Runs law h =
      let a = discover_operator_address client op s in
      let b = discover_agent_service_account client op s in
      reconcile_with-Runs a b law (as_pair (reconcile_with client op s config a b) h)
