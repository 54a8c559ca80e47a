-- ===== src/Startup/Drift.antt =====
-- Which WolConfigs the check touches.
use kubevirt_wol.Common.{
  get-put, put, sym, ◌∙◌, ap, text_eq_refl, ℕ, suc, ◌+◌, ◌≡◌, ◌≢◌, ◌↔◌, refl, List, [], ◌∷◌, true,
  Option, none, some, Text, arith, text_eq, text_eq_iff, get, Result, ok, err, codes, if◌then◌else◌,
  Assoc, ◌++◌,
}
use kubevirt_wol.Api.{WolConfig}
use kubevirt_wol.Kube.{Container, DaemonSet, ApiError, KubeClient}
use kubevirt_wol.Agents.{Operator, namespace_of}
use kubevirt_wol.Startup.{
  check_annotation, annotations_of, check_listed, app_label, app, config_label, annotate, or_empty,
  outdated, outdated_in, drifted_config, check_daemon_sets, check_one, try_update,
  check_and_update_daemon_sets, start,
}

drifted_config-some :
    (image current : Text) (r : Result ApiError WolConfig) (config : WolConfig)
    → drifted_config image current r ≡ some config
    → (r ≡ ok config) × (config.spec.agent.image ≡ []) × (current ≢ image)
drifted_config-some image current (err e) config h = cc
drifted_config-some image current (ok c) config h =
    let own = text_eq_iff c.spec.agent.image [] in
    let same = text_eq_iff current image in
    let e : c ≡ config = ground arith in (rw e refl, rw (← e) (ground arith), λ f. ground arith)

app_of : (o : Option Text) → text_eq (or_empty o) app ≡ true → o ≡ some app
app_of none h = absurd (ground (arith, text_eq_iff [] app))
app_of (some t) h = ground (arith, text_eq_iff t app)

module _ {S : Type 0} (kube : KubeClient S) (op : Operator) where
  -- The DaemonSet is one of the agents', its WolConfig is `config`, which names no image of its own, and
  -- its first container runs another image than the operator's.
  pub record Drifted (s : S) (ds : DaemonSet) (config : WolConfig) : Type 0 where
    pub name : Text
    pub container : Container
    pub sidecars : List Container
    pub is_agent : get (codes "app") ds.labels ≡ some (codes "wol-agent")
    pub of_config : get (codes "wol.pillon.org/wolconfig") ds.labels ≡ some name
    pub containers : ds.spec.template_spec.containers ≡ container ∷ sidecars
    pub has_image : op.agent_image ≢ []
    pub found : kube.get_config s name ≡ ok config
    pub no_override : config.spec.agent.image ≡ []
    pub other_image : container.image ≢ op.agent_image

  outdated_in-some :
      (s : S) (o : Option Text) (cs : List Container) (config : WolConfig)
      → outdated_in kube op s o cs ≡ some config
      → (name : Text) × (c : Container) × (rest : List Container) × (o ≡ some name)
        × (cs ≡ c ∷ rest)
        × (op.agent_image ≢ [])
        × (kube.get_config s name ≡ ok config)
        × (config.spec.agent.image ≡ [])
        × (c.image ≢ op.agent_image)
  outdated_in-some s none cs config h = cc
  outdated_in-some s (some name) [] config h = cc
  outdated_in-some s (some name) (c ∷ rest) config h =
      let unset = text_eq_iff op.agent_image [] in
      let (found, own, moved) =
        drifted_config-some op.agent_image c.image (kube.get_config s name) config (ground arith) in
      (name, c, rest, refl, refl, λ e. ground arith, found, own, moved)

  -- The WolConfig of a DaemonSet is to be updated exactly when the DaemonSet has drifted from it.
  pub outdated_iff :
      (s : S) (ds : DaemonSet) (config : WolConfig)
      → (outdated kube op s ds ≡ some config) ↔ Drifted s ds config
  unfolding outdated
  outdated_iff s ds config = (
    λ h.
        let is_app : text_eq (or_empty (get app_label ds.labels)) app ≡ true = ground arith in
        let (name, c, rest, of_config, containers, has_image, found, own, moved) =
          outdated_in-some s (get config_label ds.labels) ds.spec.template_spec.containers config
            (ground arith) in
        record {
          name = name;
          container = c;
          sidecars = rest;
          is_agent = app_of (get app_label ds.labels) is_app;
          of_config = of_config;
          containers = containers;
          has_image = has_image;
          found = found;
          no_override = own;
          other_image = moved;
        },
    λ d.
        rw (d.is_agent, d.of_config, d.containers, d.found)
          (ground (
            arith,
            text_eq_iff op.agent_image [],
            text_eq_iff d.container.image op.agent_image,
            text_eq_refl app,
            text_eq_iff config.spec.agent.image [],
          )),
  )

  -- The config with the annotation, and otherwise as it was.
  pub record Stamped (stamp : Text) (config config' : WolConfig) : Type 0 where
    pub annotations : Assoc Text
    pub only_annotations : config' ≡ record config { annotations = some annotations }
    pub lookups :
        (k : Text)
        → get k annotations ≡ (
            if text_eq (codes "wol.pillon.org/last-image-check") k
            then some stamp
            else get k (annotations_of config.annotations))

  -- The rounds over the DaemonSets, from one state of the cluster to another, with n updates. A
  -- DaemonSet that has drifted from its WolConfig has it stamped with the time of the round, once,
  -- whether the API takes the update or not; any other is passed over.
  pub data Touches (stamps : ℕ → Text) : ℕ → List DaemonSet → S → ℕ → S → Type 0 where
    no_more : {i : ℕ} {s : S} → Touches stamps i [] s 0 s
    passed :
        {i n : ℕ} {s s' : S} (ds : DaemonSet) {items : List DaemonSet}
        → ((config : WolConfig) → ¬ Drifted s ds config)
        → Touches stamps (suc i) items s n s'
        → Touches stamps i (ds ∷ items) s n s'
    refused :
        {i n : ℕ} {s s' : S} (ds : DaemonSet) {items : List DaemonSet} (config config' : WolConfig)
        (e : Text)
        → Drifted s ds config
        → Stamped (stamps i) config config'
        → kube.update_config s config' ≡ err e
        → Touches stamps (suc i) items s n s'
        → Touches stamps i (ds ∷ items) s n s'
    touched :
        {i n : ℕ} {s s' s'' : S} (ds : DaemonSet) {items : List DaemonSet}
        (config config' : WolConfig)
        → Drifted s ds config
        → Stamped (stamps i) config config'
        → kube.update_config s config' ≡ ok s'
        → Touches stamps (suc i) items s' n s''
        → Touches stamps i (ds ∷ items) s (suc n) s''

  annotate-Stamped :
      (stamp : Text) (config : WolConfig) → Stamped stamp config (annotate stamp config)
  annotate-Stamped stamp config = record {
    annotations = put check_annotation stamp (annotations_of config.annotations);
    only_annotations = refl;
    lookups = λ k. get-put check_annotation k stamp (annotations_of config.annotations);
  }

  -- What a run of the rounds from `s` and `k` on gives.
  abbrev Counted : (ℕ → Text) → ℕ → List DaemonSet → S → ℕ → S × ℕ → Type 0
  Counted stamps i items s k r = (n : ℕ) × (r.1 ≡ k + n) × Touches stamps i items s n r.0

  -- one round, by what it finds and by the result of the update; `rest` is the rounds after it
  check_one-Counted :
      (stamps : ℕ → Text) (i : ℕ) (ds : DaemonSet) (items : List DaemonSet) (s : S) (k : ℕ)
      (o : Option WolConfig) (rest : S × ℕ → S × ℕ)
      → outdated kube op s ds ≡ o
      → ((s' : S) (k' : ℕ) → Counted stamps (suc i) items s' k' (rest (s', k')))
      → Counted stamps i (ds ∷ items) s k (rest (check_one kube op (stamps i) (s, k) o))
  check_one-Counted stamps i ds items s k none rest e go =
      let (n, counted, run) = go s k in
      (
        n,
        counted,
        passed ds (λ config drifted. none-ne (sym e ∙ (outdated_iff s ds config).1 drifted)) run,
      )
    where
      none-ne : {config : WolConfig} → (let o : Option WolConfig = none in o) ≢ some config
      none-ne h = cc
  check_one-Counted stamps i ds items s k (some config) rest e go =
      updated (kube.update_config s (annotate (stamps i) config)) refl
    where
      updated :
          (r : Result Text S)
          → kube.update_config s (annotate (stamps i) config) ≡ r
          → Counted stamps i (ds ∷ items) s k (rest (try_update kube op s k r))
      updated (err x) f =
          let (n, counted, run) = go s k in
          (
            n,
            counted,
            refused ds config (annotate (stamps i) config) x ((outdated_iff s ds config).0 e)
                (annotate-Stamped (stamps i) config) f run,
          )
      updated (ok s') f =
          let (n, counted, run) = go s' (k + 1) in
          (
            suc n,
            omega arith,
            touched ds config (annotate (stamps i) config) ((outdated_iff s ds config).0 e)
                (annotate-Stamped (stamps i) config) f run,
          )

  check_daemon_sets-Counted :
      (stamps : ℕ → Text) (items : List DaemonSet) (i k : ℕ) (s : S)
      → Counted stamps i items s k (check_daemon_sets kube op stamps i items (s, k))
  unfolding check_daemon_sets
  check_daemon_sets-Counted stamps [] i k s = (0, omega arith, no_more)
  check_daemon_sets-Counted stamps (ds ∷ items) i k s =
      check_one-Counted stamps i ds items s k (outdated kube op s ds)
        (check_daemon_sets kube op stamps (suc i) items) refl
        (λ s' k'. check_daemon_sets-Counted stamps items (suc i) k' s')

  -- The DaemonSets in the namespace of the operator were listed and checked one after the other, or
  -- they could not be listed, and nothing was changed.
  pub data Checked (stamps : ℕ → Text) (s s' : S) (r : Result Text ℕ) : Type 0 where
    all_checked :
        (items : List DaemonSet) (n : ℕ)
        → kube.list_daemon_sets s (namespace_of op) ≡ ok items
        → Touches stamps 0 items s n s'
        → r ≡ ok n
        → Checked stamps s s' r
    not_listed :
        (e : Text)
        → kube.list_daemon_sets s (namespace_of op) ≡ err e
        → s' ≡ s
        → r ≡ err (codes "failed to list DaemonSets: " ++ e)
        → Checked stamps s s' r

  check_listed-Checked :
      (stamps : ℕ → Text) (s : S) (r : Result Text (List DaemonSet))
      → kube.list_daemon_sets s (namespace_of op) ≡ r
      → Checked stamps s (check_listed kube op stamps s r).0 (check_listed kube op stamps s r).1
  check_listed-Checked stamps s (err e) listed = not_listed e listed refl refl
  check_listed-Checked stamps s (ok items) listed =
      let (n, counted, run) = check_daemon_sets-Counted stamps items 0 0 s in
      let count : (check_daemon_sets kube op stamps 0 items (s, 0)).1 ≡ n = omega arith in
      all_checked items n listed run (ap ok count)

  -- The check at startup goes over the DaemonSets that are listed in the namespace of the operator,
  -- in their order. It tries to write the annotation, and nothing else, into the WolConfig from which
  -- a DaemonSet has drifted, and into that one only, and counts the updates that the API takes. If
  -- the DaemonSets cannot be listed it changes nothing, and the error tells why.
  pub start-Touches :
      (stamps : ℕ → Text) (s : S)
      → Checked stamps s (start kube op stamps s) (check_and_update_daemon_sets kube op stamps s).1
  unfolding start check_and_update_daemon_sets
  start-Touches stamps s =
      check_listed-Checked stamps s (kube.list_daemon_sets s (namespace_of op)) refl
