-- ===== src/Startup.antt =====
-- internal/controller/startup.go: when the manager starts, WolConfigs whose agents run another image
-- than AGENT_IMAGE are touched, which triggers their reconciliation.
pub mod Drift
pub mod Built
mod Tests
use kubevirt_wol.Common.{
  ℕ, zero, suc, ◌+◌, List, [], ◌∷◌, ◌++◌, Bool, true, false, not, Option, none, some, Text, codes,
  text_eq, Assoc, get, put, if◌then◌else◌, Result, ok, err,
}
use kubevirt_wol.Api.{WolConfig}
use kubevirt_wol.Kube.{Container, DaemonSet, ApiError, KubeClient}
use kubevirt_wol.Agents.{Operator, namespace_of}

abbrev pub app_label : Text
app_label = codes "app"

abbrev pub app : Text
app = codes "wol-agent"

abbrev pub config_label : Text
config_label = codes "wol.pillon.org/wolconfig"

abbrev pub check_annotation : Text
check_annotation = codes "wol.pillon.org/last-image-check"

-- labels["app"], which is "" where the label is missing
abbrev pub or_empty : Option Text → Text
or_empty none = []
or_empty (some v) = v

abbrev pub annotations_of : Option (Assoc Text) → Assoc Text
annotations_of none = []
annotations_of (some a) = a

abbrev pub annotate : Text → WolConfig → WolConfig
annotate stamp config = record config {
  annotations = some (put check_annotation stamp (annotations_of config.annotations));
}

abbrev pub drifted_config : Text → Text → Result ApiError WolConfig → Option WolConfig
drifted_config image current (err e) = none
drifted_config image current (ok config) =
    if not (text_eq config.spec.agent.image [])
    then none
    else if text_eq current image
    then none
    else some config

module _ {S : Type 0} (kube : KubeClient S) (op : Operator) where
  abbrev pub outdated_in : S → Option Text → List Container → Option WolConfig
  outdated_in s none containers = none
  outdated_in s (some name) [] = none
  outdated_in s (some name) (c ∷ _) =
      if text_eq op.agent_image []
      then none
      else drifted_config op.agent_image c.image (kube.get_config s name)

  -- The WolConfig of a DaemonSet, if it is to be updated: the conditions of the loop that `continue`.
  unfoldable pub outdated : S → DaemonSet → Option WolConfig
  outdated s ds =
      if not (text_eq (or_empty (get app_label ds.labels)) app)
      then none
      else outdated_in s (get config_label ds.labels) ds.spec.template_spec.containers

  abbrev pub try_update : S → ℕ → Result Text S → S × ℕ
  try_update s updated_count (err e) = (s, updated_count)
  try_update s updated_count (ok s') = (s', updated_count + 1)

  -- one round, at the time `stamp`
  abbrev pub check_one : Text → S × ℕ → Option WolConfig → S × ℕ
  check_one stamp (s, updated_count) none = (s, updated_count)
  check_one stamp (s, updated_count) (some config) =
      try_update s updated_count (kube.update_config s (annotate stamp config))

  -- `stamps i` is the time in round i, in the format of RFC 3339.
  unfoldable pub check_daemon_sets : (ℕ → Text) → ℕ → List DaemonSet → S × ℕ → S × ℕ
  check_daemon_sets stamps i [] st = st
  check_daemon_sets stamps i (ds ∷ items) st =
      check_daemon_sets stamps (suc i) items (check_one (stamps i) st (outdated st.0 ds))

  abbrev pub check_listed : (ℕ → Text) → S → Result Text (List DaemonSet) → S × Result Text ℕ
  check_listed stamps s (err e) = (s, err (codes "failed to list DaemonSets: " ++ e))
  check_listed stamps s (ok items) =
      let (s', updated_count) = check_daemon_sets stamps 0 items (s, 0) in (s', ok updated_count)

  unfoldable pub check_and_update_daemon_sets : (ℕ → Text) → S → S × Result Text ℕ
  check_and_update_daemon_sets stamps s =
      check_listed stamps s (kube.list_daemon_sets s (namespace_of op))

  -- `Start` returns nil, whatever the check returned.
  unfoldable pub start : (ℕ → Text) → S → S
  start stamps s = (check_and_update_daemon_sets stamps s).0
