-- ===== src/Agents/Build.antt =====
-- What the DaemonSets of several WolConfigs have to do with each other.
use kubevirt_wol.Common.{
  ◌≡◌, ◌↔◌, [], ◌∷◌, Bool, true, false, ◌&&◌, Option, none, some, Text, arith, Assoc, get, text_eq,
  text_eq_iff,
}
use kubevirt_wol.Api.{WolConfig}
use kubevirt_wol.Agents.{Operator, build_agent_daemon_set, agent_labels}

abbrev is_value : Text → Option Text → Bool
is_value v none = false
is_value v (some w) = text_eq w v

-- A `matchLabels` selector, as the API reads it: every label that it names has its value.
abbrev pub selects : Assoc Text → Assoc Text → Bool
selects [] labels = true
selects ((k, v) ∷ selector) labels = is_value v (get k labels) && selects selector labels

selects-agent_labels :
    (c c' : WolConfig) → selects (agent_labels c) (agent_labels c') ≡ text_eq c'.name c.name
unfolding get text_eq
selects-agent_labels c c' = ground arith

-- The DaemonSet of a WolConfig selects pods that the template of its own makes, and those of no
-- WolConfig with another name, whatever the operator, the addresses and the accounts.
pub selects-build_agent_daemon_set :
    (op op' : Operator) (c c' : WolConfig) (name name' address address' account account' : Text)
    → (selects
          (build_agent_daemon_set op c name address account).spec.selector
          (build_agent_daemon_set op' c' name' address' account').spec.template_labels
        ≡ true)
      ↔ (c'.name ≡ c.name)
unfolding build_agent_daemon_set
selects-build_agent_daemon_set op op' c c' name name' address address' account account' =
    rw (selects-agent_labels c c') (text_eq_iff c'.name c.name)
