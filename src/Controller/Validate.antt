-- ===== src/Controller/Validate.antt =====
-- `validateConfig`: which configs it accepts, and what the defaults make of one.
use kubevirt_wol.Common.{
  ap, ltb_ℤ, ◌≡◌, ◌≢◌, ◌↔◌, refl, List, [], ◌∷◌, false, Option, none, some, arith, ℤ, pos, negsuc,
  All, ok, suc, zero,
}
use mathlib.Core.Path.{subst}
use kubevirt_wol.Api.{
  MacVmMapping, LabelSelector, WolConfigSpec, WolConfig, DiscoveryMode, all, label_selector,
  explicit, unset, other,
}
use kubevirt_wol.Agents.{ports_or_default}
use kubevirt_wol.AgentMain.Ports.{IsPort}
use kubevirt_wol.Controller.{
  check_explicit, check_selector, check_mode, validate_config, check_ports, ttl_or_default,
  mode_or_default,
}

abbrev pub Natural : ℤ → Type 0
Natural (pos n) = Unit
Natural (negsuc n) = ⊥

-- What a config needs in its mode.
abbrev pub Equipped : WolConfigSpec → DiscoveryMode → Type 0
Equipped spec label_selector = spec.vm_selector ≢ none
Equipped spec explicit = spec.explicit_mappings ≢ []
Equipped spec _ = Unit

abbrev pub IsValid : WolConfigSpec → Type 0
IsValid spec =
    All IsPort spec.wol_ports × Natural spec.cache_ttl × Equipped spec spec.discovery_mode

check_ports→IsPort : (ports : List ℤ) → check_ports ports ≡ ok tt → All IsPort ports
unfolding check_ports
check_ports→IsPort [] h = tt
check_ports→IsPort (pos n ∷ ports) h = ground (arith, check_ports→IsPort ports)
check_ports→IsPort (negsuc n ∷ ports) h = ground arith

IsPort→check_ports : (ports : List ℤ) → All IsPort ports → check_ports ports ≡ ok tt
unfolding check_ports
IsPort→check_ports [] h = refl
IsPort→check_ports (pos n ∷ ports) h = ground (arith, IsPort→check_ports ports h.1)
IsPort→check_ports (negsuc n ∷ ports) h = absurd h.0

IsPort-default : (ports : List ℤ) → All IsPort (ports_or_default ports) ↔ All IsPort ports
IsPort-default [] = (λ h. tt, λ h. ((omega arith, omega arith), tt))
IsPort-default (p ∷ ports) = (λ h. h, λ h. h)

check_selector_iff : (s : Option LabelSelector) → (check_selector s ≡ ok tt) ↔ (s ≢ none)
check_selector_iff none = (λ h. cc, λ h. absurd (h refl))
check_selector_iff (some raw) = (λ h. λ e. cc, λ h. refl)

check_explicit_iff : (es : List MacVmMapping) → (check_explicit es ≡ ok tt) ↔ (es ≢ [])
check_explicit_iff [] = (λ h. cc, λ h. absurd (h refl))
check_explicit_iff (e ∷ es) = (λ h. λ e. cc, λ h. refl)

-- A mode that is not set asks for as little as the one it stands for.
check_mode_iff :
    (spec spec' : WolConfigSpec) (mode : DiscoveryMode)
    → spec.vm_selector ≡ spec'.vm_selector
    → spec.explicit_mappings ≡ spec'.explicit_mappings
    → (check_mode spec (mode_or_default mode) ≡ ok tt) ↔ Equipped spec' mode
check_mode_iff spec spec' label_selector e f = rw (← e) (check_selector_iff spec.vm_selector)
check_mode_iff spec spec' explicit e f = rw (← f) (check_explicit_iff spec.explicit_mappings)
check_mode_iff spec spec' all e f = (λ h. tt, λ h. refl)
check_mode_iff spec spec' unset e f = (λ h. tt, λ h. refl)
check_mode_iff spec spec' (other t) e f = (λ h. tt, λ h. refl)

ttl-Natural : (ttl : ℤ) → (ltb_ℤ (ttl_or_default ttl) (pos 0) ≡ false) ↔ Natural ttl
ttl-Natural (pos n) = (λ h. tt, λ h. ground arith)
ttl-Natural (negsuc n) = (λ h. ground arith, λ h. absurd h)

-- the spec with all that the code writes into it
abbrev written_spec : WolConfigSpec → WolConfigSpec
written_spec spec = record spec {
  discovery_mode = mode_or_default spec.discovery_mode;
  wol_ports = ports_or_default spec.wol_ports;
  cache_ttl = ttl_or_default spec.cache_ttl;
}

check_ports_iff : (ports : List ℤ) → (check_ports ports ≡ ok tt) ↔ All IsPort ports
check_ports_iff ports = (check_ports→IsPort ports, IsPort→check_ports ports)

written_spec-Equipped :
    (spec : WolConfigSpec)
    → (check_mode (written_spec spec) (mode_or_default spec.discovery_mode) ≡ ok tt)
      ↔ Equipped spec spec.discovery_mode
written_spec-Equipped spec = check_mode_iff (written_spec spec) spec spec.discovery_mode refl refl

-- A config is accepted exactly when its ports are from 1 to 65535, its TTL is not negative, and it
-- has a selector in LabelSelector mode and a mapping in Explicit mode.
pub validate_config_iff :
    (config : WolConfig) → ((validate_config config).1 ≡ ok tt) ↔ IsValid config.spec
unfolding validate_config
validate_config_iff config =
    let spec = config.spec in
    let ports = check_ports_iff (ports_or_default spec.wol_ports) in
    let given = IsPort-default spec.wol_ports in
    let ttl = ttl-Natural spec.cache_ttl in
    let mode = written_spec-Equipped spec in
    (λ h. (ground arith, ground arith, ground arith), λ (p, n, m). ground arith)

abbrev written : WolConfig → WolConfig
written config = record config { spec = written_spec config.spec }

mode_idem : (mode : DiscoveryMode) → mode_or_default (mode_or_default mode) ≡ mode_or_default mode
mode_idem all = refl
mode_idem label_selector = refl
mode_idem explicit = refl
mode_idem unset = refl
mode_idem (other t) = refl

ports_idem : (ports : List ℤ) → ports_or_default (ports_or_default ports) ≡ ports_or_default ports
ports_idem [] = refl
ports_idem (p ∷ ports) = refl

ttl_idem : (ttl : ℤ) → ttl_or_default (ttl_or_default ttl) ≡ ttl_or_default ttl
ttl_idem (pos n) = ground arith
ttl_idem (negsuc n) = ground arith

validate_config-written :
    (config : WolConfig)
    → (validate_config config).1 ≡ ok tt
    → validate_config config ≡ (written config, ok tt)
unfolding validate_config
validate_config-written config h = ground arith

written-written : (config : WolConfig) → written (written config) ≡ written config
written-written config = rw (
  mode_idem config.spec.discovery_mode,
  ports_idem config.spec.wol_ports,
  ttl_idem config.spec.cache_ttl,
)

Natural-default : (ttl : ℤ) → Natural ttl → Natural (ttl_or_default ttl)
Natural-default (pos n) h = ground arith
Natural-default (negsuc n) h = absurd h

Equipped-default :
    (spec : WolConfigSpec) (mode : DiscoveryMode)
    → Equipped spec mode
    → Equipped (written_spec spec) (mode_or_default mode)
Equipped-default spec all h = tt
Equipped-default spec label_selector h = h
Equipped-default spec explicit h = h
Equipped-default spec unset h = tt
Equipped-default spec (other t) h = tt

written-IsValid : (config : WolConfig) → IsValid config.spec → IsValid (written config).spec
written-IsValid config (p, n, m) = (
  (IsPort-default config.spec.wol_ports).1 p,
  Natural-default config.spec.cache_ttl n,
  Equipped-default config.spec config.spec.discovery_mode m,
)

-- The defaults as they are documented: mode All, port 9 and 300 seconds.
abbrev pub filled_mode : DiscoveryMode → DiscoveryMode
filled_mode unset = all
filled_mode all = all
filled_mode label_selector = label_selector
filled_mode explicit = explicit
filled_mode (other t) = other t

abbrev pub filled_ports : List ℤ → List ℤ
filled_ports [] = pos 9 ∷ []
filled_ports (p ∷ ports) = p ∷ ports

abbrev pub filled_ttl : ℤ → ℤ
filled_ttl (pos zero) = pos 300
filled_ttl (pos (suc n)) = pos (suc n)
filled_ttl (negsuc n) = negsuc n

abbrev pub full : WolConfig → WolConfig
full config = record config {
  spec = record config.spec {
    discovery_mode = filled_mode config.spec.discovery_mode;
    wol_ports = filled_ports config.spec.wol_ports;
    cache_ttl = filled_ttl config.spec.cache_ttl;
  };
}

mode-filled : (mode : DiscoveryMode) → mode_or_default mode ≡ filled_mode mode
mode-filled all = refl
mode-filled label_selector = refl
mode-filled explicit = refl
mode-filled unset = refl
mode-filled (other t) = refl

ports-filled : (ports : List ℤ) → ports_or_default ports ≡ filled_ports ports
ports-filled [] = refl
ports-filled (p ∷ ports) = refl

ttl-filled : (ttl : ℤ) → ttl_or_default ttl ≡ filled_ttl ttl
ttl-filled (pos zero) = refl
ttl-filled (pos (suc n)) = ground arith
ttl-filled (negsuc n) = refl

written-full : (config : WolConfig) → written config ≡ full config
written-full config = rw (
  mode-filled config.spec.discovery_mode,
  ports-filled config.spec.wol_ports,
  ttl-filled config.spec.cache_ttl,
)

-- A config that is accepted has the mode All, the port 9 and a TTL of 300 seconds written into it
-- where it has none, and nothing else is changed; it is valid with them, and to validate it again
-- changes nothing.
pub validate_config-Full :
    (config : WolConfig)
    → (validate_config config).1 ≡ ok tt
    → ((validate_config config).0 ≡ full config)
      × IsValid (full config).spec
      × (validate_config (full config) ≡ (full config, ok tt))
validate_config-Full config h =
    let valid = written-IsValid config ((validate_config_iff config).0 h) in
    subst
      (λ c. ((validate_config config).0 ≡ c) × IsValid c.spec × (validate_config c ≡ (c, ok tt)))
      (written-full config)
      (
        ap (λ r. r.0) (validate_config-written config h),
        valid,
        rw (
          validate_config-written (written config) ((validate_config_iff (written config)).1 valid),
          written-written config,
        ),
      )
