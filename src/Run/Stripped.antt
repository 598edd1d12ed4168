-- ===== src/Run/Stripped.antt =====
-- openwhisk/runHandler.go and openwhisk/energy_state.go: what the action finds among its parameters,
-- whether or not ExtractEnergyState gives a state.
use openwhisk_runtime_go.Base.{Bool, false, Option, none, some, String, str_eq}
use openwhisk_runtime_go.Base.Float64.{Float64}
use openwhisk_runtime_go.Sidecar.Json.{Numbers, Members, lookup, elem}
use openwhisk_runtime_go.Sidecar.State.{EnergyState}
use openwhisk_runtime_go.Sidecar.Transfer.{
  energy_state_key, first_step_anchor_key, energy_param_keys, param_keys, extract_energy_state,
}

module _ {f : Float64} (n : Numbers f) where
  -- The keys that the action is not to see, given what ExtractEnergyState returns for them: of a
  -- first step or of a later one, and none where there is no state.
  abbrev hides : Option (EnergyState f) → Members n.Number → String → Bool
  hides none m k = false
  hides (some s) m k = elim (lookup first_step_anchor_key m) [
    | some v ↦ elem k (param_keys energy_param_keys)
    | none ↦ str_eq energy_state_key k
  ]

  abbrev pub is_hidden : Members n.Number → String → Bool
  is_hidden m k = hides (extract_energy_state n m).0 m k
