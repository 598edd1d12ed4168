-- ===== src/Sidecar/Transfer.antt =====
-- openwhisk/energy_state.go: ExtractEnergyState and ReinjectEnergyState. A Go map is a list of
-- members; the functions look at it by key only, so the order does not matter.
use openwhisk_runtime_go.Base.{Option, none, some, List, [], ◌∷◌, String}
use openwhisk_runtime_go.Base.Float64.{Float64}
use openwhisk_runtime_go.Sidecar.Json.{
  Numbers, Json, object, Members, no_members, member, lookup, delete, delete_all, insert,
}
use openwhisk_runtime_go.Sidecar.State.{EnergyState, decode_energy_state, encode_energy_state}

abbrev pub energy_state_key : String
energy_state_key = "__energy_state"

abbrev pub first_step_anchor_key : String
first_step_anchor_key = "energy_trace_id"

-- Each energy_* parameter, with the field's name in __energy_state.
abbrev pub energy_param_keys : List (String × String)
energy_param_keys =
    ("energy_trace_id", "trace_id")
    ∷ ("energy_reservation_id", "reservation_id")
    ∷ ("energy_execution_phase", "execution_phase")
    ∷ ("energy_execution_threshold_j", "execution_threshold_j")
    ∷ ("energy_consumed_before_j", "consumed_before_j")
    ∷ ("energy_pause_enabled", "pause_enabled")
    ∷ ("energy_pause_mode", "pause_mode")
    ∷ ("energy_max_pause_duration_ms", "max_pause_duration_ms")
    ∷ ("energy_max_pause_count", "max_pause_count")
    ∷ ("energy_interruption_class", "interruption_class")
    ∷ []

abbrev pub param_keys : List (String × String) → List String
param_keys [] = []
param_keys ((k, b) ∷ ks) = k ∷ param_keys ks

module _ {f : Float64} (n : Numbers f) where
  -- The loop over energyParamKeys: the members found, under their bare names.
  unfoldable pub bare_members : List (String × String) → Members n.Number → Members n.Number
  bare_members [] m = no_members
  bare_members ((k, b) ∷ ks) m =
      let rest = bare_members ks m in elim (lookup k m) [ none ↦ rest | some v ↦ member b v rest ]

  -- The branch of a later step, on the value of __energy_state.
  unfoldable pub carried : Json n.Number → Option (EnergyState f)
  carried (object m) = decode_energy_state n m
  carried _ = none

  -- The state, and the parameters that the action receives.
  unfoldable pub extract_energy_state : Members n.Number → Option (EnergyState f) × Members n.Number
  extract_energy_state params = elim (lookup first_step_anchor_key params) [
    | some v ↦ (
      decode_energy_state n (bare_members energy_param_keys params),
      delete_all (param_keys energy_param_keys) params,
    )
    | none ↦ elim (lookup energy_state_key params) [
      | some raw ↦ (carried raw, delete energy_state_key params)
      | none ↦ (none, params)
    ]
  ]

  -- The struct has no part that Marshal refuses but a float64 that is no finite number.
  unfoldable pub reinject_energy_state :
      Members n.Number → Option (EnergyState f) → f.Carrier → Members n.Number
  reinject_energy_state result none measured = result
  reinject_energy_state result (some previous) measured =
      insert energy_state_key
        (object (
          encode_energy_state n
            (record previous { consumed_before_j = f.add previous.consumed_before_j measured })))
        result
