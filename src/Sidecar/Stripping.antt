-- ===== src/Sidecar/Stripping.antt =====
-- openwhisk/energy_state.go: what ExtractEnergyState leaves of the parameters.
use openwhisk_runtime_go.Base.{
  ◌≡◌, ◌≢◌, ◌⊎◌, none, String, if◌then◌else◌, str_eq, arith, eq_iff, Option-cases, inl, inr,
}
use openwhisk_runtime_go.Base.Float64.{Float64}
use openwhisk_runtime_go.Sidecar.Json.{
  Numbers, Members, lookup, elem, lookup-delete, lookup-delete_all,
}
use openwhisk_runtime_go.Sidecar.Transfer.{
  energy_state_key, first_step_anchor_key, energy_param_keys, param_keys, extract_energy_state,
}

module _ {f : Float64} (n : Numbers f) where
  later_step :
      (m : Members n.Number) (k : String)
      → lookup first_step_anchor_key m ≡ none
      → lookup k (extract_energy_state n m).1
        ≡ (if str_eq energy_state_key k then none else lookup k m)
  unfolding extract_energy_state
  later_step m k e = elim (Option-cases (lookup energy_state_key m)) [
    | inl none' ↦
        rw (e, extract_energy_state)
          (rw (none', extract_energy_state) (ground (arith, none', eq_iff energy_state_key k)))
    | inr (raw, found) ↦
        rw (e, extract_energy_state)
          (rw (found, extract_energy_state) (lookup-delete energy_state_key k m))
  ]

  -- What ExtractEnergyState leaves under each key. With energy_trace_id among the parameters the ten energy_*
  -- keys are gone and every other key is as it was; without it __energy_state is gone and every
  -- other key is as it was.
  pub extract_energy_state-lookup :
      (m : Members n.Number) (k : String)
      → ((lookup first_step_anchor_key m ≢ none)
          × (lookup k (extract_energy_state n m).1
              ≡ (if elem k (param_keys energy_param_keys) then none else lookup k m)))
        ⊎ ((lookup first_step_anchor_key m ≡ none)
            × (lookup k (extract_energy_state n m).1
                ≡ (if str_eq energy_state_key k then none else lookup k m)))
  unfolding extract_energy_state
  extract_energy_state-lookup m k = elim (Option-cases (lookup first_step_anchor_key m)) [
    | inl e ↦ inr (e, later_step m k e)
    | inr (v, e) ↦ inl (
      (λ h. cc),
      rw (e, extract_energy_state) (lookup-delete_all (param_keys energy_param_keys) k m),
    )
  ]

  -- The parameters of a first step that hold __energy_state too keep it.
  extract_energy_state_leaks :
      (m : Members n.Number)
      → lookup first_step_anchor_key m ≢ none
      → lookup energy_state_key (extract_energy_state n m).1 ≡ lookup energy_state_key m
  extract_energy_state_leaks m h = elim (extract_energy_state-lookup m energy_state_key) [
    | inl (anchored, same) ↦ same
    | inr (e, gone) ↦ absurd (h e)
  ]
