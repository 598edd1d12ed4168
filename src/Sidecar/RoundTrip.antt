-- ===== src/Sidecar/RoundTrip.antt =====
-- openwhisk/energy_state.go: what the next step of a sequence extracts from what one reinjects.
use openwhisk_runtime_go.Base.{
  ◌≡◌, ◌≢◌, refl, Option, none, some, List, [], ◌∷◌, String, if◌then◌else◌, str_eq, arith, All,
}
use openwhisk_runtime_go.Base.Float64.{Float64}
use openwhisk_runtime_go.Sidecar.Json.{
  Numbers, Members, object, lookup, delete, insert, lookup-delete, delete-delete,
}
use openwhisk_runtime_go.Sidecar.State.{
  EnergyState, encode_energy_state, decode-encode_energy_state,
}
use openwhisk_runtime_go.Sidecar.Transfer.{
  energy_state_key, first_step_anchor_key, energy_param_keys, bare_members, carried,
  extract_energy_state, reinject_energy_state,
}

module _ {f : Float64} (n : Numbers f) where
  -- The state that a step of energy `measured` passes on.
  abbrev pub advanced : EnergyState f → f.Carrier → EnergyState f
  advanced s measured = record s {
    consumed_before_j = f.add s.consumed_before_j measured;
    resolved_action_name = "";
  }

  reinjected-lookup :
      (result : Members n.Number) (s : EnergyState f) (measured : f.Carrier) (k : String)
      → lookup k (reinject_energy_state n result (some s) measured) ≡ (
          if str_eq energy_state_key k
          then some (
              object (
                encode_energy_state n
                  (record s { consumed_before_j = f.add s.consumed_before_j measured })))
          else lookup k result)
  unfolding reinject_energy_state insert lookup
  reinjected-lookup result s measured k = ground (arith, lookup-delete energy_state_key k result)

  reinjected-delete :
      (result : Members n.Number) (s : EnergyState f) (measured : f.Carrier)
      → delete energy_state_key (reinject_energy_state n result (some s) measured)
        ≡ delete energy_state_key result
  unfolding reinject_energy_state insert delete
  reinjected-delete result s measured = delete-delete energy_state_key result

  -- The next step, given a business result that holds no energy_trace_id, reads the state of this
  -- step with the measured energy added and nothing else changed but the action's name, which is
  -- not on the wire; its action receives the result less any __energy_state of its own.
  pub extract-reinject :
      (result : Members n.Number) (s : EnergyState f) (measured : f.Carrier)
      → lookup first_step_anchor_key result ≡ none
      → extract_energy_state n (reinject_energy_state n result (some s) measured)
        ≡ (some (advanced s measured), delete energy_state_key result)
  unfolding extract_energy_state carried
  extract-reinject result s measured h = ground (
    arith,
    reinjected-lookup result s measured first_step_anchor_key,
    reinjected-lookup result s measured energy_state_key,
    reinjected-delete result s measured,
    decode-encode_energy_state n
        (record s { consumed_before_j = f.add s.consumed_before_j measured }),
  )

  -- The state after some steps, each with its result and its measured energy.
  unfoldable pub through :
      EnergyState f → List (Members n.Number × f.Carrier) → Option (EnergyState f)
  through s [] = some s
  through s ((result, measured) ∷ steps) =
      elim (extract_energy_state n (reinject_energy_state n result (some s) measured)).0 [
        | none ↦ none
        | some s' ↦ through s' steps
      ]

  abbrev pub total_after : EnergyState f → List (Members n.Number × f.Carrier) → EnergyState f
  total_after s [] = s
  total_after s ((result, measured) ∷ steps) = total_after (advanced s measured) steps

  abbrev pub HasNoAnchor : Members n.Number × f.Carrier → Type 0
  HasNoAnchor (result, measured) = lookup first_step_anchor_key result ≡ none

  -- Through any number of steps whose results hold no energy_trace_id, the state arrives, with the
  -- energy of every step added in order.
  pub through-total_after :
      (s : EnergyState f) (steps : List (Members n.Number × f.Carrier))
      → All HasNoAnchor steps
      → through s steps ≡ some (total_after s steps)
  unfolding through
  through-total_after s [] h = refl
  through-total_after s ((result, measured) ∷ steps) h = ground (
    arith,
    extract-reinject result s measured h.0,
    through-total_after (advanced s measured) steps h.1,
  )

  SameUnder : Members n.Number → Members n.Number → String × String → Type 0
  SameUnder m m' (k, b) = lookup k m ≡ lookup k m'

  bare_members_same :
      (ks : List (String × String)) (m m' : Members n.Number)
      → All (SameUnder m m') ks
      → bare_members n ks m ≡ bare_members n ks m'
  unfolding bare_members SameUnder
  bare_members_same [] m m' h = refl
  bare_members_same ((k, b) ∷ ks) m m' h = ground (arith, h.0, bare_members_same ks m m' h.1)

  -- A business result that holds energy_trace_id takes the next step over: that step reads the
  -- state that it would read from the result alone, and the carried state has no effect on it.
  extract-reinject_overridden :
      (result : Members n.Number) (s : EnergyState f) (measured : f.Carrier)
      → lookup first_step_anchor_key result ≢ none
      → (extract_energy_state n (reinject_energy_state n result (some s) measured)).0
        ≡ (extract_energy_state n result).0
  unfolding extract_energy_state SameUnder
  extract-reinject_overridden result s measured h = ground (
    arith,
    same "energy_trace_id",
    bare_members_same energy_param_keys (reinject_energy_state n result (some s) measured) result (
      same "energy_trace_id",
      (
        same "energy_reservation_id",
        (
          same "energy_execution_phase",
          (
            same "energy_execution_threshold_j",
            (
              same "energy_consumed_before_j",
              (
                same "energy_pause_enabled",
                (
                  same "energy_pause_mode",
                  (
                    same "energy_max_pause_duration_ms",
                    (same "energy_max_pause_count", (same "energy_interruption_class", tt)),
                  ),
                ),
              ),
            ),
          ),
        ),
      ),
    ),
  )
    where
      same :
          (k : String)
          → lookup k (reinject_energy_state n result (some s) measured) ≡ (
              if str_eq energy_state_key k
              then some (
                  object (
                    encode_energy_state n
                      (record s { consumed_before_j = f.add s.consumed_before_j measured })))
              else lookup k result)
      same k = reinjected-lookup result s measured k
