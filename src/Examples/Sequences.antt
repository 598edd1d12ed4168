-- ===== src/Examples/Sequences.antt =====
-- openwhisk/energy_state.go: the state of a concrete sequence.
use openwhisk_runtime_go.Base.{ℕ, ◌≡◌, refl, none, some, List, [], ◌∷◌}
use openwhisk_runtime_go.Sidecar.Json.{text, object, number, Members, no_members, member, lookup}
use openwhisk_runtime_go.Sidecar.Transfer.{first_step_anchor_key}
use openwhisk_runtime_go.Run.Request.{RunRequest}
use openwhisk_runtime_go.Sidecar.RoundTrip.{through, total_after, HasNoAnchor, through-total_after}
use openwhisk_runtime_go.Examples.Fixtures.{numbers, unkillable}

-- A business result, and one that holds the key of a first step.
abbrev result : Members ℕ
result = member "price" (number 12) no_members

abbrev anchored : Members ℕ
anchored =
    member "energy_trace_id" (text "other")
      (member "__energy_state" (object no_members) (member "price" (number 12) no_members))

no_anchor : lookup first_step_anchor_key result ≡ none
unfolding lookup
no_anchor = refl

abbrev steps : List (Members ℕ × ℕ)
steps = (result, 7) ∷ (no_members, 4) ∷ []

empty_has_none : HasNoAnchor numbers (no_members, 4)
unfolding lookup
empty_has_none = refl

through-total_after_example :
    through numbers unkillable steps ≡ some (total_after numbers unkillable steps)
through-total_after_example =
    through-total_after numbers unkillable steps (no_anchor, (empty_has_none, tt))

abbrev run_request : RunRequest ℕ
run_request = record { activation_id = "a1"; value = some anchored; action_name = "/ns/pay" }

abbrev run_body : Members ℕ
run_body = member "activation_id" (text "a1") (
    member "namespace" (text "ns")
      (member "value" (object anchored) (member "action_name" (text "/ns/pay") no_members)))
