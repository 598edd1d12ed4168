-- ===== src/Run/Request.antt =====
-- openwhisk/runHandler.go: runRequest, and the body that runHandler passes to the action, between
-- encoding/json's decoding and encoding. A body is the object that it holds; one that holds none is
-- passed on as it is.
use openwhisk_runtime_go.Base.{◌≡◌, Option, none, some, String, arith}
use openwhisk_runtime_go.Sidecar.Json.{
  Numbers, Json, null, text, object, Members, no_members, member, lookup,
}
use openwhisk_runtime_go.Base.Float64.{Float64}
use openwhisk_runtime_go.Sidecar.State.{EnergyState, decode_string, ◌>>=◌}
use openwhisk_runtime_go.Sidecar.Transfer.{extract_energy_state}

pub record RunRequest (N : Type 0) : Type 0 where
  pub activation_id : String
  -- None is nil.
  pub value : Option (Members N)
  pub action_name : String

module _ {N : Type 0} where
  -- A map[string]interface{}.
  unfoldable pub decode_value : Option (Json N) → Option (Option (Members N))
  decode_value none = some none
  decode_value (some null) = some none
  decode_value (some (object m)) = some (some m)
  decode_value (some _) = none

  unfoldable pub decode_request : Members N → Option (RunRequest N)
  unfolding decode_string decode_value
  decode_request body = do
    activation_id ← decode_string (lookup "activation_id" body)
    value ← decode_value (lookup "value" body)
    action_name ← decode_string (lookup "action_name" body)
    some (record { activation_id = activation_id; value = value; action_name = action_name })

  abbrev encode_value : Option (Members N) → Json N
  encode_value none = null
  encode_value (some m) = object m

  unfoldable pub encode_request : RunRequest N → Members N
  encode_request req = member "activation_id" (text req.activation_id) (
      member "value" (encode_value req.value)
        (member "action_name" (text req.action_name) no_members))

  -- A nil map has no members.
  abbrev pub members_of : Option (Members N) → Members N
  members_of none = no_members
  members_of (some m) = m

module _ {f : Float64} (n : Numbers f) where
  unfoldable pub action_body : Members n.Number → Members n.Number
  unfolding decode_request encode_request extract_energy_state
  action_body body = elim (decode_request body) [
    | none ↦ body
    | some req ↦ elim (extract_energy_state n (members_of req.value)).0 [
      | none ↦ body
      | some s ↦
          encode_request
            (record req { value = some (extract_energy_state n (members_of req.value)).1 })
    ]
  ]

  pub action_body-managed :
      (body : Members n.Number) (req : RunRequest n.Number) (s : EnergyState f)
      → decode_request body ≡ some req
      → (extract_energy_state n (members_of req.value)).0 ≡ some s
      → action_body body
        ≡ encode_request
            (record req { value = some (extract_energy_state n (members_of req.value)).1 })
  unfolding action_body
  action_body-managed body req s h k = ground (arith, h, k)
