-- ===== src/Launcher/Managed.antt =====
-- openwhisk/runHandler.go and golang1.22/lib/launcher.go: what the action sees of a request that
-- carries an energy state.
use openwhisk_runtime_go.Base.{◌≡◌, refl, ◌∙◌, ap, false, some, if◌then◌else◌, arith}
use openwhisk_runtime_go.Base.Float64.{Float64}
use openwhisk_runtime_go.Base.Text.{Bytes, codes, same}
use openwhisk_runtime_go.Sidecar.Json.{Numbers, Members, lookup}
use openwhisk_runtime_go.Sidecar.State.{EnergyState}
use openwhisk_runtime_go.Sidecar.Transfer.{extract_energy_state}
use openwhisk_runtime_go.Proxy.Folders.{find}
use openwhisk_runtime_go.Proxy.Env.{Variables}
use openwhisk_runtime_go.Run.Request.{
  RunRequest, decode_request, encode_request, members_of, action_body, action_body-managed,
}
use openwhisk_runtime_go.Launcher.{
  given, json_object, Codec, Action, Running, answer, call_main, payload_of, set_variables, respond,
  evaluate, has_byte, to_upper,
}
use openwhisk_runtime_go.Launcher.Environment.{set_by, is_settable, set_variables-find}

abbrev pub action_name_variable : Bytes
action_name_variable = codes "__OW_ACTION_NAME"

abbrev pub activation_id_variable : Bytes
activation_id_variable = codes "__OW_ACTIVATION_ID"

module _ {N : Type 0} where
  encode_request-payload :
      (req : RunRequest N) (m : Members N)
      → payload_of (encode_request (record req { value = some m })) ≡ json_object (some m)
  unfolding payload_of encode_request lookup
  encode_request-payload req m = refl

  encode_request-find :
      (req : RunRequest N) (m : Members N) (k : Bytes) (env : Variables)
      → has_byte 0 (codes req.activation_id) ≡ false
      → has_byte 0 (codes req.action_name) ≡ false
      → find k (set_variables (encode_request (record req { value = some m })) env) ≡ (
          if same action_name_variable k
          then some (codes req.action_name)
          else if same activation_id_variable k
          then some (codes req.activation_id)
          else find k env)
  unfolding encode_request set_by is_settable to_upper has_byte same
  encode_request-find req m k env h j =
      set_variables-find k (encode_request (record req { value = some m })) env
      ∙ ground (arith, h, j)

module _ {f : Float64} (n : Numbers f) (codec : Codec n.Number) (action : Action n.Number) where
  evaluate-given :
      (line : Bytes) (input : Members n.Number) (r : Running codec action)
      → codec.unmarshal line ≡ given input
      → evaluate codec action line r
        ≡ answer codec action (
            call_main codec action
              (payload_of input)
              (record r { env = set_variables input r.env }))
  unfolding evaluate respond
  evaluate-given line input r h = ap (λ o. respond codec action o r) h

  -- A request that carries an energy state, with texts that hold no zero byte, and a line that
  -- the launcher reads as the body that runHandler passes on: Main is called with the parameters
  -- less those of the state, and in an environment that differs from the one before in
  -- __OW_ACTION_NAME and __OW_ACTIVATION_ID only, which hold those of the request, whatever else
  -- the request has beside its value.
  pub evaluate-managed :
      (body : Members n.Number) (req : RunRequest n.Number) (s : EnergyState f) (line : Bytes)
      (r : Running codec action)
      → decode_request body ≡ some req
      → (extract_energy_state n (members_of req.value)).0 ≡ some s
      → codec.unmarshal line ≡ given (action_body n body)
      → has_byte 0 (codes req.activation_id) ≡ false
      → has_byte 0 (codes req.action_name) ≡ false
      → (env : Variables) × (evaluate codec action line r
          ≡ answer codec action (
              call_main codec action
                (json_object (some (extract_energy_state n (members_of req.value)).1))
                (record r { env = env })))
        × ((k : Bytes)
            → find k env ≡ (
                if same action_name_variable k
                then some (codes req.action_name)
                else if same activation_id_variable k
                then some (codes req.activation_id)
                else find k r.env))
  evaluate-managed body req s line r d e u i a =
      let m = (extract_energy_state n (members_of req.value)).1 in
      let sent = encode_request (record req { value = some m }) in
      let u' = u ∙ ap given (action_body-managed n body req s d e) in
      let env = set_variables sent r.env in
      (
        env,
        evaluate-given line sent r u'
            ∙ ap (λ p. answer codec action (call_main codec action p (record r { env = env })))
                (encode_request-payload req m),
        λ k. encode_request-find req m k r.env i a,
      )
