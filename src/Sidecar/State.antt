-- ===== src/Sidecar/State.antt =====
-- openwhisk/energy_state.go: EnergyState, and how encoding/json reads and writes it. A key that is
-- missing or null leaves Go's zero value; a value of another type makes the decoding fail. The match
-- of keys that differ in case only, which Unmarshal also makes, is left out.
use openwhisk_runtime_go.Base.{
  ℕ, ◌≡◌, refl, Bool, false, Option, none, some, List, [], ◌∷◌, String, arith,
}
use openwhisk_runtime_go.Base.Float64.{Float64}
use openwhisk_runtime_go.Sidecar.Json.{
  Numbers, Json, null, boolean, number, text, object, Members, no_members, member, lookup,
}

infixl 5 ◌>>=◌
abbrev pub ◌>>=◌ : {A B : Type 0} → Option A → (A → Option B) → Option B
none >>= f = none
some a >>= f = f a

module _ (f : Float64) where
  pub record EnergyState : Type 0 where
    pub trace_id : String
    pub reservation_id : String
    pub execution_phase : String
    pub execution_threshold_j : f.Carrier
    pub consumed_before_j : f.Carrier
    pub pause_enabled : Bool
    pub pause_mode : String
    pub max_pause_duration_ms : ℕ
    pub max_pause_count : ℕ
    -- A Go map of strings; none is nil.
    pub interruption_class : Option (List (String × String))
    -- Not on the wire.
    pub resolved_action_name : String

module _ {N : Type 0} where
  unfoldable pub decode_string : Option (Json N) → Option String
  decode_string none = some ""
  decode_string (some null) = some ""
  decode_string (some (text s)) = some s
  decode_string (some _) = none

  unfoldable pub decode_bool : Option (Json N) → Option Bool
  decode_bool none = some false
  decode_bool (some null) = some false
  decode_bool (some (boolean b)) = some b
  decode_bool (some _) = none

  -- The number read at one of the two numeric types, `zero` where there is none.
  unfoldable pub decode_number : {A : Type 0} → (N → Option A) → A → Option (Json N) → Option A
  decode_number read zero none = some zero
  decode_number read zero (some null) = some zero
  decode_number read zero (some (number n)) = read n
  decode_number read zero (some _) = none

  unfoldable pub decode_strings : Members N → Option (List (String × String))
  unfolding decode_string
  decode_strings no_members = some []
  decode_strings (member k v m) = do
    s ← decode_string (some v)
    rest ← decode_strings m
    some ((k, s) ∷ rest)

  unfoldable pub decode_map : Option (Json N) → Option (Option (List (String × String)))
  unfolding decode_strings
  decode_map none = some none
  decode_map (some null) = some none
  decode_map (some (object m)) = do l ← decode_strings m; some (some l)
  decode_map (some _) = none

  unfoldable pub encode_strings : List (String × String) → Members N
  encode_strings [] = no_members
  encode_strings ((k, s) ∷ l) = member k (text s) (encode_strings l)

  unfoldable pub encode_map : Option (List (String × String)) → Json N
  unfolding encode_strings
  encode_map none = null
  encode_map (some l) = object (encode_strings l)

module _ (N : Type 0) where
  decode-encode_strings :
      (l : List (String × String)) → decode_strings (encode_strings {N = N} l) ≡ some l
  unfolding decode_strings encode_strings
  decode-encode_strings [] = refl
  decode-encode_strings ((k, s) ∷ l) = ground (arith, decode-encode_strings l)

  pub decode-encode_map :
      (c : Option (List (String × String))) → decode_map (some (encode_map {N = N} c)) ≡ some c
  unfolding decode_map encode_map
  decode-encode_map none = refl
  decode-encode_map (some l) = ground (arith, decode-encode_strings l)

module _ {f : Float64} (n : Numbers f) where
  -- decodeEnergyStateMap, on an object.
  unfoldable pub decode_energy_state : Members n.Number → Option (EnergyState f)
  unfolding decode_string decode_bool decode_number decode_map
  decode_energy_state m = do
    trace_id ← decode_string (lookup "trace_id" m)
    reservation_id ← decode_string (lookup "reservation_id" m)
    execution_phase ← decode_string (lookup "execution_phase" m)
    threshold ← decode_number n.as_float (f.of_int 0) (lookup "execution_threshold_j" m)
    consumed ← decode_number n.as_float (f.of_int 0) (lookup "consumed_before_j" m)
    pause_enabled ← decode_bool (lookup "pause_enabled" m)
    pause_mode ← decode_string (lookup "pause_mode" m)
    max_duration ← decode_number n.as_int 0 (lookup "max_pause_duration_ms" m)
    max_count ← decode_number n.as_int 0 (lookup "max_pause_count" m)
    interruption_class ← decode_map (lookup "interruption_class" m)
    some (record {
      trace_id = trace_id;
      reservation_id = reservation_id;
      execution_phase = execution_phase;
      execution_threshold_j = threshold;
      consumed_before_j = consumed;
      pause_enabled = pause_enabled;
      pause_mode = pause_mode;
      max_pause_duration_ms = max_duration;
      max_pause_count = max_count;
      interruption_class = interruption_class;
      resolved_action_name = "";
    })

  -- json.Marshal of the struct, in the order of its fields.
  unfoldable pub encode_energy_state : EnergyState f → Members n.Number
  unfolding encode_map
  encode_energy_state s = member "trace_id" (text s.trace_id) (
      member "reservation_id" (text s.reservation_id) (
        member "execution_phase" (text s.execution_phase) (
          member "execution_threshold_j" (number (n.of_float s.execution_threshold_j)) (
            member "consumed_before_j" (number (n.of_float s.consumed_before_j)) (
              member "pause_enabled" (boolean s.pause_enabled) (
                member "pause_mode" (text s.pause_mode) (
                  member "max_pause_duration_ms" (number (n.of_int s.max_pause_duration_ms)) (
                    member "max_pause_count" (number (n.of_int s.max_pause_count)) (
                      member "interruption_class" (encode_map s.interruption_class)
                        no_members)))))))))

  -- What is decoded from an encoded state is the state, less the action's name.
  pub decode-encode_energy_state :
      (s : EnergyState f)
      → decode_energy_state (encode_energy_state s) ≡ some (record s { resolved_action_name = "" })
  unfolding decode_energy_state encode_energy_state lookup
  decode-encode_energy_state s = ground (
    arith,
    n.as_float-of_float s.execution_threshold_j,
    n.as_float-of_float s.consumed_before_j,
    n.as_int-of_int s.max_pause_duration_ms,
    n.as_int-of_int s.max_pause_count,
    decode-encode_map n.Number s.interruption_class,
  )
