-- ===== src/Launcher.antt =====
-- golang1.22/lib/launcher.go, which golang1.23 and golang1.24 hold too, and
-- common/gobuild.py.launcher.go: the program that is compiled
-- around the function Main of an action, and that the proxy starts and talks to. It reads requests
-- from standard input and writes to the pipe 3. Main and encoding/json are arguments; the debugging
-- log is left out.
pub mod Environment
pub mod Answers
pub mod Managed
use openwhisk_runtime_go.Base.{
  ℕ, ◌≡◌, Bool, true, false, not, ◌&&◌, ◌||◌, ◌-◌, Option, none, some, List, [], ◌∷◌, ◌++◌, String,
  if◌then◌else◌, ◌==◌, str_eq, leb,
}
use openwhisk_runtime_go.Base.Text.{Bytes, codes, same}
use openwhisk_runtime_go.Base.Streams.{newline, lines, written, without_newlines, IsLine}
use openwhisk_runtime_go.Sidecar.Json.{
  Json, text, array, object, Items, Members, no_members, member, lookup,
}
use openwhisk_runtime_go.Proxy.Folders.{write}
use openwhisk_runtime_go.Proxy.Env.{Variables, getenv}

-- A result, or the text of an error.
pub data Outcome (A : Type 0) : Type 0 where
  refused : Bytes → Outcome A
  given : A → Outcome A

-- encoding/json and fmt, as the launcher calls them: Unmarshal of a line into a map, which a null
-- leaves empty, and the verb %q, which writes a quoted Go string and thus no newline.
pub record Codec (N : Type 0) : Type 0 where
  pub unmarshal : Bytes → Outcome (Members N)
  pub quote : Bytes → Bytes
  pub quote-IsLine : (s : Bytes) → IsLine (quote s)

-- What Main is called with; no members at all is the nil map.
pub data Payload (N : Type 0) : Type 0 where
  json_object : Option (Members N) → Payload N
  json_array : Items N → Payload N

-- The function of the user: the kinds of its parameter and of its result, the state that it keeps
-- between its calls, and what json.Marshal makes of its result. `none`: the call panics or ends the
-- process.
pub record Action (N : Type 0) : Type 1 where
  pub State : Type 0
  pub Result : Type 0
  pub returns_collection : Bool
  pub takes_object : Bool
  pub takes_array : Bool
  pub main : Payload N → State → Variables → Option (Result × State × Variables)
  pub marshal : Result → Outcome Bytes

abbrev upper_byte : ℕ → ℕ
upper_byte c = if leb b'a' c && leb c b'z' then c - 32 else c

-- strings.ToUpper, on ASCII.
unfoldable pub to_upper : Bytes → Bytes
to_upper [] = []
to_upper (c ∷ s) = upper_byte c ∷ to_upper s

unfoldable pub has_byte : ℕ → Bytes → Bool
has_byte b [] = false
has_byte b (c ∷ s) = (c == b) || has_byte b s

-- os.Setenv: it refuses a name that is empty or has a "=" or a zero byte, and a value with a zero
-- byte.
unfoldable pub setenv : Bytes → Bytes → Variables → Variables
unfolding has_byte write same
setenv k value env =
    if same k [] || has_byte b'=' k || has_byte 0 k || has_byte 0 value
    then env
    else write k value env

abbrev pub variable_name : String → Bytes
variable_name k = codes "__OW_" ++ to_upper (codes k)

module _ {N : Type 0} where
  -- The loop that sets the environment variables.
  unfoldable pub set_variables : Members N → Variables → Variables
  unfolding setenv to_upper
  set_variables no_members env = env
  set_variables (member k (text s) input) env =
      set_variables input (if str_eq k "value" then env else setenv (variable_name k) (codes s) env)
  set_variables (member k v input) env = set_variables input env

  abbrev payload_in : Option (Json N) → Payload N
  payload_in (some (object value)) = json_object (some value)
  payload_in (some (array value)) = json_array value
  payload_in _ = json_object none

  unfoldable pub payload_of : Members N → Payload N
  payload_of input = payload_in (lookup "value" input)

module _ {N : Type 0} (codec : Codec N) (action : Action N) where
  open action use {State, Result}

  -- The process: what Main keeps, and its environment.
  pub record Running : Type 0 where
    pub state : State
    pub env : Variables

  -- funcMain.Call panics where the argument is not of the type of the parameter.
  abbrev accepts : Payload N → Bool
  accepts (json_object _) = action.takes_object
  accepts (json_array _) = action.takes_array

  unfoldable pub call_main : Payload N → Running → Option (Result × Running)
  call_main payload r =
      if accepts payload
      then elim (action.main payload r.state r.env) [
        | none ↦ none
        | some (result, state, env) ↦ some (result, record { state = state; env = env })
      ]
      else none

  abbrev pub error_line : Bytes → Bytes
  error_line e = codes "{ error: " ++ (codec.quote e ++ codes "}")

  -- What is written for a result, less the newline at its end.
  abbrev pub output_line : Outcome Bytes → Bytes
  output_line (refused e) = error_line e
  output_line (given output) = without_newlines output

  abbrev pub answer : Option (Result × Running) → Option (Bytes × Running)
  answer none = none
  answer (some (result, r)) = some (output_line (action.marshal result), r)

  -- What follows the parsing of a line.
  unfoldable pub respond : Outcome (Members N) → Running → Option (Bytes × Running)
  unfolding call_main payload_of set_variables without_newlines
  respond (refused e) r = some (error_line e, r)
  respond (given input) r =
      answer (call_main (payload_of input) (record r { env = set_variables input r.env }))

  -- One round of the loop: the line that is written, less its newline; none where Main does not
  -- return.
  unfoldable pub evaluate : Bytes → Running → Option (Bytes × Running)
  unfolding respond
  evaluate inbuf r = respond (codec.unmarshal inbuf) r

  -- The lines that the loop writes on the lines that it reads.
  unfoldable pub answers : List Bytes → Running → List Bytes
  unfolding evaluate
  answers [] r = []
  answers (inbuf ∷ inputs) r = elim (evaluate inbuf r) [
    | none ↦ []
    | some (line, r') ↦ line ∷ answers inputs r'
  ]

  abbrev pub ack_line : Bytes
  ack_line = codes "{ \"ok\": true}"

  -- main: what it writes to the pipe, given the value of OwExecutionEnv and the stream of standard
  -- input.
  unfoldable pub main : Bytes → Bytes → Running → Bytes
  unfolding answers getenv lines written
  main execution_env stdin r =
      if not (same execution_env [])
        && not (same execution_env (getenv (codes "__OW_EXECUTION_ENV") r.env))
      then []
      else if not action.returns_collection
      then []
      else written (ack_line ∷ answers (lines stdin) r)

  -- main of common/gobuild.py.launcher.go, which neither tests the environment nor acknowledges.
  unfoldable pub gobuild_main : Bytes → Running → Bytes
  unfolding answers lines written
  gobuild_main stdin r =
      if not action.returns_collection then [] else written (answers (lines stdin) r)
