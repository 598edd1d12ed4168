-- ===== src/Examples/Launched.antt =====
-- golang1.22/lib/launcher.go: an action that counts its calls, and the calls of Interact on it.
use openwhisk_runtime_go.Base.{
  ℕ, suc, ◌+◌, ◌≡◌, ◌≤◌, refl, true, false, Option, some, [], ◌∷◌, map, drop, if◌then◌else◌, ltb,
}
use openwhisk_runtime_go.Base.Text.{Bytes, codes, same}
use openwhisk_runtime_go.Base.Streams.{lines, without_newlines, is_line}
use openwhisk_runtime_go.Sidecar.Json.{Members, number, text, object, no_members, member, lookup}
use openwhisk_runtime_go.Sidecar.State.{
  decode_energy_state, encode_energy_state, encode_map, encode_strings, decode_string, decode_bool,
  decode_number, decode_map, decode_strings,
}
use openwhisk_runtime_go.Sidecar.Transfer.{extract_energy_state, carried}
use openwhisk_runtime_go.Examples.Fixtures.{numbers, unkillable}
use openwhisk_runtime_go.Proxy.Folders.{find, write}
use openwhisk_runtime_go.Proxy.Env.{Variables, getenv}
use openwhisk_runtime_go.Proxy.Launch.{Ack, ack, malformed, System, received, start}
use openwhisk_runtime_go.Run.Request.{
  RunRequest, decode_request, decode_value, members_of, action_body,
}
use openwhisk_runtime_go.Launcher.{
  Outcome, refused, given, Codec, json_object, Action, Running, setenv, has_byte, to_upper,
  set_variables, payload_of, call_main, answer, respond, evaluate, ack_line, main,
}
use openwhisk_runtime_go.Launcher.Answers.{
  sent, first_line, first_of, after, starts_loop, answered, main-answers, start-main,
}
use openwhisk_runtime_go.Launcher.Managed.{
  action_name_variable, activation_id_variable, evaluate-managed,
}
use openwhisk_runtime_go.Executor.{
  idle, waiting, answered as returned, Shared, System as Executors, leave, call, Steps, here, next,
}
use openwhisk_runtime_go.Executor.Released.{remaining, ReturnsOrWaits, moves_of, Steps-released}
use openwhisk_runtime_go.Executor.Alone.{Solo, IsQuiet, Solo-returns, Solo-answered}
use openwhisk_runtime_go.Executor.Mixed.{initial, Steps-swapped}

-- A request with two variables and a payload.
abbrev input : Members ℕ
input =
    member "value" (object (member "n" (number 3) no_members))
      (member "deadline" (text "9") (member "action_name" (text "add") no_members))

abbrev read_input : Bytes → Outcome (Members ℕ)
read_input line = if same line (codes "{}") then given input else refused (codes "bad")

bad_line : is_line (codes "bad") ≡ true
unfolding is_line
bad_line = refl

abbrev codec : Codec ℕ
codec = record { unmarshal = read_input; quote = λ e. codes "bad"; quote-IsLine = λ e. bad_line }

abbrev counter : Action ℕ
counter = record {
  State = ℕ;
  Result = ℕ;
  returns_collection = true;
  takes_object = true;
  takes_array = false;
  main = λ payload n env. some (n, suc n, env);
  marshal = λ n. given ((b'0' + n) ∷ 10 ∷ []);
}

abbrev fresh : Running codec counter
fresh = record { state = 0; env = [] }

abbrev later_env : Variables
later_env = (codes "__OW_DEADLINE", codes "9") ∷ ((codes "__OW_ACTION_NAME", codes "add") ∷ [])

abbrev later : Running codec counter
later = record { state = 1; env = later_env }

after_first : after codec counter (map without_newlines (codes "{}" ∷ [])) fresh ≡ some later
unfolding after evaluate respond same set_variables setenv has_byte to_upper write call_main
    payload_of without_newlines lookup
after_first = refl

starts : starts_loop codec counter [] fresh ≡ true
unfolding starts_loop same getenv find
starts = refl

main-answers_example :
    (first_line (lines (main codec counter [] (sent (codes "{}" ∷ (codes "x" ∷ []))) fresh))
      ≡ some (ack_line codec counter))
    × (first_line
          (drop 2 (lines (main codec counter [] (sent (codes "{}" ∷ (codes "x" ∷ []))) fresh)))
        ≡ answered codec counter (evaluate codec counter (without_newlines (codes "x")) later))
main-answers_example =
    main-answers codec counter [] (codes "{}" ∷ []) (codes "x") [] fresh later starts after_first

abbrev decode_ack : Bytes → Ack
decode_ack line = if same line (ack_line codec counter) then ack true else malformed

reads_ack : decode_ack (ack_line codec counter) ≡ ack true
unfolding same
reads_ack = refl

abbrev process : System
process = record {
  has_pipes = true;
  has_cgroup = true;
  starts = true;
  exits_early = false;
  first = received malformed;
}

start-main_example :
    start true (record process {
      first = first_of decode_ack (main codec counter (codes "go") (sent []) fresh);
    })
    ≡ starts_loop codec counter (codes "go") fresh
start-main_example =
    start-main codec counter decode_ack process (codes "go") [] fresh reads_ack refl

-- A later step of a sequence, with a deadline.
abbrev managed_body : Members ℕ
managed_body =
    member "value"
      (object
        (member "__energy_state" (object (encode_energy_state numbers unkillable)) no_members))
      (member "deadline" (text "9")
        (member "action_name" (text "book") (member "activation_id" (text "a1") no_members)))

abbrev managed_request : RunRequest ℕ
managed_request = record {
  activation_id = "a1";
  value =
      some (member "__energy_state" (object (encode_energy_state numbers unkillable)) no_members);
  action_name = "book";
}

abbrev managed_codec : Codec ℕ
managed_codec = record {
  unmarshal = λ line.
      if same line (codes "{}") then given (action_body numbers managed_body) else refused [];
  quote = λ e. codes "bad";
  quote-IsLine = λ e. bad_line;
}

decodes : decode_request managed_body ≡ some managed_request
unfolding decode_request decode_value decode_string lookup
decodes = refl

extracts_state :
    (extract_energy_state numbers (members_of managed_request.value)).0
    ≡ some (record unkillable { resolved_action_name = "" })
unfolding extract_energy_state carried lookup decode_energy_state encode_energy_state encode_map
    encode_strings decode_string decode_bool decode_number decode_map decode_strings
extracts_state = refl

unmarshals : managed_codec.unmarshal (codes "{}") ≡ given (action_body numbers managed_body)
unfolding same
unmarshals = refl

no_zero : (has_byte 0 (codes "a1") ≡ false) × (has_byte 0 (codes "book") ≡ false)
unfolding has_byte
no_zero = (refl, refl)

evaluate-managed_example :
    (env : Variables) × (evaluate managed_codec counter
        (codes "{}")
        (record { state = 0; env = [] })
      ≡ answer managed_codec counter (
          call_main managed_codec counter
            (json_object (some (extract_energy_state numbers (members_of managed_request.value)).1))
            (record { state = 0; env = env })))
    × ((k : Bytes)
        → find k env ≡ (
            if same action_name_variable k
            then some (codes "book")
            else if same activation_id_variable k
            then some (codes "a1")
            else find k []))
evaluate-managed_example =
    evaluate-managed numbers managed_codec counter managed_body managed_request
      (record unkillable { resolved_action_name = "" }) (codes "{}")
      (record { state = 0; env = [] }) decodes extracts_state unmarshals (no_zero.0) (no_zero.1)

-- The calls share one process, which is the counter.
abbrev bodies : ℕ → Bytes
bodies i = codes "{}"

abbrev serve : Bytes → Running codec counter → Option (Bytes × Running codec counter)
serve = evaluate codec counter

abbrev counted : ℕ → Running codec counter
counted n = record { state = n; env = later_env }

serves :
    (serve (codes "{}") fresh ≡ some (codes "0", later))
    × (serve (codes "{}") later ≡ some (codes "1", counted 2))
unfolding evaluate respond same set_variables setenv has_byte to_upper write call_main payload_of
    without_newlines lookup
serves = (refl, refl)

one_line : is_line (codes "{}") ≡ true
unfolding is_line
one_line = refl

Steps-swapped_example :
    (t : Executors (Running codec counter)) × Steps serve bodies (initial fresh) t
    × (t.pc 0 ≡ returned (codes "1"))
    × (t.pc 1 ≡ returned (codes "0"))
Steps-swapped_example =
    Steps-swapped bodies fresh later (counted 2) (codes "0") (codes "1") one_line one_line
      (serves.0) (serves.1)

abbrev quiet : Shared (Running codec counter)
quiet = record { stdin = []; stdout = []; state = fresh; dead = false; exited = false }

abbrev alone :
    (m' : Shared (Running codec counter)) × Solo serve
      (codes "{}")
      quiet
      idle
      m'
      (returned (codes "0"))
alone =
    Solo-returns serve (codes "{}") quiet (codes "0") later one_line (refl, refl) refl (serves.0)

Solo-answered_example :
    (◌≡◌ {A = Bytes} (codes "0") (codes "0"))
    × IsQuiet serve (codes "{}") alone.0
    × (alone.0.state ≡ later)
Solo-answered_example =
    Solo-answered serve (codes "{}") quiet alone.0 (codes "0") (codes "0") later one_line
      (refl, refl) (serves.0) (alone.1)

-- Two calls wait, and the process has ended.
abbrev ended : Executors (Running codec counter)
ended = record {
  mem = record { stdin = []; stdout = []; state = fresh; dead = true; exited = true };
  pc = λ i. if ltb i 2 then waiting else idle;
  finished = λ i. ltb 1 i;
}

abbrev one_left : (t : Executors (Running codec counter)) × Steps serve bodies ended t
one_left = (_, next here (call 0 (leave refl)))

Steps-released_example :
    ReturnsOrWaits (bodies 1) (one_left.0.finished 1) one_left.0.mem (one_left.0.pc 1)
    × (remaining (one_left.0.pc 1) + moves_of 1 one_left.1 ≤ 5)
Steps-released_example = Steps-released one_left.1 1 refl
