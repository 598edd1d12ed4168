-- ===== src/Launcher/Answers.antt =====
-- golang1.22/lib/launcher.go and openwhisk/executor.go: the lines that Interact writes, and the lines
-- that Start and Interact read back, one for each.
use openwhisk_runtime_go.Base.{
  suc, ◌≡◌, ◌∙◌, inl, inr, ap, refl, sym, subst, Bool, true, false, ◌&&◌, ◌||◌, Option, none, some,
  List, [], ◌∷◌, ◌++◌, map, All, length, drop, arith, Option-cases, Bool-cases, if◌then◌else◌,
}
use openwhisk_runtime_go.Base.Text.{Bytes, codes, same}
use openwhisk_runtime_go.Base.Streams.{
  lines, written, without_newlines, is_line, IsLine, without_newlines-IsLine, IsLine-append,
  lines-written, map-All,
}
use openwhisk_runtime_go.Sidecar.Json.{Members}
use openwhisk_runtime_go.Proxy.Env.{getenv}
use openwhisk_runtime_go.Proxy.Launch.{Ack, ack, First, received, exited, System, start}
use openwhisk_runtime_go.Launcher.{
  Outcome, refused, given, Codec, Action, Running, error_line, output_line, evaluate, answers,
  ack_line, main, gobuild_main, call_main, payload_of, set_variables, respond,
}

-- What Interact writes on each of the bodies, from which runHandler has removed the newlines.
unfoldable pub sent : List Bytes → Bytes
unfolding written
sent bodies = written (map without_newlines bodies)

abbrev pub first_line : List Bytes → Option Bytes
first_line [] = none
first_line (line ∷ rest) = some line

-- What Start receives first from a process that writes `out` and goes on or exits.
unfoldable pub first_of : (Bytes → Ack) → Bytes → First
unfolding lines
first_of decode out = elim (lines out) [ [] ↦ exited | line ∷ rest ↦ received (decode line) ]

module _ {N : Type 0} (codec : Codec N) (action : Action N) where
  -- The process after it has read some lines, if Main returned on each.
  unfoldable pub after : List Bytes → Running codec action → Option (Running codec action)
  unfolding evaluate
  after [] r = some r
  after (inbuf ∷ inputs) r = elim (evaluate codec action inbuf r) [
    | none ↦ none
    | some (line, r') ↦ after inputs r'
  ]

  -- The tests before the loop: the execution environment, and the result of Main.
  unfoldable pub starts_loop : Bytes → Running codec action → Bool
  unfolding getenv
  starts_loop execution_env r =
      (same execution_env [] || same execution_env (getenv (codes "__OW_EXECUTION_ENV") r.env))
      && action.returns_collection

  abbrev pub answered : Option (Bytes × Running codec action) → Option Bytes
  answered none = none
  answered (some (line, r)) = some line

  error_line-IsLine : (e : Bytes) → IsLine (error_line codec action e)
  unfolding is_line
  error_line-IsLine e =
      IsLine-append (codes "{ error: ") (codec.quote e ++ codes "}") refl
        (IsLine-append (codec.quote e) (codes "}") (codec.quote-IsLine e) refl)

  output_line-IsLine : (o : Outcome Bytes) → IsLine (output_line codec action o)
  output_line-IsLine (refused e) = error_line-IsLine e
  output_line-IsLine (given output) = without_newlines-IsLine output

  abbrev WritesLine : Option (Bytes × Running codec action) → Type 0
  WritesLine none = Unit
  WritesLine (some (line, r)) = IsLine line

  respond-WritesLine :
      (o : Outcome (Members N)) (r : Running codec action) → WritesLine (respond codec action o r)
  unfolding respond
  respond-WritesLine (refused e) r = error_line-IsLine e
  respond-WritesLine (given input) r =
      elim (Option-cases (
        call_main codec action (payload_of input) (record r { env = set_variables input r.env }))) [
          | inl e ↦ rw (e, respond) tt
          | inr ((result, r'), e) ↦ rw (e, respond) (output_line-IsLine (action.marshal result))
        ]

  evaluate-WritesLine :
      (inbuf : Bytes) (r : Running codec action) → WritesLine (evaluate codec action inbuf r)
  unfolding evaluate
  evaluate-WritesLine inbuf r = respond-WritesLine (codec.unmarshal inbuf) r

  answers-IsLine :
      (ls : List Bytes) (r : Running codec action) → All IsLine (answers codec action ls r)
  unfolding answers
  answers-IsLine [] r = tt
  answers-IsLine (inbuf ∷ ls) r = elim (Option-cases (evaluate codec action inbuf r)) [
    | inl e ↦ rw (e, answers) tt
    | inr ((line, r'), e) ↦
        rw (e, answers) (subst WritesLine e (evaluate-WritesLine inbuf r), answers-IsLine ls r')
  ]

  -- What the launcher writes: nothing where a test before the loop fails.
  main_lem :
      (execution_env stdin : Bytes) (r : Running codec action)
      → main codec action execution_env stdin r ≡ (
          if starts_loop execution_env r
          then written (ack_line codec action ∷ answers codec action (lines stdin) r)
          else [])
  unfolding main starts_loop
  main_lem execution_env stdin r = ground arith

  -- What the proxy reads back is what the launcher writes, line by line.
  lines-main :
      (execution_env : Bytes) (bodies : List Bytes) (r : Running codec action)
      → starts_loop execution_env r ≡ true
      → lines (main codec action execution_env (sent bodies) r)
        ≡ ack_line codec action ∷ answers codec action (map without_newlines bodies) r
  unfolding sent is_line
  lines-main execution_env bodies r h =
      rw
        (
          main_lem execution_env (sent bodies) r,
          h,
          lines-written (map without_newlines bodies) (map-All bodies),
        )
        (lines-written
          (ack_line codec action ∷ answers codec action (map without_newlines bodies) r)
          (refl, answers-IsLine (map without_newlines bodies) r))

  lines-main_refused :
      (execution_env stdin : Bytes) (r : Running codec action)
      → starts_loop execution_env r ≡ false
      → lines (main codec action execution_env stdin r) ≡ []
  unfolding lines
  lines-main_refused execution_env stdin r h = rw (main_lem execution_env stdin r, h) refl

  first_line-answer :
      (b : Bytes) (ys : List Bytes) (r : Running codec action)
      → first_line (answers codec action (b ∷ ys) r) ≡ answered (evaluate codec action b r)
  unfolding answers
  first_line-answer b ys r = elim (Option-cases (evaluate codec action b r)) [
    | inl e ↦ rw (e, answers) refl
    | inr ((line, q), e) ↦ rw (e, answers) refl
  ]

  first_line-answers :
      (xs : List Bytes) (b : Bytes) (ys : List Bytes) (r r' : Running codec action)
      → after (map without_newlines xs) r ≡ some r'
      → first_line
          (drop (length xs) (answers codec action (map without_newlines (xs ++ (b ∷ ys))) r))
        ≡ answered (evaluate codec action (without_newlines b) r')
  unfolding after answers
  first_line-answers [] b ys r r' h =
      let e : r ≡ r' = ground (arith, h) in
      first_line-answer (without_newlines b) (map without_newlines ys) r
      ∙ ap (λ q. answered (evaluate codec action (without_newlines b) q)) e
  first_line-answers (x ∷ xs) b ys r r' h =
      elim (Option-cases (evaluate codec action (without_newlines x) r)) [
        | inl e ↦ absurd (ground (arith, e, h))
        | inr ((line, q), e) ↦
            rw (e, answers) (first_line-answers xs b ys q r' (rw (e, after) at h))
      ]

  -- Whatever bodies are sent one after another to a launcher that starts its loop: where Main has
  -- returned on each body before, what is read back for a body is the line that the launcher
  -- evaluates it to, and there is no further line where Main does not return on it. The line before
  -- all of these is the acknowledgement.
  pub main-answers :
      (execution_env : Bytes) (xs : List Bytes) (b : Bytes) (ys : List Bytes)
      (r r' : Running codec action)
      → starts_loop execution_env r ≡ true
      → after (map without_newlines xs) r ≡ some r'
      → (first_line (lines (main codec action execution_env (sent (xs ++ (b ∷ ys))) r))
          ≡ some (ack_line codec action))
        × (first_line (
              drop
                (suc (length xs))
                (lines (main codec action execution_env (sent (xs ++ (b ∷ ys))) r)))
            ≡ answered (evaluate codec action (without_newlines b) r'))
  main-answers execution_env xs b ys r r' h k =
      rw (lines-main execution_env (xs ++ (b ∷ ys)) r h) (refl, first_line-answers xs b ys r r' k)

  lines-gobuild_main :
      (execution_env : Bytes) (bodies : List Bytes) (r : Running codec action)
      → starts_loop execution_env r ≡ true
      → lines (gobuild_main codec action (sent bodies) r)
        ≡ answers codec action (map without_newlines bodies) r
  unfolding starts_loop gobuild_main sent
  lines-gobuild_main execution_env bodies r h =
      let ls = map without_newlines bodies in
      ground (
        arith,
        h,
        lines-written ls (map-All bodies),
        lines-written (answers codec action ls r) (answers-IsLine ls r),
      )

  -- The two launchers on the same requests: where the first starts its loop, what is read back
  -- from it is its acknowledgement and then, line by line, what is read back from the one of
  -- gobuild.
  main-gobuild_main :
      (execution_env : Bytes) (bodies : List Bytes) (r : Running codec action)
      → starts_loop execution_env r ≡ true
      → lines (main codec action execution_env (sent bodies) r)
        ≡ ack_line codec action ∷ lines (gobuild_main codec action (sent bodies) r)
  main-gobuild_main execution_env bodies r h =
      lines-main execution_env bodies r h
      ∙ ap (◌∷◌ (ack_line codec action)) (sym (lines-gobuild_main execution_env bodies r h))

  -- Whether Start succeeds on a launcher, where it waits for the acknowledgement and the process
  -- starts: exactly if the execution environment is the one of the compilation, or none was set
  -- there, and Main returns a map, a slice or an array; given that Unmarshal reads the launcher's
  -- own acknowledgement.
  pub start-main :
      (decode : Bytes → Ack) (y : System) (execution_env : Bytes) (bodies : List Bytes)
      (r : Running codec action)
      → decode (ack_line codec action) ≡ ack true
      → y.starts ≡ true
      → start true
          (record y { first = first_of decode (main codec action execution_env (sent bodies) r) })
        ≡ starts_loop execution_env r
  unfolding start first_of
  start-main decode y execution_env bodies r h k = elim (Bool-cases (starts_loop execution_env r)) [
    | inl e ↦ ground (arith, e, h, k, lines-main execution_env bodies r e)
    | inr e ↦ ground (arith, e, h, k, lines-main_refused execution_env (sent bodies) r e)
  ]
