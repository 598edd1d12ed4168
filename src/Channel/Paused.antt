-- ===== src/Channel/Paused.antt =====
-- openwhisk/schedulerChannel.go: postExecutionPaused, the call that blocks until the scheduler has
-- decided, and its timeout. encoding/json and net/http are not part of the repository: what they do
-- in a call is an argument.
use openwhisk_runtime_go.Base.{
  ℕ, ◌≡◌, ◌≢◌, ◌↔◌, Bool, true, false, ◌&&◌, Option, none, some, List, if◌then◌else◌, arith,
}
use openwhisk_runtime_go.Base.Int64
use openwhisk_runtime_go.Channel.Recorder.{
  SchedulerConnTrace, CallError, Note, new_recorder, notes, finish, is_timeout, finish-failure,
}

-- What client.Do and the decoding of the body give.
pub data Exchange (Command : Type 0) : Type 0 where
  failed : CallError → Exchange Command
  undecoded : CallError → Exchange Command
  decoded : Command → Exchange Command

-- A call: whether the event is marshalled and the request built, the clock at the start and at
-- the end, the callbacks in between.
pub record PausedCall (Command : Type 0) : Type 0 where
  pub marshals : Bool
  pub builds : Bool
  pub started : ℕ
  pub callbacks : List Note
  pub ended : ℕ
  pub exchange : Exchange Command

-- pausedEventTimeout, in nanoseconds; `margin_ms` is what the environment sets, 2000 by default.
unfoldable paused_event_timeout : ℕ → ℕ → ℕ
paused_event_timeout max_pause_duration_ms margin_ms =
    let duration = if Int64.lt max_pause_duration_ms 0 then 0 else max_pause_duration_ms in
    Int64.add (Int64.mul duration 1000000) (Int64.mul margin_ms 1000000)

module _ {Command : Type 0} where
  abbrev answer_of : Exchange Command → Option Command
  answer_of (failed err) = none
  answer_of (undecoded err) = none
  answer_of (decoded command) = some command

  -- The error and the `unreadable` that are handed to finish.
  unfoldable closing : Exchange Command → Option CallError × Bool
  unfolding is_timeout
  closing (failed err) = (some err, false)
  closing (undecoded err) = if is_timeout err then (some err, false) else (some err, true)
  closing (decoded command) = (none, false)

  -- The command, `none` for an error, and the trace. Without a request nothing is recorded.
  unfoldable pub post_execution_paused : PausedCall Command → Option Command × SchedulerConnTrace
  unfolding closing
  post_execution_paused call =
      if call.marshals && call.builds
      then (
        answer_of call.exchange,
        (finish call.ended (closing call.exchange).0 (closing call.exchange).1
            (notes call.callbacks (new_recorder call.started))).trace,
      )
      else (none, (finish call.ended none false (new_recorder 0)).trace)

  closing_answer :
      (x : Exchange Command)
      → (((closing x).0 ≡ none) × ((closing x).1 ≡ false)) ↔ (answer_of x ≢ none)
  unfolding closing
  closing_answer (failed err) = ground arith
  closing_answer (undecoded err) = ground arith
  closing_answer (decoded command) = ground arith

  -- A call whose request is sent gives a command exactly if its trace names no failure.
  pub post_execution_paused-failure :
      (call : PausedCall Command)
      → call.marshals ≡ true
      → call.builds ≡ true
      → ((post_execution_paused call).1.failure ≡ "") ↔ ((post_execution_paused call).0 ≢ none)
  unfolding post_execution_paused
  post_execution_paused-failure call m b = ground (
    arith,
    finish-failure call.callbacks call.started call.ended (closing call.exchange).0
        (closing call.exchange).1,
    closing_answer call.exchange,
  )

  -- A call whose request cannot be made gives no command, and its trace names no failure either.
  post_execution_paused_unsent :
      (call : PausedCall Command)
      → (call.marshals && call.builds) ≡ false
      → ((post_execution_paused call).0 ≡ none) × ((post_execution_paused call).1.failure ≡ "")
  unfolding post_execution_paused finish
  post_execution_paused_unsent call h = ground arith
