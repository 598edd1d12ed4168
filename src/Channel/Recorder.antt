-- ===== src/Channel/Recorder.antt =====
-- openwhisk/schedulerChannel.go: connRecorder, which fills a schedulerConnTrace during one call.
-- Each method holds the lock, so it is one step; the clock is an argument.
use openwhisk_runtime_go.Base.{
  ℕ, ◌≡◌, ◌↔◌, refl, ◌∙◌, Bool, true, false, not, ◌&&◌, ◌||◌, Option, none, some, List, [], ◌∷◌,
  String, if◌then◌else◌, arith,
}
use openwhisk_runtime_go.Base.Int64

pub record SchedulerConnTrace : Type 0 where
  pub reused : Bool
  pub setup_ns : ℕ
  pub dns_ns : ℕ
  pub connect_ns : ℕ
  pub cached_addr : Bool
  pub failure : String

-- An error as isTimeout sees it: whether it wraps DeadlineExceeded, and what Timeout() says where
-- it wraps a net.Error.
pub record CallError : Type 0 where
  pub deadline_exceeded : Bool
  pub net_timeout : Option Bool

unfoldable pub is_timeout : CallError → Bool
is_timeout err = err.deadline_exceeded || elim err.net_timeout [ none ↦ false | some t ↦ t ]

-- A time is none where Go has the zero time.
pub record ConnRecorder : Type 0 where
  pub closed : Bool
  pub start : ℕ
  pub trace : SchedulerConnTrace
  resolve_started_at : Option ℕ
  pub resolve_ended : Bool
  resolve_ok : Bool
  connect_started_at : Option ℕ
  pub connect_ended : Bool
  pub got_conn : Bool

-- &connRecorder{}, with the start that traceRequest sets.
abbrev pub new_recorder : ℕ → ConnRecorder
new_recorder now = record {
  closed = false;
  start = now;
  trace = record {
    reused = false;
    setup_ns = 0;
    dns_ns = 0;
    connect_ns = 0;
    cached_addr = false;
    failure = "";
  };
  resolve_started_at = none;
  resolve_ended = false;
  resolve_ok = false;
  connect_started_at = none;
  connect_ended = false;
  got_conn = false;
}

-- time.Since; from the zero time it is the greatest duration.
unfoldable pub since : ℕ → Option ℕ → ℕ
since now none = 9223372036854775807
since now (some t) = Int64.sub now t

unfoldable pub update : (ConnRecorder → ConnRecorder) → ConnRecorder → ConnRecorder
update fn r = if r.closed then r else fn r

-- The callbacks during a call, with the clock where they read it.
pub data Note : Type 0 where
  cached_addr : Note
  resolve_start connect_start connect_done : ℕ → Note
  resolve_done : ℕ → Bool → Note
  got_conn : ℕ → Bool → Note

abbrev write_note : Note → ConnRecorder → ConnRecorder
write_note cached_addr r = record r { trace = record r.trace { cached_addr = true } }
write_note (resolve_start now) r = record r { resolve_started_at = some now }
write_note (connect_start now) r = record r { connect_started_at = some now }
write_note (resolve_done now ok) r = record r {
  trace = record r.trace { dns_ns = since now r.resolve_started_at };
  resolve_ended = true;
  resolve_ok = ok;
}
write_note (connect_done now) r = record r {
  trace = record r.trace { connect_ns = since now r.connect_started_at };
  connect_ended = true;
}
write_note (got_conn now reused) r = record r {
  got_conn = true;
  trace = record r.trace { reused = reused; setup_ns = Int64.sub now r.start };
}

unfoldable pub note : Note → ConnRecorder → ConnRecorder
unfolding update
note x r = update (write_note x) r

unfoldable pub notes : List Note → ConnRecorder → ConnRecorder
unfolding note
notes [] r = r
notes (x ∷ xs) r = notes xs (note x r)

abbrev is_set : Option ℕ → Bool
is_set none = false
is_set (some t) = true

-- The causes of a failure, and their names on the wire.
pub data Failure : Type 0 where
  resolve connect timeout unreadable_response : Failure

unfoldable pub failure_name : Failure → String
failure_name resolve = "resolve"
failure_name connect = "connect"
failure_name timeout = "timeout"
failure_name unreadable_response = "unreadable_response"

-- The switch of finish.
unfoldable classify : ConnRecorder → Option CallError → Bool → Option Failure
unfolding is_timeout
classify r call_err unreadable = if unreadable then some unreadable_response else elim call_err [
  | none ↦ none
  | some err ↦
      if is_set r.resolve_started_at && not r.resolve_ok
      then some resolve
      else if not r.got_conn
      then some connect
      else if is_timeout err
      then some timeout
      else some connect
]

unfoldable pub named : Option Failure → String → String
unfolding failure_name
named none was = was
named (some f) was = failure_name f

unfoldable pub finish : ℕ → Option CallError → Bool → ConnRecorder → ConnRecorder
unfolding classify since named
finish now call_err unreadable r = record r {
  closed = true;
  trace = record r.trace {
    dns_ns =
        if is_set r.resolve_started_at && not r.resolve_ended
        then since now r.resolve_started_at
        else r.trace.dns_ns;
    connect_ns =
        if is_set r.connect_started_at && not r.connect_ended
        then since now r.connect_started_at
        else r.trace.connect_ns;
    failure = named (classify r call_err unreadable) r.trace.failure;
  };
}

-- A call that has returned is closed: whatever callbacks still arrive, the recorder and the trace
-- it gave stay as they are.
notes-finish :
    (xs : List Note) (now : ℕ) (call_err : Option CallError) (unreadable : Bool) (r : ConnRecorder)
    → notes xs (finish now call_err unreadable r) ≡ finish now call_err unreadable r
unfolding notes finish note
notes-finish [] now call_err unreadable r = refl
notes-finish (x ∷ xs) now call_err unreadable r = notes-finish xs now call_err unreadable r

write_note-failure :
    (x : Note) (r : ConnRecorder) → (write_note x r).trace.failure ≡ r.trace.failure
write_note-failure cached_addr r = refl
write_note-failure (resolve_start now) r = refl
write_note-failure (connect_start now) r = refl
write_note-failure (connect_done now) r = refl
write_note-failure (resolve_done now ok) r = refl
write_note-failure (got_conn now reused) r = refl

note-failure : (x : Note) (r : ConnRecorder) → (note x r).trace.failure ≡ r.trace.failure
unfolding note
note-failure x r = ground (arith, write_note-failure x r)

pub notes-failure :
    (xs : List Note) (r : ConnRecorder) → (notes xs r).trace.failure ≡ r.trace.failure
unfolding notes
notes-failure [] r = refl
notes-failure (x ∷ xs) r = notes-failure xs (note x r) ∙ note-failure x r

named-empty : (o : Option Failure) → (named o "" ≡ "") ↔ (o ≡ none)
unfolding named failure_name
named-empty none = ((λ h. refl), (λ h. refl))
named-empty (some resolve) = ((λ h. cc h), (λ h. cc h))
named-empty (some connect) = ((λ h. cc h), (λ h. cc h))
named-empty (some timeout) = ((λ h. cc h), (λ h. cc h))
named-empty (some unreadable_response) = ((λ h. cc h), (λ h. cc h))

classify-none :
    (r : ConnRecorder) (call_err : Option CallError) (unreadable : Bool)
    → (classify r call_err unreadable ≡ none) ↔ ((call_err ≡ none) × (unreadable ≡ false))
unfolding classify
classify-none r call_err unreadable = ground arith

-- After any callbacks of a new call: the trace names a failure exactly if the call failed or its
-- answer could not be read.
pub finish-failure :
    (xs : List Note) (start now : ℕ) (call_err : Option CallError) (unreadable : Bool)
    → ((finish now call_err unreadable (notes xs (new_recorder start))).trace.failure ≡ "")
      ↔ ((call_err ≡ none) × (unreadable ≡ false))
unfolding finish
finish-failure xs start now call_err unreadable =
    let r = notes xs (new_recorder start) in
    rw (notes-failure xs (new_recorder start)) (
      ground
        (arith, named-empty (classify r call_err unreadable), classify-none r call_err unreadable))
