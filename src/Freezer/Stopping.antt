-- ===== src/Freezer/Stopping.antt =====
-- openwhisk/executor.go: Stop; openwhisk/cgroupFreezer.go: Close and waitOnce.
use openwhisk_runtime_go.Base.{Bool, Option, none, some, ◌≡◌, arith}
use openwhisk_runtime_go.Freezer.Cgroup.{Kernel}
use openwhisk_runtime_go.Freezer.Machine.{
  unknown, Controller, TransitionError, Reaping, kill_op, requires_running_or_frozen,
  kill_execution,
}

-- The controller after Stop, the errors of the kill and of Close, which are logged; the command is
-- forgotten.
pub record Stopped : Type 0 where
  pub controller : Controller
  pub kill_error : Option TransitionError
  pub closed : Bool

-- `removes`: whether the directory of the cgroup can be removed. `none`: the kill does not return.
unfoldable pub stop : Kernel → Reaping → Bool → Controller → Option Stopped
stop k r removes c = elim (kill_execution k r "shutdown" c) [
  | none ↦ none
  | some (c', e) ↦ some (record { controller = c'; kill_error = e; closed = removes })
]

-- A Stop of a controller that a failed freeze or resume has left UNKNOWN returns, and kills nothing:
-- the controller with its cgroup writes is as it was, and the refusal is only logged.
stop-unknown :
    (k : Kernel) (r : Reaping) (removes : Bool) (c : Controller)
    → c.state ≡ unknown
    → stop k r removes c
      ≡ some (record {
        controller = c;
        kill_error = some (record {
          pause_id = "shutdown";
          attempted_op = kill_op;
          from_state = unknown;
          reason = requires_running_or_frozen;
        });
        closed = removes;
      })
unfolding stop kill_execution
stop-unknown k r removes c h = ground (arith, h)

-- The first call runs cmd.Wait, whose result is `result`; every other one gives the same.
pub data WaitOnce (E : Type 0) : Type 0 where
  fresh : WaitOnce E
  waited : E → WaitOnce E

unfoldable pub wait : {E : Type 0} → E → WaitOnce E → E × WaitOnce E
wait result fresh = (result, waited result)
wait result (waited e) = (e, waited e)
