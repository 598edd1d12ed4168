-- ===== src/Freezer/Stuck.antt =====
-- openwhisk/cgroupFreezer.go: what killExecution does where it cannot kill or does not return.
use openwhisk_runtime_go.Base.{◌≡◌, ◌≢◌, ◌⊎◌, ◌↔◌, true, Option, none, some, String, arith, eq_iff}
use openwhisk_runtime_go.Freezer.Cgroup.{Kernel, kill_all, Handle}
use openwhisk_runtime_go.Freezer.Cgroup
use openwhisk_runtime_go.Freezer.Machine.{
  running, frozen, stopped, unknown, Controller, TransitionError, Reaping, kill_op,
  requires_running_or_frozen, freeze_execution, kill_execution, resume_execution,
}

-- If the freeze of a running activation fails, then a kill that follows it is refused, whatever
-- the kernel would answer to it: it returns an error, it writes nothing to the cgroup, so that no
-- process is killed, and the state is UNKNOWN.
pub kill_execution-after_freeze_failure :
    (k k' : Kernel) (r : Reaping) (p p' : String) (c : Controller)
    → c.state ≡ running
    → (freeze_execution k p c).1 ≢ none
    → kill_execution k' r p' (freeze_execution k p c).0
      ≡ some (
        (freeze_execution k p c).0,
        some (record {
          pause_id = p';
          attempted_op = kill_op;
          from_state = unknown;
          reason = requires_running_or_frozen;
        }),
      )
unfolding freeze_execution kill_execution
kill_execution-after_freeze_failure k k' r p p' c h e = ground arith

-- If the resume of a frozen activation under its own pause id fails, then a kill that follows it is
-- refused, whatever the kernel would answer to it: it returns an error, it writes nothing to the
-- cgroup, so that no process is killed, and the state is UNKNOWN.
kill_execution-after_resume_failure :
    (k k' : Kernel) (r : Reaping) (p' : String) (c : Controller)
    → c.state ≡ frozen
    → (resume_execution k c.last_pause_id c).1 ≢ none
    → kill_execution k' r p' (resume_execution k c.last_pause_id c).0
      ≡ some (
        (resume_execution k c.last_pause_id c).0,
        some (record {
          pause_id = p';
          attempted_op = kill_op;
          from_state = unknown;
          reason = requires_running_or_frozen;
        }),
      )
unfolding resume_execution kill_execution
kill_execution-after_resume_failure k k' r p' c h e =
    ground (arith, eq_iff c.last_pause_id c.last_pause_id)

-- A kill of a running or frozen activation does not return exactly where its cgroup is confirmed
-- empty, its process is started, cmd.Wait never returns, and no budget is set.
pub kill_execution-none :
    (k : Kernel) (r : Reaping) (p : String) (c : Controller)
    → (c.state ≡ running) ⊎ (c.state ≡ frozen)
    → (kill_execution k r p c ≡ none) ↔ (
        ((Cgroup.kill k c.cg).1 ≡ none)
        × (c.process ≡ true)
        × (r.reap_time ≡ none)
        × (r.budget ≡ 0))
unfolding kill_execution
kill_execution-none k r p c h = ground arith

-- A kill that reports success leaves the activation STOPPED, and one that reports an error leaves
-- it UNKNOWN or, where it was neither running, frozen nor stopped, unchanged.
pub kill_execution_state :
    (k : Kernel) (r : Reaping) (p : String) (c d : Controller) (e : Option TransitionError)
    → kill_execution k r p c ≡ some (d, e)
    → ((e ≡ none) × (d.state ≡ stopped)) ⊎ ((e ≢ none) × ((d.state ≡ unknown) ⊎ (d ≡ c)))
unfolding kill_execution
kill_execution_state k r p c d e h = ground arith
