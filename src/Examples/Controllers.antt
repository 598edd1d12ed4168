-- ===== src/Examples/Controllers.antt =====
-- openwhisk/cgroupFreezer.go: the controller on concrete kernels.
use openwhisk_runtime_go.Base.{◌≡◌, ◌⊎◌, ◌↔◌, inl, refl, true, none, some, List, [], ◌∷◌, Any}
use openwhisk_runtime_go.Freezer.Cgroup.{kill_all, last, more, value, wait_for_event_field}
use openwhisk_runtime_go.Freezer.Cgroup
use openwhisk_runtime_go.Freezer.Machine.{
  Controller, frozen, unknown, running, stopped, freeze_execution, resume_execution, kill_execution,
  start, new_activation_controller,
}
use openwhisk_runtime_go.Freezer.Invariant.{Inv}
use openwhisk_runtime_go.Freezer.Traces.{Call, freezes, resumes, kills, run, step, run-started-Inv}
use openwhisk_runtime_go.Freezer.Held.{EndsPause, run-EndsPause}
use openwhisk_runtime_go.Freezer.Stuck.{kill_execution-none}
use openwhisk_runtime_go.Examples.Fixtures.{
  freezes_well, resumes_well, never_reaped, reaped_soon, controller,
}

-- A pause cycle, then a kill.
abbrev cycle_then_kill : List Call
cycle_then_kill =
    freezes freezes_well "p" ∷ resumes resumes_well "p" ∷ kills resumes_well reaped_soon "" ∷ []

abbrev after_kill : Controller
after_kill = record {
  cg = record {
    path = "/sys/fs/cgroup/activation";
    written = Cgroup.kill_all ∷ Cgroup.freeze_off ∷ Cgroup.freeze_on ∷ [];
  };
  process = true;
  reaped = true;
  state = stopped;
  last_pause_id = "";
}

cycle_then_kill-run : run cycle_then_kill controller ≡ some after_kill
unfolding run step start new_activation_controller freeze_execution resume_execution kill_execution
    Cgroup.freeze Cgroup.unfreeze Cgroup.kill wait_for_event_field
cycle_then_kill-run = refl

run-started-Inv_example : Inv after_kill
run-started-Inv_example =
    run-started-Inv "/sys/fs/cgroup/activation" true cycle_then_kill after_kill cycle_then_kill-run

controller_runs : controller.state ≡ running
unfolding start new_activation_controller
controller_runs = refl

kill_execution-none_example : (kill_execution resumes_well never_reaped "p" controller ≡ none) ↔ (
    ((Cgroup.kill resumes_well controller.cg).1 ≡ none)
    × (controller.process ≡ true)
    × (never_reaped.reap_time ≡ none)
    × (never_reaped.budget ≡ 0))
kill_execution-none_example =
    kill_execution-none resumes_well never_reaped "p" controller (inl controller_runs)

-- A controller that a failed freeze has left UNKNOWN.
abbrev lost : Controller
lost = record controller { state = unknown }

-- Frozen by one activation, and two calls of another.
abbrev held : Controller
held = record controller { state = frozen; last_pause_id = "a" }

abbrev other_calls : List Call
other_calls = freezes freezes_well "b" ∷ resumes resumes_well "b" ∷ []

other_calls-run : run other_calls held ≡ some held
unfolding run step freeze_execution resume_execution
other_calls-run = refl

run-EndsPause_example : Any (EndsPause "a") other_calls ⊎ (held ≡ held)
run-EndsPause_example = run-EndsPause other_calls held held refl other_calls-run
