-- ===== src/Examples/Hanging.antt =====
-- openwhisk/executor.go: a call of Interact whose monitor hangs in a kill.
use openwhisk_runtime_go.Base.{◌≡◌, refl, true, false, none, some, [], ◌∷◌}
use openwhisk_runtime_go.Base.Int64.{add, sub, le, lt, div, mul}
use openwhisk_runtime_go.Freezer.Cgroup.{Kernel, kill_all, wait_for_event_field}
use openwhisk_runtime_go.Freezer.Cgroup
use openwhisk_runtime_go.Freezer.Machine.{
  kill_execution, freeze_execution, start, new_activation_controller,
}
use openwhisk_runtime_go.Segments.Meter.{
  new_step_meter, step_uj, step_j, joules, refine_frozen_cpu, close_at,
}
use openwhisk_runtime_go.Segments.Tracking.{refine_frozen_segment, close_segment_at_freeze}
use openwhisk_runtime_go.Monitor.Called.{IsHung}
use openwhisk_runtime_go.Monitor.Hung.{interact-IsHung}
use openwhisk_runtime_go.Monitor.Classes.{
  is_non_interruptible_for_this_step, interruption_class_unresolved, should_monitor_energy,
}
use openwhisk_runtime_go.Monitor.Cycle.{
  KillInputs, run_pause_cycle, rounds, round, dispatch, on_kill, kill_and_return,
  refine_cycle_while_frozen, after_freeze, traced, new_cycle, command_of,
}
use openwhisk_runtime_go.Monitor.Loop.{
  tick, in_kill, monitor_energy, on_tick, on_threshold, after_cycle,
}
use openwhisk_runtime_go.Monitor.Interact.{Interaction, monitored, interact}
use openwhisk_runtime_go.Attribution.{
  attributed_energy_uj, attribution_detail, delta_rapl_uj, capped_ratio, duration_usec, nb_cores,
}
use openwhisk_runtime_go.Examples.Fixtures.{
  machine, freezes_well, never_reaped, controller, cpu_at, killable,
}
use openwhisk_runtime_go.Examples.Monitors.{kill_soon, answering, pausing, interaction}

-- A process that is never reaped, and no budget for the wait.
abbrev kill_never : KillInputs
kill_never = record kill_soon { reaping = never_reaped }

abbrev hanging : Interaction machine
hanging = record interaction {
  events =
      tick (record {
        busy_ns = 7;
        energy = some 4000;
        cpu = cpu_at 2900 3000000;
        detected_at = 3000000;
        kill = kill_never;
        cycle = pausing freezes_well;
        rounds = record (answering "KILL_EXECUTION") { kill = kill_never } ∷ [];
      })
      ∷ [];
}

hangs : (monitored machine killable hanging controller).status ≡ in_kill
unfolding monitored monitor_energy on_tick on_threshold after_cycle run_pause_cycle freeze_execution
    Cgroup.freeze wait_for_event_field start new_activation_controller kill_execution Cgroup.kill
    rounds round dispatch on_kill kill_and_return refine_cycle_while_frozen refine_frozen_segment
    refine_frozen_cpu after_freeze close_segment_at_freeze close_at traced new_cycle command_of
    new_step_meter lt sub add le is_non_interruptible_for_this_step step_j step_uj joules div mul
    attributed_energy_uj attribution_detail delta_rapl_uj capped_ratio duration_usec nb_cores
hangs = refl

is_enforced : should_monitor_energy (some killable) ≡ true
unfolding should_monitor_energy interruption_class_unresolved
is_enforced = refl

interact-IsHung_example :
    (interact machine (some killable) hanging controller ≡ none)
    × (is_non_interruptible_for_this_step killable ≡ false)
    × IsHung (monitored machine killable hanging controller).world.controller
interact-IsHung_example = interact-IsHung machine killable hanging controller is_enforced hangs
