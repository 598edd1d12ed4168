-- ===== src/Examples/Monitors.antt =====
-- openwhisk/energyMonitor.go: the monitor on a killable and on an unkillable step.
use openwhisk_runtime_go.Base.{
  ◌≡◌, ◌≢◌, ◌⊎◌, refl, ap, true, false, none, some, List, [], ◌∷◌, String, Any, arith, eq_iff,
}
use openwhisk_runtime_go.Base.Int64.{add, sub, le, lt, div, mul}
use openwhisk_runtime_go.Freezer.Cgroup.{Kernel, kill_all, wait_for_event_field}
use openwhisk_runtime_go.Freezer.Cgroup
use openwhisk_runtime_go.Freezer.Machine.{
  Controller, Reaping, unknown, frozen, stopped, kill_execution, freeze_execution, resume_execution,
  start, new_activation_controller,
}
use openwhisk_runtime_go.Freezer.Machine
use openwhisk_runtime_go.Segments.Meter.{
  new_step_meter, step_uj, step_j, joules, refine_frozen_cpu, close_at,
}
use openwhisk_runtime_go.Segments.Settlement.{segmented_attribution}
use openwhisk_runtime_go.Segments.Tracking.{refine_frozen_segment, close_segment_at_freeze}
use openwhisk_runtime_go.Segments.Replay.{initial}
use openwhisk_runtime_go.Monitor.Crossed.{run_pause_cycle-held}
use openwhisk_runtime_go.Monitor.Abandoned.{monitor_energy-unknown}
use openwhisk_runtime_go.Monitor.Classes.{
  is_non_interruptible_for_this_step, interruption_class_unresolved, should_monitor_energy,
}
use openwhisk_runtime_go.Monitor.Result.{new_result}
use openwhisk_runtime_go.Monitor.Cycle.{
  KillInputs, CycleInputs, Round, World, CycleEnd, waiting, was_killed, resumed_with,
  run_pause_cycle, rounds, round, dispatch, on_resume, on_wait, refine_cycle_while_frozen,
  after_freeze, traced, new_cycle, command_of,
}
use openwhisk_runtime_go.Monitor.Loop.{
  Event, tick, in_kill, returned, monitor_energy, on_tick, on_threshold, after_cycle,
}
use openwhisk_runtime_go.Monitor.Interact.{
  Interaction, Interacted, line, monitored, collected, awaited, interact,
}
use openwhisk_runtime_go.Attribution.{
  attributed_energy_uj, attribution_detail, delta_rapl_uj, capped_ratio, duration_usec, nb_cores,
}
use openwhisk_runtime_go.Monitor.Authorized.{Authorizes, run_pause_cycle-resumed}
use openwhisk_runtime_go.Monitor.Spared.{kills}
use openwhisk_runtime_go.Monitor.Decided.{run_pause_cycle-decides, run_pause_cycle-freeze_failure}
use openwhisk_runtime_go.Monitor.Settled.{monitor_energy-settles}
use openwhisk_runtime_go.Monitor.Unkillable.{IsUntouched, monitor_energy-spares}
use openwhisk_runtime_go.Examples.Fixtures.{
  machine, freezes_well, resumes_well, stuck, reaped_soon, controller, cpu_at, snapshot, killable,
  unkillable,
}

abbrev world : World machine
world = record {
  controller = controller;
  tracking = initial 1000 (cpu_at 0 0);
  result = new_result machine;
  incidents = [];
}

abbrev pub kill_soon : KillInputs
kill_soon = record {
  kernel = resumes_well;
  reaping = reaped_soon;
  requested_at = 4000000;
  stopped_at = 5000000;
}

abbrev pub answering : String → Round machine
answering command = record {
  roundtrip_ns = 500;
  trace = record {
    reused = true;
    setup_ns = 3;
    dns_ns = 0;
    connect_ns = 0;
    cached_addr = false;
    failure = "";
  };
  answer =
      some
        (record { command = command; pause_id = "p"; new_execution_threshold_j = 9; reason = "" });
  resume_cpu = cpu_at 3000 3500000;
  resume_kernel = resumes_well;
  resume_requested_at = 3500000;
  resume_effective_at = 3600000;
  resume_snapshot = snapshot 6000 3000 9000000;
  resume_now = 9000000;
  kill_cpu = cpu_at 3000 3500000;
  kill = kill_soon;
}

abbrev pub pausing : Kernel → CycleInputs machine
pausing kernel = record {
  pause_id = "p";
  freeze_kernel = kernel;
  freeze_requested_at = 3000000;
  freeze_effective_at = 3100000;
  freeze_snapshot = snapshot 4000 2900 3000000;
  freeze_kill = kill_soon;
}

abbrev pub ticking : List (Event machine)
ticking =
    tick (record {
      busy_ns = 7;
      energy = some 4000;
      cpu = cpu_at 2900 3000000;
      detected_at = 3000000;
      kill = kill_soon;
      cycle = pausing freezes_well;
      rounds = answering "WAIT_EXECUTION" ∷ answering "RESUME_EXECUTION" ∷ [];
    })
    ∷ []

is_killable : is_non_interruptible_for_this_step killable ≡ false
unfolding is_non_interruptible_for_this_step
is_killable = refl

is_unkillable : is_non_interruptible_for_this_step unkillable ≡ true
unfolding is_non_interruptible_for_this_step
is_unkillable = refl

pub is_monitored : should_monitor_energy (some unkillable) ≡ true
unfolding should_monitor_energy interruption_class_unresolved
is_monitored = refl

abbrev resumed_run : World machine × CycleEnd machine
resumed_run =
    run_pause_cycle machine killable (pausing freezes_well) (answering "RESUME_EXECUTION" ∷ []) 0 0
      2 world

ends_well : resumed_run.1 ≡ resumed_with 9
unfolding run_pause_cycle freeze_execution Cgroup.freeze wait_for_event_field start
    new_activation_controller resume_execution Cgroup.unfreeze rounds round dispatch on_resume
    refine_cycle_while_frozen refine_frozen_segment refine_frozen_cpu after_freeze
    close_segment_at_freeze close_at traced new_cycle command_of new_step_meter lt sub add le
ends_well = refl

ends_resumed : resumed_run ≡ (resumed_run.0, resumed_with 9)
ends_resumed = ap (λ (e : CycleEnd machine). (resumed_run.0, e)) ends_well

run_pause_cycle-resumed_example :
    Any (Authorizes machine killable "p" 9) (answering "RESUME_EXECUTION" ∷ [])
    ⊎ (((freeze_execution freezes_well "p" controller).1 ≢ none)
        × (is_non_interruptible_for_this_step killable ≡ true)
        × (killable.execution_threshold_j ≡ 9))
run_pause_cycle-resumed_example =
    run_pause_cycle-resumed machine killable (pausing freezes_well)
      (answering "RESUME_EXECUTION" ∷ []) 0 0 2 world resumed_run.0 9 ends_resumed

run_pause_cycle-decides_example :
    (run_pause_cycle machine killable
      (pausing freezes_well)
      (answering "KILL_EXECUTION" ∷ [])
      0
      0
      2
      world).1
    ≢ waiting
run_pause_cycle-decides_example =
    run_pause_cycle-decides machine killable (pausing freezes_well) (answering "KILL_EXECUTION") []
      0 0 2 world is_killable

controller_running : controller.state ≡ Machine.running
unfolding start new_activation_controller
controller_running = refl

freeze_times_out : (freeze_execution stuck "p" controller).1 ≢ none
unfolding start new_activation_controller freeze_execution Cgroup.freeze wait_for_event_field
freeze_times_out = λ h. cc h

abbrev unfrozen_run : World machine × CycleEnd machine
unfrozen_run = run_pause_cycle machine killable (pausing stuck) [] 0 0 2 world

run_pause_cycle-freeze_failure_example :
    (unfrozen_run.1 ≡ was_killed)
    × (unfrozen_run.0.controller.state ≡ unknown)
    × (kills unfrozen_run.0.controller.cg.written ≡ kills world.controller.cg.written)
run_pause_cycle-freeze_failure_example =
    run_pause_cycle-freeze_failure machine killable (pausing stuck) [] 0 0 2 world is_killable
      controller_running freeze_times_out

monitor_energy-settles_example :
    (segmented_attribution machine 1000 8000
      (cpu_at 0 0)
      (cpu_at 5000 11000000)
      (monitor_energy machine ticking unkillable world).world.tracking.marks).attributed_uj
    ≡ step_uj machine 8000
        (cpu_at 5000 11000000)
        (monitor_energy machine ticking unkillable world).world.tracking.meter
monitor_energy-settles_example =
    monitor_energy-settles machine ticking unkillable world 1000 (cpu_at 0 0) 8000
      (cpu_at 5000 11000000) refl

monitor_energy-spares_example :
    IsUntouched machine world (monitor_energy machine ticking unkillable world).world
    × ((monitor_energy machine ticking unkillable world).status ≢ in_kill)
monitor_energy-spares_example = monitor_energy-spares machine ticking unkillable world is_unkillable

abbrev pub interaction : Interaction machine
interaction = record {
  answer = line "{}";
  start_energy = some 1000;
  start_cpu = cpu_at 0 0;
  events = ticking;
}

abbrev pub interacted : Interacted machine
interacted =
    collected machine unkillable interaction (monitored machine unkillable interaction controller)

pub ends : (monitored machine unkillable interaction controller).status ≡ returned
unfolding monitored monitor_energy on_tick on_threshold after_cycle run_pause_cycle freeze_execution
    Cgroup.freeze wait_for_event_field start new_activation_controller resume_execution
    Cgroup.unfreeze rounds round dispatch on_resume on_wait refine_cycle_while_frozen
    refine_frozen_segment refine_frozen_cpu after_freeze close_segment_at_freeze close_at traced
    new_cycle command_of new_step_meter lt sub add le is_non_interruptible_for_this_step step_j
    step_uj joules div mul attributed_energy_uj attribution_detail delta_rapl_uj capped_ratio
    duration_usec nb_cores
ends = refl

pub returns : interact machine (some unkillable) interaction controller ≡ some interacted
unfolding interact awaited should_monitor_energy interruption_class_unresolved
returns = rw (ends, interact) refl

abbrev lost : World machine
lost = record world { controller = record controller { state = unknown } }

monitor_energy-unknown_example :
    (monitor_energy machine ticking unkillable lost).world.controller
    ≡ record controller { state = unknown }
monitor_energy-unknown_example =
    monitor_energy-unknown machine ticking unkillable lost is_unkillable refl

-- Frozen for another activation.
abbrev held : Controller
held = record controller { state = frozen; last_pause_id = "a" }

abbrev killed_held : Controller
killed_held = record held {
  cg = record { path = "/sys/fs/cgroup/activation"; written = kill_all ∷ [] };
  reaped = true;
  state = stopped;
  last_pause_id = "p";
}

kills_held : kill_execution kill_soon.kernel kill_soon.reaping "p" held ≡ some (killed_held, none)
unfolding kill_execution Cgroup.kill wait_for_event_field start new_activation_controller
kills_held = refl

other_id : held.last_pause_id ≢ "p"
other_id h = ground (arith, h, eq_iff "a" "p")

run_pause_cycle-held_example :
    let (w', end) =
      run_pause_cycle machine killable
        (pausing freezes_well)
        []
        0
        0
        2
        (record world { controller = held }) in
    (end ≡ was_killed) × (w'.controller ≡ killed_held) × (killed_held.state ≡ stopped)
run_pause_cycle-held_example =
    run_pause_cycle-held machine killable (pausing freezes_well) [] 0 0 2
      (record world { controller = held }) killed_held is_killable refl other_id kills_held
