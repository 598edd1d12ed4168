-- ===== src/Examples/Runs.antt =====
-- openwhisk/runHandler.go: an activation whose step is paused, waits, and is resumed.
use openwhisk_runtime_go.Base.{◌⊎◌, ℕ, ◌+◌, ◌≡◌, refl, true, false, none, some, [], ◌∷◌, Any}
use openwhisk_runtime_go.Base.Int64.{add, sub, le, lt, div, mul}
use openwhisk_runtime_go.Freezer.Cgroup.{Kernel, wait_for_event_field}
use openwhisk_runtime_go.Freezer.Cgroup
use openwhisk_runtime_go.Freezer.Machine.{
  freeze_execution, resume_execution, start, new_activation_controller,
}
use openwhisk_runtime_go.Segments.Meter.{
  new_step_meter, step_uj, step_j, joules, refine_frozen_cpu, close_at,
}
use openwhisk_runtime_go.Segments.Tracking.{refine_frozen_segment, close_segment_at_freeze}
use openwhisk_runtime_go.Monitor.Classes.{
  is_non_interruptible_for_this_step, interruption_class_unresolved, should_monitor_energy,
}
use openwhisk_runtime_go.Monitor.Result.{
  add_cycle, set_killed, set_threshold, note_sample, note_kill, new_result,
}
use openwhisk_runtime_go.Monitor.Cycle.{
  run_pause_cycle, rounds, round, dispatch, on_resume, on_wait, refine_cycle_while_frozen,
  after_freeze, traced, new_cycle, command_of,
}
use openwhisk_runtime_go.Monitor.Loop.{monitor_energy, on_tick, on_threshold, after_cycle}
use openwhisk_runtime_go.Monitor.Interact.{monitored, collected}
use openwhisk_runtime_go.Attribution.{
  attributed_energy_uj, attribution_detail, delta_rapl_uj, capped_ratio, duration_usec, nb_cores,
}
use openwhisk_runtime_go.Examples.Fixtures.{machine, controller, cpu_at, unkillable}
use openwhisk_runtime_go.Sidecar.Json.{Members, object, number, no_members, member, lookup}
use openwhisk_runtime_go.Sidecar.State.{
  decode_energy_state, encode_energy_state, encode_map, encode_strings, decode_string, decode_bool,
  decode_number, decode_map, decode_strings,
}
use openwhisk_runtime_go.Sidecar.Transfer.{
  extract_energy_state, carried, first_step_anchor_key, reinject_energy_state,
}
use openwhisk_runtime_go.Examples.Fixtures.{numbers}
use openwhisk_runtime_go.Examples.Monitors.{interaction, interacted, returns, is_monitored}
use openwhisk_runtime_go.Freezer.Machine
use openwhisk_runtime_go.Freezer.Machine.{Controller}
use openwhisk_runtime_go.Run.Kept.{controller_after, run_all, IsUnkillable}
use openwhisk_runtime_go.Run.Thawed.{IsThawed, run_all-refines}
use openwhisk_runtime_go.Monitor.Called.{Called}
use openwhisk_runtime_go.Freezer.Traces.{started-Inv}
use openwhisk_runtime_go.Run.{
  RunInputs, Run, dictionary, reinjected, extracted, measured_j, after_interact, reply_to,
  run_handler, run_handler-next_step,
}

abbrev business : Members ℕ
business = member "price" (number 12) no_members

abbrev pub request : RunInputs machine numbers
request = record {
  body_read = true;
  has_executor = true;
  exited = false;
  params =
      some (member "__energy_state" (object (encode_energy_state numbers unkillable)) business);
  short_action_name = "book";
  energy_start = 1000;
  cpu_start = cpu_at 0 0;
  interaction = interaction;
  controller = controller;
  parse = λ out. dictionary business;
  energy_end = 8000;
  cpu_end = cpu_at 5000 11000000;
}

extracts : extracted machine numbers request ≡ some unkillable
unfolding extracted extract_energy_state carried lookup decode_energy_state encode_energy_state
    encode_map encode_strings decode_string decode_bool decode_number decode_map decode_strings
extracts = refl

abbrev measured : ℕ
measured = measured_j machine numbers (some unkillable) request

abbrev pub replied : Run machine numbers
replied = after_interact machine numbers request measured interacted

pub replies : run_handler machine numbers request ≡ some replied
unfolding run_handler should_monitor_energy extract_energy_state interruption_class_unresolved
    lookup monitored carried monitor_energy decode_energy_state on_tick encode_energy_state
replies = rw (extracts, run_handler) (rw (returns, run_handler) refl)

no_anchor_in_answer : lookup first_step_anchor_key business ≡ none
unfolding lookup
no_anchor_in_answer = refl

abbrev body : Members ℕ
body =
    reinject_energy_state numbers business (some (record unkillable { execution_threshold_j = 9 }))
      measured

carries_state : replied.reply ≡ reinjected body
unfolding monitored monitor_energy on_tick on_threshold after_cycle run_pause_cycle freeze_execution
    Cgroup.freeze wait_for_event_field start new_activation_controller resume_execution
    Cgroup.unfreeze rounds round dispatch on_resume on_wait refine_cycle_while_frozen
    refine_frozen_segment refine_frozen_cpu after_freeze close_segment_at_freeze close_at traced
    new_cycle command_of new_step_meter lt sub add le is_non_interruptible_for_this_step step_j
    step_uj joules div mul attributed_energy_uj attribution_detail delta_rapl_uj capped_ratio
    duration_usec nb_cores after_interact reply_to collected set_killed set_threshold note_sample
    note_kill new_result add_cycle
carries_state = refl

pub keeps_executor : replied.keeps_executor ≡ true
unfolding monitored monitor_energy on_tick on_threshold after_cycle run_pause_cycle freeze_execution
    Cgroup.freeze wait_for_event_field start new_activation_controller resume_execution
    Cgroup.unfreeze rounds round dispatch on_resume on_wait refine_cycle_while_frozen
    refine_frozen_segment refine_frozen_cpu after_freeze close_segment_at_freeze close_at traced
    new_cycle command_of new_step_meter lt sub add le is_non_interruptible_for_this_step step_j
    step_uj joules div mul attributed_energy_uj attribution_detail delta_rapl_uj capped_ratio
    duration_usec nb_cores after_interact reply_to collected set_killed set_threshold note_sample
    note_kill new_result add_cycle
keeps_executor = refl

run_handler-next_step_example :
    (extract_energy_state numbers body).0
    ≡ some (record unkillable {
      consumed_before_j = 2 + measured_j machine numbers (some unkillable) request;
      execution_threshold_j =
          (monitored machine unkillable interaction controller).energy.execution_threshold_j;
      resolved_action_name = "";
    })
run_handler-next_step_example =
    run_handler-next_step machine numbers request unkillable "{}" business body replied extracts
      is_monitored refl refl no_anchor_in_answer replies carries_state

is_running : controller.state ≡ Machine.running
unfolding start new_activation_controller
is_running = refl

abbrev kept_controller : Controller
kept_controller = controller_after machine numbers request

all_kept : run_all machine numbers (request ∷ []) controller ≡ some kept_controller
unfolding run_all
all_kept = rw (replies, run_all) (rw (keeps_executor, run_all) refl)

run_all-refines_example :
    Called controller kept_controller
    × (IsThawed kept_controller
        ⊎ ((kept_controller.state ≡ Machine.unknown)
            × Any (IsUnkillable machine numbers) (request ∷ [])))
run_all-refines_example =
    run_all-refines machine numbers (request ∷ []) controller kept_controller
      (started-Inv "/sys/fs/cgroup/activation" true) is_running all_kept
