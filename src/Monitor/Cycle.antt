-- ===== src/Monitor/Cycle.antt =====
-- openwhisk/energyMonitor.go: runPauseCycle, one freeze, EXECUTION_PAUSED, command cycle. What the
-- clock, the kernel, the energy counter and the scheduler give to each call is an argument; the
-- rounds of the loop are a list, which may end while the loop still waits.
pub mod Inputs
unfoldable pub use openwhisk_runtime_go.Monitor.Cycle.Inputs.*
use openwhisk_runtime_go.Base.{
  ℕ, true, false, Option, none, some, List, [], ◌∷◌, String, if◌then◌else◌, str_eq,
}
use openwhisk_runtime_go.Attribution.{Platform, CpuSnapshot}
use openwhisk_runtime_go.Freezer.Cgroup.{Kernel}
use openwhisk_runtime_go.Freezer.Machine.{
  Controller, Reaping, freeze_execution, resume_execution, kill_execution, kill_blocked,
}
use openwhisk_runtime_go.Channel.Recorder.{SchedulerConnTrace}
use openwhisk_runtime_go.Segments.Meter.{closed_j}
use openwhisk_runtime_go.Segments.Tracking.{
  SegmentSnapshot, Tracking, refine_frozen_segment, close_segment_at_freeze, open_segment_at_resume,
}
use openwhisk_runtime_go.Sidecar.State.{EnergyState}
use openwhisk_runtime_go.Monitor.Classes.{is_non_interruptible_for_this_step}
use openwhisk_runtime_go.Monitor.Result.{
  killed, resumed, queued_wait, Event, freeze_failed, pause_channel_failed, pause_id_mismatch,
  resume_failed, unexpected_wait_command, kill_execution_refused, unknown_scheduler_command, Cause,
  event, scheduler_command, PauseCycle, EnergyMonitorResult, add_cycle, note_kill, seconds,
}

module _ (p : Platform) where
  open p.float use {Carrier, of_int, add}

  -- The deferred addCycle, on a return.
  abbrev pub finish : World p → PauseCycle p → CycleEnd p → Next p
  finish w c e = ended (record w { result = add_cycle p c w.result }) e

  abbrev pub incident : Event → World p → World p
  incident e w = record w { incidents = e ∷ w.incidents }

  -- killExecution, whose error is only logged; then noteKill and the return.
  unfoldable pub kill_and_return : KillInputs → String → Cause → World p → PauseCycle p → Next p
  kill_and_return k pause_id cause w c =
      elim (kill_execution k.kernel k.reaping pause_id w.controller) [
        | none ↦ ended (record w { controller = kill_blocked k.kernel w.controller }) hung
        | some (controller', e) ↦
            finish
              (record w {
                controller = controller';
                result = note_kill p k.requested_at k.stopped_at cause w.result;
              })
              c was_killed
      ]

  -- The answer's cost, kept in the cycle; a failure stays from an earlier round.
  unfoldable pub traced : Round p → PauseCycle p → PauseCycle p
  traced r c = record c {
    command_roundtrip_ns = r.roundtrip_ns;
    conn_reused = r.trace.reused;
    conn_setup_ns = r.trace.setup_ns;
    channel_traced = true;
    channel_dns_ns = r.trace.dns_ns;
    channel_connect_ns = r.trace.connect_ns;
    channel_cached_addr = r.trace.cached_addr;
    channel_failure = if str_eq r.trace.failure "" then c.channel_failure else r.trace.failure;
  }

  module _ (energy : EnergyState p.float) (pause_id : String) where
    -- refineCycleWhileFrozen
    unfoldable pub refine_cycle_while_frozen :
        CpuSnapshot → World p → PauseCycle p → World p × PauseCycle p
    refine_cycle_while_frozen cpu w c =
        let (tracking', late) = refine_frozen_segment p cpu w.tracking in
        elim late [
          | none ↦ (w, c)
          | some usec ↦ (
            record w { tracking = tracking' },
            record c {
              cpu_usec_while_frozen = some usec;
              energy_at_effective_freeze_j =
                  add energy.consumed_before_j (closed_j p tracking'.meter);
            },
          )
        ]

    -- The closure killOrRetry.
    unfoldable pub kill_or_retry : Event → Round p → World p → PauseCycle p → Next p
    unfolding kill_and_return
    kill_or_retry e r w c =
        let (w', c') = refine_cycle_while_frozen r.kill_cpu w c in
        if is_non_interruptible_for_this_step energy
        then again (incident e w) c
        else kill_and_return r.kill pause_id (event e) w' c'

    -- The case RESUME_EXECUTION.
    unfoldable pub on_resume : Carrier → Round p → World p → PauseCycle p → Next p
    unfolding kill_or_retry
    on_resume threshold r w c =
        let (w', c') = refine_cycle_while_frozen r.resume_cpu w c in
        let (controller', e) = resume_execution r.resume_kernel pause_id w'.controller in
        let thawed = record w' { controller = controller' } in
        elim e [
          | some _ ↦ kill_or_retry resume_failed r thawed c'
          | none ↦
              finish
                (record thawed {
                  tracking = (open_segment_at_resume r.resume_snapshot r.resume_now w'.tracking).0;
                })
                (record c' {
                  resume_requested_at = seconds p r.resume_requested_at;
                  resume_effective_at = seconds p r.resume_effective_at;
                  energy_at_resume_effective_j = c'.energy_at_effective_freeze_j;
                  outcome = resumed;
                })
                (resumed_with threshold)
        ]

    -- The case WAIT_EXECUTION.
    unfoldable pub on_wait : Round p → World p → PauseCycle p → Next p
    unfolding kill_or_retry
    on_wait r w c =
        if is_non_interruptible_for_this_step energy
        then again w (record c { outcome = queued_wait })
        else kill_or_retry unexpected_wait_command r w c

    -- The case KILL_EXECUTION.
    unfoldable pub on_kill : String → Round p → World p → PauseCycle p → Next p
    unfolding kill_and_return
    on_kill reason r w c =
        let (w', c') = refine_cycle_while_frozen r.kill_cpu w c in
        if is_non_interruptible_for_this_step energy
        then again (incident kill_execution_refused w) c
        else kill_and_return r.kill pause_id (scheduler_command reason) w' c'

    -- The switch.
    unfoldable pub dispatch :
        Command → SchedulerCommand p → Round p → World p → PauseCycle p → Next p
    unfolding on_resume on_wait on_kill kill_or_retry
    dispatch resume_execution_command cmd r w c = on_resume cmd.new_execution_threshold_j r w c
    dispatch wait_execution_command cmd r w c = on_wait r w c
    dispatch kill_execution_command cmd r w c = on_kill cmd.reason r w c
    dispatch unknown_command cmd r w c = kill_or_retry unknown_scheduler_command r w c

    -- A round of the loop.
    unfoldable pub round : Round p → World p → PauseCycle p → Next p
    unfolding dispatch kill_or_retry traced
    round r w c = elim r.answer [
      | none ↦ kill_or_retry pause_channel_failed r w (traced r c)
      | some cmd ↦
          if str_eq cmd.pause_id pause_id
          then dispatch (command_of cmd.command) cmd r w (traced r c)
          else kill_or_retry pause_id_mismatch r w (traced r c)
    ]

    unfoldable pub rounds : List (Round p) → World p → PauseCycle p → World p × CycleEnd p
    rounds [] w c = (w, waiting)
    rounds (r ∷ rs) w c = elim (round r w c) [
      | again w' c' ↦ rounds rs w' c'
      | ended w' e ↦ (w', e)
    ]

  -- The cycle's record when it begins: its outcome is `killed` until something else is known.
  unfoldable pub new_cycle : Carrier → Carrier → Carrier → String → PauseCycle p
  new_cycle detected at_threshold threshold pause_id = record {
    pause_id = pause_id;
    threshold_detected_at = detected;
    energy_at_threshold_j = at_threshold;
    freeze_requested_at = of_int 0;
    freeze_effective_at = of_int 0;
    energy_at_effective_freeze_j = of_int 0;
    execution_threshold_j = threshold;
    command_roundtrip_ns = 0;
    conn_reused = false;
    conn_setup_ns = 0;
    channel_traced = false;
    channel_dns_ns = 0;
    channel_connect_ns = 0;
    channel_cached_addr = false;
    channel_failure = "";
    resume_requested_at = of_int 0;
    resume_effective_at = of_int 0;
    energy_at_resume_effective_j = of_int 0;
    cpu_usec_while_frozen = none;
    outcome = killed;
  }

  module _ (energy : EnergyState p.float) where
    -- From the confirmed freeze to the loop.
    unfoldable pub after_freeze :
        CycleInputs p → List (Round p) → Carrier → World p → PauseCycle p → World p × CycleEnd p
    unfolding rounds
    after_freeze i rs step_j w c =
        let (tracking', closed) = close_segment_at_freeze p i.freeze_snapshot w.tracking in
        let frozen_step_j = if closed then closed_j p tracking'.meter else step_j in
        rounds energy i.pause_id rs (record w { tracking = tracking' })
          (record c {
            freeze_requested_at = seconds p i.freeze_requested_at;
            freeze_effective_at = seconds p i.freeze_effective_at;
            energy_at_effective_freeze_j = add energy.consumed_before_j frozen_step_j;
          })

    abbrev pub outcome_of : Next p → World p × CycleEnd p
    outcome_of (again w c) = (w, waiting)
    outcome_of (ended w e) = (w, e)

    -- A freeze that failed.
    unfoldable pub freeze_failure : CycleInputs p → World p → PauseCycle p → World p × CycleEnd p
    unfolding kill_and_return
    freeze_failure i w c = outcome_of (
        if is_non_interruptible_for_this_step energy
        then finish (incident freeze_failed w) c (resumed_with energy.execution_threshold_j)
        else kill_and_return i.freeze_kill i.pause_id (event freeze_failed) w c)

    unfoldable pub run_pause_cycle :
        CycleInputs p → List (Round p) → Carrier → ℕ → Carrier → World p → World p × CycleEnd p
    unfolding after_freeze freeze_failure new_cycle
    run_pause_cycle i rs step_j detected_at at_threshold_j w =
        let cycle =
          new_cycle (seconds p detected_at) at_threshold_j energy.execution_threshold_j
            i.pause_id in
        let (controller', e) = freeze_execution i.freeze_kernel i.pause_id w.controller in
        let w' = record w { controller = controller' } in
        elim e [ some _ ↦ freeze_failure i w' cycle | none ↦ after_freeze i rs step_j w' cycle ]
