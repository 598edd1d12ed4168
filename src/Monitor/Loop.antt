-- ===== src/Monitor/Loop.antt =====
-- openwhisk/energyMonitor.go: monitorEnergy. What the select of the loop takes, round by round, is a
-- list: the stop of Interact, or a tick with what it reads and, where it comes to that, with the
-- inputs of its kill or of its pause cycle.
use openwhisk_runtime_go.Base.{ℕ, not, Option, none, some, List, [], ◌∷◌, String, if◌then◌else◌}
use openwhisk_runtime_go.Attribution.{Platform, CpuSnapshot}
use openwhisk_runtime_go.Freezer.Machine.{kill_execution, kill_blocked}
use openwhisk_runtime_go.Segments.Meter.{closed_j, step_j}
use openwhisk_runtime_go.Sidecar.State.{EnergyState}
use openwhisk_runtime_go.Monitor.Classes.{is_non_interruptible_for_this_step}
use openwhisk_runtime_go.Monitor.Result.{
  local_kill_refused, threshold_no_pause, note_sample, note_kill, set_killed, set_threshold,
}
use openwhisk_runtime_go.Monitor.Cycle.{
  KillInputs, CycleInputs, Round, World, CycleEnd, resumed_with, was_killed, waiting, hung,
  run_pause_cycle, incident,
}

module _ (p : Platform) where
  open p.float use {Carrier, add, lt}

  -- `energy` is what readEnergy gives, `none` for an error.
  pub record TickInputs : Type 0 where
    pub busy_ns : ℕ
    pub energy : Option ℕ
    pub cpu : CpuSnapshot
    pub detected_at : ℕ
    pub kill : KillInputs
    pub cycle : CycleInputs p
    pub rounds : List (Round p)

  pub data Event : Type 0 where
    stop : Event
    tick : TickInputs → Event

  -- Where the monitor is after a round: before the next one, returned, in a pause cycle that waits
  -- for the scheduler, or in a killExecution that does not return.
  pub data Status : Type 0 where
    running returned in_cycle in_kill : Status

  -- The state of the loop: `energy` is the monitor's own copy of the step's state.
  pub record Monitor : Type 0 where
    pub world : World p
    pub energy : EnergyState p.float
    pub status : Status

  abbrev pub at : World p → EnergyState p.float → Status → Monitor
  at w energy s = record { world = w; energy = energy; status = s }

  -- The kill of a step without pause: its error is only logged.
  unfoldable pub local_kill : KillInputs → Carrier → EnergyState p.float → World p → Monitor
  local_kill k step energy w = elim (kill_execution k.kernel k.reaping "" w.controller) [
    | none ↦ at (record w { controller = kill_blocked k.kernel w.controller }) energy in_kill
    | some (controller', e) ↦
        at
          (record w {
            controller = controller';
            result =
                set_killed p step ""
                  (note_kill p k.requested_at k.stopped_at threshold_no_pause w.result);
          })
          energy returned
  ]

  -- The energy that a killed step is settled at: at the effective freeze, if there was one.
  unfoldable killed_step_j : Carrier → World p → Carrier
  killed_step_j step w = if w.tracking.meter.frozen then closed_j p w.tracking.meter else step

  -- After a pause cycle.
  unfoldable pub after_cycle :
      EnergyState p.float → String → Carrier → World p × CycleEnd p → Monitor
  unfolding killed_step_j
  after_cycle energy pause_id step (w, resumed_with t) =
      at (record w { result = set_threshold p t w.result })
        (record energy { execution_threshold_j = t }) running
  after_cycle energy pause_id step (w, was_killed) =
      at (record w { result = set_killed p (killed_step_j step w) pause_id w.result }) energy
        returned
  after_cycle energy pause_id step (w, waiting) = at w energy in_cycle
  after_cycle energy pause_id step (w, hung) = at w energy in_kill

  -- The threshold is reached.
  unfoldable pub on_threshold : TickInputs → Carrier → EnergyState p.float → World p → Monitor
  unfolding after_cycle local_kill
  on_threshold i step energy w =
      if not energy.pause_enabled
      then if is_non_interruptible_for_this_step energy
        then at (incident p local_kill_refused w) energy returned
        else local_kill i.kill step energy w
      else after_cycle energy i.cycle.pause_id step (
          run_pause_cycle p energy i.cycle i.rounds step i.detected_at
            (add energy.consumed_before_j step) w)

  -- A tick.
  unfoldable pub on_tick : TickInputs → EnergyState p.float → World p → Monitor
  unfolding on_threshold
  on_tick i energy w =
      let sampled = record w { result = note_sample p i.busy_ns w.result } in
      elim i.energy [
        | none ↦ at sampled energy running
        | some now ↦
            let step = step_j p now i.cpu w.tracking.meter in
            if lt (add energy.consumed_before_j step) energy.execution_threshold_j
            then at sampled energy running
            else on_threshold i step energy sampled
      ]

  unfoldable pub monitor_energy : List Event → EnergyState p.float → World p → Monitor
  monitor_energy [] energy w = at w energy running
  monitor_energy (stop ∷ es) energy w = at w energy returned
  monitor_energy (tick i ∷ es) energy w =
      let m = on_tick i energy w in
      elim m.status [ running ↦ monitor_energy es m.energy m.world | _ ↦ m ]
