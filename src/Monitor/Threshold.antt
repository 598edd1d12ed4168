-- ===== src/Monitor/Threshold.antt =====
-- openwhisk/energyMonitor.go: the threshold that monitorEnergy runs under and the one it publishes.
use openwhisk_runtime_go.Base.{
  ℕ, ◌≡◌, inl, inr, refl, ◌∙◌, List, [], ◌∷◌, String, if◌then◌else◌, arith, str_eq, Option-cases,
  Bool-cases,
}
use openwhisk_runtime_go.Attribution.{Platform, CpuSnapshot}
use openwhisk_runtime_go.Segments.Meter.{step_j}
use openwhisk_runtime_go.Sidecar.State.{EnergyState}
use openwhisk_runtime_go.Monitor.Result.{
  Cause, PauseCycle, unexpected_wait_command, Event as Incident, EnergyMonitorResult, new_result,
  note_sample, note_kill, set_killed, set_threshold, add_cycle,
}
use openwhisk_runtime_go.Monitor.Cycle.{
  Command, SchedulerCommand, resume_execution_command, wait_execution_command,
  kill_execution_command, unknown_command, KillInputs, CycleInputs, Round, World, CycleEnd,
  resumed_with, was_killed, waiting, hung, Next, again, ended, kill_and_return, kill_or_retry,
  refine_cycle_while_frozen, on_resume, dispatch, round, rounds, run_pause_cycle, traced,
}
use openwhisk_runtime_go.Monitor.Loop.{
  TickInputs, Monitor, Event, stop, tick, after_cycle, on_threshold, on_tick, monitor_energy,
}
use openwhisk_runtime_go.Freezer.Machine.{freeze_execution, resume_execution}
use openwhisk_runtime_go.Monitor.Authorized.{Next-cases}

module _ (p : Platform) where
  -- What a pause cycle leaves alone in the result.
  abbrev Keeps : EnergyMonitorResult p → EnergyMonitorResult p → Type 0
  Keeps r r' =
      (r'.threshold_j ≡ r.threshold_j)
      × (r'.threshold_updated ≡ r.threshold_updated)
      × (r'.killed ≡ r.killed)

  abbrev KeepsNext : EnergyMonitorResult p → Next p → Type 0
  KeepsNext r (again w c) = Keeps r w.result
  KeepsNext r (ended w e) = Keeps r w.result

  kill_and_return-keeps :
      (k : KillInputs) (q : String) (cause : Cause) (w : World p) (c : PauseCycle p)
      → KeepsNext w.result (kill_and_return p k q cause w c)
  unfolding kill_and_return add_cycle note_kill
  kill_and_return-keeps k q cause w c = ground arith

  module _ (energy : EnergyState p.float) (pause_id : String) where
    refine-result :
        (cpu : CpuSnapshot) (w : World p) (c : PauseCycle p)
        → (refine_cycle_while_frozen p energy pause_id cpu w c).0.result ≡ w.result
    unfolding refine_cycle_while_frozen
    refine-result cpu w c = ground arith

    kill_or_retry-keeps :
        (e : Incident) (r : Round p) (w : World p) (c : PauseCycle p)
        → KeepsNext w.result (kill_or_retry p energy pause_id e r w c)
    unfolding kill_or_retry add_cycle note_kill
    kill_or_retry-keeps e r w c = ground (arith, refine-result r.kill_cpu w c)

    on_resume-keeps :
        (t : p.float.Carrier) (r : Round p) (w : World p) (c : PauseCycle p)
        → KeepsNext w.result (on_resume p energy pause_id t r w c)
    unfolding on_resume add_cycle note_kill
    on_resume-keeps t r w c =
        let (w', c') = refine_cycle_while_frozen p energy pause_id r.resume_cpu w c in
        let controller' = (resume_execution r.resume_kernel pause_id w'.controller).0 in
        ground (
          arith,
          refine-result r.resume_cpu w c,
          refine-result r.kill_cpu (record w' { controller = controller' }) c',
        )

    dispatch-keeps :
        (m : Command) (cmd : SchedulerCommand p) (r : Round p) (w : World p) (c : PauseCycle p)
        → KeepsNext w.result (dispatch p energy pause_id m cmd r w c)
    unfolding dispatch add_cycle note_kill
    dispatch-keeps resume_execution_command cmd r w c = on_resume-keeps _ r w c
    dispatch-keeps wait_execution_command cmd r w c =
        ground (arith, kill_or_retry-keeps unexpected_wait_command r w c)
    dispatch-keeps kill_execution_command cmd r w c = ground (arith, refine-result r.kill_cpu w c)
    dispatch-keeps unknown_command cmd r w c = kill_or_retry-keeps _ r w c

    round-keeps :
        (r : Round p) (w : World p) (c : PauseCycle p)
        → KeepsNext w.result (round p energy pause_id r w c)
    unfolding round
    round-keeps r w c = elim (Option-cases r.answer) [
      | inl e ↦ rw (e, round) (kill_or_retry-keeps _ r w (traced p r c))
      | inr (cmd, e) ↦ elim (Bool-cases (str_eq cmd.pause_id pause_id)) [
        | inl same ↦ rw (e, round) (rw (same, round) (dispatch-keeps _ cmd r w (traced p r c)))
        | inr other ↦ rw (e, round) (rw (other, round) (kill_or_retry-keeps _ r w (traced p r c)))
      ]
    ]

    rounds-Keeps :
        (rs : List (Round p)) (w : World p) (c : PauseCycle p)
        → Keeps w.result (rounds p energy pause_id rs w c).0.result
    unfolding rounds
    rounds-Keeps [] w c = (refl, refl, refl)
    rounds-Keeps (r ∷ rs) w c = elim (Next-cases p (round p energy pause_id r w c)) [
      | inl (v, d, e) ↦
          let here = rw e at (round-keeps r w c) in
          let later = rounds-Keeps rs v d in
          rw (e, rounds) (later.0 ∙ here.0, later.1 ∙ here.1, later.2 ∙ here.2)
      | inr (v, k, e) ↦ rw (e, rounds) (rw e at (round-keeps r w c))
    ]

  run_pause_cycle-Keeps :
      (energy : EnergyState p.float) (i : CycleInputs p) (rs : List (Round p))
      (step : p.float.Carrier) (detected_at : ℕ) (at_threshold : p.float.Carrier) (w : World p)
      → Keeps w.result (run_pause_cycle p energy i rs step detected_at at_threshold w).0.result
  unfolding run_pause_cycle add_cycle note_kill
  run_pause_cycle-Keeps energy i rs step detected_at at_threshold w =
      elim (Option-cases (freeze_execution i.freeze_kernel i.pause_id w.controller).1) [
        | inl e ↦ rw (e, run_pause_cycle) (rounds-Keeps energy i.pause_id rs _ _)
        | inr (x, e) ↦ rw (e, run_pause_cycle) (ground arith)
      ]

  -- The threshold that Interact hands on: the one published, or else the one of the start.
  abbrev pub final_threshold_or : p.float.Carrier → EnergyMonitorResult p → p.float.Carrier
  final_threshold_or t r = if r.threshold_updated then r.threshold_j else t

  -- The monitor runs under the threshold that would be handed on now.
  abbrev RunsUnder : p.float.Carrier → Monitor p → Type 0
  RunsUnder t m = final_threshold_or t m.world.result ≡ m.energy.execution_threshold_j

  after_cycle-threshold :
      (t : p.float.Carrier) (energy : EnergyState p.float) (q : String) (step : p.float.Carrier)
      (w w' : World p) (e : CycleEnd p)
      → final_threshold_or t w.result ≡ energy.execution_threshold_j
      → Keeps w.result w'.result
      → RunsUnder t (after_cycle p energy q step (w', e))
  unfolding after_cycle set_killed set_threshold
  after_cycle-threshold t energy q step w w' (resumed_with u) h k = refl
  after_cycle-threshold t energy q step w w' was_killed h k = ground arith
  after_cycle-threshold t energy q step w w' waiting h k = ground arith
  after_cycle-threshold t energy q step w w' hung h k = ground arith

  on_threshold-threshold :
      (t : p.float.Carrier) (i : TickInputs p) (step : p.float.Carrier)
      (energy : EnergyState p.float) (w : World p)
      → final_threshold_or t w.result ≡ energy.execution_threshold_j
      → RunsUnder t (on_threshold p i step energy w)
  unfolding on_threshold set_killed note_kill
  on_threshold-threshold t i step energy w h =
      let x =
        run_pause_cycle p energy i.cycle i.rounds step i.detected_at
          (p.float.add energy.consumed_before_j step) w in
      ground (
        arith,
        after_cycle-threshold t energy i.cycle.pause_id step w x.0 x.1 h (
            run_pause_cycle-Keeps energy i.cycle i.rounds step i.detected_at
              (p.float.add energy.consumed_before_j step) w),
      )

  on_tick-threshold :
      (t : p.float.Carrier) (i : TickInputs p) (energy : EnergyState p.float) (w : World p)
      → final_threshold_or t w.result ≡ energy.execution_threshold_j
      → RunsUnder t (on_tick p i energy w)
  unfolding on_tick note_sample
  on_tick-threshold t i energy w h = elim (Option-cases i.energy) [
    | inl e ↦ rw (e, on_tick) h
    | inr (now, e) ↦
        let step = step_j p now i.cpu w.tracking.meter in
        elim (Bool-cases
          (p.float.lt (p.float.add energy.consumed_before_j step) energy.execution_threshold_j)) [
            | inl below ↦ rw (e, on_tick) (rw (below, on_tick) h)
            | inr reached ↦
                rw (e, on_tick)
                  (rw (reached, on_tick)
                    (on_threshold-threshold t i step energy
                      (record w { result = note_sample p i.busy_ns w.result }) h))
          ]
  ]

  monitor_energy-RunsUnder :
      (t : p.float.Carrier) (es : List (Event p)) (energy : EnergyState p.float) (w : World p)
      → final_threshold_or t w.result ≡ energy.execution_threshold_j
      → RunsUnder t (monitor_energy p es energy w)
  unfolding monitor_energy
  monitor_energy-RunsUnder t [] energy w h = h
  monitor_energy-RunsUnder t (stop ∷ es) energy w h = h
  monitor_energy-RunsUnder t (tick i ∷ es) energy w h = ground (
    arith,
    on_tick-threshold t i energy w h,
    monitor_energy-RunsUnder t es (on_tick p i energy w).energy (on_tick p i energy w).world
        (on_tick-threshold t i energy w h),
  )

  -- Through any ticks, pause cycles and kills, from a new result: the threshold that Interact hands
  -- on to the next step (the one published, or else the step's own) is the threshold that the
  -- monitor was last running under, after every extension.
  pub monitor_energy-threshold :
      (es : List (Event p)) (energy : EnergyState p.float) (w : World p)
      → w.result ≡ new_result p
      → final_threshold_or energy.execution_threshold_j (monitor_energy p es energy w).world.result
        ≡ (monitor_energy p es energy w).energy.execution_threshold_j
  unfolding new_result
  monitor_energy-threshold es energy w h =
      monitor_energy-RunsUnder energy.execution_threshold_j es energy w (ground arith)
