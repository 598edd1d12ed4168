-- ===== src/Monitor/Settled.antt =====
-- openwhisk/energyMonitor.go: what monitorEnergy leaves in the meter and in the marks of the
-- process, over the whole loop, for the settlement of openwhisk/energySegments.go.
use openwhisk_runtime_go.Base.{
  ℕ, ◌≡◌, ◌⊎◌, refl, ap, subst, List, [], ◌∷◌, arith, Option-cases, Bool-cases, inl, inr,
}
use openwhisk_runtime_go.Attribution.{Platform, CpuSnapshot}
use openwhisk_runtime_go.Freezer.Machine.{freeze_execution, kill_execution}
use openwhisk_runtime_go.Segments.Meter.{new_step_meter, step_j, step_uj}
use openwhisk_runtime_go.Segments.Settlement.{segmented_attribution}
use openwhisk_runtime_go.Segments.Tracking.{Tracking}
use openwhisk_runtime_go.Segments.Replay.{Reach, here, next, freezes, initial}
use openwhisk_runtime_go.Segments.Agreement.{segmented_attribution-step_uj}
use openwhisk_runtime_go.Sidecar.State.{EnergyState}
use openwhisk_runtime_go.Monitor.Classes.{is_non_interruptible_for_this_step}
use openwhisk_runtime_go.Monitor.Result.{PauseCycle, seconds}
use openwhisk_runtime_go.Monitor.Cycle.{
  CycleInputs, Round, World, CycleEnd, resumed_with, was_killed, waiting, hung, after_freeze,
  freeze_failure, kill_and_return, new_cycle, run_pause_cycle,
}
use openwhisk_runtime_go.Monitor.Loop.{
  TickInputs, Monitor, Event, stop, tick, Status, running, returned, in_cycle, in_kill, local_kill,
  after_cycle, on_threshold, on_tick, monitor_energy,
}
use openwhisk_runtime_go.Monitor.Tracked.{Reach-trans, IsOpen, OpensAt, rounds-tracks}

module _ (p : Platform) where
  abbrev CycleTracks : World p → World p × CycleEnd p → Type 0
  CycleTracks w r = Reach p w.tracking r.0.tracking × OpensAt p r.0.tracking r.1

  abbrev OpenIfRunning : Status p → Tracking → Type 0
  OpenIfRunning running t = IsOpen p t
  OpenIfRunning _ t = Unit

  pub Status-cases :
      (s : Status p) → (s ≡ running) ⊎ ((s ≡ returned) ⊎ ((s ≡ in_cycle) ⊎ (s ≡ in_kill)))
  Status-cases running = inl refl
  Status-cases returned = inr (inl refl)
  Status-cases in_cycle = inr (inr (inl refl))
  Status-cases in_kill = inr (inr (inr refl))

  abbrev LoopTracks : World p → Monitor p → Type 0
  LoopTracks w m = Reach p w.tracking m.world.tracking × OpenIfRunning m.status m.world.tracking

  module _ (energy : EnergyState p.float) where
    abbrev cycle : ℕ → p.float.Carrier → CycleInputs p → PauseCycle p
    cycle detected_at at_threshold_j i =
        new_cycle p (seconds p detected_at) at_threshold_j energy.execution_threshold_j i.pause_id

    after_freeze-tracks :
        (i : CycleInputs p) (rs : List (Round p)) (step_j : p.float.Carrier) (w : World p)
        (c : PauseCycle p)
        → IsOpen p w.tracking
        → CycleTracks w (after_freeze p energy i rs step_j w c)
    unfolding after_freeze
    after_freeze-tracks i rs step_j w c o =
        let first = next here (freezes w.tracking i.freeze_snapshot o) in
        let later = rounds-tracks p energy i.pause_id rs _ _ in
        (Reach-trans p first later.0, later.1)

    freeze_failure-tracks :
        (i : CycleInputs p) (w : World p) (c : PauseCycle p)
        → IsOpen p w.tracking
        → CycleTracks w (freeze_failure p energy i w c)
    unfolding freeze_failure kill_and_return
    freeze_failure-tracks i w c o = elim (Bool-cases (is_non_interruptible_for_this_step energy)) [
      | inl u ↦ rw (u, freeze_failure) (here, o)
      | inr u ↦
          elim (Option-cases
            (kill_execution i.freeze_kill.kernel i.freeze_kill.reaping i.pause_id w.controller)) [
              | inl e ↦ rw (u, freeze_failure) (rw (e, kill_and_return) (here, tt))
              | inr ((controller', x), e) ↦
                  rw (u, freeze_failure) (rw (e, kill_and_return) (here, tt))
            ]
    ]

    run_pause_cycle-tracks :
        (i : CycleInputs p) (rs : List (Round p)) (step_j : p.float.Carrier) (detected_at : ℕ)
        (at_threshold_j : p.float.Carrier) (w : World p)
        → IsOpen p w.tracking
        → CycleTracks w (run_pause_cycle p energy i rs step_j detected_at at_threshold_j w)
    unfolding run_pause_cycle
    run_pause_cycle-tracks i rs step_j detected_at at_threshold_j w o =
        elim (Option-cases (freeze_execution i.freeze_kernel i.pause_id w.controller).1) [
          | inl e ↦
              rw (e, run_pause_cycle)
                (after_freeze-tracks i rs step_j _ (cycle detected_at at_threshold_j i) o)
          | inr (x, e) ↦ rw (e, run_pause_cycle) (freeze_failure-tracks i _ _ o)
        ]

    after_cycle-tracks :
        (i : TickInputs p) (step : p.float.Carrier) (w : World p) (r : World p × CycleEnd p)
        → CycleTracks w r
        → LoopTracks w (after_cycle p energy i.cycle.pause_id step r)
    unfolding after_cycle
    after_cycle-tracks i step w (v, resumed_with t) h = h
    after_cycle-tracks i step w (v, was_killed) h = h
    after_cycle-tracks i step w (v, waiting) h = h
    after_cycle-tracks i step w (v, hung) h = h

    local_kill-tracks :
        (i : TickInputs p) (step : p.float.Carrier) (w : World p)
        → LoopTracks w (local_kill p i.kill step energy w)
    unfolding local_kill
    local_kill-tracks i step w =
        elim (Option-cases (kill_execution i.kill.kernel i.kill.reaping "" w.controller)) [
          | inl e ↦ rw (e, local_kill) (here, tt)
          | inr ((controller', x), e) ↦ rw (e, local_kill) (here, tt)
        ]

    on_threshold-tracks :
        (i : TickInputs p) (step : p.float.Carrier) (w : World p)
        → IsOpen p w.tracking
        → LoopTracks w (on_threshold p i step energy w)
    unfolding on_threshold
    on_threshold-tracks i step w o =
        let x =
          run_pause_cycle p energy i.cycle i.rounds step i.detected_at
            (p.float.add energy.consumed_before_j step) w in
        ground (
          arith,
          local_kill-tracks i step w,
          after_cycle-tracks i step w x (
              run_pause_cycle-tracks i.cycle i.rounds step i.detected_at
                (p.float.add energy.consumed_before_j step) w o),
        )

    on_tick-tracks :
        (i : TickInputs p) (w : World p) → IsOpen p w.tracking → LoopTracks w (on_tick p i energy w)
    unfolding on_tick
    on_tick-tracks i w o = elim (Option-cases i.energy) [
      | inl e ↦ rw (e, on_tick) (here, o)
      | inr (now, e) ↦
          let step = step_j p now i.cpu w.tracking.meter in
          elim (Bool-cases
            (p.float.lt (p.float.add energy.consumed_before_j step) energy.execution_threshold_j)) [
              | inl below ↦ rw (e, on_tick) (rw (below, on_tick) (here, o))
              | inr reached ↦
                  rw (e, on_tick) (rw (reached, on_tick) (on_threshold-tracks i step _ o))
            ]
    ]

  monitor_energy-tracks :
      (es : List (Event p)) (energy : EnergyState p.float) (w : World p)
      → IsOpen p w.tracking
      → Reach p w.tracking (monitor_energy p es energy w).world.tracking
  unfolding monitor_energy
  monitor_energy-tracks [] energy w o = here
  monitor_energy-tracks (stop ∷ es) energy w o = here
  monitor_energy-tracks (tick i ∷ es) energy w o =
      let m = on_tick p i energy w in
      let h = on_tick-tracks energy i w o in
      elim (Status-cases m.status) [
        | inl e ↦
            rw (e, monitor_energy)
              (Reach-trans p h.0 (monitor_energy-tracks es m.energy m.world (rw e at h.1)))
        | inr (inl e) ↦ rw (e, monitor_energy) h.0
        | inr (inr (inl e)) ↦ rw (e, monitor_energy) h.0
        | inr (inr (inr e)) ↦ rw (e, monitor_energy) h.0
      ]

  -- A monitor that starts on a new meter, with no marks, and runs through any ticks, pause cycles,
  -- kills and stops: at any later read (e, c), the energy that segmentedAttribution settles from
  -- the marks it left is the energy that its own meter shows at that read.
  pub monitor_energy-settles :
      (es : List (Event p)) (energy : EnergyState p.float) (w : World p) (e₀ : ℕ) (c₀ : CpuSnapshot)
      (e : ℕ) (c : CpuSnapshot)
      → w.tracking ≡ initial e₀ c₀
      → (segmented_attribution p e₀ e c₀ c
          (monitor_energy p es energy w).world.tracking.marks).attributed_uj
        ≡ step_uj p e c (monitor_energy p es energy w).world.tracking.meter
  unfolding new_step_meter
  monitor_energy-settles es energy w e₀ c₀ e c h =
      segmented_attribution-step_uj p e₀ c₀ (monitor_energy p es energy w).world.tracking e c (
        subst (λ t. Reach p t (monitor_energy p es energy w).world.tracking) h
          (monitor_energy-tracks es energy w (ap (λ (t : Tracking). t.meter.frozen) h)))
