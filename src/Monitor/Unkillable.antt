-- ===== src/Monitor/Unkillable.antt =====
-- openwhisk/energyMonitor.go: monitorEnergy, over its whole loop, on a step that is not
-- interruptible.
use openwhisk_runtime_go.Base.{
  ◌≡◌, ◌≢◌, refl, ◌∙◌, true, List, [], ◌∷◌, arith, Option-cases, Bool-cases, inl, inr,
}
use openwhisk_runtime_go.Attribution.{Platform}
use openwhisk_runtime_go.Segments.Meter.{step_j}
use openwhisk_runtime_go.Sidecar.State.{EnergyState}
use openwhisk_runtime_go.Monitor.Classes.{is_non_interruptible_for_this_step}
use openwhisk_runtime_go.Monitor.Result.{note_sample, set_threshold}
use openwhisk_runtime_go.Monitor.Cycle.{
  World, CycleEnd, resumed_with, was_killed, waiting, hung, run_pause_cycle,
}
use openwhisk_runtime_go.Monitor.Loop.{
  TickInputs, Monitor, Event, stop, tick, in_kill, after_cycle, on_threshold, on_tick,
  monitor_energy,
}
use openwhisk_runtime_go.Monitor.Spared.{kills, IsNoKill, run_pause_cycle-spares}
use openwhisk_runtime_go.Monitor.Settled.{Status-cases}

module _ (p : Platform) where
  -- From `w`, the loop wrote no cgroup.kill, noted no kill, and reports none.
  abbrev pub IsUntouched : World p → World p → Type 0
  IsUntouched w w' =
      (kills w'.controller.cg.written ≡ kills w.controller.cg.written)
      × (w'.result.lifecycle.kill_cause ≡ w.result.lifecycle.kill_cause)

  abbrev IsLive : World p → Monitor p → Type 0
  IsLive w m =
      IsUntouched w m.world
      × (m.status ≢ in_kill)
      × (is_non_interruptible_for_this_step m.energy ≡ true)

  -- A new threshold does not change the class.
  extended :
      (energy : EnergyState p.float) (t : p.float.Carrier)
      → is_non_interruptible_for_this_step energy ≡ true
      → is_non_interruptible_for_this_step (record energy { execution_threshold_j = t }) ≡ true
  unfolding is_non_interruptible_for_this_step
  extended energy t u = u

  after_cycle-IsLive :
      (energy : EnergyState p.float) (i : TickInputs p) (step : p.float.Carrier) (w v : World p)
      (e : CycleEnd p)
      → is_non_interruptible_for_this_step energy ≡ true
      → IsUntouched w v
      → IsNoKill p e
      → IsLive w (after_cycle p energy i.cycle.pause_id step (v, e))
  unfolding after_cycle set_threshold
  after_cycle-IsLive energy i step w v (resumed_with t) u h n =
      (h, (λ q. cc q), extended energy t u)
  after_cycle-IsLive energy i step w v waiting u h n = (h, (λ q. cc q), u)
  after_cycle-IsLive energy i step w v was_killed u h n = elim n [ ]
  after_cycle-IsLive energy i step w v hung u h n = elim n [ ]

  on_threshold-IsLive :
      (energy : EnergyState p.float) (i : TickInputs p) (step : p.float.Carrier) (w : World p)
      → is_non_interruptible_for_this_step energy ≡ true
      → IsLive w (on_threshold p i step energy w)
  unfolding on_threshold
  on_threshold-IsLive energy i step w u =
      let x =
        run_pause_cycle p energy i.cycle i.rounds step i.detected_at
          (p.float.add energy.consumed_before_j step) w in
      let spared =
        run_pause_cycle-spares p energy i.cycle i.rounds step i.detected_at
          (p.float.add energy.consumed_before_j step) w u in
      ground (arith, after_cycle-IsLive energy i step w x.0 x.1 u spared.0 spared.1)

  on_tick-IsLive :
      (energy : EnergyState p.float) (i : TickInputs p) (w : World p)
      → is_non_interruptible_for_this_step energy ≡ true
      → IsLive w (on_tick p i energy w)
  unfolding on_tick note_sample
  on_tick-IsLive energy i w u = elim (Option-cases i.energy) [
    | inl e ↦ rw (e, on_tick) ((refl, refl), (λ q. cc q), u)
    | inr (now, e) ↦
        let step = step_j p now i.cpu w.tracking.meter in
        elim (Bool-cases
          (p.float.lt (p.float.add energy.consumed_before_j step) energy.execution_threshold_j)) [
            | inl below ↦ rw (e, on_tick) (rw (below, on_tick) ((refl, refl), (λ q. cc q), u))
            | inr reached ↦
                rw (e, on_tick)
                  (rw (reached, on_tick)
                    (on_threshold-IsLive energy i step
                      (record w { result = note_sample p i.busy_ns w.result }) u))
          ]
  ]

  -- For a step that is not interruptible, over any ticks, pause cycles and answers of the
  -- scheduler, and whatever the kernel does: monitorEnergy never writes cgroup.kill, notes no kill,
  -- and is never left inside a kill.
  pub monitor_energy-spares :
      (es : List (Event p)) (energy : EnergyState p.float) (w : World p)
      → is_non_interruptible_for_this_step energy ≡ true
      → IsUntouched w (monitor_energy p es energy w).world
        × ((monitor_energy p es energy w).status ≢ in_kill)
  unfolding monitor_energy
  monitor_energy-spares [] energy w u = ((refl, refl), (λ q. cc q))
  monitor_energy-spares (stop ∷ es) energy w u = ((refl, refl), (λ q. cc q))
  monitor_energy-spares (tick i ∷ es) energy w u =
      let m = on_tick p i energy w in
      let h = on_tick-IsLive energy i w u in
      elim (Status-cases p m.status) [
        | inl e ↦
            let later = monitor_energy-spares es m.energy m.world h.2 in
            rw (e, monitor_energy) ((later.0.0 ∙ h.0.0, later.0.1 ∙ h.0.1), later.1)
        | inr (inl e) ↦ rw (e, monitor_energy) (h.0, h.1)
        | inr (inr (inl e)) ↦ rw (e, monitor_energy) (h.0, h.1)
        | inr (inr (inr e)) ↦ elim (h.1 e) [ ]
      ]
