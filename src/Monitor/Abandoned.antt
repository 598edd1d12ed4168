-- ===== src/Monitor/Abandoned.antt =====
-- openwhisk/energyMonitor.go: the monitor of a step that is not interruptible, once a freeze has
-- failed.
use openwhisk_runtime_go.Base.{
  ℕ, ◌≡◌, ◌≢◌, inl, inr, refl, ap, ◌∙◌, true, none, List, [], ◌∷◌, String, arith, Option-cases,
}
use openwhisk_runtime_go.Attribution.{Platform}
use openwhisk_runtime_go.Freezer.Cgroup.{Kernel}
use openwhisk_runtime_go.Freezer.Machine.{unknown, Controller, freeze_execution}
use openwhisk_runtime_go.Segments.Meter.{step_j}
use openwhisk_runtime_go.Sidecar.State.{EnergyState}
use openwhisk_runtime_go.Monitor.Classes.{is_non_interruptible_for_this_step}
use openwhisk_runtime_go.Monitor.Result.{note_sample}
use openwhisk_runtime_go.Monitor.Cycle.{
  CycleInputs, Round, World, CycleEnd, resumed_with, was_killed, waiting, hung, run_pause_cycle,
}
use openwhisk_runtime_go.Monitor.Loop.{
  TickInputs, Event, stop, tick, after_cycle, on_threshold, on_tick, monitor_energy,
}
use openwhisk_runtime_go.Monitor.Settled.{Status-cases}
use openwhisk_runtime_go.Monitor.Kept.{on_tick-SameClass}

freeze_execution-unknown :
    (k : Kernel) (q : String) (c : Controller)
    → c.state ≡ unknown
    → ((freeze_execution k q c).0 ≡ c) × ((freeze_execution k q c).1 ≢ none)
unfolding freeze_execution
freeze_execution-unknown k q c h = ground (arith, h)

module _ (p : Platform) where
  run_pause_cycle-unknown :
      (energy : EnergyState p.float) (i : CycleInputs p) (rs : List (Round p))
      (step_j : p.float.Carrier) (detected_at : ℕ) (at_threshold_j : p.float.Carrier) (w : World p)
      → is_non_interruptible_for_this_step energy ≡ true
      → w.controller.state ≡ unknown
      → (run_pause_cycle p energy i rs step_j detected_at at_threshold_j w).0.controller
        ≡ w.controller
  unfolding run_pause_cycle
  run_pause_cycle-unknown energy i rs step_j detected_at at_threshold_j w u h =
      ground (arith, u, freeze_execution-unknown i.freeze_kernel i.pause_id w.controller h)

  pub after_cycle-controller :
      (energy : EnergyState p.float) (pause_id : String) (step : p.float.Carrier) (w : World p)
      (e : CycleEnd p)
      → (after_cycle p energy pause_id step (w, e)).world.controller ≡ w.controller
  unfolding after_cycle
  after_cycle-controller energy pause_id step w (resumed_with t) = refl
  after_cycle-controller energy pause_id step w was_killed = refl
  after_cycle-controller energy pause_id step w waiting = refl
  after_cycle-controller energy pause_id step w hung = refl

  on_threshold-unknown :
      (i : TickInputs p) (step : p.float.Carrier) (energy : EnergyState p.float) (w : World p)
      → is_non_interruptible_for_this_step energy ≡ true
      → w.controller.state ≡ unknown
      → (on_threshold p i step energy w).world.controller ≡ w.controller
  unfolding on_threshold
  on_threshold-unknown i step energy w u h =
      let total = p.float.add energy.consumed_before_j step in
      let r = run_pause_cycle p energy i.cycle i.rounds step i.detected_at total w in
      ground (
        arith,
        u,
        after_cycle-controller energy i.cycle.pause_id step r.0 r.1,
        run_pause_cycle-unknown energy i.cycle i.rounds step i.detected_at total w u h,
      )

  on_tick-unknown :
      (i : TickInputs p) (energy : EnergyState p.float) (w : World p)
      → is_non_interruptible_for_this_step energy ≡ true
      → w.controller.state ≡ unknown
      → (on_tick p i energy w).world.controller ≡ w.controller
  unfolding on_tick
  on_tick-unknown i energy w u h = elim (Option-cases i.energy) [
    | inl a ↦ ground (arith, a)
    | inr (now, a) ↦ ground (
      arith,
      a,
      on_threshold-unknown i (step_j p now i.cpu w.tracking.meter) energy
          (record w { result = note_sample p i.busy_ns w.result }) u h,
    )
  ]

  -- Once the controller is UNKNOWN, as after a freeze that failed, the monitor of a step that is not
  -- interruptible leaves the controller and its cgroup as they are, over any ticks, pause cycles and
  -- answers: if the freeze was written and only its confirmation failed, nothing writes the thaw.
  pub monitor_energy-unknown :
      (es : List (Event p)) (energy : EnergyState p.float) (w : World p)
      → is_non_interruptible_for_this_step energy ≡ true
      → w.controller.state ≡ unknown
      → (monitor_energy p es energy w).world.controller ≡ w.controller
  unfolding monitor_energy
  monitor_energy-unknown [] energy w u h = refl
  monitor_energy-unknown (stop ∷ es) energy w u h = refl
  monitor_energy-unknown (tick i ∷ es) energy w u h =
      let m = on_tick p i energy w in
      let same = on_tick-unknown i energy w u h in
      elim (Status-cases p m.status) [
        | inl e ↦
            rw (e, monitor_energy)
              (monitor_energy-unknown es m.energy m.world (on_tick-SameClass p i energy w ∙ u)
                  (ap (λ (c : Controller). c.state) same ∙ h)
                ∙ same)
        | inr (inl e) ↦ rw (e, monitor_energy) same
        | inr (inr (inl e)) ↦ rw (e, monitor_energy) same
        | inr (inr (inr e)) ↦ rw (e, monitor_energy) same
      ]
