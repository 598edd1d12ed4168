-- ===== src/Monitor/Kept.antt =====
-- openwhisk/energyMonitor.go: the state in which monitorEnergy leaves the process of a step, from the
-- state in which its pause cycles leave it.
use openwhisk_runtime_go.Base.{
  ◌≡◌, inl, inr, refl, ap, ◌∙◌, sym, subst, false, List, [], ◌∷◌, String, arith, Option-cases,
  Bool-cases,
}
use openwhisk_runtime_go.Attribution.{Platform}
use openwhisk_runtime_go.Freezer.Machine.{kill_execution}
use openwhisk_runtime_go.Monitor.Loop.{
  TickInputs, stop, tick, Status, running, returned, in_cycle, in_kill, Monitor, at, local_kill,
  after_cycle, on_threshold, on_tick, monitor_energy,
}
use openwhisk_runtime_go.Monitor.Loop
use openwhisk_runtime_go.Segments.Meter.{step_j}
use openwhisk_runtime_go.Sidecar.State.{EnergyState}
use openwhisk_runtime_go.Monitor.Classes.{is_non_interruptible_for_this_step}
use openwhisk_runtime_go.Monitor.Result.{set_threshold, set_killed, note_sample, local_kill_refused}
use openwhisk_runtime_go.Monitor.Cycle.{
  KillInputs, World, CycleEnd, resumed_with, was_killed, waiting, hung, run_pause_cycle, incident,
}
use openwhisk_runtime_go.Monitor.Settled.{Status-cases}
use openwhisk_runtime_go.Monitor.Left.{IsLeft, Explains, run_pause_cycle-IsLeft}

module _ (p : Platform) where
  -- The class of the step does not change.
  abbrev SameClass : EnergyState p.float → EnergyState p.float → Type 0
  SameClass energy energy' =
      is_non_interruptible_for_this_step energy' ≡ is_non_interruptible_for_this_step energy

  after_cycle-SameClass :
      (energy : EnergyState p.float) (pause_id : String) (step : p.float.Carrier) (w : World p)
      (e : CycleEnd p)
      → SameClass energy (after_cycle p energy pause_id step (w, e)).energy
  unfolding after_cycle is_non_interruptible_for_this_step
  after_cycle-SameClass energy pause_id step w (resumed_with t) = refl
  after_cycle-SameClass energy pause_id step w was_killed = refl
  after_cycle-SameClass energy pause_id step w waiting = refl
  after_cycle-SameClass energy pause_id step w hung = refl

  local_kill-SameClass :
      (k : KillInputs) (step : p.float.Carrier) (energy : EnergyState p.float) (w : World p)
      → SameClass energy (local_kill p k step energy w).energy
  unfolding local_kill
  local_kill-SameClass k step energy w = ground arith

  on_threshold-SameClass :
      (i : TickInputs p) (step : p.float.Carrier) (energy : EnergyState p.float) (w : World p)
      → SameClass energy (on_threshold p i step energy w).energy
  unfolding on_threshold
  on_threshold-SameClass i step energy w =
      let r =
        run_pause_cycle p energy i.cycle i.rounds step i.detected_at
          (p.float.add energy.consumed_before_j step) w in
      ground (
        arith,
        after_cycle-SameClass energy i.cycle.pause_id step r.0 r.1,
        local_kill-SameClass i.kill step energy w,
      )

  pub on_tick-SameClass :
      (i : TickInputs p) (energy : EnergyState p.float) (w : World p)
      → SameClass energy (on_tick p i energy w).energy
  unfolding on_tick
  on_tick-SameClass i energy w = elim (Option-cases i.energy) [
    | inl a ↦ ground (arith, a)
    | inr (now, a) ↦ ground (
      arith,
      a,
      on_threshold-SameClass i (step_j p now i.cpu w.tracking.meter) energy
          (record w { result = note_sample p i.busy_ns w.result }),
    )
  ]

module _ (p : Platform) (Why : Type 0) where
  abbrev pub Leaves : Status p → World p → Type 0
  Leaves running w = IsLeft Why w.controller
  Leaves returned w = w.result.killed ≡ false → IsLeft Why w.controller
  Leaves in_cycle w = Unit
  Leaves in_kill w = Unit

  after_cycle-Leaves :
      (energy : EnergyState p.float) (pause_id : String) (step : p.float.Carrier) (w : World p)
      (e : CycleEnd p)
      → ((t : p.float.Carrier) → e ≡ resumed_with t → IsLeft Why w.controller)
      → Leaves
          (after_cycle p energy pause_id step (w, e)).status
          (after_cycle p energy pause_id step (w, e)).world
  unfolding after_cycle set_threshold set_killed
  after_cycle-Leaves energy pause_id step w (resumed_with t) h = h t refl
  after_cycle-Leaves energy pause_id step w was_killed h = λ k. cc
  after_cycle-Leaves energy pause_id step w waiting h = tt
  after_cycle-Leaves energy pause_id step w hung h = tt

  local_kill-Leaves :
      (k : KillInputs) (step : p.float.Carrier) (energy : EnergyState p.float) (w : World p)
      → Leaves (local_kill p k step energy w).status (local_kill p k step energy w).world
  unfolding local_kill set_killed
  local_kill-Leaves k step energy w =
      elim (Option-cases (kill_execution k.kernel k.reaping "" w.controller)) [
        | inl e ↦ rw (e, local_kill) tt
        | inr ((c, x), e) ↦ rw (e, local_kill) (λ z. cc)
      ]

  abbrev pub LeavesOf : Monitor p → Type 0
  LeavesOf m = Leaves m.status m.world

  on_threshold-LeavesOf :
      (i : TickInputs p) (step : p.float.Carrier) (energy : EnergyState p.float) (w : World p)
      → Explains p Why energy
      → IsLeft Why w.controller
      → LeavesOf (on_threshold p i step energy w)
  unfolding on_threshold
  on_threshold-LeavesOf i step energy w why l = elim (Bool-cases energy.pause_enabled) [
    | inl a ↦
        let total = p.float.add energy.consumed_before_j step in
        let r = run_pause_cycle p energy i.cycle i.rounds step i.detected_at total w in
        let e : after_cycle p energy i.cycle.pause_id step r ≡ on_threshold p i step energy w =
          ground (arith, a) in
        subst LeavesOf e (
          after_cycle-Leaves energy i.cycle.pause_id step r.0 r.1 (λ t k.
            run_pause_cycle-IsLeft p Why energy i.cycle i.rounds step i.detected_at total w r.0 t
              why l (ap (λ z. (r.0, z)) k)))
    | inr a ↦ elim (Bool-cases (is_non_interruptible_for_this_step energy)) [
      | inl u ↦
          let e : at p (incident p local_kill_refused w) energy returned
              ≡ on_threshold p i step energy w =
            ground (arith, a, u) in
          subst LeavesOf e (λ k. l)
      | inr u ↦
          let e : local_kill p i.kill step energy w ≡ on_threshold p i step energy w =
            ground (arith, a, u) in
          subst LeavesOf e (local_kill-Leaves i.kill step energy w)
    ]
  ]

  on_tick-LeavesOf :
      (i : TickInputs p) (energy : EnergyState p.float) (w : World p)
      → Explains p Why energy
      → IsLeft Why w.controller
      → LeavesOf (on_tick p i energy w)
  unfolding on_tick
  on_tick-LeavesOf i energy w why l =
      let sampled = record w { result = note_sample p i.busy_ns w.result } in
      elim (Option-cases i.energy) [
        | inl a ↦
            let e : at p sampled energy running ≡ on_tick p i energy w = ground (arith, a) in
            subst LeavesOf e l
        | inr (now, a) ↦
            let step = step_j p now i.cpu w.tracking.meter in
            elim (Bool-cases (
              p.float.lt (p.float.add energy.consumed_before_j step)
                energy.execution_threshold_j)) [
                  | inl b ↦
                      let e : at p sampled energy running ≡ on_tick p i energy w =
                        ground (arith, a, b) in
                      subst LeavesOf e l
                  | inr b ↦
                      let e : on_threshold p i step energy sampled ≡ on_tick p i energy w =
                        ground (arith, a, b) in
                      subst LeavesOf e (on_threshold-LeavesOf i step energy sampled why l)
                ]
      ]

  pub monitor_energy-LeavesOf :
      (es : List (Loop.Event p)) (energy : EnergyState p.float) (w : World p)
      → Explains p Why energy
      → IsLeft Why w.controller
      → LeavesOf (monitor_energy p es energy w)
  unfolding monitor_energy
  monitor_energy-LeavesOf [] energy w why l = l
  monitor_energy-LeavesOf (stop ∷ es) energy w why l = λ k. l
  monitor_energy-LeavesOf (tick i ∷ es) energy w why l =
      let m = on_tick p i energy w in
      let h = on_tick-LeavesOf i energy w why l in
      elim (Status-cases p m.status) [
        | inl e ↦
            rw (e, monitor_energy)
              (monitor_energy-LeavesOf es m.energy m.world
                (λ u. why (sym (on_tick-SameClass p i energy w) ∙ u))
                (subst (λ s. Leaves s m.world) e h))
        | inr (inl e) ↦ rw (e, monitor_energy) h
        | inr (inr (inl e)) ↦ rw (e, monitor_energy) h
        | inr (inr (inr e)) ↦ rw (e, monitor_energy) h
      ]
