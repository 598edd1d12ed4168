-- ===== src/Monitor/Driven.antt =====
-- openwhisk/energyMonitor.go and openwhisk/cgroupFreezer.go: the calls that a whole monitor makes of
-- its controller, of which the last one may hang.
use openwhisk_runtime_go.Base.{
  ℕ, inl, inr, subst, Bool, not, if◌then◌else◌, true, false, List, [], ◌∷◌, String, Option-cases,
  Bool-cases,
}
use openwhisk_runtime_go.Attribution.{Platform}
use openwhisk_runtime_go.Freezer.Machine.{Controller, freeze_execution, kill_execution}
use openwhisk_runtime_go.Segments.Meter.{step_j}
use openwhisk_runtime_go.Sidecar.State.{EnergyState}
use openwhisk_runtime_go.Monitor.Classes.{is_non_interruptible_for_this_step}
use openwhisk_runtime_go.Monitor.Result.{PauseCycle, note_sample, seconds}
use openwhisk_runtime_go.Monitor.Cycle.{
  KillInputs, CycleInputs, Round, World, CycleEnd, resumed_with, was_killed, waiting, hung, Next,
  again, ended, new_cycle, after_freeze, freeze_failure, outcome_of, run_pause_cycle,
}
use openwhisk_runtime_go.Monitor.Loop.{
  TickInputs, Event, Monitor, at, Status, running, returned, in_cycle, in_kill, stop, tick,
  local_kill, after_cycle, on_threshold, on_tick, monitor_energy,
}
use openwhisk_runtime_go.Monitor.Settled.{Status-cases}
use openwhisk_runtime_go.Monitor.Called.{
  IsHung, kill_blocked-IsHung, Called, Called-refl, Called-trans, Reaches, Reaches-trans, Calls,
  freeze_execution-Called, kill_execution-Called, kill_and_return-Calls, rounds-Called,
}

module _ (p : Platform) where
  outcome_of-Called :
      (energy : EnergyState p.float) (w : World p) (n : Next p)
      → Calls p w.controller n
      → Reaches p w.controller (outcome_of p energy n)
  outcome_of-Called energy w (again v c) h = h
  outcome_of-Called energy w (ended v e) h = h

  freeze_failure-Called :
      (energy : EnergyState p.float) (i : CycleInputs p) (w : World p) (c : PauseCycle p)
      → Reaches p w.controller (freeze_failure p energy i w c)
  unfolding freeze_failure
  freeze_failure-Called energy i w c =
      elim (Bool-cases (is_non_interruptible_for_this_step energy)) [
        | inl u ↦ rw (u, freeze_failure) (Called-refl w.controller)
        | inr u ↦
            rw (u, freeze_failure)
              (outcome_of-Called energy w _
                (kill_and_return-Calls p i.freeze_kill i.pause_id _ w c))
      ]

  after_freeze-Called :
      (energy : EnergyState p.float) (i : CycleInputs p) (rs : List (Round p))
      (step_j : p.float.Carrier) (w : World p) (c : PauseCycle p)
      → Reaches p w.controller (after_freeze p energy i rs step_j w c)
  unfolding after_freeze
  after_freeze-Called energy i rs step_j w c = rounds-Called p energy i.pause_id rs _ _

  run_pause_cycle-Called :
      (energy : EnergyState p.float) (i : CycleInputs p) (rs : List (Round p))
      (step_j : p.float.Carrier) (detected_at : ℕ) (at_threshold_j : p.float.Carrier) (w : World p)
      → Reaches p w.controller (run_pause_cycle p energy i rs step_j detected_at at_threshold_j w)
  unfolding run_pause_cycle
  run_pause_cycle-Called energy i rs step_j detected_at at_threshold_j w =
      let c' = (freeze_execution i.freeze_kernel i.pause_id w.controller).0 in
      let w' = record w { controller = c' } in
      let cycle =
        new_cycle p (seconds p detected_at) at_threshold_j energy.execution_threshold_j
          i.pause_id in
      let frozen = freeze_execution-Called i.freeze_kernel i.pause_id w.controller in
      elim (Option-cases (freeze_execution i.freeze_kernel i.pause_id w.controller).1) [
        | inl e ↦
            let r = after_freeze p energy i rs step_j w' cycle in
            rw (e, run_pause_cycle)
              (Reaches-trans p w.controller c' r.0 r.1 frozen
                (after_freeze-Called energy i rs step_j w' cycle))
        | inr (x, e) ↦
            let r = freeze_failure p energy i w' cycle in
            rw (e, run_pause_cycle)
              (Reaches-trans p w.controller c' r.0 r.1 frozen
                (freeze_failure-Called energy i w' cycle))
      ]

  -- The monitor's calls return, unless it hangs in a kill.
  abbrev pub MovesTo : Controller → Status p → Controller → Type 0
  MovesTo c in_kill d = IsHung d
  MovesTo c _ d = Called c d

  abbrev pub Moves : Controller → Monitor p → Type 0
  Moves c m = MovesTo c m.status m.world.controller

  MovesTo-trans : (c d e : Controller) (s : Status p) → Called c d → MovesTo d s e → MovesTo c s e
  MovesTo-trans c d e running h k = Called-trans c d e h k
  MovesTo-trans c d e returned h k = Called-trans c d e h k
  MovesTo-trans c d e in_cycle h k = Called-trans c d e h k
  MovesTo-trans c d e in_kill h k = k

  local_kill-Moves :
      (k : KillInputs) (step : p.float.Carrier) (energy : EnergyState p.float) (w : World p)
      → Moves w.controller (local_kill p k step energy w)
  unfolding local_kill
  local_kill-Moves k step energy w =
      elim (Option-cases (kill_execution k.kernel k.reaping "" w.controller)) [
        | inl e ↦ rw (e, local_kill) (kill_blocked-IsHung k.kernel k.reaping "" w.controller e)
        | inr ((d, x), e) ↦
            rw (e, local_kill) (kill_execution-Called k.kernel k.reaping "" w.controller d x e)
      ]

  after_cycle-Moves :
      (energy : EnergyState p.float) (pause_id : String) (step : p.float.Carrier) (c : Controller)
      (w : World p) (e : CycleEnd p)
      → Reaches p c (w, e)
      → Moves c (after_cycle p energy pause_id step (w, e))
  unfolding after_cycle
  after_cycle-Moves energy pause_id step c w (resumed_with t) h = h
  after_cycle-Moves energy pause_id step c w was_killed h = h
  after_cycle-Moves energy pause_id step c w waiting h = h
  after_cycle-Moves energy pause_id step c w hung h = h

  either-Moves :
      (b : Bool) (c : Controller) (m n : Monitor p)
      → Moves c m
      → Moves c n
      → Moves c (if b then m else n)
  either-Moves true c m n h k = h
  either-Moves false c m n h k = k

  on_threshold-Moves :
      (i : TickInputs p) (step : p.float.Carrier) (energy : EnergyState p.float) (w : World p)
      → Moves w.controller (on_threshold p i step energy w)
  unfolding on_threshold
  on_threshold-Moves i step energy w =
      let total = p.float.add energy.consumed_before_j step in
      let r = run_pause_cycle p energy i.cycle i.rounds step i.detected_at total w in
      either-Moves (not energy.pause_enabled) w.controller _ _
        (either-Moves (is_non_interruptible_for_this_step energy) w.controller _ _
          (Called-refl w.controller) (local_kill-Moves i.kill step energy w))
        (after_cycle-Moves energy i.cycle.pause_id step w.controller r.0 r.1
          (run_pause_cycle-Called energy i.cycle i.rounds step i.detected_at total w))

  on_tick-Moves :
      (i : TickInputs p) (energy : EnergyState p.float) (w : World p)
      → Moves w.controller (on_tick p i energy w)
  unfolding on_tick
  on_tick-Moves i energy w = elim (Option-cases i.energy) [
    | inl a ↦ rw (a, on_tick) (Called-refl w.controller)
    | inr (now, a) ↦
        let j = step_j p now i.cpu w.tracking.meter in
        let sampled = record w { result = note_sample p i.busy_ns w.result } in
        rw (a, on_tick)
          (either-Moves
            (p.float.lt (p.float.add energy.consumed_before_j j) energy.execution_threshold_j)
            w.controller (at p sampled energy running) (on_threshold p i j energy sampled)
            (Called-refl w.controller) (on_threshold-Moves i j energy sampled))
  ]

  pub monitor_energy-Moves :
      (es : List (Event p)) (energy : EnergyState p.float) (w : World p)
      → Moves w.controller (monitor_energy p es energy w)
  unfolding monitor_energy
  monitor_energy-Moves [] energy w = Called-refl w.controller
  monitor_energy-Moves (stop ∷ es) energy w = Called-refl w.controller
  monitor_energy-Moves (tick i ∷ es) energy w =
      let m = on_tick p i energy w in
      let h = on_tick-Moves i energy w in
      elim (Status-cases p m.status) [
        | inl e ↦
            rw (e, monitor_energy)
              (MovesTo-trans w.controller m.world.controller
                (monitor_energy p es m.energy m.world).world.controller
                (monitor_energy p es m.energy m.world).status
                (subst (λ t. MovesTo w.controller t m.world.controller) e h)
                (monitor_energy-Moves es m.energy m.world))
        | inr (inl e) ↦ rw (e, monitor_energy) h
        | inr (inr (inl e)) ↦ rw (e, monitor_energy) h
        | inr (inr (inr e)) ↦ rw (e, monitor_energy) h
      ]
