-- ===== src/Monitor/Hung.antt =====
-- openwhisk/executor.go, openwhisk/energyMonitor.go and openwhisk/cgroupFreezer.go: Interact where a
-- killExecution of its monitor does not return.
use openwhisk_runtime_go.Base.{
  ◌≡◌, ◌≢◌, inl, inr, subst, true, false, none, some, arith, Option-cases, Bool-cases,
}
use openwhisk_runtime_go.Attribution.{Platform}
use openwhisk_runtime_go.Freezer.Machine.{Controller}
use openwhisk_runtime_go.Sidecar.State.{EnergyState}
use openwhisk_runtime_go.Monitor.Classes.{should_monitor_energy, is_non_interruptible_for_this_step}
use openwhisk_runtime_go.Monitor.Loop.{in_kill}
use openwhisk_runtime_go.Monitor.Interact.{Interaction, fresh, monitored, awaited, interact}
use openwhisk_runtime_go.Monitor.Unkillable.{monitor_energy-spares}
use openwhisk_runtime_go.Monitor.Called.{IsHung, Called-refl}
use openwhisk_runtime_go.Monitor.Driven.{MovesTo, Moves, monitor_energy-Moves}

module _ (p : Platform) where
  pub monitored-Moves :
      (s : EnergyState p.float) (i : Interaction p) (c : Controller) → Moves p c (monitored p s i c)
  unfolding monitored
  monitored-Moves s i c = elim (Option-cases i.start_energy) [
    | inl e ↦ rw (e, monitored) (Called-refl c)
    | inr (n, e) ↦ rw (e, monitored) (monitor_energy-Moves p _ s (fresh p n i.start_cpu c))
  ]

  monitored-spares :
      (s : EnergyState p.float) (i : Interaction p) (c : Controller)
      → is_non_interruptible_for_this_step s ≡ true
      → (monitored p s i c).status ≢ in_kill
  unfolding monitored
  monitored-spares s i c u = elim (Option-cases i.start_energy) [
    | inl e ↦ rw (e, monitored) (λ q. cc q)
    | inr (n, e) ↦ rw (e, monitored) (monitor_energy-spares p _ s (fresh p n i.start_cpu c) u).1
  ]

  -- Where the monitor of a call of Interact is left inside a killExecution that does not return, over
  -- any ticks, pause cycles and answers: this call does not return either, even if the action has
  -- answered; the step is one that can be interrupted; the process was started, the last write to
  -- its cgroup is the one to cgroup.kill, and the controller, which the other activations of the
  -- container share, says KILLING.
  pub interact-IsHung :
      (s : EnergyState p.float) (i : Interaction p) (c : Controller)
      → should_monitor_energy (some s) ≡ true
      → (monitored p s i c).status ≡ in_kill
      → (interact p (some s) i c ≡ none)
        × (is_non_interruptible_for_this_step s ≡ false)
        × IsHung (monitored p s i c).world.controller
  unfolding interact awaited
  interact-IsHung s i c u h = (
    ground (arith, u, h),
    elim (Bool-cases (is_non_interruptible_for_this_step s)) [
      | inl e ↦ absurd (monitored-spares s i c e h)
      | inr e ↦ e
    ],
    subst (λ t. MovesTo p c t (monitored p s i c).world.controller) h (monitored-Moves s i c),
  )
