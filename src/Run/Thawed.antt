-- ===== src/Run/Thawed.antt =====
-- openwhisk/runHandler.go and openwhisk/cgroupFreezer.go: the cgroup of an executor that is kept over
-- activations.
use openwhisk_runtime_go.Base.{
  ◌≡◌, ◌⊎◌, inl, inr, subst, not, ◌&&◌, Option, true, none, some, List, [], ◌∷◌, Any, arith,
  Option-cases, Bool-cases,
}
use openwhisk_runtime_go.Attribution.{Platform}
use openwhisk_runtime_go.Freezer.Cgroup.{freeze_off}
use openwhisk_runtime_go.Freezer.Machine.{Controller}
use openwhisk_runtime_go.Freezer.Machine
use openwhisk_runtime_go.Freezer.Invariant.{Inv, latest}
use openwhisk_runtime_go.Freezer.Traces.{run-Inv}
use openwhisk_runtime_go.Sidecar.Json.{Numbers}
use openwhisk_runtime_go.Sidecar.State.{EnergyState}
use openwhisk_runtime_go.Monitor.Classes.{should_monitor_energy}
use openwhisk_runtime_go.Monitor.Interact.{Interaction, Interacted, monitored, awaited, interact}
use openwhisk_runtime_go.Monitor.Called.{Called, Called-refl, Called-trans}
use openwhisk_runtime_go.Monitor.Loop.{Monitor}
use openwhisk_runtime_go.Monitor.Settled.{Status-cases}
use openwhisk_runtime_go.Monitor.Driven.{MovesTo, Moves}
use openwhisk_runtime_go.Monitor.Hung.{monitored-Moves}
use openwhisk_runtime_go.Run.{RunInputs, Run, extracted, run_handler}
use openwhisk_runtime_go.Run.Kept.{
  controller_of, controller_after, IsUnkillable, run_all, run_all-IsLeft,
}

-- The process runs, and the last write to its cgroup is not a freeze.
abbrev pub IsThawed : Controller → Type 0
IsThawed c =
    (c.state ≡ Machine.running)
    × ((latest c.cg.written ≡ none) ⊎ (latest c.cg.written ≡ some freeze_off))

module _ (p : Platform) where
  -- Interact returns only when the monitor has.
  awaited-Called :
      (s : EnergyState p.float) (i : Interaction p) (c : Controller) (m : Monitor p)
      (x : Interacted p)
      → Moves p c m
      → awaited p s i m ≡ some x
      → Called c m.world.controller
  unfolding awaited
  awaited-Called s i c m x h a = elim (Status-cases p m.status) [
    | inl e ↦ subst (λ t. MovesTo p c t m.world.controller) e h
    | inr (inl e) ↦ subst (λ t. MovesTo p c t m.world.controller) e h
    | inr (inr (inl e)) ↦ absurd (ground (arith, e, a))
    | inr (inr (inr e)) ↦ absurd (ground (arith, e, a))
  ]

  interact-Called :
      (energy : Option (EnergyState p.float)) (i : Interaction p) (c : Controller)
      (x : Interacted p)
      → interact p energy i c ≡ some x
      → Called c (controller_of p energy i c)
  unfolding interact controller_of
  interact-Called none i c x h = Called-refl c
  interact-Called (some s) i c x h = elim (Bool-cases (should_monitor_energy (some s))) [
    | inl e ↦
        rw (e, controller_of)
          (awaited-Called s i c (monitored p s i c) x (monitored-Moves p s i c)
            (rw (e, interact) at h))
    | inr e ↦ rw (e, controller_of) (Called-refl c)
  ]

module _ (p : Platform) (n : Numbers p.float) where
  run_handler-Called :
      (r : RunInputs p n) (v : Run p n)
      → run_handler p n r ≡ some v
      → Called r.controller (controller_after p n r)
  unfolding run_handler controller_after
  run_handler-Called r v h = elim (Bool-cases (r.body_read && r.has_executor && not r.exited)) [
    | inr a ↦
        let same : r.controller ≡ controller_after p n r = ground (arith, a) in
        subst (Called r.controller) same (Called-refl r.controller)
    | inl a ↦ elim (Option-cases (interact p (extracted p n r) r.interaction r.controller)) [
      | inl e ↦ absurd (ground (arith, a, e, h))
      | inr (x, e) ↦
          let same : controller_of p (extracted p n r) r.interaction r.controller
              ≡ controller_after p n r =
            ground (arith, a) in
          subst (Called r.controller) same
            (interact-Called p (extracted p n r) r.interaction r.controller x e)
    ]
  ]

  run_all-Called :
      (rs : List (RunInputs p n)) (c c' : Controller) → run_all p n rs c ≡ some c' → Called c c'
  unfolding run_all
  run_all-Called [] c c' h =
      let same : c ≡ c' = ground (arith, h) in subst (Called c) same (Called-refl c)
  run_all-Called (r ∷ rs) c c' h =
      let r' = record r { has_executor = true; controller = c } in
      elim (Option-cases (run_handler p n r')) [
        | inl e ↦ absurd (ground (arith, e, h))
        | inr (v, e) ↦ elim (Bool-cases v.keeps_executor) [
          | inr k ↦ absurd (ground (arith, e, k, h))
          | inl k ↦
              Called-trans c (controller_after p n r') c' (run_handler-Called r' v e)
                (run_all-Called rs (controller_after p n r') c' (ground (arith, e, k, h)))
        ]
      ]

  -- Over any activations on one executor that is kept, whatever the kernel, the scheduler and the
  -- action do in each, the controller goes only where some calls of FreezeExecution,
  -- ResumeExecution and KillExecution that all return take it. If before the first the process runs
  -- and the state agrees with the last write to the cgroup, then after the last the state says
  -- RUNNING and the last write, if any, is a thaw, or the state says UNKNOWN and one of the steps
  -- was not interruptible.
  pub run_all-refines :
      (rs : List (RunInputs p n)) (c c' : Controller)
      → Inv c
      → c.state ≡ Machine.running
      → run_all p n rs c ≡ some c'
      → Called c c' × (IsThawed c' ⊎ ((c'.state ≡ Machine.unknown) × Any (IsUnkillable p n) rs))
  run_all-refines rs c c' v l h =
      let called = run_all-Called rs c c' h in
      let inv = run-Inv called.0 c c' called.1 v in
      (
        called,
        elim (run_all-IsLeft p n rs c c' l h) [
          | inl runs ↦ inl (runs, inv.running_written runs)
          | inr lost ↦ inr lost
        ],
      )
