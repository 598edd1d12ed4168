-- ===== src/Run/Kept.antt =====
-- openwhisk/runHandler.go: activations one after another on one executor, which passes its
-- controller on.
use openwhisk_runtime_go.Base.{
  ◌≡◌, inl, inr, refl, ap, ◌∙◌, subst, true, not, ◌&&◌, Option, none, some, List, [], ◌∷◌,
  if◌then◌else◌, Any, arith, Option-cases, Bool-cases,
}
use openwhisk_runtime_go.Attribution.{Platform}
use openwhisk_runtime_go.Freezer.Machine.{Controller}
use openwhisk_runtime_go.Freezer.Machine
use openwhisk_runtime_go.Sidecar.Json.{Numbers}
use openwhisk_runtime_go.Sidecar.State.{EnergyState}
use openwhisk_runtime_go.Monitor.Classes.{should_monitor_energy, is_non_interruptible_for_this_step}
use openwhisk_runtime_go.Monitor.Loop.{Monitor}
use openwhisk_runtime_go.Monitor.Interact.{
  Interaction, Interacted, fresh, monitored, collected, awaited, interact,
}
use openwhisk_runtime_go.Monitor.Settled.{Status-cases}
use openwhisk_runtime_go.Monitor.Left.{IsLeft, Explains}
use openwhisk_runtime_go.Monitor.Kept.{Leaves, LeavesOf, monitor_energy-LeavesOf}
use openwhisk_runtime_go.Run.{RunInputs, Run, extracted, measured_j, after_interact, run_handler}

module _ (p : Platform) where
  -- The controller after Interact.
  unfoldable pub controller_of :
      Option (EnergyState p.float) → Interaction p → Controller → Controller
  unfolding monitored
  controller_of none i c = c
  controller_of (some s) i c =
      if should_monitor_energy (some s) then (monitored p s i c).world.controller else c

  module _ (Why : Type 0) where
    monitored-LeavesOf :
        (s : EnergyState p.float) (i : Interaction p) (c : Controller)
        → Explains p Why s
        → IsLeft Why c
        → LeavesOf p Why (monitored p s i c)
    unfolding monitored
    monitored-LeavesOf s i c why l = elim (Option-cases i.start_energy) [
      | inl e ↦ rw (e, monitored) (λ k. l)
      | inr (n, e) ↦
          rw (e, monitored) (monitor_energy-LeavesOf p Why _ s (fresh p n i.start_cpu c) why l)
    ]

    awaited-IsLeft :
        (s : EnergyState p.float) (i : Interaction p) (m : Monitor p) (x : Interacted p)
        → LeavesOf p Why m
        → awaited p s i m ≡ some x
        → x.kill_info ≡ none
        → IsLeft Why m.world.controller
    unfolding awaited collected
    awaited-IsLeft s i m x l h k = elim (Status-cases p m.status) [
      | inl e ↦ subst (λ t. Leaves p Why t m.world) e l
      | inr (inl e) ↦ subst (λ t. Leaves p Why t m.world) e l (ground (arith, e, h, k))
      | inr (inr (inl e)) ↦ absurd (ground (arith, e, h))
      | inr (inr (inr e)) ↦ absurd (ground (arith, e, h))
    ]

    interact-IsLeft :
        (energy : Option (EnergyState p.float)) (i : Interaction p) (c : Controller)
        (x : Interacted p)
        → ((s : EnergyState p.float) → energy ≡ some s → Explains p Why s)
        → IsLeft Why c
        → interact p energy i c ≡ some x
        → x.kill_info ≡ none
        → IsLeft Why (controller_of energy i c)
    unfolding interact controller_of
    interact-IsLeft none i c x why l h k = l
    interact-IsLeft (some s) i c x why l h k = elim (Bool-cases (should_monitor_energy (some s))) [
      | inl e ↦
          rw (e, controller_of)
            (awaited-IsLeft s i (monitored p s i c) x (monitored-LeavesOf s i c (why s refl) l)
              (rw (e, interact) at h) k)
      | inr e ↦ rw (e, controller_of) l
    ]

module _ (p : Platform) (n : Numbers p.float) where
  unfoldable pub controller_after : RunInputs p n → Controller
  unfolding extracted controller_of
  controller_after r =
      if r.body_read && r.has_executor && not r.exited
      then controller_of p (extracted p n r) r.interaction r.controller
      else r.controller

  -- The step of the activation is not interruptible.
  abbrev pub IsUnkillable : RunInputs p n → Type 0
  IsUnkillable r =
      (s : EnergyState p.float) × (extracted p n r ≡ some s)
      × (is_non_interruptible_for_this_step s ≡ true)

  module _ (Why : Type 0) where
    after_interact-kept :
        (r : RunInputs p n) (measured : p.float.Carrier) (x : Interacted p)
        → (after_interact p n r measured x).keeps_executor ≡ true
        → x.kill_info ≡ none
    unfolding after_interact
    after_interact-kept r measured x h = ground arith

    run_handler-IsLeft :
        (r : RunInputs p n) (v : Run p n)
        → (IsUnkillable r → Why)
        → IsLeft Why r.controller
        → run_handler p n r ≡ some v
        → v.keeps_executor ≡ true
        → IsLeft Why (controller_after r)
    unfolding run_handler controller_after
    run_handler-IsLeft r v why l h k =
        elim (Bool-cases (r.body_read && r.has_executor && not r.exited)) [
          | inr a ↦
              let same : r.controller ≡ controller_after r = ground (arith, a) in
              subst (IsLeft Why) same l
          | inl a ↦ elim (Option-cases (interact p (extracted p n r) r.interaction r.controller)) [
            | inl e ↦ absurd (ground (arith, a, e, h))
            | inr (x, e) ↦
                let m = measured_j p n (extracted p n r) r in
                let made : after_interact p n r m x ≡ v = ground (arith, a, e, h) in
                let kept =
                  after_interact-kept r m x (ap (λ (z : Run p n). z.keeps_executor) made ∙ k) in
                let after =
                  interact-IsLeft p Why (extracted p n r) r.interaction r.controller x
                    (λ s f u. why (s, f, u)) l e kept in
                let same : controller_of p (extracted p n r) r.interaction r.controller
                    ≡ controller_after r =
                  ground (arith, a) in
                subst (IsLeft Why) same after
          ]
        ]

  -- Activations one after another on one executor, each with the controller that the one before
  -- it leaves; none where one does not return or gives the executor up.
  unfoldable pub run_all : List (RunInputs p n) → Controller → Option Controller
  unfolding run_handler controller_after
  run_all [] c = some c
  run_all (r ∷ rs) c =
      let r' = record r { has_executor = true; controller = c } in
      let later = run_all rs (controller_after r') in
      elim (run_handler p n r') [ none ↦ none | some v ↦ if v.keeps_executor then later else none ]

  IsLeft-run_all :
      (Why : Type 0) (rs : List (RunInputs p n)) (c c' : Controller)
      → (Any IsUnkillable rs → Why)
      → IsLeft Why c
      → run_all rs c ≡ some c'
      → IsLeft Why c'
  unfolding run_all extracted
  IsLeft-run_all Why [] c c' why l h =
      let same : c ≡ c' = ground (arith, h) in subst (IsLeft Why) same l
  IsLeft-run_all Why (r ∷ rs) c c' why l h =
      let r' = record r { has_executor = true; controller = c } in
      elim (Option-cases (run_handler p n r')) [
        | inl e ↦ absurd (ground (arith, e, h))
        | inr (v, e) ↦ elim (Bool-cases v.keeps_executor) [
          | inr k ↦ absurd (ground (arith, e, k, h))
          | inl k ↦
              IsLeft-run_all Why rs (controller_after r') c' (λ u. why (inr u))
                (run_handler-IsLeft Why r' v (λ u. why (inl u)) l e k) (ground (arith, e, k, h))
        ]
      ]

  -- Over any activations on one executor that is kept, whatever the kernel, the scheduler and the
  -- action do in each: if the process runs before the first, the controller says RUNNING after the
  -- last, or it says UNKNOWN and one of the steps was not interruptible. No activation leaves the
  -- process of a kept executor FROZEN or STOPPED.
  pub run_all-IsLeft :
      (rs : List (RunInputs p n)) (c c' : Controller)
      → c.state ≡ Machine.running
      → run_all rs c ≡ some c'
      → IsLeft (Any IsUnkillable rs) c'
  run_all-IsLeft rs c c' l h = IsLeft-run_all (Any IsUnkillable rs) rs c c' (λ u. u) (inl l) h
