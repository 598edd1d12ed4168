-- ===== src/Freezer/Traces.antt =====
-- openwhisk/cgroupFreezer.go: sequences of calls on one controller, from NewActivationController.
use openwhisk_runtime_go.Base.{
  ◌≡◌, refl, ◌⊎◌, inl, inr, Bool, Option, none, some, List, [], ◌∷◌, String, arith, Any,
  Option-cases,
}
use openwhisk_runtime_go.Freezer.Cgroup.{Kernel, kill_all}
use openwhisk_runtime_go.Freezer.Machine.{
  RuntimeState, running, frozen, stopped, unknown, Controller, TransitionError, Reaping, start,
  new_activation_controller, freeze_execution, resume_execution, kill_execution, wait_reaped,
  blocked,
}
use openwhisk_runtime_go.Freezer.Invariant.{
  Inv, latest, freeze_execution-Inv, resume_execution-Inv, kill_execution-Inv,
}

-- A call with what the kernel answers to it.
pub data Call : Type 0 where
  freezes : Kernel → String → Call
  resumes : Kernel → String → Call
  kills : Kernel → Reaping → String → Call

-- `none`: the call never returns.
unfoldable pub step : Call → Controller → Option (Controller × Option TransitionError)
step (freezes k p) c = some (freeze_execution k p c)
step (resumes k p) c = some (resume_execution k p c)
step (kills k r p) c = kill_execution k r p c

-- The controller after the calls, while they return.
unfoldable pub run : List Call → Controller → Option Controller
run [] c = some c
run (x ∷ xs) c = elim (step x c) [ none ↦ none | some (d, e) ↦ run xs d ]

-- The controller of an activation, once Start has run.
abbrev pub started : String → Bool → Controller
started path launched = (start launched (new_activation_controller path)).0

pub started-Inv : (path : String) (launched : Bool) → Inv (started path launched)
unfolding start new_activation_controller
started-Inv path launched = ground arith

step-Inv :
    (x : Call) (c : Controller) {d : Controller} {e : Option TransitionError}
    → step x c ≡ some (d, e)
    → Inv c
    → Inv d
unfolding step
step-Inv (freezes k p) c h v = ground (arith, freeze_execution-Inv k p c)
step-Inv (resumes k p) c h v = ground (arith, resume_execution-Inv k p c)
step-Inv (kills k r p) c h v = kill_execution-Inv k r p c h v

pub run-Inv : (xs : List Call) (c d : Controller) → run xs c ≡ some d → Inv c → Inv d
unfolding run
run-Inv [] c d h v = ground arith
run-Inv (x ∷ xs) c d h v = elim (Option-cases (step x c)) [
  | inl e ↦ ground (arith, e)
  | inr ((d', r), e) ↦ run-Inv xs d' d (ground (arith, e)) (step-Inv x c e v)
]

-- After any calls on a started controller that all return, whatever the kernel answers, the state
-- is not a transient one, and it agrees with the last write to the cgroup.
pub run-started-Inv :
    (path : String) (launched : Bool) (xs : List Call) (d : Controller)
    → run xs (started path launched) ≡ some d
    → Inv d
run-started-Inv path launched xs d h =
    run-Inv xs (started path launched) d h (started-Inv path launched)

abbrev pub IsDead : RuntimeState → Type 0
IsDead s = (s ≡ unknown) ⊎ (s ≡ stopped)

step_dead :
    (x : Call) (c : Controller)
    → IsDead c.state
    → (e : Option TransitionError) × (step x c ≡ some (c, e))
unfolding step freeze_execution resume_execution kill_execution
step_dead (freezes k p) c h = ((freeze_execution k p c).1, ground arith)
step_dead (resumes k p) c h = ((resume_execution k p c).1, ground arith)
step_dead (kills k r p) c (inl h) = (
  some (record {
    pause_id = p;
    attempted_op = openwhisk_runtime_go.Freezer.Machine.kill_op;
    from_state = c.state;
    reason = openwhisk_runtime_go.Freezer.Machine.requires_running_or_frozen;
  }),
  ground arith,
)
step_dead (kills k r p) c (inr h) = (none, ground arith)

-- UNKNOWN and STOPPED are absorbing: from either, every sequence of calls returns and leaves the
-- controller, its cgroup writes included, exactly as it was.
run_dead : (xs : List Call) (c : Controller) → IsDead c.state → run xs c ≡ some c
unfolding run
run_dead [] c h = refl
run_dead (x ∷ xs) c h = ground (arith, step_dead x c h, run_dead xs c h)

abbrev pub IsKill : Call → Type 0
IsKill (kills k r p) = Unit
IsKill _ = ⊥

step-stopped :
    (x : Call) (c : Controller) {d : Controller} {e : Option TransitionError}
    → step x c ≡ some (d, e)
    → d.state ≡ stopped
    → IsKill x ⊎ (c.state ≡ stopped)
unfolding step freeze_execution resume_execution
step-stopped (freezes k p) c h s = inr (ground arith)
step-stopped (resumes k p) c h s = inr (ground arith)
step-stopped (kills k r p) c h s = inl tt

run-stopped :
    (xs : List Call) (c d : Controller)
    → run xs c ≡ some d
    → d.state ≡ stopped
    → Any IsKill xs ⊎ (c.state ≡ stopped)
unfolding run
run-stopped [] c d h s = inr (ground arith)
run-stopped (x ∷ xs) c d h s = elim (Option-cases (step x c)) [
  | inl e ↦ cc (rw (e, run) at h)
  | inr ((d', r), e) ↦ elim (run-stopped xs d' d (ground (arith, e)) s) [
    | inl later ↦ inl (inr later)
    | inr now ↦ elim (step-stopped x c e now) [ inl k ↦ inl (inl k) | inr was ↦ inr was ]
  ]
]

-- Only a kill stops an activation: if a started controller is STOPPED after some calls that all
-- return, then one of the calls is a kill, and the cgroup's last write is cgroup.kill.
stopped_needs-IsKill :
    (path : String) (launched : Bool) (xs : List Call) (d : Controller)
    → run xs (started path launched) ≡ some d
    → d.state ≡ stopped
    → Any IsKill xs × (latest d.cg.written ≡ some kill_all)
unfolding start new_activation_controller
stopped_needs-IsKill path launched xs d h s = (
  ground (arith, run-stopped xs (started path launched) d h s),
  (run-started-Inv path launched xs d h).stopped_written s,
)
