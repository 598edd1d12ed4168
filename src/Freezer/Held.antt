-- ===== src/Freezer/Held.antt =====
-- openwhisk/cgroupFreezer.go: a controller that is FROZEN under a pause, and the calls of several
-- activations on it.
use openwhisk_runtime_go.Base.{
  ◌≡◌, ◌⊎◌, inl, inr, Option, some, List, [], ◌∷◌, String, arith, eq_iff, Any, Option-cases, sym,
  subst,
}
use openwhisk_runtime_go.Freezer.Machine.{
  frozen, Controller, TransitionError, freeze_execution, resume_execution,
}
use openwhisk_runtime_go.Freezer.Traces.{Call, freezes, resumes, kills, step, run}

-- A call that can end the pause: a resume under its id, or a kill.
abbrev pub EndsPause : String → Call → Type 0
EndsPause pause_id (freezes k q) = ⊥
EndsPause pause_id (resumes k q) = q ≡ pause_id
EndsPause pause_id (kills k r q) = Unit

step-frozen :
    (x : Call) (c d : Controller) (e : Option TransitionError)
    → c.state ≡ frozen
    → step x c ≡ some (d, e)
    → EndsPause c.last_pause_id x ⊎ (c ≡ d)
unfolding step freeze_execution resume_execution
step-frozen (freezes k q) c d e s h = inr (ground (arith, s, h))
step-frozen (resumes k q) c d e s h = ground (arith, s, h, eq_iff q c.last_pause_id)
step-frozen (kills k r q) c d e s h = inl tt

-- While a controller is FROZEN under a pause, whichever calls are made on it by this or by other
-- activations, and whatever the kernel answers: if they return and leave another controller, or
-- another write to the cgroup, then one of them is a resume under this pause's id or a kill.
pub run-EndsPause :
    (xs : List Call) (c d : Controller)
    → c.state ≡ frozen
    → run xs c ≡ some d
    → Any (EndsPause c.last_pause_id) xs ⊎ (c ≡ d)
unfolding run
run-EndsPause [] c d s h = inr (ground (arith, h))
run-EndsPause (x ∷ xs) c d s h = elim (Option-cases (step x c)) [
  | inl e ↦ cc (rw (e, run) at h)
  | inr ((c', r), e) ↦ elim (step-frozen x c c' r s e) [
    | inl ends ↦ inl (inl ends)
    | inr same ↦
        let later : run xs c ≡ some d =
          subst (λ z. run xs z ≡ some d) (sym same) (ground (arith, e, h)) in
        elim (run-EndsPause xs c d s later) [ inl ends ↦ inl (inr ends) | inr kept ↦ inr kept ]
  ]
]
