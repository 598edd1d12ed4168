-- ===== src/Monitor/Left.antt =====
-- openwhisk/energyMonitor.go: the state in which the monitor leaves the process of a step that it
-- does not report as killed.
use openwhisk_runtime_go.Base.{
  ℕ, ◌≡◌, ◌≢◌, ◌⊎◌, inl, inr, ap, ◌∙◌, sym, true, none, List, [], ◌∷◌, String, str_eq, arith,
  Option-cases, Bool-cases,
}
use openwhisk_runtime_go.Attribution.{Platform}
use openwhisk_runtime_go.Freezer.Cgroup.{Kernel}
use openwhisk_runtime_go.Freezer.Machine.{
  unknown, Controller, freeze_execution, resume_execution, kill_execution,
}
use openwhisk_runtime_go.Freezer.Machine
use openwhisk_runtime_go.Segments.Meter.{step_j}
use openwhisk_runtime_go.Sidecar.State.{EnergyState}
use openwhisk_runtime_go.Monitor.Classes.{is_non_interruptible_for_this_step}
use openwhisk_runtime_go.Monitor.Result.{PauseCycle}
use openwhisk_runtime_go.Monitor.Cycle.{
  Command, resume_execution_command, wait_execution_command, kill_execution_command,
  unknown_command, SchedulerCommand, command_of, CycleInputs, Round, World, CycleEnd, resumed_with,
  ended, on_resume, dispatch, round, rounds, run_pause_cycle, traced, refine_cycle_while_frozen,
}
use openwhisk_runtime_go.Monitor.Authorized.{
  Next-cases, kill_or_retry-not_resumed, on_kill-not_resumed, on_wait-not_resumed,
}

resume_execution-running :
    (k : Kernel) (q : String) (c : Controller)
    → (resume_execution k q c).1 ≡ none
    → (resume_execution k q c).0.state ≡ Machine.running
unfolding resume_execution
resume_execution-running k q c h = ground arith

-- RUNNING, or UNKNOWN for a reason.
abbrev pub IsLeft : Type 0 → Controller → Type 0
IsLeft Why c = (c.state ≡ Machine.running) ⊎ ((c.state ≡ unknown) × Why)

failed_freeze-unknown :
    (Why : Type 0) (k : Kernel) (q : String) (c : Controller)
    → IsLeft Why c
    → (freeze_execution k q c).1 ≢ none
    → (freeze_execution k q c).0.state ≡ unknown
unfolding freeze_execution
failed_freeze-unknown Why k q c (inl s) h = ground (arith, s, h)
failed_freeze-unknown Why k q c (inr (s, _)) h = ground (arith, s, h)

module _ (p : Platform) where
  module _ (energy : EnergyState p.float) (pause_id : String) where
    on_resume-running :
        (s t : p.float.Carrier) (r : Round p) (w w' : World p) (c : PauseCycle p)
        → on_resume p energy pause_id s r w c ≡ ended w' (resumed_with t)
        → w'.controller.state ≡ Machine.running
    unfolding on_resume
    on_resume-running s t r w w' c h =
        let v = (refine_cycle_while_frozen p energy pause_id r.resume_cpu w c).0 in
        let c' = (refine_cycle_while_frozen p energy pause_id r.resume_cpu w c).1 in
        elim (Option-cases (resume_execution r.resume_kernel pause_id v.controller).1) [
          | inl e ↦
              ground (arith, e, h, resume_execution-running r.resume_kernel pause_id v.controller e)
          | inr (x, e) ↦
              absurd
                (kill_or_retry-not_resumed p energy pause_id _ r _ w' c' t (rw (e, on_resume) at h))
        ]

    dispatch-running :
        (m : Command) (cmd : SchedulerCommand p) (r : Round p) (w w' : World p) (c : PauseCycle p)
        (t : p.float.Carrier)
        → dispatch p energy pause_id m cmd r w c ≡ ended w' (resumed_with t)
        → w'.controller.state ≡ Machine.running
    unfolding dispatch
    dispatch-running resume_execution_command cmd r w w' c t h =
        on_resume-running cmd.new_execution_threshold_j t r w w' c h
    dispatch-running wait_execution_command cmd r w w' c t h =
        absurd (on_wait-not_resumed p energy pause_id r w w' c t h)
    dispatch-running kill_execution_command cmd r w w' c t h =
        absurd (on_kill-not_resumed p energy pause_id cmd.reason r w w' c t h)
    dispatch-running unknown_command cmd r w w' c t h =
        absurd (kill_or_retry-not_resumed p energy pause_id _ r w w' c t h)

    round-running :
        (r : Round p) (w w' : World p) (c : PauseCycle p) (t : p.float.Carrier)
        → round p energy pause_id r w c ≡ ended w' (resumed_with t)
        → w'.controller.state ≡ Machine.running
    unfolding round
    round-running r w w' c t h = elim (Option-cases r.answer) [
      | inl e ↦
          absurd (kill_or_retry-not_resumed p energy pause_id _ r w w' _ t (rw (e, round) at h))
      | inr (cmd, e) ↦ elim (Bool-cases (str_eq cmd.pause_id pause_id)) [
        | inl same ↦
            dispatch-running (command_of cmd.command) cmd r w w' (traced p r c) t
              (rw (same, round) at (rw (e, round) at h))
        | inr other ↦ absurd (
            kill_or_retry-not_resumed p energy pause_id _ r w w' _ t
              (rw (other, round) at (rw (e, round) at h)))
      ]
    ]

    rounds-running :
        (rs : List (Round p)) (w w' : World p) (c : PauseCycle p) (t : p.float.Carrier)
        → rounds p energy pause_id rs w c ≡ (w', resumed_with t)
        → w'.controller.state ≡ Machine.running
    unfolding rounds
    rounds-running [] w w' c t h = cc (ap (λ (z : World p × CycleEnd p). z.1) h)
    rounds-running (r ∷ rs) w w' c t h = elim (Next-cases p (round p energy pause_id r w c)) [
      | inl (v, d, e) ↦ rounds-running rs v w' d t (rw (e, rounds) at h)
      | inr (v, k, e) ↦
          let g : (v, k) ≡ (w', resumed_with t) = rw (e, rounds) at h in
          let at_end = e ∙ ap (ended v) (ap (λ (z : World p × CycleEnd p). z.1) g) in
          sym (ap (λ (z : World p × CycleEnd p). z.0.controller.state) g)
          ∙ round-running r w v c t at_end
    ]

  module _ (Why : Type 0) where
    -- The step is not interruptible, which is then a reason.
    abbrev pub Explains : EnergyState p.float → Type 0
    Explains energy = is_non_interruptible_for_this_step energy ≡ true → Why

    pub run_pause_cycle-IsLeft :
        (energy : EnergyState p.float) (i : CycleInputs p) (rs : List (Round p))
        (step_j : p.float.Carrier) (detected_at : ℕ) (at_threshold_j : p.float.Carrier)
        (w w' : World p) (t : p.float.Carrier)
        → Explains energy
        → IsLeft Why w.controller
        → run_pause_cycle p energy i rs step_j detected_at at_threshold_j w ≡ (w', resumed_with t)
        → IsLeft Why w'.controller
    unfolding run_pause_cycle
    run_pause_cycle-IsLeft energy i rs step_j detected_at at_threshold_j w w' t why l h =
        elim (Option-cases (freeze_execution i.freeze_kernel i.pause_id w.controller).1) [
          | inl e ↦
              inl (rounds-running energy i.pause_id rs _ w' _ t (rw (e, run_pause_cycle) at h))
          | inr (x, e) ↦
              let s =
                failed_freeze-unknown Why i.freeze_kernel i.pause_id w.controller l
                  (ground (arith, e)) in
              inr (ground (arith, e, h, s), why (ground (arith, e, h)))
        ]
