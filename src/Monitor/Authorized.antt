-- ===== src/Monitor/Authorized.antt =====
-- openwhisk/energyMonitor.go: when runPauseCycle ends by a resume.
use openwhisk_runtime_go.Base.{
  ℕ, ◌≡◌, ◌≢◌, ◌⊎◌, inl, inr, refl, ap, ◌∙◌, true, none, some, List, [], ◌∷◌, String, str_eq, arith,
  eq_iff, Any, Option-cases, Bool-cases,
}
use openwhisk_runtime_go.Attribution.{Platform}
use openwhisk_runtime_go.Freezer.Machine.{freeze_execution}
use openwhisk_runtime_go.Sidecar.State.{EnergyState}
use openwhisk_runtime_go.Monitor.Classes.{is_non_interruptible_for_this_step}
use openwhisk_runtime_go.Monitor.Result.{Event, Cause, PauseCycle}
use openwhisk_runtime_go.Monitor.Cycle.{
  Command, command_of, resume_execution_command, wait_execution_command, kill_execution_command,
  unknown_command, KillInputs, SchedulerCommand, CycleInputs, Round, World, CycleEnd, resumed_with,
  Next, again, ended, kill_and_return, kill_or_retry, on_resume, on_wait, on_kill, dispatch, round,
  rounds, run_pause_cycle, traced,
}

module _ (p : Platform) where
  pub Next-cases :
      (n : Next p)
      → ((w : World p) × (c : PauseCycle p) × (n ≡ again w c))
        ⊎ ((w : World p) × (e : CycleEnd p) × (n ≡ ended w e))
  Next-cases (again w c) = inl (w, c, refl)
  Next-cases (ended w e) = inr (w, e, refl)

  kill_and_return-not_resumed :
      (k : KillInputs) (q : String) (cause : Cause) (w w' : World p) (c : PauseCycle p)
      (t : p.float.Carrier)
      → kill_and_return p k q cause w c ≢ ended w' (resumed_with t)
  unfolding kill_and_return
  kill_and_return-not_resumed k q cause w w' c t = ground arith

  module _ (energy : EnergyState p.float) (pause_id : String) where
    -- The round's answer is RESUME_EXECUTION for this pause, with this threshold.
    abbrev pub Authorizes : p.float.Carrier → Round p → Type 0
    Authorizes t r =
        (cmd : SchedulerCommand p) × (r.answer ≡ some cmd)
        × (cmd.pause_id ≡ pause_id)
        × (command_of cmd.command ≡ resume_execution_command)
        × (cmd.new_execution_threshold_j ≡ t)

    pub kill_or_retry-not_resumed :
        (e : Event) (r : Round p) (w w' : World p) (c : PauseCycle p) (t : p.float.Carrier)
        → kill_or_retry p energy pause_id e r w c ≢ ended w' (resumed_with t)
    unfolding kill_or_retry
    kill_or_retry-not_resumed e r w w' c t = ground arith

    pub on_kill-not_resumed :
        (reason : String) (r : Round p) (w w' : World p) (c : PauseCycle p) (t : p.float.Carrier)
        → on_kill p energy pause_id reason r w c ≢ ended w' (resumed_with t)
    unfolding on_kill
    on_kill-not_resumed reason r w w' c t = ground arith

    pub on_wait-not_resumed :
        (r : Round p) (w w' : World p) (c : PauseCycle p) (t : p.float.Carrier)
        → on_wait p energy pause_id r w c ≢ ended w' (resumed_with t)
    unfolding on_wait
    on_wait-not_resumed r w w' c t = ground arith

    on_resume-threshold :
        (s t : p.float.Carrier) (r : Round p) (w w' : World p) (c : PauseCycle p)
        → on_resume p energy pause_id s r w c ≡ ended w' (resumed_with t)
        → s ≡ t
    unfolding on_resume
    on_resume-threshold s t r w w' c h = ground arith

    dispatch-resumed :
        (m : Command) (cmd : SchedulerCommand p) (r : Round p) (w w' : World p) (c : PauseCycle p)
        (t : p.float.Carrier)
        → dispatch p energy pause_id m cmd r w c ≡ ended w' (resumed_with t)
        → (m ≡ resume_execution_command) × (cmd.new_execution_threshold_j ≡ t)
    unfolding dispatch
    dispatch-resumed resume_execution_command cmd r w w' c t h =
        (refl, on_resume-threshold cmd.new_execution_threshold_j t r w w' c h)
    dispatch-resumed wait_execution_command cmd r w w' c t h =
        absurd (on_wait-not_resumed r w w' c t h)
    dispatch-resumed kill_execution_command cmd r w w' c t h =
        absurd (on_kill-not_resumed cmd.reason r w w' c t h)
    dispatch-resumed unknown_command cmd r w w' c t h =
        absurd (kill_or_retry-not_resumed _ r w w' c t h)

    round-resumed :
        (r : Round p) (w w' : World p) (c : PauseCycle p) (t : p.float.Carrier)
        → round p energy pause_id r w c ≡ ended w' (resumed_with t)
        → Authorizes t r
    unfolding round
    round-resumed r w w' c t h = elim (Option-cases r.answer) [
      | inl e ↦ absurd (kill_or_retry-not_resumed _ r w w' _ t (rw (e, round) at h))
      | inr (cmd, e) ↦ elim (Bool-cases (str_eq cmd.pause_id pause_id)) [
        | inl same ↦
            let d =
              dispatch-resumed (command_of cmd.command) cmd r w w' (traced p r c) t
                (rw (same, round) at (rw (e, round) at h)) in
            (cmd, e, (eq_iff cmd.pause_id pause_id).0 same, d.0, d.1)
        | inr other ↦
            absurd
              (kill_or_retry-not_resumed _ r w w' _ t (rw (other, round) at (rw (e, round) at h)))
      ]
    ]

    rounds-resumed :
        (rs : List (Round p)) (w w' : World p) (c : PauseCycle p) (t : p.float.Carrier)
        → rounds p energy pause_id rs w c ≡ (w', resumed_with t)
        → Any (Authorizes t) rs
    unfolding rounds
    rounds-resumed [] w w' c t h = cc (ap (λ (z : World p × CycleEnd p). z.1) h)
    rounds-resumed (r ∷ rs) w w' c t h = elim (Next-cases (round p energy pause_id r w c)) [
      | inl (v, d, e) ↦ inr (rounds-resumed rs v w' d t (rw (e, rounds) at h))
      | inr (v, k, e) ↦
          let g : (v, k) ≡ (w', resumed_with t) = rw (e, rounds) at h in
          inl
            (round-resumed r w v c t (e ∙ ap (ended v) (ap (λ (z : World p × CycleEnd p). z.1) g)))
    ]

  -- A pause cycle that ends by a resume with the threshold `t` either was answered, in one of its
  -- rounds, by RESUME_EXECUTION for this very pause with `t` as the new threshold; or its freeze
  -- failed on a step that is not interruptible, and `t` is the threshold the step already had.
  pub run_pause_cycle-resumed :
      (energy : EnergyState p.float) (i : CycleInputs p) (rs : List (Round p))
      (step_j : p.float.Carrier) (detected_at : ℕ) (at_threshold_j : p.float.Carrier)
      (w w' : World p) (t : p.float.Carrier)
      → run_pause_cycle p energy i rs step_j detected_at at_threshold_j w ≡ (w', resumed_with t)
      → Any (Authorizes energy i.pause_id t) rs
        ⊎ (((freeze_execution i.freeze_kernel i.pause_id w.controller).1 ≢ none)
            × (is_non_interruptible_for_this_step energy ≡ true)
            × (energy.execution_threshold_j ≡ t))
  unfolding run_pause_cycle
  run_pause_cycle-resumed energy i rs step_j detected_at at_threshold_j w w' t h =
      elim (Option-cases (freeze_execution i.freeze_kernel i.pause_id w.controller).1) [
        | inl e ↦ inl (rounds-resumed energy i.pause_id rs _ w' _ t (rw (e, run_pause_cycle) at h))
        | inr (x, e) ↦ inr (ground (arith, e, h))
      ]
