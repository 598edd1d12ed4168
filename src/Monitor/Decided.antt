-- ===== src/Monitor/Decided.antt =====
-- openwhisk/energyMonitor.go: runPauseCycle on a step that may be killed.
use openwhisk_runtime_go.Base.{
  ℕ, ◌≡◌, ◌≢◌, inl, inr, subst, false, none, List, ◌∷◌, String, str_eq, arith, Option-cases,
  Bool-cases,
}
use openwhisk_runtime_go.Attribution.{Platform}
use openwhisk_runtime_go.Freezer.Cgroup.{Kernel}
use openwhisk_runtime_go.Freezer.Machine.{running, unknown, Controller, freeze_execution}
use openwhisk_runtime_go.Sidecar.State.{EnergyState}
use openwhisk_runtime_go.Monitor.Classes.{is_non_interruptible_for_this_step}
use openwhisk_runtime_go.Monitor.Result.{Event, Cause, PauseCycle}
use openwhisk_runtime_go.Monitor.Cycle.{
  Command, resume_execution_command, wait_execution_command, kill_execution_command,
  unknown_command, KillInputs, SchedulerCommand, CycleInputs, Round, World, CycleEnd, resumed_with,
  was_killed, waiting, hung, Next, again, ended, kill_and_return, kill_or_retry, on_resume, on_wait,
  on_kill, dispatch, round, rounds, run_pause_cycle, traced,
}
use openwhisk_runtime_go.Monitor.Authorized.{Next-cases}
use openwhisk_runtime_go.Monitor.Spared.{kills, freeze_execution-kills}
use openwhisk_runtime_go.Freezer.Stuck.{kill_execution-after_freeze_failure}

failed_freeze-unknown :
    (k : Kernel) (q : String) (c : Controller)
    → c.state ≡ running
    → (freeze_execution k q c).1 ≢ none
    → (freeze_execution k q c).0.state ≡ unknown
unfolding freeze_execution
failed_freeze-unknown k q c s h = ground arith

module _ (p : Platform) where
  -- The round ends the cycle.
  abbrev IsEnd : CycleEnd p → Type 0
  IsEnd waiting = ⊥
  IsEnd (resumed_with t) = Unit
  IsEnd was_killed = Unit
  IsEnd hung = Unit

  abbrev Decides : Next p → Type 0
  Decides (again w c) = ⊥
  Decides (ended w e) = IsEnd e

  kill_and_return-Decides :
      (k : KillInputs) (q : String) (cause : Cause) (w : World p) (c : PauseCycle p)
      → Decides (kill_and_return p k q cause w c)
  unfolding kill_and_return
  kill_and_return-Decides k q cause w c = ground arith

  module _ (energy : EnergyState p.float) (pause_id : String) where
    kill_or_retry-Decides :
        (e : Event) (r : Round p) (w : World p) (c : PauseCycle p)
        → is_non_interruptible_for_this_step energy ≡ false
        → Decides (kill_or_retry p energy pause_id e r w c)
    unfolding kill_or_retry
    kill_or_retry-Decides e r w c u = ground arith

    on_resume-Decides :
        (t : p.float.Carrier) (r : Round p) (w : World p) (c : PauseCycle p)
        → is_non_interruptible_for_this_step energy ≡ false
        → Decides (on_resume p energy pause_id t r w c)
    unfolding on_resume
    on_resume-Decides t r w c u = ground arith

    on_wait-Decides :
        (r : Round p) (w : World p) (c : PauseCycle p)
        → is_non_interruptible_for_this_step energy ≡ false
        → Decides (on_wait p energy pause_id r w c)
    unfolding on_wait
    on_wait-Decides r w c u = ground arith

    on_kill-Decides :
        (reason : String) (r : Round p) (w : World p) (c : PauseCycle p)
        → is_non_interruptible_for_this_step energy ≡ false
        → Decides (on_kill p energy pause_id reason r w c)
    unfolding on_kill
    on_kill-Decides reason r w c u = ground arith

    dispatch-Decides :
        (m : Command) (cmd : SchedulerCommand p) (r : Round p) (w : World p) (c : PauseCycle p)
        → is_non_interruptible_for_this_step energy ≡ false
        → Decides (dispatch p energy pause_id m cmd r w c)
    unfolding dispatch
    dispatch-Decides resume_execution_command cmd r w c u = on_resume-Decides _ r w c u
    dispatch-Decides wait_execution_command cmd r w c u = on_wait-Decides r w c u
    dispatch-Decides kill_execution_command cmd r w c u = on_kill-Decides cmd.reason r w c u
    dispatch-Decides unknown_command cmd r w c u = kill_or_retry-Decides _ r w c u

    round-Decides :
        (r : Round p) (w : World p) (c : PauseCycle p)
        → is_non_interruptible_for_this_step energy ≡ false
        → Decides (round p energy pause_id r w c)
    unfolding round
    round-Decides r w c u = elim (Option-cases r.answer) [
      | inl e ↦ rw (e, round) (kill_or_retry-Decides _ r w (traced p r c) u)
      | inr (cmd, e) ↦ elim (Bool-cases (str_eq cmd.pause_id pause_id)) [
        | inl same ↦ rw (e, round) (rw (same, round) (dispatch-Decides _ cmd r w (traced p r c) u))
        | inr other ↦
            rw (e, round) (rw (other, round) (kill_or_retry-Decides _ r w (traced p r c) u))
      ]
    ]

    rounds-decides :
        (r : Round p) (rs : List (Round p)) (w : World p) (c : PauseCycle p)
        → is_non_interruptible_for_this_step energy ≡ false
        → IsEnd (rounds p energy pause_id (r ∷ rs) w c).1
    unfolding rounds
    rounds-decides r rs w c u = elim (Next-cases p (round p energy pause_id r w c)) [
      | inl (v, d, e) ↦ absurd (rw e at (round-Decides r w c u))
      | inr (v, k, e) ↦ rw (e, rounds) (rw e at (round-Decides r w c u))
    ]

  -- On a step that may be killed the first answer decides: given at least one round, the cycle has
  -- ended, by a resume or a kill, or is in a killExecution that does not return. It does not wait
  -- for the scheduler again.
  pub run_pause_cycle-decides :
      (energy : EnergyState p.float) (i : CycleInputs p) (r : Round p) (rs : List (Round p))
      (step_j : p.float.Carrier) (detected_at : ℕ) (at_threshold_j : p.float.Carrier) (w : World p)
      → is_non_interruptible_for_this_step energy ≡ false
      → (run_pause_cycle p energy i (r ∷ rs) step_j detected_at at_threshold_j w).1 ≢ waiting
  unfolding run_pause_cycle
  run_pause_cycle-decides energy i r rs step_j detected_at at_threshold_j w u h =
      elim (Option-cases (freeze_execution i.freeze_kernel i.pause_id w.controller).1) [
        | inl e ↦
            subst IsEnd (rw (e, run_pause_cycle) at h) (rounds-decides energy i.pause_id r rs _ _ u)
        | inr (x, e) ↦ ground (arith, e, h)
      ]

  -- A running step whose freeze fails, and that may be killed, is reported as killed and is not: its
  -- cycle ends by a kill, but cgroup.kill is not written, and the controller is UNKNOWN.
  pub run_pause_cycle-freeze_failure :
      (energy : EnergyState p.float) (i : CycleInputs p) (rs : List (Round p))
      (step_j : p.float.Carrier) (detected_at : ℕ) (at_threshold_j : p.float.Carrier) (w : World p)
      → is_non_interruptible_for_this_step energy ≡ false
      → w.controller.state ≡ running
      → (freeze_execution i.freeze_kernel i.pause_id w.controller).1 ≢ none
      → let (w', end) = run_pause_cycle p energy i rs step_j detected_at at_threshold_j w in
        (end ≡ was_killed)
        × (w'.controller.state ≡ unknown)
        × (kills w'.controller.cg.written ≡ kills w.controller.cg.written)
  unfolding run_pause_cycle
  run_pause_cycle-freeze_failure energy i rs step_j detected_at at_threshold_j w u s h = ground (
    arith,
    u,
    failed_freeze-unknown i.freeze_kernel i.pause_id w.controller s h,
    freeze_execution-kills i.freeze_kernel i.pause_id w.controller,
    kill_execution-after_freeze_failure i.freeze_kernel i.freeze_kill.kernel i.freeze_kill.reaping
        i.pause_id i.pause_id w.controller s h,
  )
