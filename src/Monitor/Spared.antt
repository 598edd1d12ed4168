-- ===== src/Monitor/Spared.antt =====
-- openwhisk/energyMonitor.go: runPauseCycle on a step that is not interruptible.
use openwhisk_runtime_go.Base.{
  ℕ, suc, ◌≡◌, inl, inr, refl, ◌∙◌, true, List, [], ◌∷◌, String, str_eq, arith, Option-cases,
  Bool-cases,
}
use openwhisk_runtime_go.Attribution.{Platform, CpuSnapshot}
use openwhisk_runtime_go.Freezer.Cgroup.{Write, freeze_on, freeze_off, kill_all, Kernel}
use openwhisk_runtime_go.Freezer.Cgroup
use openwhisk_runtime_go.Freezer.Machine.{Controller, resume_execution, freeze_execution}
use openwhisk_runtime_go.Sidecar.State.{EnergyState}
use openwhisk_runtime_go.Monitor.Classes.{is_non_interruptible_for_this_step}
use openwhisk_runtime_go.Monitor.Result.{Event, PauseCycle, add_cycle}
use openwhisk_runtime_go.Monitor.Cycle.{
  Command, resume_execution_command, wait_execution_command, kill_execution_command,
  unknown_command, SchedulerCommand, CycleInputs, Round, World, CycleEnd, resumed_with, was_killed,
  waiting, hung, Next, again, ended, refine_cycle_while_frozen, kill_or_retry, on_resume, on_wait,
  on_kill, dispatch, round, rounds, run_pause_cycle, traced,
}
use openwhisk_runtime_go.Monitor.Authorized.{Next-cases}

-- How often cgroup.kill was written.
abbrev pub kills : List Write → ℕ
kills [] = 0
kills (kill_all ∷ ws) = suc (kills ws)
kills (freeze_on ∷ ws) = kills ws
kills (freeze_off ∷ ws) = kills ws

resume_execution-kills :
    (k : Kernel) (q : String) (c : Controller)
    → kills (resume_execution k q c).0.cg.written ≡ kills c.cg.written
unfolding resume_execution Cgroup.unfreeze
resume_execution-kills k q c = ground arith

pub freeze_execution-kills :
    (k : Kernel) (q : String) (c : Controller)
    → kills (freeze_execution k q c).0.cg.written ≡ kills c.cg.written
unfolding freeze_execution Cgroup.freeze
freeze_execution-kills k q c = ground arith

module _ (p : Platform) where
  -- No kill is made: cgroup.kill is not written, no kill is noted, and the end is no kill.
  abbrev IsSpared : World p → World p → Type 0
  IsSpared w w' =
      (kills w'.controller.cg.written ≡ kills w.controller.cg.written)
      × (w'.result.lifecycle.kill_cause ≡ w.result.lifecycle.kill_cause)

  abbrev pub IsNoKill : CycleEnd p → Type 0
  IsNoKill (resumed_with t) = Unit
  IsNoKill waiting = Unit
  IsNoKill was_killed = ⊥
  IsNoKill hung = ⊥

  abbrev Spares : World p → Next p → Type 0
  Spares w (again w' c) = IsSpared w w'
  Spares w (ended w' e) = IsSpared w w' × IsNoKill e

  module _ (energy : EnergyState p.float) (pause_id : String) where
    refine-keeps :
        (cpu : CpuSnapshot) (w : World p) (c : PauseCycle p)
        → ((refine_cycle_while_frozen p energy pause_id cpu w c).0.controller ≡ w.controller)
          × ((refine_cycle_while_frozen p energy pause_id cpu w c).0.result ≡ w.result)
    unfolding refine_cycle_while_frozen
    refine-keeps cpu w c = ground arith

    kill_or_retry-Spares :
        (e : Event) (r : Round p) (w : World p) (c : PauseCycle p)
        → is_non_interruptible_for_this_step energy ≡ true
        → Spares w (kill_or_retry p energy pause_id e r w c)
    unfolding kill_or_retry
    kill_or_retry-Spares e r w c u = ground arith

    on_resume-Spares :
        (t : p.float.Carrier) (r : Round p) (w : World p) (c : PauseCycle p)
        → is_non_interruptible_for_this_step energy ≡ true
        → Spares w (on_resume p energy pause_id t r w c)
    unfolding on_resume add_cycle
    on_resume-Spares t r w c u = ground (
      arith,
      refine-keeps r.resume_cpu w c,
      resume_execution-kills r.resume_kernel pause_id
          (refine_cycle_while_frozen p energy pause_id r.resume_cpu w c).0.controller,
    )

    on_kill-Spares :
        (reason : String) (r : Round p) (w : World p) (c : PauseCycle p)
        → is_non_interruptible_for_this_step energy ≡ true
        → Spares w (on_kill p energy pause_id reason r w c)
    unfolding on_kill
    on_kill-Spares reason r w c u = ground arith

    on_wait-Spares :
        (r : Round p) (w : World p) (c : PauseCycle p)
        → is_non_interruptible_for_this_step energy ≡ true
        → Spares w (on_wait p energy pause_id r w c)
    unfolding on_wait
    on_wait-Spares r w c u = ground arith

    dispatch-Spares :
        (m : Command) (cmd : SchedulerCommand p) (r : Round p) (w : World p) (c : PauseCycle p)
        → is_non_interruptible_for_this_step energy ≡ true
        → Spares w (dispatch p energy pause_id m cmd r w c)
    unfolding dispatch
    dispatch-Spares resume_execution_command cmd r w c u = on_resume-Spares _ r w c u
    dispatch-Spares wait_execution_command cmd r w c u = on_wait-Spares r w c u
    dispatch-Spares kill_execution_command cmd r w c u = on_kill-Spares cmd.reason r w c u
    dispatch-Spares unknown_command cmd r w c u = kill_or_retry-Spares _ r w c u

    round-Spares :
        (r : Round p) (w : World p) (c : PauseCycle p)
        → is_non_interruptible_for_this_step energy ≡ true
        → Spares w (round p energy pause_id r w c)
    unfolding round
    round-Spares r w c u = elim (Option-cases r.answer) [
      | inl e ↦ rw (e, round) (kill_or_retry-Spares _ r w (traced p r c) u)
      | inr (cmd, e) ↦ elim (Bool-cases (str_eq cmd.pause_id pause_id)) [
        | inl same ↦ rw (e, round) (rw (same, round) (dispatch-Spares _ cmd r w (traced p r c) u))
        | inr other ↦
            rw (e, round) (rw (other, round) (kill_or_retry-Spares _ r w (traced p r c) u))
      ]
    ]

    rounds-spares :
        (rs : List (Round p)) (w : World p) (c : PauseCycle p)
        → is_non_interruptible_for_this_step energy ≡ true
        → IsSpared w (rounds p energy pause_id rs w c).0
          × IsNoKill (rounds p energy pause_id rs w c).1
    unfolding rounds
    rounds-spares [] w c u = ((refl, refl), tt)
    rounds-spares (r ∷ rs) w c u = elim (Next-cases p (round p energy pause_id r w c)) [
      | inl (v, d, e) ↦
          let here = rw e at (round-Spares r w c u) in
          let later = rounds-spares rs v d u in
          rw (e, rounds) ((later.0.0 ∙ here.0, later.0.1 ∙ here.1), later.1)
      | inr (v, k, e) ↦ rw (e, rounds) (rw e at (round-Spares r w c u))
    ]

  -- For a step that is not interruptible, whatever the kernel and the scheduler answer, and however
  -- often: a pause cycle does not write cgroup.kill, notes no kill, and does not end by a kill.
  pub run_pause_cycle-spares :
      (energy : EnergyState p.float) (i : CycleInputs p) (rs : List (Round p))
      (step_j : p.float.Carrier) (detected_at : ℕ) (at_threshold_j : p.float.Carrier) (w : World p)
      → is_non_interruptible_for_this_step energy ≡ true
      → IsSpared w (run_pause_cycle p energy i rs step_j detected_at at_threshold_j w).0
        × IsNoKill (run_pause_cycle p energy i rs step_j detected_at at_threshold_j w).1
  unfolding run_pause_cycle add_cycle
  run_pause_cycle-spares energy i rs step_j detected_at at_threshold_j w u =
      let kept = freeze_execution-kills i.freeze_kernel i.pause_id w.controller in
      elim (Option-cases (freeze_execution i.freeze_kernel i.pause_id w.controller).1) [
        | inl e ↦
            rw (e, run_pause_cycle)
              (let r = rounds-spares energy i.pause_id rs _ _ u in ((r.0.0 ∙ kept, r.0.1), r.1))
        | inr (x, e) ↦ rw (e, run_pause_cycle) (ground (arith, kept))
      ]
