-- ===== src/Monitor/Tracked.antt =====
-- openwhisk/energyMonitor.go: the moves that the rounds of runPauseCycle make on the meter and
-- the marks of openwhisk/energySegments.go.
use openwhisk_runtime_go.Base.{
  ℕ, ◌≡◌, inl, inr, false, List, [], ◌∷◌, String, arith, Option-cases, Bool-cases, str_eq,
}
use openwhisk_runtime_go.Attribution.{Platform, CpuSnapshot}
use openwhisk_runtime_go.Freezer.Machine.{resume_execution, kill_execution}
use openwhisk_runtime_go.Segments.Meter.{open_at}
use openwhisk_runtime_go.Segments.Tracking.{
  Tracking, SegmentSnapshot, refine_frozen_segment, open_segment_at_resume,
}
use openwhisk_runtime_go.Segments.Replay.{Reach, here, next, refines, resumes}
use openwhisk_runtime_go.Sidecar.State.{EnergyState}
use openwhisk_runtime_go.Monitor.Classes.{is_non_interruptible_for_this_step}
use openwhisk_runtime_go.Monitor.Result.{Cause, PauseCycle, Event as Incident, resume_failed}
use openwhisk_runtime_go.Monitor.Cycle.{
  Command, SchedulerCommand, resume_execution_command, wait_execution_command,
  kill_execution_command, unknown_command, KillInputs, Round, World, CycleEnd, resumed_with, Next,
  again, ended, kill_and_return, kill_or_retry, refine_cycle_while_frozen, on_resume, on_wait,
  on_kill, dispatch, round, rounds, traced,
}
use openwhisk_runtime_go.Monitor.Authorized.{Next-cases}

module _ (p : Platform) where
  pub Reach-trans : {t u v : Tracking} → Reach p t u → Reach p u v → Reach p t v
  Reach-trans r here = r
  Reach-trans r (next q st) = next (Reach-trans r q) st

  -- A segment is open, as before a cycle and after a resume.
  abbrev pub IsOpen : Tracking → Type 0
  IsOpen t = t.meter.frozen ≡ false

  abbrev pub OpensAt : Tracking → CycleEnd p → Type 0
  OpensAt t (resumed_with s) = IsOpen t
  OpensAt t _ = Unit

  abbrev Tracks : World p → Next p → Type 0
  Tracks w (again w' c) = Reach p w.tracking w'.tracking
  Tracks w (ended w' e) = Reach p w.tracking w'.tracking × OpensAt w'.tracking e

  opens : (s : SegmentSnapshot) (now : ℕ) (t : Tracking) → IsOpen (open_segment_at_resume s now t).0
  unfolding open_segment_at_resume open_at
  opens s now t = ground arith

  kill_and_return-Tracks :
      (k : KillInputs) (q : String) (cause : Cause) (w₀ w : World p) (c : PauseCycle p)
      → Reach p w₀.tracking w.tracking
      → Tracks w₀ (kill_and_return p k q cause w c)
  unfolding kill_and_return
  kill_and_return-Tracks k q cause w₀ w c h =
      elim (Option-cases (kill_execution k.kernel k.reaping q w.controller)) [
        | inl e ↦ rw (e, kill_and_return) (h, tt)
        | inr ((controller', x), e) ↦ rw (e, kill_and_return) (h, tt)
      ]

  module _ (energy : EnergyState p.float) (pause_id : String) where
    refine-tracks :
        (cpu : CpuSnapshot) (w : World p) (c : PauseCycle p)
        → Reach p w.tracking (refine_cycle_while_frozen p energy pause_id cpu w c).0.tracking
    unfolding refine_cycle_while_frozen
    refine-tracks cpu w c = elim (Option-cases (refine_frozen_segment p cpu w.tracking).1) [
      | inl e ↦ rw (e, refine_cycle_while_frozen) here
      | inr (late, e) ↦ rw (e, refine_cycle_while_frozen) (next here (refines w.tracking cpu))
    ]

    kill_or_retry-Tracks :
        (e : Incident) (r : Round p) (w₀ w : World p) (c : PauseCycle p)
        → Reach p w₀.tracking w.tracking
        → Tracks w₀ (kill_or_retry p energy pause_id e r w c)
    unfolding kill_or_retry
    kill_or_retry-Tracks e r w₀ w c h =
        elim (Bool-cases (is_non_interruptible_for_this_step energy)) [
          | inl u ↦ rw (u, kill_or_retry) h
          | inr u ↦
              rw (u, kill_or_retry)
                (kill_and_return-Tracks r.kill pause_id _ w₀ _ _
                  (Reach-trans h (refine-tracks r.kill_cpu w c)))
        ]

    on_wait-Tracks :
        (r : Round p) (w : World p) (c : PauseCycle p) → Tracks w (on_wait p energy pause_id r w c)
    unfolding on_wait
    on_wait-Tracks r w c = elim (Bool-cases (is_non_interruptible_for_this_step energy)) [
      | inl u ↦ rw (u, on_wait) here
      | inr u ↦
          rw (u, on_wait)
            (kill_and_return-Tracks r.kill pause_id _ w _ _ (refine-tracks r.kill_cpu w c))
    ]

    on_kill-Tracks :
        (reason : String) (r : Round p) (w : World p) (c : PauseCycle p)
        → Tracks w (on_kill p energy pause_id reason r w c)
    unfolding on_kill
    on_kill-Tracks reason r w c = elim (Bool-cases (is_non_interruptible_for_this_step energy)) [
      | inl u ↦ rw (u, on_kill) here
      | inr u ↦
          rw (u, on_kill)
            (kill_and_return-Tracks r.kill pause_id _ w _ _ (refine-tracks r.kill_cpu w c))
    ]

    on_resume-Tracks :
        (t : p.float.Carrier) (r : Round p) (w : World p) (c : PauseCycle p)
        → Tracks w (on_resume p energy pause_id t r w c)
    unfolding on_resume
    on_resume-Tracks t r w c =
        let w' = (refine_cycle_while_frozen p energy pause_id r.resume_cpu w c).0 in
        elim (Option-cases (resume_execution r.resume_kernel pause_id w'.controller).1) [
          | inl e ↦
              rw (e, on_resume)
                (
                  next (refine-tracks r.resume_cpu w c)
                      (resumes w'.tracking r.resume_snapshot r.resume_now),
                  opens r.resume_snapshot r.resume_now w'.tracking,
                )
          | inr (x, e) ↦
              rw (e, on_resume)
                (kill_or_retry-Tracks resume_failed r w _ _ (refine-tracks r.resume_cpu w c))
        ]

    dispatch-Tracks :
        (m : Command) (cmd : SchedulerCommand p) (r : Round p) (w : World p) (c : PauseCycle p)
        → Tracks w (dispatch p energy pause_id m cmd r w c)
    unfolding dispatch
    dispatch-Tracks resume_execution_command cmd r w c = on_resume-Tracks _ r w c
    dispatch-Tracks wait_execution_command cmd r w c = on_wait-Tracks r w c
    dispatch-Tracks kill_execution_command cmd r w c = on_kill-Tracks cmd.reason r w c
    dispatch-Tracks unknown_command cmd r w c = kill_or_retry-Tracks _ r w w c here

    round-Tracks :
        (r : Round p) (w : World p) (c : PauseCycle p) → Tracks w (round p energy pause_id r w c)
    unfolding round
    round-Tracks r w c = elim (Option-cases r.answer) [
      | inl e ↦ rw (e, round) (kill_or_retry-Tracks _ r w w (traced p r c) here)
      | inr (cmd, e) ↦ elim (Bool-cases (str_eq cmd.pause_id pause_id)) [
        | inl same ↦ rw (e, round) (rw (same, round) (dispatch-Tracks _ cmd r w (traced p r c)))
        | inr other ↦
            rw (e, round) (rw (other, round) (kill_or_retry-Tracks _ r w w (traced p r c) here))
      ]
    ]

    pub rounds-tracks :
        (rs : List (Round p)) (w : World p) (c : PauseCycle p)
        → Reach p w.tracking (rounds p energy pause_id rs w c).0.tracking
          × OpensAt (rounds p energy pause_id rs w c).0.tracking (rounds p energy pause_id rs w c).1
    unfolding rounds
    rounds-tracks [] w c = (here, tt)
    rounds-tracks (r ∷ rs) w c = elim (Next-cases p (round p energy pause_id r w c)) [
      | inl (v, d, e) ↦
          let first = rw e at (round-Tracks r w c) in
          let later = rounds-tracks rs v d in rw (e, rounds) (Reach-trans first later.0, later.1)
      | inr (v, k, e) ↦ rw (e, rounds) (rw e at (round-Tracks r w c))
    ]
