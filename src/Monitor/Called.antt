-- ===== src/Monitor/Called.antt =====
-- openwhisk/energyMonitor.go and openwhisk/cgroupFreezer.go: the monitor moves the controller by calls
-- of its operations only, of which the last one may be a kill that hangs.
use openwhisk_runtime_go.Base.{
  ◌≡◌, inl, inr, true, none, refl, ◌∙◌, ap, subst, some, Option, List, [], ◌∷◌, ◌++◌, String,
  str_eq, arith, Option-cases, Bool-cases,
}
use openwhisk_runtime_go.Attribution.{Platform, CpuSnapshot}
use openwhisk_runtime_go.Freezer.Cgroup.{Kernel, kill_all}
use openwhisk_runtime_go.Freezer.Cgroup
use openwhisk_runtime_go.Freezer.Invariant.{latest}
use openwhisk_runtime_go.Freezer.Machine.{
  Controller, Reaping, TransitionError, freeze_execution, resume_execution, kill_execution,
  kill_blocked, killing,
}
use openwhisk_runtime_go.Freezer.Traces.{Call, freezes, resumes, kills, step, run}
use openwhisk_runtime_go.Sidecar.State.{EnergyState}
use openwhisk_runtime_go.Monitor.Classes.{is_non_interruptible_for_this_step}
use openwhisk_runtime_go.Monitor.Result.{Event, Cause, PauseCycle}
use openwhisk_runtime_go.Monitor.Cycle.{
  Command, resume_execution_command, wait_execution_command, kill_execution_command,
  unknown_command, KillInputs, SchedulerCommand, Round, World, CycleEnd, resumed_with, was_killed,
  waiting, hung, Next, again, ended, refine_cycle_while_frozen, kill_and_return, kill_or_retry,
  on_resume, on_wait, on_kill, dispatch, round, rounds, traced,
}
use openwhisk_runtime_go.Monitor.Authorized.{Next-cases}

-- The second controller is the first one after some calls that return.
abbrev pub Called : Controller → Controller → Type 0
Called c d = (xs : List Call) × (run xs c ≡ some d)

pub Called-refl : (c : Controller) → Called c c
unfolding run
Called-refl c = ([], refl)

run-append :
    (xs ys : List Call) (c d : Controller) → run xs c ≡ some d → run (xs ++ ys) c ≡ run ys d
unfolding run
run-append [] ys c d h = let same : c ≡ d = ground (arith, h) in ap (run ys) same
run-append (x ∷ xs) ys c d h = elim (Option-cases (step x c)) [
  | inl e ↦ cc (rw (e, run) at h)
  | inr ((c', r), e) ↦ rw (e, run) (run-append xs ys c' d (ground (arith, e, h)))
]

pub Called-trans : (c d e : Controller) → Called c d → Called d e → Called c e
Called-trans c d e (xs, h) (ys, k) = (xs ++ ys, run-append xs ys c d h ∙ k)

pub freeze_execution-Called :
    (k : Kernel) (q : String) (c : Controller) → Called c (freeze_execution k q c).0
unfolding run step
freeze_execution-Called k q c = (freezes k q ∷ [], refl)

resume_execution-Called :
    (k : Kernel) (q : String) (c : Controller) → Called c (resume_execution k q c).0
unfolding run step
resume_execution-Called k q c = (resumes k q ∷ [], refl)

pub kill_execution-Called :
    (k : Kernel) (r : Reaping) (q : String) (c d : Controller) (e : Option TransitionError)
    → kill_execution k r q c ≡ some (d, e)
    → Called c d
unfolding run step
kill_execution-Called k r q c d e h = (kills k r q ∷ [], ground (arith, h))

-- A killExecution waits for the process, after its write to cgroup.kill.
abbrev pub IsHung : Controller → Type 0
IsHung c = (c.state ≡ killing) × (latest c.cg.written ≡ some kill_all) × (c.process ≡ true)

pub kill_blocked-IsHung :
    (k : Kernel) (r : Reaping) (q : String) (c : Controller)
    → kill_execution k r q c ≡ none
    → IsHung (kill_blocked k c)
unfolding kill_execution kill_blocked Cgroup.kill
kill_blocked-IsHung k r q c h = ground (arith, h)

module _ (p : Platform) where
  -- The calls return, but for a kill that hangs at the end.
  abbrev pub Reaches : Controller → World p × CycleEnd p → Type 0
  Reaches c (w, hung) = IsHung w.controller
  Reaches c (w, _) = Called c w.controller

  abbrev pub Calls : Controller → Next p → Type 0
  Calls c (again w' _) = Called c w'.controller
  Calls c (ended w' e) = Reaches c (w', e)

  pub Reaches-trans :
      (c d : Controller) (w : World p) (e : CycleEnd p)
      → Called c d
      → Reaches d (w, e)
      → Reaches c (w, e)
  Reaches-trans c d w hung h k = k
  Reaches-trans c d w (resumed_with t) h k = Called-trans c d w.controller h k
  Reaches-trans c d w was_killed h k = Called-trans c d w.controller h k
  Reaches-trans c d w waiting h k = Called-trans c d w.controller h k

  Calls-trans : (c d : Controller) (n : Next p) → Called c d → Calls d n → Calls c n
  Calls-trans c d (again w _) h k = Called-trans c d w.controller h k
  Calls-trans c d (ended w e) h k = Reaches-trans c d w e h k

  pub kill_and_return-Calls :
      (k : KillInputs) (q : String) (cause : Cause) (w : World p) (c : PauseCycle p)
      → Calls w.controller (kill_and_return p k q cause w c)
  unfolding kill_and_return
  kill_and_return-Calls k q cause w c =
      elim (Option-cases (kill_execution k.kernel k.reaping q w.controller)) [
        | inl e ↦ rw (e, kill_and_return) (kill_blocked-IsHung k.kernel k.reaping q w.controller e)
        | inr ((d, x), e) ↦
            rw (e, kill_and_return) (kill_execution-Called k.kernel k.reaping q w.controller d x e)
      ]

  module _ (energy : EnergyState p.float) (pause_id : String) where
    refined-controller :
        (cpu : CpuSnapshot) (w : World p) (c : PauseCycle p)
        → (refine_cycle_while_frozen p energy pause_id cpu w c).0.controller ≡ w.controller
    unfolding refine_cycle_while_frozen
    refined-controller cpu w c = ground arith

    kill_refined-Calls :
        (k : KillInputs) (cause : Cause) (cpu : CpuSnapshot) (w : World p) (c : PauseCycle p)
        → let (w', c') = refine_cycle_while_frozen p energy pause_id cpu w c in
          Calls w.controller (kill_and_return p k pause_id cause w' c')
    kill_refined-Calls k cause cpu w c =
        let (w', c') = refine_cycle_while_frozen p energy pause_id cpu w c in
        subst (λ d. Calls d (kill_and_return p k pause_id cause w' c')) (refined-controller cpu w c)
          (kill_and_return-Calls k pause_id cause w' c')

    kill_or_retry-Calls :
        (e : Event) (r : Round p) (w : World p) (c : PauseCycle p)
        → Calls w.controller (kill_or_retry p energy pause_id e r w c)
    unfolding kill_or_retry
    kill_or_retry-Calls e r w c = elim (Bool-cases (is_non_interruptible_for_this_step energy)) [
      | inl u ↦ rw (u, kill_or_retry) (Called-refl w.controller)
      | inr u ↦ rw (u, kill_or_retry) (kill_refined-Calls r.kill _ r.kill_cpu w c)
    ]

    on_kill-Calls :
        (reason : String) (r : Round p) (w : World p) (c : PauseCycle p)
        → Calls w.controller (on_kill p energy pause_id reason r w c)
    unfolding on_kill
    on_kill-Calls reason r w c = elim (Bool-cases (is_non_interruptible_for_this_step energy)) [
      | inl u ↦ rw (u, on_kill) (Called-refl w.controller)
      | inr u ↦ rw (u, on_kill) (kill_refined-Calls r.kill _ r.kill_cpu w c)
    ]

    on_wait-Calls :
        (r : Round p) (w : World p) (c : PauseCycle p)
        → Calls w.controller (on_wait p energy pause_id r w c)
    unfolding on_wait
    on_wait-Calls r w c = elim (Bool-cases (is_non_interruptible_for_this_step energy)) [
      | inl u ↦ rw (u, on_wait) (Called-refl w.controller)
      | inr u ↦ rw (u, on_wait) (kill_refined-Calls r.kill _ r.kill_cpu w c)
    ]

    on_resume-Calls :
        (t : p.float.Carrier) (r : Round p) (w : World p) (c : PauseCycle p)
        → Calls w.controller (on_resume p energy pause_id t r w c)
    unfolding on_resume
    on_resume-Calls t r w c =
        let v = (refine_cycle_while_frozen p energy pause_id r.resume_cpu w c).0 in
        let c' = (refine_cycle_while_frozen p energy pause_id r.resume_cpu w c).1 in
        let d = (resume_execution r.resume_kernel pause_id v.controller).0 in
        let called : Called w.controller d =
          subst (λ z. Called z d) (refined-controller r.resume_cpu w c)
            (resume_execution-Called r.resume_kernel pause_id v.controller) in
        elim (Option-cases (resume_execution r.resume_kernel pause_id v.controller).1) [
          | inl e ↦ rw (e, on_resume) called
          | inr (x, e) ↦
              rw (e, on_resume)
                (Calls-trans w.controller d _ called
                  (kill_or_retry-Calls _ r (record v { controller = d }) c'))
        ]

    dispatch-Calls :
        (m : Command) (cmd : SchedulerCommand p) (r : Round p) (w : World p) (c : PauseCycle p)
        → Calls w.controller (dispatch p energy pause_id m cmd r w c)
    unfolding dispatch
    dispatch-Calls resume_execution_command cmd r w c = on_resume-Calls _ r w c
    dispatch-Calls wait_execution_command cmd r w c = on_wait-Calls r w c
    dispatch-Calls kill_execution_command cmd r w c = on_kill-Calls cmd.reason r w c
    dispatch-Calls unknown_command cmd r w c = kill_or_retry-Calls _ r w c

    round-Calls :
        (r : Round p) (w : World p) (c : PauseCycle p)
        → Calls w.controller (round p energy pause_id r w c)
    unfolding round
    round-Calls r w c = elim (Option-cases r.answer) [
      | inl e ↦ rw (e, round) (kill_or_retry-Calls _ r w (traced p r c))
      | inr (cmd, e) ↦ elim (Bool-cases (str_eq cmd.pause_id pause_id)) [
        | inl same ↦ rw (e, round) (rw (same, round) (dispatch-Calls _ cmd r w (traced p r c)))
        | inr other ↦ rw (e, round) (rw (other, round) (kill_or_retry-Calls _ r w (traced p r c)))
      ]
    ]

    pub rounds-Called :
        (rs : List (Round p)) (w : World p) (c : PauseCycle p)
        → Reaches w.controller (rounds p energy pause_id rs w c)
    unfolding rounds
    rounds-Called [] w c = Called-refl w.controller
    rounds-Called (r ∷ rs) w c = elim (Next-cases p (round p energy pause_id r w c)) [
      | inl (v, d, e) ↦
          rw (e, rounds)
            (Reaches-trans w.controller v.controller (rounds p energy pause_id rs v d).0
              (rounds p energy pause_id rs v d).1 (rw e at (round-Calls r w c))
              (rounds-Called rs v d))
      | inr (v, k, e) ↦ rw (e, rounds) (rw e at (round-Calls r w c))
    ]
