-- ===== src/Freezer/Invariant.antt =====
-- openwhisk/cgroupFreezer.go: what freezeExecution, resumeExecution and killExecution keep, and
-- what each of them does on a repeat and on an error.
use openwhisk_runtime_go.Base.{
  ◌≡◌, ◌≢◌, ◌⊎◌, ◌↔◌, Option, none, some, List, [], ◌∷◌, String, arith, eq_iff,
}
use openwhisk_runtime_go.Freezer.Cgroup.{
  Handle, Kernel, CgroupError, Reading, value, unreadable, Polls, last, more, Write, freeze_on,
  freeze_off, kill_all, wait_for_event_field,
}
use openwhisk_runtime_go.Freezer.Cgroup
use openwhisk_runtime_go.Freezer.Machine.{
  running, frozen, stopped, freezing, resuming, killing, Controller, TransitionError, Reaping,
  freeze_execution, resume_execution, kill_execution,
}

-- A readable value, then `want` at the end.
abbrev Confirms : String → Polls → Type 0
Confirms want (last r) = r ≡ value want
Confirms want (more r ps) = (r ≡ value want) ⊎ ((r ≢ unreadable) × Confirms want ps)

-- The wait succeeds exactly if some read before or at the deadline gives the wanted value and
-- every read before it could be made.
wait_for_event_field-none :
    (want : String) (ps : Polls) → (wait_for_event_field want ps ≡ none) ↔ Confirms want ps
unfolding wait_for_event_field
wait_for_event_field-none want (last (value v)) = ground (arith, eq_iff v want)
wait_for_event_field-none want (last unreadable) = ground arith
wait_for_event_field-none want (more (value v) ps) =
    ground (arith, eq_iff v want, wait_for_event_field-none want ps)
wait_for_event_field-none want (more unreadable ps) = ground arith

-- The last write that reached the kernel, if any.
abbrev pub latest : List Write → Option Write
latest [] = none
latest (w ∷ ws) = some w

-- Between two calls the state is none of the transient ones, and the cgroup's last write is the
-- one that the state stands for.
pub record Inv (c : Controller) : Type 0 where
  pub not_freezing : c.state ≢ freezing
  pub not_resuming : c.state ≢ resuming
  pub not_killing : c.state ≢ killing
  pub frozen_written : c.state ≡ frozen → latest c.cg.written ≡ some freeze_on
  pub stopped_written : c.state ≡ stopped → latest c.cg.written ≡ some kill_all
  pub running_written :
      c.state ≡ running → (latest c.cg.written ≡ none) ⊎ (latest c.cg.written ≡ some freeze_off)

pub freeze_execution-Inv :
    (k : Kernel) (p : String) (c : Controller) → Inv c → Inv (freeze_execution k p c).0
unfolding freeze_execution Cgroup.freeze
freeze_execution-Inv k p c v = ground arith

pub resume_execution-Inv :
    (k : Kernel) (p : String) (c : Controller) → Inv c → Inv (resume_execution k p c).0
unfolding resume_execution Cgroup.unfreeze
resume_execution-Inv k p c v = ground arith

pub kill_execution-Inv :
    (k : Kernel) (r : Reaping) (p : String) (c : Controller) {d : Controller}
    {e : Option TransitionError}
    → kill_execution k r p c ≡ some (d, e)
    → Inv c
    → Inv d
unfolding kill_execution Cgroup.kill
kill_execution-Inv k r p c h v = ground arith

-- A freeze that succeeds, repeated under the same pause id whatever the kernel would answer,
-- succeeds again and changes nothing: no second write reaches the cgroup.
freeze_execution_repeat :
    (k k' : Kernel) (p : String) (c : Controller)
    → (freeze_execution k p c).1 ≡ none
    → freeze_execution k' p (freeze_execution k p c).0 ≡ ((freeze_execution k p c).0, none)
unfolding freeze_execution
freeze_execution_repeat k k' p c h = ground (arith, eq_iff p p, eq_iff c.last_pause_id p)

-- A resume that succeeds, repeated under the same pause id whatever the kernel would answer,
-- succeeds again and changes nothing: no second write reaches the cgroup.
resume_execution_repeat :
    (k k' : Kernel) (p : String) (c : Controller)
    → (resume_execution k p c).1 ≡ none
    → resume_execution k' p (resume_execution k p c).0 ≡ ((resume_execution k p c).0, none)
unfolding resume_execution
resume_execution_repeat k k' p c h = ground (arith, eq_iff p p, eq_iff c.last_pause_id p)
