-- ===== src/Freezer/Machine.antt =====
-- openwhisk/cgroupFreezer.go: ActivationController. The lock `mu` is held through each operation,
-- so an operation is one step; reading or logging leaves no trace here.
use openwhisk_runtime_go.Base.{
  ℕ, Bool, true, false, ◌&&◌, Option, none, some, [], String, if◌then◌else◌, str_eq, ◌==◌, ltb,
}
use openwhisk_runtime_go.Freezer.Cgroup.{Handle, Kernel, CgroupError}
use openwhisk_runtime_go.Freezer.Cgroup

pub data RuntimeState : Type 0 where
  running freezing frozen resuming killing stopped unknown : RuntimeState

abbrev pub is_running : RuntimeState → Bool
is_running running = true
is_running _ = false

abbrev pub is_frozen : RuntimeState → Bool
is_frozen frozen = true
is_frozen _ = false

abbrev pub is_stopped : RuntimeState → Bool
is_stopped stopped = true
is_stopped _ = false

pub data Operation : Type 0 where
  freeze_op resume_op kill_op : Operation

pub data Reason : Type 0 where
  requires_running requires_frozen requires_running_or_frozen : Reason
  pause_id_mismatch : String → Reason
  cgroup_failed : CgroupError → Reason

pub record TransitionError : Type 0 where
  pub pause_id : String
  pub attempted_op : Operation
  pub from_state : RuntimeState
  pub reason : Reason

-- `process` says that Start has stored a command; `reaped` that cmd.Wait has returned.
pub record Controller : Type 0 where
  pub cg : Handle
  pub process : Bool
  pub reaped : Bool
  pub state : RuntimeState
  pub last_pause_id : String

unfoldable pub new_activation_controller : String → Controller
new_activation_controller path = record {
  cg = record { path = path; written = [] };
  process = false;
  reaped = false;
  state = running;
  last_pause_id = "";
}

-- Start: `launched` says that the directory was opened and that cmd.Start succeeded.
unfoldable pub start : Bool → Controller → Controller × Bool
start launched c =
    if launched then (record c { process = true; state = running }, true) else (c, false)

abbrev fail :
    Controller → Operation → RuntimeState → String → Reason → Controller × Option TransitionError
fail c op s pause_id reason =
    (c, some (record { pause_id = pause_id; attempted_op = op; from_state = s; reason = reason }))

-- After the cgroup has answered: UNKNOWN on an error, the wanted state otherwise.
settle :
    Controller
    → Operation
    → RuntimeState
    → RuntimeState
    → String
    → Handle × Option CgroupError
    → Controller × Option TransitionError
settle c op via to pause_id (h, some e) =
    fail (record c { cg = h; state = unknown }) op via pause_id (cgroup_failed e)
settle c op via to pause_id (h, none) =
    (record c { cg = h; state = to; last_pause_id = pause_id }, none)

unfoldable pub freeze_execution : Kernel → String → Controller → Controller × Option TransitionError
unfolding settle
freeze_execution k pause_id c =
    if is_frozen c.state && str_eq c.last_pause_id pause_id
    then (c, none)
    else if is_running c.state
    then settle c freeze_op freezing frozen pause_id (Cgroup.freeze k c.cg)
    else fail c freeze_op c.state pause_id requires_running

unfoldable pub resume_execution : Kernel → String → Controller → Controller × Option TransitionError
unfolding settle
resume_execution k pause_id c =
    if is_running c.state && str_eq c.last_pause_id pause_id
    then (c, none)
    else if is_frozen c.state
    then if str_eq pause_id c.last_pause_id
      then settle c resume_op resuming running pause_id (Cgroup.unfreeze k c.cg)
      else fail c resume_op c.state pause_id (pause_id_mismatch c.last_pause_id)
    else fail c resume_op c.state pause_id requires_frozen

-- The wait for the process after cgroup.kill. `budget` is killConfirmWaitTimeout in milliseconds,
-- and `reap_time` the time after which cmd.Wait returns, if it ever does.
pub record Reaping : Type 0 where
  pub budget : ℕ
  pub reap_time : Option ℕ

-- Whether cmd.Wait returned within the budget (time.After and done race at the budget itself).
pub data Wait : Type 0 where
  done expired blocked : Wait

unfoldable pub wait_reaped : Reaping → Wait
wait_reaped r = elim r.reap_time [
  | none ↦ if r.budget == 0 then blocked else expired
  | some t ↦ if r.budget == 0 then done else if ltb t r.budget then done else expired
]

abbrev stop : Handle → Bool → String → Controller → Option (Controller × Option TransitionError)
stop h gone pause_id c =
    some (record c { cg = h; reaped = gone; state = stopped; last_pause_id = pause_id }, none)

-- The end of killExecution. `none`: the call does not return, and holds the lock.
after_kill :
    Reaping
    → String
    → Controller
    → Handle × Option CgroupError
    → Option (Controller × Option TransitionError)
after_kill r pause_id c (h, some e) =
    some (fail (record c { cg = h; state = unknown }) kill_op killing pause_id (cgroup_failed e))
after_kill r pause_id c (h, none) =
    if c.process
    then elim (wait_reaped r) [
      | done ↦ stop h true pause_id c
      | expired ↦ stop h c.reaped pause_id c
      | blocked ↦ none
    ]
    else stop h c.reaped pause_id c

unfoldable pub kill_execution :
    Kernel → Reaping → String → Controller → Option (Controller × Option TransitionError)
unfolding after_kill wait_reaped
kill_execution k r pause_id c =
    if is_stopped c.state
    then some (c, none)
    else if is_running c.state
    then after_kill r pause_id c (Cgroup.kill k c.cg)
    else if is_frozen c.state
    then after_kill r pause_id c (Cgroup.kill k c.cg)
    else some (fail c kill_op c.state pause_id requires_running_or_frozen)

-- The controller while a killExecution that does not return waits for the process, with the lock.
unfoldable pub kill_blocked : Kernel → Controller → Controller
kill_blocked k c = record c { cg = (Cgroup.kill k c.cg).0; state = killing }
