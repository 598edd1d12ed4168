-- ===== src/Monitor/Cycle/Inputs.antt =====
-- openwhisk/energyMonitor.go and openwhisk/schedulerChannel.go: the commands of the scheduler, what
-- the rounds of a pause cycle meet, what a cycle changes, and how it ends.
use openwhisk_runtime_go.Base.{ℕ, Option, List, String, if◌then◌else◌, str_eq}
use openwhisk_runtime_go.Attribution.{Platform, CpuSnapshot}
use openwhisk_runtime_go.Freezer.Cgroup.{Kernel}
use openwhisk_runtime_go.Freezer.Machine.{Controller, Reaping}
use openwhisk_runtime_go.Channel.Recorder.{SchedulerConnTrace}
use openwhisk_runtime_go.Segments.Tracking.{SegmentSnapshot, Tracking}
use openwhisk_runtime_go.Monitor.Result.{Event, PauseCycle, EnergyMonitorResult}

-- The commands that the switch tells apart.
pub data Command : Type 0 where
  resume_execution_command wait_execution_command kill_execution_command unknown_command : Command

unfoldable pub command_of : String → Command
command_of s =
    if str_eq s "RESUME_EXECUTION"
    then resume_execution_command
    else if str_eq s "WAIT_EXECUTION"
    then wait_execution_command
    else if str_eq s "KILL_EXECUTION"
    then kill_execution_command
    else unknown_command

-- A kill: what the kernel and the process do, and the clock before and after.
pub record KillInputs : Type 0 where
  pub kernel : Kernel
  pub reaping : Reaping
  pub requested_at : ℕ
  pub stopped_at : ℕ

module _ (p : Platform) where
  open p.float use {Carrier}

  pub record SchedulerCommand : Type 0 where
    pub command : String
    pub pause_id : String
    pub new_execution_threshold_j : Carrier
    pub reason : String

  -- The start of a cycle: the pause id that newPauseID gives, the freeze, and the kill that
  -- follows a freeze that fails.
  pub record CycleInputs : Type 0 where
    pub pause_id : String
    pub freeze_kernel : Kernel
    pub freeze_requested_at : ℕ
    pub freeze_effective_at : ℕ
    pub freeze_snapshot : SegmentSnapshot
    pub freeze_kill : KillInputs

  -- One round of the loop: the answer of postExecutionPaused, `none` for an error; the CPU time
  -- read before a resume and before a kill; and what the resume or the kill meets.
  pub record Round : Type 0 where
    pub roundtrip_ns : ℕ
    pub trace : SchedulerConnTrace
    pub answer : Option SchedulerCommand
    pub resume_cpu : CpuSnapshot
    pub resume_kernel : Kernel
    pub resume_requested_at : ℕ
    pub resume_effective_at : ℕ
    pub resume_snapshot : SegmentSnapshot
    pub resume_now : ℕ
    pub kill_cpu : CpuSnapshot
    pub kill : KillInputs

  -- What a cycle changes: the controller, the meter and marks, the monitor's result, and the
  -- [safety] incidents, the latest first.
  pub record World : Type 0 where
    pub controller : Controller
    pub tracking : Tracking
    pub result : EnergyMonitorResult p
    pub incidents : List Event

  -- How a cycle ends: by a resume with the new threshold, by a kill; or it has not ended, as it
  -- still waits for the scheduler, or is inside a killExecution that does not return.
  pub data CycleEnd : Type 0 where
    resumed_with : Carrier → CycleEnd
    was_killed waiting hung : CycleEnd

  -- After one round: the loop goes on, or the cycle ends.
  pub data Next : Type 0 where
    again : World → PauseCycle p → Next
    ended : World → CycleEnd → Next
