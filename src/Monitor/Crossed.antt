-- ===== src/Monitor/Crossed.antt =====
-- openwhisk/energyMonitor.go: a pause cycle of one activation while another activation of the same
-- executor holds its controller FROZEN under its own pause.
use openwhisk_runtime_go.Base.{ℕ, ◌≡◌, ◌≢◌, false, none, some, List, String, arith, eq_iff}
use openwhisk_runtime_go.Attribution.{Platform}
use openwhisk_runtime_go.Freezer.Cgroup.{Kernel}
use openwhisk_runtime_go.Freezer.Machine.{
  frozen, stopped, Controller, Reaping, freeze_execution, kill_execution,
}
use openwhisk_runtime_go.Freezer.Stuck.{kill_execution_state}
use openwhisk_runtime_go.Sidecar.State.{EnergyState}
use openwhisk_runtime_go.Monitor.Classes.{is_non_interruptible_for_this_step}
use openwhisk_runtime_go.Monitor.Cycle.{CycleInputs, Round, World, was_killed, run_pause_cycle}

freeze_execution-held :
    (k : Kernel) (q : String) (c : Controller)
    → c.state ≡ frozen
    → c.last_pause_id ≢ q
    → ((freeze_execution k q c).0 ≡ c) × ((freeze_execution k q c).1 ≢ none)
unfolding freeze_execution
freeze_execution-held k q c s h = ground (arith, s, h, eq_iff c.last_pause_id q)

kill_execution-stopped :
    (k : Kernel) (r : Reaping) (q : String) (c d : Controller)
    → kill_execution k r q c ≡ some (d, none)
    → d.state ≡ stopped
kill_execution-stopped k r q c d h = ground (arith, kill_execution_state k r q c d none h)

module _ (p : Platform) where
  -- A controller that is FROZEN for an activation that waits for the scheduler, and a second
  -- activation on it whose step may be killed and whose energy reaches its threshold: the freeze of
  -- the second is refused, and where the kill of the cgroup succeeds, its cycle ends by a kill,
  -- whatever the scheduler would answer, and the process of both is STOPPED.
  pub run_pause_cycle-held :
      (energy : EnergyState p.float) (i : CycleInputs p) (rs : List (Round p))
      (step_j : p.float.Carrier) (detected_at : ℕ) (at_threshold_j : p.float.Carrier) (w : World p)
      (d : Controller)
      → is_non_interruptible_for_this_step energy ≡ false
      → w.controller.state ≡ frozen
      → w.controller.last_pause_id ≢ i.pause_id
      → kill_execution i.freeze_kill.kernel i.freeze_kill.reaping i.pause_id w.controller
        ≡ some (d, none)
      → let (w', end) = run_pause_cycle p energy i rs step_j detected_at at_threshold_j w in
        (end ≡ was_killed) × (w'.controller ≡ d) × (d.state ≡ stopped)
  unfolding run_pause_cycle
  run_pause_cycle-held energy i rs step_j detected_at at_threshold_j w d u s h k = ground (
    arith,
    u,
    k,
    freeze_execution-held i.freeze_kernel i.pause_id w.controller s h,
    kill_execution-stopped i.freeze_kill.kernel i.freeze_kill.reaping i.pause_id w.controller d k,
  )
