-- ===== src/Monitor/Interact.antt =====
-- openwhisk/executor.go: Interact, which runs the monitor beside the action and collects what it
-- leaves. What the action answers and what the monitor meets until it is stopped are arguments.
use openwhisk_runtime_go.Base.{
  ℕ, ◌≡◌, refl, ◌++◌, true, Option, none, some, List, [], ◌∷◌, String, if◌then◌else◌, arith,
  Option-cases, inl, inr,
}
use openwhisk_runtime_go.Attribution.{Platform, CpuSnapshot}
use openwhisk_runtime_go.Freezer.Machine.{Controller}
use openwhisk_runtime_go.Segments.Replay.{initial}
use openwhisk_runtime_go.Sidecar.State.{EnergyState}
use openwhisk_runtime_go.Monitor.Classes.{should_monitor_energy}
use openwhisk_runtime_go.Monitor.Result.{Lifecycle, new_result, snapshot_lifecycle}
use openwhisk_runtime_go.Monitor.Cycle.{World}
use openwhisk_runtime_go.Monitor.Loop.{
  Event, stop, running, returned, in_cycle, in_kill, Monitor, monitor_energy,
}
use openwhisk_runtime_go.Monitor.Threshold.{final_threshold_or, monitor_energy-threshold}

-- What the select receives: the line that the action wrote, or the exit of the command.
pub data Answer : Type 0 where
  line : String → Answer
  no_line exited : Answer

pub data AnswerError : Type 0 where
  no_answer command_exited : AnswerError

abbrev error_of : Answer → Option AnswerError
error_of (line out) = none
error_of no_line = some no_answer
error_of exited = some command_exited

module _ (p : Platform) where
  -- `start_energy` is what readEnergy gives at the monitor's start, `events` what it meets before
  -- the stop.
  pub record Interaction : Type 0 where
    pub answer : Answer
    pub start_energy : Option ℕ
    pub start_cpu : CpuSnapshot
    pub events : List (Event p)

  pub record EnergyKillInfo : Type 0 where
    pub energy_consumed_j : p.float.Carrier
    pub pause_id : String

  -- The results of Interact, with the state as the caller's pointer now shows it.
  pub record Interacted : Type 0 where
    pub answer : Answer
    pub failure : Option AnswerError
    pub kill_info : Option EnergyKillInfo
    pub lifecycle : Option (Lifecycle p)
    pub energy : Option (EnergyState p.float)

  -- The world at the start: the marks are reset, and the meter is new.
  abbrev pub fresh : ℕ → CpuSnapshot → Controller → World p
  fresh energy cpu c = record {
    controller = c;
    tracking = initial energy cpu;
    result = new_result p;
    incidents = [];
  }

  -- The monitor until it is stopped; without a first reading it returns at once.
  unfoldable pub monitored : EnergyState p.float → Interaction → Controller → Monitor p
  monitored s i c = elim i.start_energy [
    | none ↦ record { world = fresh 0 i.start_cpu c; energy = s; status = returned }
    | some e ↦ monitor_energy p (i.events ++ stop ∷ []) s (fresh e i.start_cpu c)
  ]

  -- After the monitor has finished.
  unfoldable pub collected : EnergyState p.float → Interaction → Monitor p → Interacted
  collected s i m =
      let r = m.world.result in
      record {
        answer = i.answer;
        failure = error_of i.answer;
        kill_info =
            if r.killed
            then some (record { energy_consumed_j = r.consumed_j; pause_id = r.pause_id })
            else none;
        lifecycle = snapshot_lifecycle p r;
        energy = some (record s {
          execution_threshold_j =
              if r.threshold_updated then r.threshold_j else s.execution_threshold_j;
        });
      }

  -- `none`: Interact does not return, as the monitor is inside a pause cycle or a kill.
  unfoldable pub awaited : EnergyState p.float → Interaction → Monitor p → Option Interacted
  unfolding collected
  awaited s i m = elim m.status [
    | returned ↦ some (collected s i m)
    | running ↦ some (collected s i m)
    | in_cycle ↦ none
    | in_kill ↦ none
  ]

  unfoldable pub interact :
      Option (EnergyState p.float) → Interaction → Controller → Option Interacted
  unfolding monitored awaited
  interact energy i c =
      let unmonitored = some (record {
        answer = i.answer;
        failure = error_of i.answer;
        kill_info = none;
        lifecycle = none;
        energy = energy;
      }) in
      elim energy [
        | none ↦ unmonitored
        | some s ↦
            if should_monitor_energy (some s) then awaited s i (monitored s i c) else unmonitored
      ]

  monitored-threshold :
      (s : EnergyState p.float) (i : Interaction) (c : Controller)
      → final_threshold_or p s.execution_threshold_j (monitored s i c).world.result
        ≡ (monitored s i c).energy.execution_threshold_j
  unfolding monitored new_result
  monitored-threshold s i c = elim (Option-cases i.start_energy) [
    | inl e ↦ rw (e, monitored) refl
    | inr (n, e) ↦
        rw (e, monitored)
          (monitor_energy-threshold p (i.events ++ stop ∷ []) s (fresh n i.start_cpu c) refl)
  ]

  pub collected-threshold :
      (s : EnergyState p.float) (i : Interaction) (m : Monitor p) (r : Interacted)
      → awaited s i m ≡ some r
      → r.energy
        ≡ some (record s {
          execution_threshold_j = final_threshold_or p s.execution_threshold_j m.world.result;
        })
  unfolding awaited collected
  collected-threshold s i m r h = ground arith

  -- When Interact returns from a monitored step, its caller's state is as it was but for the
  -- threshold, which is the one that the monitor last ran under, every extension included.
  pub interact-threshold :
      (s : EnergyState p.float) (i : Interaction) (c : Controller) (r : Interacted)
      → should_monitor_energy (some s) ≡ true
      → interact (some s) i c ≡ some r
      → r.energy
        ≡ some (record s { execution_threshold_j = (monitored s i c).energy.execution_threshold_j })
  unfolding interact
  interact-threshold s i c r on h =
      rw⁻¹ (monitored-threshold s i c)
        (collected-threshold s i (monitored s i c) r (rw (on, interact) at h))
