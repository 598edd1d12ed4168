-- ===== src/Monitor/Result.antt =====
-- openwhisk/energyMonitor.go: energyMonitorResult; openwhisk/metricHandler.go: PauseCycle and
-- Lifecycle. The lock makes each method one step.
use openwhisk_runtime_go.Base.{
  ℕ, Bool, true, false, ◌&&◌, Option, none, some, List, [], ◌∷◌, ◌++◌, String, if◌then◌else◌, ◌==◌,
}
use openwhisk_runtime_go.Base.Int64
use openwhisk_runtime_go.Attribution.{Platform}

pub data Outcome : Type 0 where
  resumed killed queued_wait : Outcome

-- The causes of a [safety] incident of the monitor.
pub data Event : Type 0 where
  local_kill_refused freeze_failed pause_channel_failed pause_id_mismatch resume_failed : Event
  unexpected_wait_command kill_execution_refused unknown_scheduler_command : Event

-- KillCause: the empty string, a name, or SCHEDULER_COMMAND with its reason.
pub data Cause : Type 0 where
  no_cause threshold_no_pause : Cause
  event : Event → Cause
  scheduler_command : String → Cause

module _ (p : Platform) where
  open p.float use {Carrier, of_int, div}

  -- float64(t.UnixNano()) / 1e9
  unfoldable pub seconds : ℕ → Carrier
  seconds ns = div (of_int ns) (of_int 1000000000)

  pub record PauseCycle : Type 0 where
    pub pause_id : String
    pub threshold_detected_at : Carrier
    pub energy_at_threshold_j : Carrier
    pub freeze_requested_at : Carrier
    pub freeze_effective_at : Carrier
    pub energy_at_effective_freeze_j : Carrier
    pub execution_threshold_j : Carrier
    pub command_roundtrip_ns : ℕ
    pub conn_reused : Bool
    pub conn_setup_ns : ℕ
    pub channel_traced : Bool
    pub channel_dns_ns : ℕ
    pub channel_connect_ns : ℕ
    pub channel_cached_addr : Bool
    pub channel_failure : String
    pub resume_requested_at : Carrier
    pub resume_effective_at : Carrier
    pub energy_at_resume_effective_j : Carrier
    pub cpu_usec_while_frozen : Option ℕ
    pub outcome : Outcome

  pub record Lifecycle : Type 0 where
    pub monitor_samples : ℕ
    pub monitor_busy_ns : ℕ
    pub sidecar_extract_ns : ℕ
    pub sidecar_inject_ns : ℕ
    pub sidecar_state_bytes : ℕ
    pub kill_requested_at : Carrier
    pub process_stopped_at : Carrier
    pub kill_cause : Cause
    pub cycles : List PauseCycle

  pub record EnergyMonitorResult : Type 0 where
    pub killed : Bool
    pub consumed_j : Carrier
    pub pause_id : String
    pub threshold_j : Carrier
    pub threshold_updated : Bool
    pub lifecycle : Lifecycle

  -- &energyMonitorResult{}
  unfoldable pub new_result : EnergyMonitorResult
  new_result = record {
    killed = false;
    consumed_j = of_int 0;
    pause_id = "";
    threshold_j = of_int 0;
    threshold_updated = false;
    lifecycle = record {
      monitor_samples = 0;
      monitor_busy_ns = 0;
      sidecar_extract_ns = 0;
      sidecar_inject_ns = 0;
      sidecar_state_bytes = 0;
      kill_requested_at = of_int 0;
      process_stopped_at = of_int 0;
      kill_cause = no_cause;
      cycles = [];
    };
  }

  unfoldable pub set_killed : Carrier → String → EnergyMonitorResult → EnergyMonitorResult
  set_killed consumed pause_id r = record r {
    killed = true;
    consumed_j = consumed;
    pause_id = pause_id;
  }

  unfoldable pub set_threshold : Carrier → EnergyMonitorResult → EnergyMonitorResult
  set_threshold threshold r = record r { threshold_j = threshold; threshold_updated = true }

  unfoldable pub note_sample : ℕ → EnergyMonitorResult → EnergyMonitorResult
  note_sample busy r = record r {
    lifecycle = record r.lifecycle {
      monitor_samples = Int64.add r.lifecycle.monitor_samples 1;
      monitor_busy_ns = Int64.add r.lifecycle.monitor_busy_ns busy;
    };
  }

  unfoldable pub add_cycle : PauseCycle → EnergyMonitorResult → EnergyMonitorResult
  add_cycle c r = record r {
    lifecycle = record r.lifecycle { cycles = r.lifecycle.cycles ++ c ∷ [] };
  }

  unfoldable pub note_kill : ℕ → ℕ → Cause → EnergyMonitorResult → EnergyMonitorResult
  unfolding seconds
  note_kill requested_at stopped_at cause r = record r {
    lifecycle = record r.lifecycle {
      kill_requested_at = seconds requested_at;
      process_stopped_at = seconds stopped_at;
      kill_cause = cause;
    };
  }

  -- `none`: nothing was instrumented. The last test is KillRequestedAt == 0.
  unfoldable pub snapshot_lifecycle : EnergyMonitorResult → Option Lifecycle
  snapshot_lifecycle r =
      if (r.lifecycle.monitor_samples == 0)
        && (is_empty r.lifecycle.cycles && is_zero r.lifecycle.kill_requested_at)
      then none
      else some r.lifecycle
    where
      is_empty : List PauseCycle → Bool
      is_empty [] = true
      is_empty (c ∷ cs) = false

      is_zero : Carrier → Bool
      is_zero x = p.float.le x (of_int 0) && p.float.le (of_int 0) x
