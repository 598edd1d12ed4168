-- ===== src/Recording.antt =====
-- openwhisk/metrics_helpers.go: recordMetricsImpl, which settles an activation, stores its entry and
-- pushes it to the collector; openwhisk/metricHandler.go: RunMeta and Entry. The clock and the
-- counters that it reads are arguments. The lock on the pending entry makes each call one step.
pub mod Ledger
use openwhisk_runtime_go.Base.{
  ℕ, Bool, true, false, ◌&&◌, Option, none, some, List, [], ◌∷◌, ◌++◌, String, if◌then◌else◌,
  str_eq, ◌==◌,
}
use openwhisk_runtime_go.Attribution.{Platform, CpuSnapshot, AttributionBreakdown}
use openwhisk_runtime_go.Segments.Marks.{FreezeMark}
use openwhisk_runtime_go.Segments.Settlement.{segmented_attribution}
use openwhisk_runtime_go.Monitor.Result.{Lifecycle}
use openwhisk_runtime_go.Metrics.{Metrics, new_metrics, add}

abbrev pub is_run : String → Bool
is_run endpoint = str_eq endpoint "/run"

module _ (p : Platform) where
  open p.float use {Carrier, of_int, to_int, mul, lt}

  pub record RunMeta : Type 0 where
    pub trace_id : String
    pod_name : String
    pub activation_id : String
    pub execution_phase : String
    pub lifecycle : Option (Lifecycle p)

  pub record Entry : Type 0 where
    pub start : ℕ
    pub end : ℕ
    pub energy_start : ℕ
    pub energy_end : ℕ
    energy_attributed : ℕ
    cpu_process_usec : ℕ
    cpu_capacity_usec : ℕ
    pub cpu_ratio : Carrier
    pub trace_id : String
    pod_name : String
    pub activation_id : String
    pub execution_phase : String
    pub lifecycle : Option (Lifecycle p)

  -- The entries that Metrics.Add leaves out.
  unfoldable pub is_blank : Entry → Bool
  is_blank e = (e.start == 0) && (e.end == 0)

  -- A call of pushMetrics, in the order in which the calls are made; one that is not `sync` runs
  -- in a goroutine.
  pub record Push : Type 0 where
    pub endpoint : String
    pub entry : Entry
    pub sync : Bool

  -- ap.metrics, ap.pendingInitEntry, and the pushes so far.
  pub record Books : Type 0 where
    metrics : Option (Metrics is_blank)
    pub pending_init : Option Entry
    pub pushed : List Push

  -- Of a new ActionProxy.
  abbrev pub new_books : Books
  new_books = record {
    metrics = some (new_metrics is_blank 1000);
    pending_init = none;
    pushed = [];
  }

  -- A call: the arguments of recordMetricsImpl, and what it reads. `cpu_usec` is 0 without an
  -- executor.
  pub record Measurement : Type 0 where
    pub endpoint : String
    pub start : ℕ
    pub energy_start : ℕ
    pub cpu_start : CpuSnapshot
    pub meta : Option RunMeta
    pub sync : Bool
    pub fallback_j : Carrier
    pub energy_end : ℕ
    pub end : ℕ
    pub cpu_usec : ℕ
    pub freeze_marks : List FreezeMark

  -- The settlement of the activation.
  unfoldable pub settlement : Measurement → AttributionBreakdown p
  settlement m =
      segmented_attribution p m.energy_start m.energy_end m.cpu_start
        (record { process_ticks = m.cpu_usec; wall_ns = m.end })
        (if is_run m.endpoint then m.freeze_marks else [])

  -- Its energy: the settled one or, where that is 0, a positive fallback.
  unfoldable pub attributed_uj : Measurement → ℕ
  unfolding settlement
  attributed_uj m =
      let settled = (settlement m).attributed_uj in
      if (settled == 0) && lt (of_int 0) m.fallback_j
      then to_int (mul m.fallback_j (of_int 1000000))
      else settled

  abbrev no_meta : RunMeta
  no_meta = record {
    trace_id = "";
    pod_name = "";
    activation_id = "";
    execution_phase = "";
    lifecycle = none;
  }

  abbrev meta_of : Option RunMeta → RunMeta
  meta_of none = no_meta
  meta_of (some meta) = meta

  unfoldable pub entry_of : Measurement → Entry
  unfolding attributed_uj settlement
  entry_of m =
      let detail = settlement m in
      let meta = meta_of m.meta in
      record {
        start = m.start;
        end = m.end;
        energy_start = m.energy_start;
        energy_end = m.energy_end;
        energy_attributed = attributed_uj m;
        cpu_process_usec = detail.delta_process_usec;
        cpu_capacity_usec = detail.capacity_usec;
        cpu_ratio = detail.cpu_ratio;
        trace_id = meta.trace_id;
        pod_name = meta.pod_name;
        activation_id = meta.activation_id;
        execution_phase = meta.execution_phase;
        lifecycle = meta.lifecycle;
      }

  -- The pending entry of /init, with the identity of the first /run after it.
  unfoldable pub tagged : Entry → Entry → Entry
  tagged entry pending = record pending {
    trace_id = entry.trace_id;
    activation_id = entry.activation_id;
    execution_phase = entry.execution_phase;
  }

  abbrev pub pushes_of : Bool → Entry → Option Entry → List Push
  pushes_of sync entry none = record { endpoint = "/run"; entry = entry; sync = sync } ∷ []
  pushes_of sync entry (some pending) =
      record { endpoint = "/init"; entry = tagged entry pending; sync = sync }
      ∷ (record { endpoint = "/run"; entry = entry; sync = sync } ∷ [])

  abbrev stored : String → Entry → Option (Metrics is_blank) → Option (Metrics is_blank)
  stored endpoint entry none = none
  stored endpoint entry (some m) = some (add is_blank endpoint entry m)

  unfoldable pub record_metrics_impl : Measurement → Books → Books
  unfolding entry_of tagged
  record_metrics_impl m b =
      let entry = entry_of m in
      let metrics' = stored m.endpoint entry b.metrics in
      if is_run m.endpoint
      then record {
        metrics = metrics';
        pending_init = none;
        pushed = b.pushed ++ pushes_of m.sync entry b.pending_init;
      }
      else record { metrics = metrics'; pending_init = some entry; pushed = b.pushed }

  -- What pushMetrics sends: the endpoint, and the entry with its numbers under the collector's names.
  pub record CollectorPayload : Type 0 where
    pub endpoint : String
    pub start : ℕ
    pub end : ℕ
    pub energy_start : ℕ
    pub energy_end : ℕ
    energy_attributed : ℕ
    pub trace_id : String
    pod_name : String
    pub activation_id : String
    pub execution_phase : String
    pub lifecycle : Option (Lifecycle p)
    cpu_process_usec : ℕ
    cpu_capacity_usec : ℕ
    pub cpu_ratio : Carrier

  unfoldable pub payload_of : Push → CollectorPayload
  payload_of x = record {
    endpoint = x.endpoint;
    start = x.entry.start;
    end = x.entry.end;
    energy_start = x.entry.energy_start;
    energy_end = x.entry.energy_end;
    energy_attributed = x.entry.energy_attributed;
    trace_id = x.entry.trace_id;
    pod_name = x.entry.pod_name;
    activation_id = x.entry.activation_id;
    execution_phase = x.entry.execution_phase;
    lifecycle = x.entry.lifecycle;
    cpu_process_usec = x.entry.cpu_process_usec;
    cpu_capacity_usec = x.entry.cpu_capacity_usec;
    cpu_ratio = x.entry.cpu_ratio;
  }
