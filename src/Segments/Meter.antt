-- ===== src/Segments/Meter.antt =====
-- openwhisk/energySegments.go: stepMeter. Its methods on a pointer return the new meter.
use openwhisk_runtime_go.Base.{ℕ, Bool, true, false, not, ◌||◌, if◌then◌else◌}
use openwhisk_runtime_go.Base.Int64
use openwhisk_runtime_go.Attribution.{Platform, CpuSnapshot, attributed_energy_uj}

pub record StepMeter : Type 0 where
  pub closed_uj : ℕ
  pub seg_energy : ℕ
  pub seg_cpu : CpuSnapshot
  pub frozen : Bool
  pub frozen_energy : ℕ
  pub frozen_cpu : CpuSnapshot
  last_seg_energy : ℕ
  last_seg_cpu : CpuSnapshot
  last_seg_uj : ℕ

abbrev no_snapshot : CpuSnapshot
no_snapshot = record { process_ticks = 0; wall_ns = 0 }

unfoldable pub new_step_meter : ℕ → CpuSnapshot → StepMeter
new_step_meter energy_start cpu_start = record {
  closed_uj = 0;
  seg_energy = energy_start;
  seg_cpu = cpu_start;
  frozen = false;
  frozen_energy = 0;
  frozen_cpu = no_snapshot;
  last_seg_energy = 0;
  last_seg_cpu = no_snapshot;
  last_seg_uj = 0;
}

unfoldable pub open_at : ℕ → CpuSnapshot → StepMeter → StepMeter
open_at energy_uj cpu m = record m { seg_energy = energy_uj; seg_cpu = cpu; frozen = false }

module _ (p : Platform) where
  open p.float use {Carrier, of_int, div}

  -- The energy of the step in microjoules, before stepJ divides it by 1e6.
  unfoldable pub step_uj : ℕ → CpuSnapshot → StepMeter → ℕ
  step_uj energy_now cpu_now m =
      if m.frozen
      then m.closed_uj
      else Int64.add m.closed_uj (attributed_energy_uj p m.seg_energy energy_now m.seg_cpu cpu_now)

  unfoldable pub joules : ℕ → Carrier
  joules uj = div (of_int uj) (of_int 1000000)

  unfoldable pub closed_j : StepMeter → Carrier
  closed_j m = joules m.closed_uj

  unfoldable pub step_j : ℕ → CpuSnapshot → StepMeter → Carrier
  step_j energy_now cpu_now m = joules (step_uj energy_now cpu_now m)

  unfoldable pub close_at : ℕ → CpuSnapshot → StepMeter → StepMeter
  close_at energy_uj cpu m =
      let last_uj = attributed_energy_uj p m.seg_energy energy_uj m.seg_cpu cpu in
      record m {
        last_seg_energy = m.seg_energy;
        last_seg_cpu = m.seg_cpu;
        last_seg_uj = last_uj;
        closed_uj = Int64.add m.closed_uj last_uj;
        frozen = true;
        frozen_energy = energy_uj;
        frozen_cpu = cpu;
      }

  -- The new meter, and the CPU time found late.
  unfoldable pub refine_frozen_cpu : ℕ → StepMeter → StepMeter × ℕ
  refine_frozen_cpu ticks m =
      let cpu : CpuSnapshot = record { process_ticks = ticks; wall_ns = m.frozen_cpu.wall_ns } in
      let refined = attributed_energy_uj p m.last_seg_energy m.frozen_energy m.last_seg_cpu cpu in
      if not m.frozen || Int64.le ticks m.frozen_cpu.process_ticks then (m, 0) else (
        record m {
          frozen_cpu = cpu;
          closed_uj = Int64.add m.closed_uj (Int64.sub refined m.last_seg_uj);
          last_seg_uj = refined;
        },
        Int64.sub ticks m.frozen_cpu.process_ticks,
      )
