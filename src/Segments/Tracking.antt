-- ===== src/Segments/Tracking.antt =====
-- openwhisk/energySegments.go: the methods of Executor that move the monitor's meter and the
-- marks together. What segmentSnapshot and cpuSnapshot read is an argument.
use openwhisk_runtime_go.Base.{
  ℕ, Bool, true, false, not, ◌&&◌, ◌||◌, Option, none, some, List, if◌then◌else◌, ◌==◌,
}
use openwhisk_runtime_go.Base.Int64
use openwhisk_runtime_go.Attribution.{Platform, CpuSnapshot}
use openwhisk_runtime_go.Segments.Marks.{FreezeMark, note_freeze, note_resume, refine_freeze_cpu}
use openwhisk_runtime_go.Segments.Meter.{StepMeter, close_at, open_at, refine_frozen_cpu}

-- segmentSnapshot: `failed` says that the energy could not be read. Where the CPU time could not
-- be read, its ticks are 0.
pub record SegmentSnapshot : Type 0 where
  pub energy_uj : ℕ
  pub cpu : CpuSnapshot
  pub failed : Bool

-- The meter of monitorEnergy and proc.marks.
pub record Tracking : Type 0 where
  pub meter : StepMeter
  pub marks : List FreezeMark

module _ (p : Platform) where
  unfoldable pub refine_frozen_segment : CpuSnapshot → Tracking → Tracking × Option ℕ
  refine_frozen_segment cpu t =
      let (meter', late) = refine_frozen_cpu p cpu.process_ticks t.meter in
      if not t.meter.frozen then (t, none) else (
        record { meter = meter'; marks = refine_freeze_cpu cpu.process_ticks t.marks },
        some late,
      )

  unfoldable pub close_segment_at_freeze : SegmentSnapshot → Tracking → Tracking × Bool
  close_segment_at_freeze s t =
      if s.failed || Int64.lt s.cpu.process_ticks t.meter.seg_cpu.process_ticks
      then (t, false)
      else (
        record {
          meter = close_at p s.energy_uj s.cpu t.meter;
          marks = note_freeze s.energy_uj s.cpu t.marks;
        },
        true,
      )

-- Where the read at the resume can be used; `now` is the clock where the read has none.
abbrev usable : SegmentSnapshot → StepMeter → Bool
usable s m = not s.failed && Int64.le m.frozen_cpu.process_ticks s.cpu.process_ticks

unfoldable pub resume_energy : SegmentSnapshot → StepMeter → ℕ
resume_energy s m = if usable s m then s.energy_uj else m.frozen_energy

unfoldable pub resume_start : SegmentSnapshot → ℕ → StepMeter → CpuSnapshot
resume_start s now m = record {
  process_ticks = m.frozen_cpu.process_ticks;
  wall_ns = if s.cpu.wall_ns == 0 then now else s.cpu.wall_ns;
}

unfoldable pub open_segment_at_resume : SegmentSnapshot → ℕ → Tracking → Tracking × Bool
unfolding resume_energy resume_start
open_segment_at_resume s now t =
    let energy_uj = resume_energy s t.meter in
    let start = resume_start s now t.meter in
    if not t.meter.frozen then (t, false) else (
      record {
        meter = open_at energy_uj start t.meter;
        marks = note_resume energy_uj start t.marks;
      },
      usable s t.meter,
    )
