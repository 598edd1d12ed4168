-- ===== src/Segments/Marks.antt =====
-- openwhisk/energySegments.go: freezeMark and freezeMarks. The lock makes each method one step.
use openwhisk_runtime_go.Base.{ℕ, Bool, true, false, not, ◌&&◌, List, [], ◌∷◌, ◌++◌, if◌then◌else◌}
use openwhisk_runtime_go.Base.Int64
use openwhisk_runtime_go.Attribution.{CpuSnapshot}

-- The resume fields count only where `resumed` is set.
pub record FreezeMark : Type 0 where
  pub freeze_energy_uj : ℕ
  pub freeze_cpu : CpuSnapshot
  pub resumed : Bool
  pub resume_energy_uj : ℕ
  pub resume_cpu : CpuSnapshot

abbrev no_snapshot : CpuSnapshot
no_snapshot = record { process_ticks = 0; wall_ns = 0 }

-- f.marks[n-1] = ..., where there is a last mark.
abbrev pub on_last : (FreezeMark → FreezeMark) → List FreezeMark → List FreezeMark
on_last f [] = []
on_last f (m ∷ []) = f m ∷ []
on_last f (m ∷ n ∷ ms) = m ∷ on_last f (n ∷ ms)

abbrev pub new_mark : ℕ → CpuSnapshot → FreezeMark
new_mark energy_uj cpu = record {
  freeze_energy_uj = energy_uj;
  freeze_cpu = cpu;
  resumed = false;
  resume_energy_uj = 0;
  resume_cpu = no_snapshot;
}

unfoldable pub note_freeze : ℕ → CpuSnapshot → List FreezeMark → List FreezeMark
note_freeze energy_uj cpu marks = marks ++ new_mark energy_uj cpu ∷ []

abbrev pub resume_mark : ℕ → CpuSnapshot → FreezeMark → FreezeMark
resume_mark energy_uj cpu m =
    if m.resumed
    then m
    else record m { resumed = true; resume_energy_uj = energy_uj; resume_cpu = cpu }

unfoldable pub note_resume : ℕ → CpuSnapshot → List FreezeMark → List FreezeMark
note_resume energy_uj cpu = on_last (resume_mark energy_uj cpu)

abbrev pub refine_mark : ℕ → FreezeMark → FreezeMark
refine_mark ticks m =
    if not m.resumed && Int64.lt m.freeze_cpu.process_ticks ticks
    then record m { freeze_cpu = record { process_ticks = ticks; wall_ns = m.freeze_cpu.wall_ns } }
    else m

unfoldable pub refine_freeze_cpu : ℕ → List FreezeMark → List FreezeMark
refine_freeze_cpu ticks = on_last (refine_mark ticks)
