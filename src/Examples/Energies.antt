-- ===== src/Examples/Energies.antt =====
-- openwhisk/metrics_helpers.go and openwhisk/energySegments.go: energies of concrete reads.
use openwhisk_runtime_go.Base.{
  ℕ, ◌+◌, ◌-◌, ◌*◌, ◌≡◌, ◌≤◌, ◌<◌, ◌⊎◌, refl, List, [], ◌∷◌, All, arith,
}
use openwhisk_runtime_go.Base.Int64
use openwhisk_runtime_go.Base.Int64.{sub, le, add, div, mul}
use openwhisk_runtime_go.Attribution.{delta_rapl_uj, attributed_energy_uj, duration_usec, nb_cores}
use openwhisk_runtime_go.Attribution.Bounds.{attributed-le-delta}
use openwhisk_runtime_go.Segments.Meter.{new_step_meter, step_uj}
use openwhisk_runtime_go.Segments.Settlement.{segmented_attribution}
use openwhisk_runtime_go.Segments.Tracking.{
  Tracking, close_segment_at_freeze, refine_frozen_segment, open_segment_at_resume,
}
use openwhisk_runtime_go.Segments.Replay.{Reach, here, next, freezes, refines, resumes, initial}
use openwhisk_runtime_go.Segments.CpuTime.{Continuous, marks-Continuous}
use openwhisk_runtime_go.Segments.Agreement.{segmented_attribution-step_uj}
use openwhisk_runtime_go.Examples.Fixtures.{machine, whole_rounding, cpu_at, snapshot}

-- Three milliseconds of one core, all used.
small_delta : delta_rapl_uj machine 1000 4000 < 9007199254740992
unfolding delta_rapl_uj sub le
small_delta = ground arith

one_core : 0 < nb_cores machine
unfolding nb_cores le
one_core = ground arith

no_overflow :
    duration_usec machine (cpu_at 0 0) (cpu_at 3000 3000000) * nb_cores machine < Int64.half
unfolding duration_usec nb_cores le sub div
no_overflow = ground arith

attributed-le-delta_example :
    attributed_energy_uj machine 1000 4000 (cpu_at 0 0) (cpu_at 3000 3000000)
    ≤ delta_rapl_uj machine 1000 4000
attributed-le-delta_example =
    attributed-le-delta machine whole_rounding 1000 4000 (cpu_at 0 0) (cpu_at 3000 3000000)
      small_delta one_core no_overflow

-- A step that is frozen at 4000, refined while it is, and resumed.
abbrev at_start : Tracking
at_start = initial 1000 (cpu_at 0 0)

abbrev at_freeze : Tracking
at_freeze = (close_segment_at_freeze machine (snapshot 4000 2900 3000000) at_start).0

abbrev refined : Tracking
refined = (refine_frozen_segment machine (cpu_at 3000 3500000) at_freeze).0

abbrev at_resume : Tracking
at_resume = (open_segment_at_resume (snapshot 6000 3000 9000000) 9000000 refined).0

is_open : at_start.meter.frozen ≡ openwhisk_runtime_go.Base.false
unfolding new_step_meter
is_open = refl

abbrev cycle : Reach machine at_start at_resume
cycle =
    next
      (next (next here (freezes at_start (snapshot 4000 2900 3000000) is_open))
        (refines at_freeze (cpu_at 3000 3500000)))
      (resumes refined (snapshot 6000 3000 9000000) 9000000)

segmented_attribution-step_uj_example :
    (segmented_attribution machine 1000 8000
      (cpu_at 0 0)
      (cpu_at 5000 11000000)
      at_resume.marks).attributed_uj
    ≡ step_uj machine 8000 (cpu_at 5000 11000000) at_resume.meter
segmented_attribution-step_uj_example =
    segmented_attribution-step_uj machine 1000 (cpu_at 0 0) at_resume 8000 (cpu_at 5000 11000000)
      cycle

marks-Continuous_example : All Continuous at_resume.marks
marks-Continuous_example = marks-Continuous machine 1000 (cpu_at 0 0) at_resume cycle
