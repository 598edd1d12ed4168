-- ===== src/Attribution.antt =====
-- openwhisk/metrics_helpers.go: the energy of the node over an interval (deltaRAPLUJ) and the share
-- of it that is attributed to the container (attributionDetail).
pub mod Bounds
use openwhisk_runtime_go.Base.{ℕ, Bool, ◌||◌, if◌then◌else◌}
use openwhisk_runtime_go.Base.Int64
use openwhisk_runtime_go.Base.Float64.{Float64}

-- The cgroup's CPU time in microseconds, and the clock in nanoseconds. Both are int64.
pub record CpuSnapshot : Type 0 where
  pub process_ticks : ℕ
  pub wall_ns : ℕ

-- float64, and what the functions read from the machine: readRAPLMax,
-- raplOverflowProximityThreshold, countCores of RAPL_CORES, and countAllCores.
pub record Platform : Type 1 where
  pub float : Float64
  pub rapl_max : ℕ
  pub proximity : float.Carrier
  pub mask_cores : ℕ
  pub all_cores : ℕ

-- x <= 0 on int64.
abbrev pub not_positive : ℕ → Bool
not_positive x = Int64.le x 0

module _ (p : Platform) where
  open p.float use {Carrier, of_int, to_int, mul, div, lt}

  unfoldable pub delta_rapl_uj : ℕ → ℕ → ℕ
  delta_rapl_uj start end =
      if Int64.le start end
      then Int64.sub end start
      else if Int64.le (to_int (mul (of_int p.rapl_max) p.proximity)) start
      then Int64.add (Int64.sub p.rapl_max start) end
      else 0

  pub record AttributionBreakdown : Type 0 where
    pub attributed_uj : ℕ
    pub delta_process_usec : ℕ
    pub capacity_usec : ℕ
    pub cpu_ratio : Carrier

  -- AttributionBreakdown{}
  abbrev pub no_attribution : AttributionBreakdown
  no_attribution = record {
    attributed_uj = 0;
    delta_process_usec = 0;
    capacity_usec = 0;
    cpu_ratio = of_int 0;
  }

  -- A quotient of two int64, cut at 1.0.
  unfoldable pub capped_ratio : ℕ → ℕ → Carrier
  capped_ratio part whole =
      let ratio = div (of_int part) (of_int whole) in
      if lt (of_int 1) ratio then of_int 1 else ratio

  unfoldable pub nb_cores : ℕ
  nb_cores = if not_positive p.mask_cores then p.all_cores else p.mask_cores

  unfoldable pub duration_usec : CpuSnapshot → CpuSnapshot → ℕ
  duration_usec snap_start snap_end = Int64.div (Int64.sub snap_end.wall_ns snap_start.wall_ns) 1000

  unfoldable pub attribution_detail : ℕ → ℕ → CpuSnapshot → CpuSnapshot → AttributionBreakdown
  attribution_detail energy_start energy_end snap_start snap_end =
      let delta = delta_rapl_uj energy_start energy_end in
      let process = Int64.sub snap_end.process_ticks snap_start.process_ticks in
      let duration = duration_usec snap_start snap_end in
      let capacity = Int64.mul duration nb_cores in
      let ratio = capped_ratio process capacity in
      if not_positive delta || not_positive process || not_positive duration
      then no_attribution
      else record {
        attributed_uj = to_int (mul (of_int delta) ratio);
        delta_process_usec = process;
        capacity_usec = capacity;
        cpu_ratio = ratio;
      }

  unfoldable pub attributed_energy_uj : ℕ → ℕ → CpuSnapshot → CpuSnapshot → ℕ
  attributed_energy_uj energy_start energy_end snap_start snap_end =
      (attribution_detail energy_start energy_end snap_start snap_end).attributed_uj
