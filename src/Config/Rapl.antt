-- ===== src/Config/Rapl.antt =====
-- openwhisk/metrics_helpers.go: readEnergy, raplMaxDir, readRAPLMax, raplOverflowProximityThreshold.
-- The contents of the files are arguments, and strconv.ParseFloat is a parameter.
use openwhisk_runtime_go.Base.{
  ℕ, ◌+◌, ◌-◌, ◌≤◌, ◌<◌, ◌≡◌, ◌⊎◌, ◌&&◌, Option, none, some, [], ◌∷◌, ◌++◌, if◌then◌else◌, ◌==◌,
  arith, Option-cases, inl, inr,
}
use openwhisk_runtime_go.Base.Int64
use openwhisk_runtime_go.Base.Float64.{Float64}
use openwhisk_runtime_go.Base.Text.{Bytes, codes, same, trim_space, parse_int, parse_int-range}
use openwhisk_runtime_go.Attribution.{Platform, delta_rapl_uj}
use openwhisk_runtime_go.Attribution.Bounds.{delta_rapl_uj_cases}
use openwhisk_runtime_go.CpuStat.Files.{Files}
use openwhisk_runtime_go.Proxy.Env.{Variables, getenv}

unfoldable pub rapl_path : Variables → Bytes
unfolding getenv
rapl_path environ =
    if same (getenv (codes "RAPL_PATH") environ) []
    then codes "/sys/class/powercap/intel-rapl/intel-rapl:0/energy_uj"
    else getenv (codes "RAPL_PATH") environ

-- What comes before the last occurrence of a byte.
unfoldable pub before_last : ℕ → Bytes → Option Bytes
before_last b [] = none
before_last b (c ∷ s) =
    let rest = before_last b s in
    elim rest [ some t ↦ some (c ∷ t) | none ↦ if c == b then some [] else none ]

-- `none`: the path has no "/", and the slice panics.
unfoldable pub rapl_max_dir : Variables → Option Bytes
unfolding rapl_path before_last
rapl_max_dir environ = before_last b'/' (rapl_path environ)

module _ (files : Files) where
  unfoldable read_energy : Variables → Option ℕ
  unfolding rapl_path trim_space parse_int
  read_energy environ = elim (files.read_file (rapl_path environ)) [
    | none ↦ none
    | some contents ↦ parse_int (trim_space contents)
  ]

  -- The range that a file holds, or 2 ^ 32.
  unfoldable pub max_of : Option Bytes → ℕ
  unfolding trim_space parse_int
  max_of none = 4294967296
  max_of (some contents) = elim (parse_int (trim_space contents)) [
    | none ↦ 4294967296
    | some v ↦ if Int64.le v 0 then 4294967296 else v
  ]

  unfoldable pub read_rapl_max : Variables → Option ℕ
  unfolding rapl_max_dir max_of
  read_rapl_max environ = elim (rapl_max_dir environ) [
    | none ↦ none
    | some dir ↦ some (max_of (files.read_file (dir ++ codes "/max_energy_range_uj")))
  ]

  max_of-range : (contents : Option Bytes) → (0 < max_of contents) × (max_of contents < Int64.half)
  unfolding max_of Int64.le
  max_of-range none = (omega arith, omega arith)
  max_of-range (some contents) = elim (Option-cases (parse_int (trim_space contents))) [
    | inl e ↦ ground (arith, e)
    | inr (v, e) ↦ let r = parse_int-range (trim_space contents) v e in ground (arith, e, r)
  ]

  max_is : (max v : ℕ) → v ≡ max → 0 < v → v < Int64.half → (0 < max) × (max < Int64.half)
  max_is max v h a b = (omega arith, omega arith)

  -- With the range of the counter that readRAPLMax reads: it is positive and below 2 ^ 63, whatever
  -- the file holds; and the energy between two readings within it is their difference, or that of
  -- a counter that has gone once past its range, or 0, and never exceeds the range.
  pub delta_rapl_uj-read_rapl_max :
      (p : Platform) (environ : Variables) (start end : ℕ)
      → read_rapl_max environ ≡ some p.rapl_max
      → start ≤ p.rapl_max
      → end ≤ p.rapl_max
      → (0 < p.rapl_max)
        × (p.rapl_max < Int64.half)
        × (delta_rapl_uj p start end ≤ p.rapl_max)
        × (((start ≤ end) × (delta_rapl_uj p start end ≡ end - start))
            ⊎ ((end < start)
                × ((delta_rapl_uj p start end ≡ 0)
                    ⊎ (delta_rapl_uj p start end ≡ p.rapl_max - start + end))))
  unfolding read_rapl_max
  delta_rapl_uj-read_rapl_max p environ start end h a b =
      elim (Option-cases (rapl_max_dir environ)) [
        | inl e ↦ absurd (ground (arith, e, h))
        | inr (dir, e) ↦
            let (positive, small) =
              max_of-range (files.read_file (dir ++ codes "/max_energy_range_uj")) in
            let range =
              max_is p.rapl_max (max_of (files.read_file (dir ++ codes "/max_energy_range_uj")))
                (ground (arith, e, h)) positive small in
            (
              range.0,
              range.1,
              (delta_rapl_uj_cases p start end range.1 a b).0,
              (delta_rapl_uj_cases p start end range.1 a b).1,
            )
      ]

-- ParseFloat and the constants 0.9 and 1.0.
pub record Fractions (f : Float64) : Type 0 where
  pub parse_float : Bytes → Option f.Carrier
  pub default : f.Carrier

module _ (f : Float64) (fractions : Fractions f) where
  unfoldable rapl_overflow_proximity_threshold : Variables → f.Carrier
  unfolding getenv
  rapl_overflow_proximity_threshold environ =
      let v = getenv (codes "RAPL_OVERFLOW_PROXIMITY_THRESHOLD") environ in
      if same v [] then fractions.default else elim (fractions.parse_float v) [
        | none ↦ fractions.default
        | some parsed ↦
            if f.lt (f.of_int 0) parsed && f.le parsed (f.of_int 1)
            then parsed
            else fractions.default
      ]
