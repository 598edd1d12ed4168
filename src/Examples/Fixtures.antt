-- ===== src/Examples/Fixtures.antt =====
-- The inputs that the examples share: a float64 that holds integers only, a machine with one core,
-- a kernel that obeys and one that does not.
use openwhisk_runtime_go.Base.{
  ℕ, zero, suc, ◌+◌, ◌*◌, ◌/◌, ◌%◌, ◌≡◌, ◌<◌, ◌≤◌, refl, true, false, Option, none, some, List, [],
  ◌∷◌, String, ltb, leb, arith,
}
use openwhisk_runtime_go.Base.Int64.{modulus}
use openwhisk_runtime_go.Base.Float64.{Float64}
use openwhisk_runtime_go.Attribution.{Platform, CpuSnapshot}
use openwhisk_runtime_go.Attribution.Bounds.{IsRounding}
use openwhisk_runtime_go.Freezer.Cgroup.{Kernel, value, unreadable, last, more}
use openwhisk_runtime_go.Freezer.Machine.{Controller, Reaping}
use openwhisk_runtime_go.Freezer.Traces.{started}
use openwhisk_runtime_go.Segments.Tracking.{SegmentSnapshot}
use openwhisk_runtime_go.Sidecar.Json.{Numbers}
use openwhisk_runtime_go.Sidecar.State.{EnergyState}

pub to_int_range : (x : ℕ) → x % modulus < modulus
to_int_range x = omega arith

abbrev pub whole : Float64
whole = record {
  Carrier = ℕ;
  of_int = λ n. n;
  to_int = λ x. x % modulus;
  add = λ x y. x + y;
  mul = λ x y. x * y;
  div = λ x y. x / y;
  lt = ltb;
  le = leb;
  to_int_range = to_int_range;
}

pub times_monotone : (n x y : ℕ) → ltb y x ≡ false → ltb (n * y) (n * x) ≡ false
times_monotone zero x y h = ground arith
times_monotone (suc n) x y h = ground (arith, times_monotone n x y h, h)

pub remainder_monotone :
    (x y : ℕ) → ltb y x ≡ false → ltb 9007199254740991 y ≡ false → x % modulus ≤ y % modulus
remainder_monotone x y h k = ground arith

abbrev pub whole_rounding : IsRounding whole
whole_rounding = record {
  IsFinite = λ x. Unit;
  lt_irreflexive = λ x. ground arith;
  of_int-IsFinite = λ n. tt;
  div-IsFinite = λ a b h k. tt;
  div_nonneg = λ a b h k l. ground arith;
  mul-IsFinite = λ n x h k l. tt;
  mul_one = λ x h. omega arith;
  mul_zero = λ n h. omega arith;
  mul_monotone = λ n x y h k l m. times_monotone n x y m;
  to_int-of_int = λ n h. omega arith;
  to_int_monotone = λ x y h k l m o. remainder_monotone x y m o;
  of_int_monotone = λ m n h k. ground arith;
}

abbrev pub machine : Platform
machine = record {
  float = whole;
  rapl_max = 262143000000;
  proximity = 1;
  mask_cores = 1;
  all_cores = 4;
}

abbrev pub numbers : Numbers whole
numbers = record {
  Number = ℕ;
  of_float = λ x. x;
  as_float = λ x. some x;
  of_int = λ x. x;
  as_int = λ x. some x;
  as_float-of_float = λ x. refl;
  as_int-of_int = λ x. refl;
}

-- A kernel that confirms after one poll, to a freeze and to a resume; one that never does.
abbrev pub freezes_well : Kernel
freezes_well = record { write_succeeds = true; polls = more (value "0") (last (value "1")) }

abbrev pub resumes_well : Kernel
resumes_well = record { write_succeeds = true; polls = more (value "1") (last (value "0")) }

abbrev pub stuck : Kernel
stuck = record { write_succeeds = true; polls = more (value "2") (last unreadable) }

abbrev pub never_reaped : Reaping
never_reaped = record { budget = 0; reap_time = none }

abbrev pub reaped_soon : Reaping
reaped_soon = record { budget = 2000; reap_time = some 3 }

abbrev pub controller : Controller
controller = started "/sys/fs/cgroup/activation" true

abbrev pub cpu_at : ℕ → ℕ → CpuSnapshot
cpu_at usec ns = record { process_ticks = usec; wall_ns = ns }

abbrev pub snapshot : ℕ → ℕ → ℕ → SegmentSnapshot
snapshot uj usec ns = record { energy_uj = uj; cpu = cpu_at usec ns; failed = false }

abbrev pub state_with : Option (List (String × String)) → EnergyState whole
state_with classes = record {
  trace_id = "trace";
  reservation_id = "reservation";
  execution_phase = "forward";
  execution_threshold_j = 2;
  consumed_before_j = 2;
  pause_enabled = true;
  pause_mode = "freeze";
  max_pause_duration_ms = 1000;
  max_pause_count = 3;
  interruption_class = classes;
  resolved_action_name = "book";
}

abbrev pub killable : EnergyState whole
killable = state_with none

abbrev pub unkillable : EnergyState whole
unkillable = state_with (some (("book", "UNKILLABLE") ∷ []))
