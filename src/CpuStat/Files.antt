-- ===== src/CpuStat/Files.antt =====
-- openwhisk/metrics_helpers.go: the CPU time of a process from the files of its cgroup. A file's
-- contents, `none` where it cannot be read, are arguments.
use openwhisk_runtime_go.Base.{
  ℕ, zero, suc, true, false, ◌||◌, Option, none, some, List, [], ◌∷◌, ◌++◌, if◌then◌else◌,
}
use openwhisk_runtime_go.Base.Int64
use openwhisk_runtime_go.Base.Text.{
  Bytes, codes, same, after_prefix, has_prefix, contains, split, cut_at, trim_space, fields,
  after_last, parse_int,
}
use openwhisk_runtime_go.Attribution.{CpuSnapshot}

-- /proc/<pid>/cgroup by pid, and the other files by path.
pub record Files : Type 0 where
  pub proc_cgroup : ℕ → Option Bytes
  pub read_file : Bytes → Option Bytes

-- A member of a list, as an index in Go.
abbrev nth : {A : Type 0} → ℕ → List A → Option A
nth n [] = none
nth zero (x ∷ xs) = some x
nth (suc n) (x ∷ xs) = nth n xs

-- utime and stime, the fields 11 and 12 after the last parenthesis.
unfoldable read_stat_ticks : Bytes → Option ℕ
unfolding after_last fields parse_int
read_stat_ticks contents = elim (after_last b')' contents) [
  | none ↦ none
  | some rest ↦ elim (nth 11 (fields rest)) [
    | none ↦ none
    | some utime ↦ elim (nth 12 (fields rest)) [
      | none ↦ none
      | some stime ↦ elim (parse_int utime) [
        | none ↦ none
        | some u ↦ elim (parse_int stime) [ none ↦ none | some s ↦ some (Int64.add u s) ]
      ]
    ]
  ]
]

-- The loop of readCgroupV2CPUUsec over the lines of cpu.stat.
unfoldable usage_usec : List Bytes → Option ℕ
unfolding has_prefix fields parse_int
usage_usec [] = none
usage_usec (line ∷ lines) = elim (has_prefix (codes "usage_usec ") line) [
  | false ↦ usage_usec lines
  | true ↦ elim (nth 1 (fields line)) [ none ↦ usage_usec lines | some value ↦ parse_int value ]
]

abbrev pub lines_of : Bytes → List Bytes
lines_of contents = split 10 contents

module _ (files : Files) where
  unfoldable pub read_cgroup_v2_cpu_usec : Bytes → Option ℕ
  unfolding usage_usec split
  read_cgroup_v2_cpu_usec path = elim (files.read_file path) [
    | none ↦ none
    | some contents ↦ usage_usec (lines_of contents)
  ]

  -- The path that a line of cgroups v2 stands for.
  unfoldable pub cpu_stat_path : Bytes → Option Bytes
  unfolding after_prefix trim_space
  cpu_stat_path line = elim (after_prefix (codes "0::/") line) [
    | none ↦ none
    | some slice ↦ some (codes "/sys/fs/cgroup/" ++ (trim_space slice ++ codes "/cpu.stat"))
  ]

  -- The path that a line of cgroups v1 stands for.
  unfoldable pub cpuacct_path : Bytes → Option Bytes
  unfolding cut_at contains trim_space same
  cpuacct_path line = elim (cut_at b':' line) [
    | none ↦ none
    | some (hierarchy, rest) ↦ elim (cut_at b':' rest) [
      | none ↦ none
      | some (controllers, slice) ↦
          if same controllers (codes "cpuacct") || contains (codes "cpuacct") controllers
          then some
              (codes "/sys/fs/cgroup/cpuacct/" ++ (trim_space slice ++ codes "/cpuacct.usage"))
          else none
    ]
  ]

  -- The two loops of readProcessTicks.
  unfoldable pub v2_ticks : List Bytes → Option ℕ
  unfolding read_cgroup_v2_cpu_usec cpu_stat_path
  v2_ticks [] = none
  v2_ticks (line ∷ lines) = elim (cpu_stat_path line) [
    | none ↦ v2_ticks lines
    | some path ↦ elim (read_cgroup_v2_cpu_usec path) [
      | none ↦ v2_ticks lines
      | some usec ↦ some usec
    ]
  ]

  unfoldable pub v1_ticks : List Bytes → Option ℕ
  unfolding cpuacct_path trim_space parse_int
  v1_ticks [] = none
  v1_ticks (line ∷ lines) = elim (cpuacct_path line) [
    | none ↦ v1_ticks lines
    | some path ↦ elim (files.read_file path) [
      | none ↦ v1_ticks lines
      | some contents ↦ elim (parse_int (trim_space contents)) [
        | none ↦ v1_ticks lines
        | some ns ↦ some (Int64.div ns 1000)
      ]
    ]
  ]

  unfoldable pub read_process_ticks : ℕ → Option ℕ
  unfolding v2_ticks v1_ticks split
  read_process_ticks pid = if Int64.le pid 0 then none else elim (files.proc_cgroup pid) [
    | none ↦ none
    | some contents ↦ elim (v2_ticks (lines_of contents)) [
      | some usec ↦ some usec
      | none ↦ v1_ticks (lines_of contents)
    ]
  ]

  -- The two loops of ResolveCgroupCPUStatPath.
  unfoldable pub v2_path : List Bytes → Option Bytes
  unfolding read_cgroup_v2_cpu_usec cpu_stat_path
  v2_path [] = none
  v2_path (line ∷ lines) = elim (cpu_stat_path line) [
    | none ↦ v2_path lines
    | some path ↦ elim (read_cgroup_v2_cpu_usec path) [
      | none ↦ v2_path lines
      | some usec ↦ some path
    ]
  ]

  unfoldable pub v1_path : List Bytes → Option Bytes
  unfolding cpuacct_path
  v1_path [] = none
  v1_path (line ∷ lines) = elim (cpuacct_path line) [
    | none ↦ v1_path lines
    | some path ↦ elim (files.read_file path) [ none ↦ v1_path lines | some contents ↦ some path ]
  ]

  unfoldable pub resolve_cgroup_cpu_stat_path : ℕ → Option Bytes
  unfolding v2_path v1_path split
  resolve_cgroup_cpu_stat_path pid = if Int64.le pid 0 then none else elim (files.proc_cgroup pid) [
    | none ↦ none
    | some contents ↦ elim (v2_path (lines_of contents)) [
      | some path ↦ some path
      | none ↦ v1_path (lines_of contents)
    ]
  ]

  abbrev or_zero : Option ℕ → ℕ
  or_zero none = 0
  or_zero (some n) = n

  unfoldable pub read_cpu_snapshot : ℕ → ℕ → CpuSnapshot
  unfolding read_process_ticks
  read_cpu_snapshot now pid = record {
    process_ticks = or_zero (read_process_ticks pid);
    wall_ns = now;
  }

  unfoldable pub read_cpu_snapshot_from_cgroup : ℕ → Bytes → CpuSnapshot
  unfolding read_cgroup_v2_cpu_usec
  read_cpu_snapshot_from_cgroup now cgroup_path = record {
    process_ticks =
        if same cgroup_path []
        then 0
        else or_zero (read_cgroup_v2_cpu_usec (cgroup_path ++ codes "/cpu.stat"));
    wall_ns = now;
  }
