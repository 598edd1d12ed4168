-- ===== src/Examples/Recordings.antt =====
-- openwhisk/metrics_helpers.go: a mask of cores, the files of a cgroup, and three measurements.
use openwhisk_runtime_go.Base.{
  ◌≡◌, ◌⊎◌, ◌++◌, refl, true, false, none, some, List, [], ◌∷◌, if◌then◌else◌,
}
use openwhisk_runtime_go.Base.Text.{
  Bytes, codes, same, split, after_prefix, cut_at, contains, has_prefix, trim_space, trim_left,
  reverse_onto,
}
use openwhisk_runtime_go.Base.Int64.{le}
use openwhisk_runtime_go.CpuStat.Files.{
  Files, read_process_ticks, resolve_cgroup_cpu_stat_path, v2_path, v1_path, cpu_stat_path,
  cpuacct_path,
}
use openwhisk_runtime_go.CpuStat.Resolved.{ReadsV1, ReadsV2, resolve_cgroup_cpu_stat_path-agrees}
use openwhisk_runtime_go.Recording.{Measurement, new_books}
use openwhisk_runtime_go.Recording.Ledger.{
  record_all, runs_measured, runs_pushed, IsPaired, record_all-pushed,
}
use openwhisk_runtime_go.Examples.Fixtures.{machine, cpu_at}

-- A process under cgroups v1, whose cpuacct.usage is 5 milliseconds.
abbrev files : Files
files = record {
  proc_cgroup = λ pid. some (codes "2:cpuacct:/pod");
  read_file = λ path.
      if same path (codes "/sys/fs/cgroup/cpuacct//pod/cpuacct.usage")
      then some (codes "5000000")
      else none;
}

abbrev usage_path : Bytes
usage_path = codes "/sys/fs/cgroup/cpuacct//pod/cpuacct.usage"

resolves : resolve_cgroup_cpu_stat_path files 7 ≡ some usage_path
unfolding resolve_cgroup_cpu_stat_path v2_path v1_path cpu_stat_path cpuacct_path after_prefix same
    split cut_at contains has_prefix trim_space trim_left reverse_onto le
resolves = refl

resolve_cgroup_cpu_stat_path-agrees_example :
    ReadsV2 files usage_path (read_process_ticks files 7)
    ⊎ ReadsV1 files usage_path (read_process_ticks files 7)
resolve_cgroup_cpu_stat_path-agrees_example =
    resolve_cgroup_cpu_stat_path-agrees files 7 usage_path resolves

abbrev measurement : Measurement machine
measurement = record {
  endpoint = "/run";
  start = 5;
  energy_start = 1000;
  cpu_start = cpu_at 0 0;
  meta = none;
  sync = true;
  fallback_j = 0;
  energy_end = 8000;
  end = 11000000;
  cpu_usec = 5000;
  freeze_marks = [];
}

abbrev measurements : List (Measurement machine)
measurements =
    record measurement { endpoint = "/init"; sync = false } ∷ (measurement ∷ (measurement ∷ []))

record_all-pushed_example :
    IsPaired machine (record_all machine measurements (new_books machine)).pushed
    × (runs_pushed machine (record_all machine measurements (new_books machine)).pushed
        ≡ runs_pushed machine [] ++ runs_measured machine measurements)
record_all-pushed_example = record_all-pushed machine measurements (new_books machine) tt
