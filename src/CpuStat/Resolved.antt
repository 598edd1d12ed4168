-- ===== src/CpuStat/Resolved.antt =====
-- openwhisk/metrics_helpers.go: ResolveCgroupCPUStatPath beside readProcessTicks, whose search for a
-- file it repeats.
use openwhisk_runtime_go.Base.{
  ℕ, ◌≡◌, ◌⊎◌, inl, inr, refl, subst, Option, none, some, List, [], ◌∷◌, arith, Option-cases,
  Bool-cases,
}
use openwhisk_runtime_go.Base.Int64
use openwhisk_runtime_go.Base.Text.{Bytes, trim_space, parse_int}
use openwhisk_runtime_go.CpuStat.Files.{
  Files, read_cgroup_v2_cpu_usec, cpu_stat_path, cpuacct_path, v2_ticks, v1_ticks, v2_path, v1_path,
  read_process_ticks, resolve_cgroup_cpu_stat_path, lines_of,
}

module _ (files : Files) where
  -- The file gives the CPU time: as cpu.stat, or as cpuacct.usage.
  abbrev pub ReadsV2 : Bytes → Option ℕ → Type 0
  ReadsV2 path ticks =
      (usec : ℕ) × (read_cgroup_v2_cpu_usec files path ≡ some usec) × (ticks ≡ some usec)

  abbrev pub ReadsV1 : Bytes → Option ℕ → Type 0
  ReadsV1 path ticks =
      (contents : Bytes) × (files.read_file path ≡ some contents)
      × ((parse_int (trim_space contents) ≡ none)
          ⊎ ((ns : ℕ) × (parse_int (trim_space contents) ≡ some ns)
              × (ticks ≡ some (Int64.div ns 1000))))

  v2_agree :
      (lines : List Bytes)
      → ((v2_path files lines ≡ none) × (v2_ticks files lines ≡ none))
        ⊎ ((path : Bytes) × (v2_path files lines ≡ some path) × ReadsV2 path (v2_ticks files lines))
  unfolding v2_path v2_ticks
  v2_agree [] = inl (refl, refl)
  v2_agree (line ∷ lines) = elim (Option-cases (cpu_stat_path files line)) [
    | inl e ↦ rw (e, v2_path, v2_ticks) (v2_agree lines)
    | inr (path, e) ↦ elim (Option-cases (read_cgroup_v2_cpu_usec files path)) [
      | inl f ↦ rw (e, v2_path, v2_ticks) (rw (f, v2_path, v2_ticks) (v2_agree lines))
      | inr (usec, f) ↦
          rw (e, v2_path, v2_ticks) (rw (f, v2_path, v2_ticks) (inr (path, refl, (usec, f, refl))))
    ]
  ]

  v1_agree :
      (lines : List Bytes) (path : Bytes)
      → v1_path files lines ≡ some path
      → ReadsV1 path (v1_ticks files lines)
  unfolding v1_path v1_ticks
  v1_agree [] path h = absurd (cc h)
  v1_agree (line ∷ lines) path h = elim (Option-cases (cpuacct_path files line)) [
    | inl e ↦ rw (e, v1_ticks) (v1_agree lines path (rw (e, v1_path) at h))
    | inr (found, e) ↦ elim (Option-cases (files.read_file found)) [
      | inl f ↦
          rw (e, v1_ticks)
            (rw (f, v1_ticks) (v1_agree lines path (rw (f, v1_path) at (rw (e, v1_path) at h))))
      | inr (contents, f) ↦ elim (Option-cases (parse_int (trim_space contents))) [
        | inl q ↦ (contents, ground (arith, e, f, h), inl q)
        | inr (ns, q) ↦ (contents, ground (arith, e, f, h), inr (ns, q, ground (arith, e, f, q)))
      ]
    ]
  ]

  -- Where a path is resolved for a pid, readProcessTicks reads this very file: either as a cpu.stat
  -- that gives the CPU time, or as a cpuacct.usage. In the second case the file is readable, and
  -- either it holds a number and this is the CPU time, or it holds none, and only then the two
  -- functions part.
  pub resolve_cgroup_cpu_stat_path-agrees :
      (pid : ℕ) (path : Bytes)
      → resolve_cgroup_cpu_stat_path files pid ≡ some path
      → ReadsV2 path (read_process_ticks files pid) ⊎ ReadsV1 path (read_process_ticks files pid)
  unfolding resolve_cgroup_cpu_stat_path read_process_ticks
  resolve_cgroup_cpu_stat_path-agrees pid path h = elim (Bool-cases (Int64.le pid 0)) [
    | inl e ↦ absurd (cc (rw (e, resolve_cgroup_cpu_stat_path) at h))
    | inr e ↦ elim (Option-cases (files.proc_cgroup pid)) [
      | inl f ↦ absurd (ground (arith, e, f, h))
      | inr (contents, f) ↦ elim (v2_agree (lines_of contents)) [
        | inl (none_path, none_ticks) ↦ inr (
            subst (ReadsV1 path) (ground (arith, e, f, none_ticks))
              (v1_agree (lines_of contents) path (ground (arith, e, f, h, none_path))))
        | inr (found, is_path, (usec, reads, ticks)) ↦
            inl (usec, ground (arith, e, f, h, is_path, reads), ground (arith, e, f, ticks))
      ]
    ]
  ]
