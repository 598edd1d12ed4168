-- ===== src/CpuStat.antt =====
-- openwhisk/metrics_helpers.go: what is read of the machine. Files reads the CPU time of a
-- container, Cores the number of cores.
pub mod Files
pub mod Cores
pub mod Resolved
