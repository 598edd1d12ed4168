-- ===== src/Config/Numbers.antt =====
-- openwhisk/cgroupFreezer.go: cgroupTimeout, killConfirmWaitTimeout; openwhisk/pushgateway.go:
-- metricsPushMaxAttempts, metricsPushBackoffBase. Durations are in nanoseconds.
use openwhisk_runtime_go.Base.{ℕ, Bool, none, some, [], if◌then◌else◌}
use openwhisk_runtime_go.Base.Int64
use openwhisk_runtime_go.Base.Text.{Bytes, codes, same, parse_int}
use openwhisk_runtime_go.Proxy.Env.{Variables, getenv}

-- A variable that holds a number which is accepted, or else the default.
unfoldable pub number_or : (ℕ → Bool) → Bytes → ℕ → Variables → ℕ
unfolding getenv parse_int
number_or accepts k def environ =
    let v = getenv k environ in
    if same v []
    then def
    else elim (parse_int v) [ none ↦ def | some n ↦ if accepts n then n else def ]

abbrev pub positive : ℕ → Bool
positive n = Int64.lt 0 n

abbrev pub milliseconds : ℕ → ℕ
milliseconds n = Int64.mul n 1000000

unfoldable pub cgroup_timeout : Bytes → ℕ → Variables → ℕ
unfolding number_or
cgroup_timeout k default_ms environ = milliseconds (number_or positive k default_ms environ)

unfoldable pub kill_confirm_wait_timeout : Variables → ℕ
unfolding number_or
kill_confirm_wait_timeout environ =
    milliseconds (number_or (λ n. Int64.le 0 n) (codes "KILL_CONFIRM_WAIT_TIMEOUT_MS") 0 environ)

unfoldable pub metrics_push_max_attempts : Variables → ℕ
unfolding number_or
metrics_push_max_attempts = number_or positive (codes "METRICS_PUSH_MAX_ATTEMPTS") 3

unfoldable pub metrics_push_backoff_base : Variables → ℕ
unfolding number_or
metrics_push_backoff_base environ =
    milliseconds (number_or positive (codes "METRICS_PUSH_RETRY_BACKOFF_BASE_MS") 200 environ)
