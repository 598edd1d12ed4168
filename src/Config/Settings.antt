-- ===== src/Config/Settings.antt =====
-- openwhisk/schedulerChannel.go and openwhisk/energyMonitor.go: the settings of the channel to the
-- scheduler and of the monitor. Durations are in nanoseconds.
use openwhisk_runtime_go.Base.{ℕ, ◌++◌, [], if◌then◌else◌}
use openwhisk_runtime_go.Base.Text.{Bytes, codes, same}
use openwhisk_runtime_go.Proxy.Env.{Variables, getenv}
use openwhisk_runtime_go.Config.Numbers.{number_or, positive, milliseconds}

unfoldable pub scheduler_url : Variables → Bytes
unfolding getenv same
scheduler_url environ =
    let v = getenv (codes "SCHEDULER_URL") environ in
    if same v [] then codes "http://localhost:5000" else v

unfoldable pub scheduler_events_endpoint : Variables → Bytes
unfolding scheduler_url
scheduler_events_endpoint environ = scheduler_url environ ++ codes "/api/v1/energy/events"

unfoldable pub positive_int_env : Bytes → ℕ → Variables → ℕ
unfolding number_or
positive_int_env k def environ = number_or positive k def environ

unfoldable pub scheduler_channel_timeout_margin : Variables → ℕ
unfolding number_or
scheduler_channel_timeout_margin environ =
    milliseconds (number_or positive (codes "SCHEDULER_CHANNEL_TIMEOUT_MARGIN_MS") 2000 environ)

unfoldable pub scheduler_address_resolve_max_attempts : Variables → ℕ
unfolding positive_int_env
scheduler_address_resolve_max_attempts =
    positive_int_env (codes "SCHEDULER_ADDRESS_RESOLVE_MAX_ATTEMPTS") 8

unfoldable pub scheduler_address_resolve_timeout : Variables → ℕ
unfolding positive_int_env
scheduler_address_resolve_timeout environ =
    milliseconds (positive_int_env (codes "SCHEDULER_ADDRESS_RESOLVE_TIMEOUT_MS") 500 environ)

unfoldable pub scheduler_address_resolve_backoff_base : Variables → ℕ
unfolding positive_int_env
scheduler_address_resolve_backoff_base environ =
    milliseconds
      (positive_int_env (codes "SCHEDULER_ADDRESS_RESOLVE_RETRY_BACKOFF_BASE_MS") 200 environ)

unfoldable pub scheduler_address_resolve_backoff_max : Variables → ℕ
unfolding positive_int_env
scheduler_address_resolve_backoff_max environ =
    milliseconds
      (positive_int_env (codes "SCHEDULER_ADDRESS_RESOLVE_RETRY_BACKOFF_MAX_MS") 5000 environ)

unfoldable pub execution_killed_max_attempts : Variables → ℕ
unfolding number_or
execution_killed_max_attempts = number_or positive (codes "EXECUTION_KILLED_MAX_ATTEMPTS") 5

unfoldable pub execution_killed_backoff_base : Variables → ℕ
unfolding number_or
execution_killed_backoff_base environ =
    milliseconds (number_or positive (codes "EXECUTION_KILLED_RETRY_BACKOFF_BASE_MS") 200 environ)

unfoldable pub energy_monitor_interval : Variables → ℕ
unfolding number_or
energy_monitor_interval environ =
    milliseconds (number_or positive (codes "ENERGY_MONITOR_INTERVAL_MS") 100 environ)

unfoldable pub unkillable_repoll_interval : Variables → ℕ
unfolding number_or
unkillable_repoll_interval environ =
    milliseconds (number_or positive (codes "UNKILLABLE_REPOLL_INTERVAL_MS") 1000 environ)
