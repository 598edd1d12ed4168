-- ===== src/Examples/Configs.antt =====
-- The settings: the range of the counter from its file, the attempts of a push, a field of
-- cgroup.events.
use openwhisk_runtime_go.Base.{
  ◌+◌, ◌-◌, ◌≤◌, ◌<◌, ◌≡◌, ◌⊎◌, ◌↔◌, refl, true, none, some, [], ◌∷◌, arith,
}
use openwhisk_runtime_go.Base.Int64
use openwhisk_runtime_go.Base.Text.{
  Bytes, codes, same, parse_int, digits_value, trim_space, trim_left, reverse_onto,
}
use openwhisk_runtime_go.Attribution.{delta_rapl_uj}
use openwhisk_runtime_go.CpuStat.Files.{Files, lines_of}
use openwhisk_runtime_go.Channel.Delivery.{
  Report, unreachable, deliver, accepts_killed, post_execution_killed,
}
use openwhisk_runtime_go.Proxy.Folders.{find}
use openwhisk_runtime_go.Proxy.Env.{Variables, getenv}
use openwhisk_runtime_go.Config.Rapl.{
  read_rapl_max, rapl_max_dir, rapl_path, before_last, max_of, delta_rapl_uj-read_rapl_max,
}
use openwhisk_runtime_go.Config.Delegation.{read_event_field, FirstSays, read_event_field-FirstSays}
use openwhisk_runtime_go.Config.Settings.{
  execution_killed_max_attempts, execution_killed_backoff_base,
}
use openwhisk_runtime_go.Config.Posted.{total, post_execution_killed-bounded}
use openwhisk_runtime_go.Examples.Fixtures.{machine}

-- One file, with the range of the counter.
abbrev files : Files
files = record { proc_cgroup = λ pid. none; read_file = λ path. some (codes "262143000000") }

reads : read_rapl_max files [] ≡ some 262143000000
unfolding read_rapl_max rapl_max_dir rapl_path getenv find before_last max_of trim_space trim_left
    reverse_onto parse_int digits_value same Int64.le
reads = refl

delta_rapl_uj-read_rapl_max_example :
    (0 < 262143000000)
    × (262143000000 < Int64.half)
    × (delta_rapl_uj machine 262142000000 5000 ≤ 262143000000)
    × (((262142000000 ≤ 5000) × (delta_rapl_uj machine 262142000000 5000 ≡ 5000 - 262142000000))
        ⊎ ((5000 < 262142000000)
            × ((delta_rapl_uj machine 262142000000 5000 ≡ 0)
                ⊎ (delta_rapl_uj machine 262142000000 5000 ≡ 262143000000 - 262142000000 + 5000))))
delta_rapl_uj-read_rapl_max_example =
    delta_rapl_uj-read_rapl_max files machine [] 262142000000 5000 reads (omega arith) (omega arith)

-- A number of attempts that is refused, and a collector that answers to the second one.
abbrev environ : Variables
environ = (codes "METRICS_PUSH_MAX_ATTEMPTS", codes "-5") ∷ []

abbrev events : Bytes
events = codes "populated 1"

read_event_field-FirstSays_example :
    (read_event_field (some events) (codes "populated") ≡ some (codes "1"))
    ↔ FirstSays (codes "populated") (codes "1") (lines_of events)
read_event_field-FirstSays_example =
    read_event_field-FirstSays events (codes "populated") (codes "1")

-- No setting, and a scheduler that is never reached.
abbrev unanswered : Report
unanswered =
    deliver accepts_killed (execution_killed_max_attempts []) (execution_killed_backoff_base [])
      (λ n. unreachable)

posts :
    post_execution_killed true
      (execution_killed_max_attempts [])
      (execution_killed_backoff_base [])
      (λ n. unreachable)
    ≡ some unanswered
unfolding post_execution_killed
posts = refl

unset :
    (getenv (codes "EXECUTION_KILLED_MAX_ATTEMPTS") [] ≡ [])
    × (getenv (codes "EXECUTION_KILLED_RETRY_BACKOFF_BASE_MS") [] ≡ [])
unfolding getenv find
unset = (refl, refl)

post_execution_killed-bounded_example :
    (0 < unanswered.tried) × (unanswered.tried ≤ 5) × (total unanswered.slept ≤ 3000000000)
post_execution_killed-bounded_example =
    post_execution_killed-bounded [] (λ n. unreachable) unanswered (unset.0) (unset.1) posts
