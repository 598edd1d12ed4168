-- ===== src/Config/Attempted.antt =====
-- openwhisk/pushgateway.go: the attempts of pushMetrics with the settings of the environment.
use openwhisk_runtime_go.Base.{ℕ, ◌≤◌, ◌<◌, ◌≡◌, inl, inr, Bool, true, some, arith, Option-cases}
use openwhisk_runtime_go.Base.Int64
use openwhisk_runtime_go.Base.Text.{Bytes, codes, parse_int, parse_int-range}
use openwhisk_runtime_go.Proxy.Env.{Variables, getenv}
use openwhisk_runtime_go.Channel.Delivery.{
  Attempt, Report, accepts_metrics, deliver, deliver-Explains, push_metrics,
}
use openwhisk_runtime_go.Config.Numbers.{
  number_or, positive, metrics_push_max_attempts, metrics_push_backoff_base,
}

pub number_or-positive :
    (k : Bytes) (def : ℕ) (environ : Variables)
    → 0 < def
    → def < Int64.half
    → (0 < number_or positive k def environ) × (number_or positive k def environ < Int64.half)
unfolding number_or Int64.lt
number_or-positive k def environ h l = elim (Option-cases (parse_int (getenv k environ))) [
  | inl e ↦ ground (arith, e, h, l)
  | inr (n, e) ↦ let r = parse_int-range (getenv k environ) n e in ground (arith, e, r, h, l)
]

pub deliver_tried :
    (accepts : ℕ → Bool) (max_attempts base : ℕ) (attempts : ℕ → Attempt)
    → 0 < max_attempts
    → (0 < (deliver accepts max_attempts base attempts).tried)
      × ((deliver accepts max_attempts base attempts).tried ≤ max_attempts)
deliver_tried accepts max_attempts base attempts h =
    elim (deliver-Explains accepts max_attempts base attempts) [
      | inl (retried, all, _) ↦ ground (arith, all, h)
      | inr (n, low, high, retried, made, _) ↦ ground (arith, made, high)
    ]

max_attempts_range :
    (environ : Variables)
    → (0 < metrics_push_max_attempts environ) × (metrics_push_max_attempts environ < Int64.half)
unfolding metrics_push_max_attempts
max_attempts_range environ =
    number_or-positive (codes "METRICS_PUSH_MAX_ATTEMPTS") 3 environ (omega arith) (omega arith)

-- Whatever the environment holds (nothing, no number, zero, a negative number), and whatever the
-- attempts meet: a measurement that is pushed is tried at least once, and at most as often as
-- METRICS_PUSH_MAX_ATTEMPTS says, which is a positive number below 2 ^ 63.
push_metrics-attempted :
    (environ : Variables) (attempts : ℕ → Attempt) (r : Report)
    → push_metrics true true
        (metrics_push_max_attempts environ)
        (metrics_push_backoff_base environ)
        attempts
      ≡ some r
    → (0 < r.tried)
      × (r.tried ≤ metrics_push_max_attempts environ)
      × (metrics_push_max_attempts environ < Int64.half)
unfolding push_metrics
push_metrics-attempted environ attempts r h =
    let (positive, small) = max_attempts_range environ in
    ground (
      arith,
      h,
      small,
      deliver_tried accepts_metrics (metrics_push_max_attempts environ)
          (metrics_push_backoff_base environ) attempts positive,
    )
