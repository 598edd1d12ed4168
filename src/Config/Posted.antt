-- ===== src/Config/Posted.antt =====
-- openwhisk/schedulerChannel.go: how long postExecutionKilled keeps the reply of a killed step, with
-- the settings of the environment.
use openwhisk_runtime_go.Base.{
  ℕ, zero, suc, ◌+◌, ◌≤◌, ◌<◌, ◌≡◌, inl, inr, refl, Bool, true, some, List, [], ◌∷◌, ◌++◌, arith,
}
use openwhisk_runtime_go.Base.Int64
use openwhisk_runtime_go.Base.Text.{codes, same}
use openwhisk_runtime_go.Proxy.Env.{Variables, getenv}
use openwhisk_runtime_go.Channel.Delivery.{
  Attempt, LastError, no_error, Report, accepts_killed, backoff, verdict, Verdict-cases, deliver,
  deliver_from, post_execution_killed, as_post,
}
use openwhisk_runtime_go.Config.Numbers.{number_or}
use openwhisk_runtime_go.Config.Settings.{
  execution_killed_max_attempts, execution_killed_backoff_base,
}
use openwhisk_runtime_go.Config.Attempted.{deliver_tried}

abbrev pub total : List ℕ → ℕ
total [] = 0
total (t ∷ ts) = t + total ts

total-append : (xs ys : List ℕ) → total (xs ++ ys) ≡ total xs + total ys
total-append [] ys = omega arith
total-append (x ∷ xs) ys = omega (arith, total-append xs ys)

-- The sleeps before `k` attempts from the attempt `n` on.
unfoldable all_backoffs : ℕ → ℕ → ℕ → ℕ
unfolding backoff
all_backoffs base zero n = 0
all_backoffs base (suc k) n = total (backoff base n) + all_backoffs base k (suc n)

module _ (accepts : ℕ → Bool) (max_attempts base : ℕ) (attempts : ℕ → Attempt) where
  deliver_from-slept :
      (k n : ℕ) (last : LastError)
      → total (deliver_from accepts max_attempts base attempts k n last).slept
        ≤ all_backoffs base k n
  unfolding deliver_from all_backoffs
  deliver_from-slept zero n last = omega arith
  deliver_from-slept (suc k) n last = elim (Verdict-cases (verdict accepts (attempts n))) [
    | inl v ↦ ground (arith, v)
    | inr (inl v) ↦ ground (arith, v)
    | inr (inr (inl v)) ↦ ground (arith, v)
    | inr (inr (inr (e, v))) ↦
        let later = (deliver_from accepts max_attempts base attempts k (suc n) e).slept in
        ground (arith, v, total-append (backoff base n) later, deliver_from-slept k (suc n) e)
  ]

defaults :
    (environ : Variables)
    → getenv (codes "EXECUTION_KILLED_MAX_ATTEMPTS") environ ≡ []
    → getenv (codes "EXECUTION_KILLED_RETRY_BACKOFF_BASE_MS") environ ≡ []
    → (execution_killed_max_attempts environ ≡ 5)
      × (execution_killed_backoff_base environ ≡ 200000000)
unfolding execution_killed_max_attempts execution_killed_backoff_base number_or same Int64.mul
defaults environ h k = (rw (h, number_or) refl, rw (k, number_or) refl)

default_backoffs : all_backoffs 200000000 5 0 ≡ 3000000000
unfolding all_backoffs backoff Int64.mul
default_backoffs = refl

-- Without settings in the environment, and whatever the attempts meet: EXECUTION_KILLED is posted at
-- least once and at most five times, and the sleeps between the posts, which the reply of the killed
-- step waits for, are three seconds at most.
pub post_execution_killed-bounded :
    (environ : Variables) (attempts : ℕ → Attempt) (r : Report)
    → getenv (codes "EXECUTION_KILLED_MAX_ATTEMPTS") environ ≡ []
    → getenv (codes "EXECUTION_KILLED_RETRY_BACKOFF_BASE_MS") environ ≡ []
    → post_execution_killed true
        (execution_killed_max_attempts environ)
        (execution_killed_backoff_base environ)
        attempts
      ≡ some r
    → (0 < r.tried) × (r.tried ≤ 5) × (total r.slept ≤ 3000000000)
unfolding post_execution_killed deliver
post_execution_killed-bounded environ attempts r h k e =
    let (five, base) = defaults environ h k in
    let posts = λ (n : ℕ). as_post (attempts n) in
    let made : deliver accepts_killed 5 200000000 posts ≡ r = ground (arith, e, five, base) in
    let tried = deliver_tried accepts_killed 5 200000000 posts (omega arith) in
    let slept = deliver_from-slept accepts_killed 5 200000000 posts 5 0 no_error in
    ground (arith, made, tried, slept, default_backoffs)
