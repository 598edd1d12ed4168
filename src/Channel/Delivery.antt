-- ===== src/Channel/Delivery.antt =====
-- openwhisk/schedulerChannel.go: postExecutionKilled; openwhisk/pushgateway.go: pushMetrics. Both
-- post one body, with bounded retries and an exponential backoff; they differ in the statuses
-- that they accept. What each attempt meets is an argument.
use openwhisk_runtime_go.Base.{
  ℕ, zero, suc, ◌+◌, ◌^◌, ◌%◌, ◌++◌, Option, none, some, ◌≤◌, ◌<◌, ◌≡◌, ◌⊎◌, inl, inr, refl, subst,
  ◌∙◌, Bool, ◌&&◌, ◌||◌, List, [], ◌∷◌, if◌then◌else◌, ltb, leb, ◌==◌, arith,
}
use openwhisk_runtime_go.Base.Int64

-- An attempt: the request cannot be built, the post fails, or it is answered with a status.
pub data Attempt : Type 0 where
  unbuilt unreachable : Attempt
  answered : ℕ → Attempt

pub data LastError : Type 0 where
  no_error post_failed : LastError
  http : ℕ → LastError

-- How the loop ends; `undelivered` is the [safety] event, with the attempts that it reports.
pub data Ending : Type 0 where
  delivered abandoned : Ending
  undelivered : ℕ → LastError → Ending

-- The attempts that were made, the sleeps before them in nanoseconds, and the end.
pub record Report : Type 0 where
  pub tried : ℕ
  pub slept : List ℕ
  pub ending : Ending

-- base * time.Duration(1<<uint(attempt-1)), where attempt is not 0.
unfoldable pub backoff : ℕ → ℕ → List ℕ
backoff base zero = []
backoff base (suc n) = Int64.mul base (2 ^ n % Int64.modulus) ∷ []

abbrev pub is_refusal : ℕ → Bool
is_refusal status = leb 400 status && ltb status 500

-- status >= 200 && status < 300, of postExecutionKilled.
abbrev pub accepts_killed : ℕ → Bool
accepts_killed status = leb 200 status && ltb status 300

-- StatusOK or StatusAccepted, of pushMetrics.
abbrev pub accepts_metrics : ℕ → Bool
accepts_metrics status = (status == 200) || (status == 202)

-- What an attempt decides.
pub data Verdict : Type 0 where
  accept give_up refuse : Verdict
  retry : LastError → Verdict

unfoldable pub verdict : (ℕ → Bool) → Attempt → Verdict
verdict accepts unbuilt = give_up
verdict accepts unreachable = retry post_failed
verdict accepts (answered status) =
    if accepts status then accept else if is_refusal status then refuse else retry (http status)

pub Verdict-cases :
    (v : Verdict)
    → (v ≡ accept) ⊎ ((v ≡ give_up) ⊎ ((v ≡ refuse) ⊎ ((e : LastError) × (v ≡ retry e))))
Verdict-cases accept = inl refl
Verdict-cases give_up = inr (inl refl)
Verdict-cases refuse = inr (inr (inl refl))
Verdict-cases (retry e) = inr (inr (inr (e, refl)))

zero_plus : (m : ℕ) → 0 + m ≡ m
zero_plus m = omega arith

le-cases : (a b : ℕ) → a ≤ b → (a ≡ b) ⊎ (a < b)
le-cases a b h = ground arith

abbrev status_of : Attempt → LastError
status_of (answered status) = http status
status_of _ = no_error

module _ (accepts : ℕ → Bool) (max_attempts base : ℕ) (attempts : ℕ → Attempt) where
  abbrev one_post : ℕ → Ending → Report
  one_post n e = record { tried = suc n; slept = backoff base n; ending = e }

  -- The loop from the attempt `n` on, with `k` left.
  unfoldable pub deliver_from : ℕ → ℕ → LastError → Report
  unfolding verdict backoff
  deliver_from zero n last = record {
    tried = n;
    slept = [];
    ending = undelivered max_attempts last;
  }
  deliver_from (suc k) n last = elim (verdict accepts (attempts n)) [
    | accept ↦ one_post n delivered
    | give_up ↦ one_post n abandoned
    | refuse ↦ one_post n (undelivered max_attempts (status_of (attempts n)))
    | retry e ↦
        let later = deliver_from k (suc n) e in
        record later { slept = backoff base n ++ later.slept }
  ]

  unfoldable pub deliver : Report
  unfolding deliver_from
  deliver = deliver_from max_attempts 0 no_error

-- In client.Post a request that cannot be built is a failed post.
abbrev pub as_post : Attempt → Attempt
as_post unbuilt = unreachable
as_post a = a

-- `none`: the body cannot be marshalled, and nothing is sent.
unfoldable pub post_execution_killed : Bool → ℕ → ℕ → (ℕ → Attempt) → Option Report
unfolding deliver
post_execution_killed marshals max_attempts base attempts =
    if marshals
    then some (deliver accepts_killed max_attempts base (λ n. as_post (attempts n)))
    else none

unfoldable pub push_metrics : Bool → Bool → ℕ → ℕ → (ℕ → Attempt) → Option Report
unfolding deliver
push_metrics collector_url_set marshals max_attempts base attempts =
    if collector_url_set && marshals
    then some (deliver accepts_metrics max_attempts base attempts)
    else none

module _ (accepts : ℕ → Bool) (max_attempts base : ℕ) (attempts : ℕ → Attempt) where
  abbrev Decides : ℕ → Ending → Type 0
  Decides n delivered = verdict accepts (attempts n) ≡ accept
  Decides n abandoned = verdict accepts (attempts n) ≡ give_up
  Decides n (undelivered k last) = (verdict accepts (attempts n) ≡ refuse) × (k ≡ max_attempts)

  -- The attempt leaves it to the next one.
  abbrev pub IsRetry : ℕ → Type 0
  IsRetry m = (e : LastError) × (verdict accepts (attempts m) ≡ retry e)

  -- Each attempt in the range leaves it to the next one.
  abbrev pub RetriedFrom : ℕ → ℕ → Type 0
  RetriedFrom from upto = (m : ℕ) → from ≤ m → m < upto → IsRetry m

  -- Either every attempt was made, and none decided; or the last one made is the first that did.
  abbrev pub Explains : ℕ → ℕ → Report → Type 0
  Explains from upto r =
      (RetriedFrom from upto
        × (r.tried ≡ upto)
        × ((last : LastError) × (r.ending ≡ undelivered max_attempts last)))
      ⊎ ((n : ℕ) × (from ≤ n)
          × (n < upto)
          × RetriedFrom from n
          × (r.tried ≡ suc n)
          × Decides n r.ending)

  RetriedFrom-empty : (n : ℕ) → RetriedFrom n n
  RetriedFrom-empty n m low high = absurd (omega arith)

  RetriedFrom-suc : (n upto : ℕ) → IsRetry n → RetriedFrom (suc n) upto → RetriedFrom n upto
  RetriedFrom-suc n upto here later m low high = elim (le-cases n m low) [
    | inl same ↦ subst IsRetry same here
    | inr before ↦ later m (omega arith) high
  ]

  deliver_from-Explains :
      (k n : ℕ) (last : LastError)
      → Explains n (n + k) (deliver_from accepts max_attempts base attempts k n last)
  unfolding deliver_from
  deliver_from-Explains zero n last =
      inl ((λ m low high. absurd (omega arith)), omega arith, (last, refl))
  deliver_from-Explains (suc k) n last = elim (Verdict-cases (verdict accepts (attempts n))) [
    | inl e ↦ rw (e, deliver_from) (inr (n, omega arith, omega arith, RetriedFrom-empty n, refl, e))
    | inr (inl e) ↦
        rw (e, deliver_from) (inr (n, omega arith, omega arith, RetriedFrom-empty n, refl, e))
    | inr (inr (inl e)) ↦
        rw (e, deliver_from)
          (inr (n, omega arith, omega arith, RetriedFrom-empty n, refl, (e, refl)))
    | inr (inr (inr (err, e))) ↦
        let onward =
          λ (upto : ℕ) (r : RetriedFrom (suc n) upto). RetriedFrom-suc n upto (err, e) r in
        let longer : suc n + k ≡ n + suc k = omega arith in
        rw (e, deliver_from)
          (elim (deliver_from-Explains k (suc n) err) [
            | inl (retried, all, l) ↦
                inl (subst (RetriedFrom n) longer (onward (suc n + k) retried), all ∙ longer, l)
            | inr (m, low, high, retried, made, d) ↦
                inr (m, omega arith, omega arith, onward m retried, made, d)
          ])
  ]

  -- How the delivery ends. Either every attempt allowed was made, and each of them left it to the
  -- next one, and it is reported undelivered; or the first attempt below the bound that did not is
  -- the last one made, and it is delivered if that one was accepted, abandoned if it could not be
  -- built, and reported undelivered if it was refused. The number of attempts reported is always
  -- the bound and not the number made.
  pub deliver-Explains : Explains 0 max_attempts (deliver accepts max_attempts base attempts)
  unfolding deliver
  deliver-Explains =
      subst (λ m. Explains 0 m (deliver accepts max_attempts base attempts))
        (zero_plus max_attempts) (deliver_from-Explains max_attempts 0 no_error)

  deliver_from_first :
      (k from n : ℕ) (last : LastError)
      → ((m : ℕ) → m < n → IsRetry m)
      → verdict accepts (attempts n) ≡ accept
      → from ≤ n
      → n < from + k
      → let r = deliver_from accepts max_attempts base attempts k from last in
        (r.ending ≡ delivered) × (r.tried ≡ suc n)
  unfolding deliver_from
  deliver_from_first zero from n last h a low high = absurd (omega arith)
  deliver_from_first (suc k) from n last h a low high = elim (le-cases from n low) [
    | inl here ↦ rw (here) (rw (a, deliver_from) (refl, refl))
    | inr before ↦
        let (e, again) = h from before in
        rw (again, deliver_from)
          (deliver_from_first k (suc from) n e h a (omega arith) (omega arith))
  ]

  -- The first attempt that is accepted, if it is below the bound and every one before it could be
  -- retried, is the last one made, and the body is delivered.
  deliver_first :
      (n : ℕ)
      → ((m : ℕ) → m < n → IsRetry m)
      → verdict accepts (attempts n) ≡ accept
      → n < max_attempts
      → ((deliver accepts max_attempts base attempts).ending ≡ delivered)
        × ((deliver accepts max_attempts base attempts).tried ≡ suc n)
  unfolding deliver
  deliver_first n h a b =
      deliver_from_first max_attempts 0 n no_error h a (omega arith) (omega arith)
