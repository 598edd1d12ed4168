-- ===== src/Proxy/Pushed.antt =====
-- openwhisk/actionProxy.go with openwhisk/metrics_helpers.go: what a sequence of requests pushes to
-- the collector.
use openwhisk_runtime_go.Base.{
  ℕ, Bool, true, false, suc, ◌≡◌, Option, none, some, List, [], ◌∷◌, ◌++◌, inl, inr, arith, refl,
  subst, ap, ◌∙◌, length, Option-cases, Bool-cases,
}
use openwhisk_runtime_go.Attribution.{Platform}
use openwhisk_runtime_go.Freezer.Machine.{Controller}
use openwhisk_runtime_go.Sidecar.Json.{Numbers}
use openwhisk_runtime_go.Sidecar.State.{EnergyState}
use openwhisk_runtime_go.Monitor.Interact.{
  Interaction, Interacted, EnergyKillInfo, interact, awaited, collected, monitored,
  collected-threshold,
}
use openwhisk_runtime_go.Monitor.Classes.{should_monitor_energy}
use openwhisk_runtime_go.Recording.{Measurement, new_books}
use openwhisk_runtime_go.Recording.Ledger.{
  record_all, runs_measured, runs_pushed, IsPaired, record_all-pushed,
}
use openwhisk_runtime_go.Run.{
  RunInputs, Run, Reply, rejected, unchanged, reinjected, recorded_with, error as run_error,
  run_handler, after_interact, extracted, measured_j, reply_to,
}
use openwhisk_runtime_go.Proxy.Extraction.{Tools, Settings}
use openwhisk_runtime_go.Proxy.Launch.{Proxy}
use openwhisk_runtime_go.Proxy.Init.{InitReply, ok, dropped, error, init_handler}
use openwhisk_runtime_go.Proxy.Served.{
  Request, init, run, metric, elsewhere, Effect, recorded, posted, run_answered, run_effects,
  init_effects, run_measurement, serve, serve_all, is_present,
}
use openwhisk_runtime_go.Proxy.Ordered.{run_handler_cases}

module _ (p : Platform) (n : Numbers p.float) (t : Tools) (s : Settings) where
  open p.float use {Carrier}

  -- The measurements that are recorded, and the activations that are killed or answered with the
  -- result of the action.
  abbrev pub measurements : List (Effect p n t s) → List (Measurement p)
  measurements [] = []
  measurements (recorded m ∷ es) = m ∷ measurements es
  measurements (_ ∷ es) = measurements es

  abbrev pub settled : List (Effect p n t s) → ℕ
  settled [] = 0
  settled (posted j ∷ es) = suc (settled es)
  settled (run_answered (unchanged out) ∷ es) = suc (settled es)
  settled (run_answered (reinjected m) ∷ es) = suc (settled es)
  settled (_ ∷ es) = settled es

  interact-killed :
      (e : Option (EnergyState p.float)) (i : Interaction p) (c : Controller) (x : Interacted p)
      (k : EnergyKillInfo p)
      → interact p e i c ≡ some x
      → x.kill_info ≡ some k
      → (st : EnergyState p.float) × (x.energy ≡ some st)
  unfolding interact awaited collected
  interact-killed none i c x k h d = absurd (ground (arith, h, d))
  interact-killed (some st) i c x k h d = elim (Bool-cases (should_monitor_energy (some st))) [
    | inl e ↦ (_, collected-threshold p st i (monitored p st i c) x (rw (e, interact) at h))
    | inr e ↦ absurd (ground (arith, e, h, d))
  ]

  -- As many measurements under /run as activations settled, with any effects that follow.
  abbrev Balanced : List (Effect p n t s) → Type 0
  Balanced es =
      (later : List (Effect p n t s))
      → length (runs_measured p (measurements later)) ≡ settled later
      → length (runs_measured p (measurements (es ++ later))) ≡ settled (es ++ later)

  init_effects-Balanced :
      (m : Measurement p) (reply : InitReply) → Balanced (init_effects p n t s m reply)
  init_effects-Balanced m ok later h = h
  init_effects-Balanced m dropped later h = h
  init_effects-Balanced m (error status) later h = h

  error-Balanced :
      (r : RunInputs p n) (m : Measurement p) (status : ℕ) (keeps : Bool)
      → Balanced (run_effects p n t s r m (run_error p n status keeps))
  error-Balanced r m status keeps later h = h

  replied-Balanced :
      (r : RunInputs p n) (m : Measurement p) (reply : Reply p n)
      → Balanced (
          run_effects p n t s r m (record {
            reply = reply;
            keeps_executor = true;
            killed_at_j = none;
            recorded = recorded_with p n reply;
          }))
  unfolding run_measurement
  replied-Balanced r m (rejected status) later h = h
  replied-Balanced r m (unchanged out) later h = ap suc h
  replied-Balanced r m (reinjected body) later h = ap suc h

  killed-Balanced :
      (r : RunInputs p n) (m : Measurement p) (j total : Carrier)
      → Balanced (
          run_effects p n t s r m (record {
            reply = rejected 400;
            keeps_executor = false;
            killed_at_j = some total;
            recorded = some j;
          }))
  unfolding run_measurement
  killed-Balanced r m j total later h = ap suc h

  after_interact-Balanced :
      (r : RunInputs p n) (m : Measurement p) (measured : Carrier) (x : Interacted p)
      → interact p (extracted p n r) r.interaction r.controller ≡ some x
      → Balanced (run_effects p n t s r m (after_interact p n r measured x))
  unfolding after_interact
  after_interact-Balanced r m measured x i = elim (Option-cases x.kill_info) [
    | inr (k, e) ↦
        let (st, f) = interact-killed (extracted p n r) r.interaction r.controller x k i e in
        rw (e, after_interact)
          (rw (f, after_interact)
            (killed-Balanced r m k.energy_consumed_j
              (p.float.add k.energy_consumed_j st.consumed_before_j)))
    | inl e ↦ elim (Option-cases x.failure) [
      | inl f ↦
          rw (e, after_interact)
            (rw (f, after_interact)
              (replied-Balanced r m (reply_to p n r measured x.energy x.answer)))
      | inr (_, f) ↦ rw (e, after_interact) (rw (f, after_interact) (error-Balanced r m 400 false))
    ]
  ]

  run_handler-Balanced :
      (r : RunInputs p n) (m : Measurement p) (v : Run p n)
      → run_handler p n r ≡ some v
      → Balanced (run_effects p n t s r m v)
  run_handler-Balanced r m v h = elim (run_handler_cases p n t s r v h) [
    | inl (status, keeps, e) ↦
        subst (λ v. Balanced (run_effects p n t s r m v)) e (error-Balanced r m status keeps)
    | inr (x, i, e) ↦
        subst (λ v. Balanced (run_effects p n t s r m v)) e
          (after_interact-Balanced r m (measured_j p n (extracted p n r) r) x i)
  ]

  balanced : (a b : List (Effect p n t s)) → a ≡ b → Balanced a → Balanced b
  balanced a b h = subst Balanced h

  serve-Balanced :
      (q : Request p n t s) (px px' : Proxy) (es : List (Effect p n t s))
      → serve p n t s q px ≡ some (es, px')
      → Balanced es
  unfolding serve
  serve-Balanced metric px px' es h = balanced [] es (ground (arith, h)) (λ later k. k)
  serve-Balanced elsewhere px px' es h = balanced [] es (ground (arith, h)) (λ later k. k)
  serve-Balanced (init r m) px px' es h =
      balanced (init_effects p n t s m (init_handler t s r px).0) es (ground (arith, h))
        (init_effects-Balanced m (init_handler t s r px).0)
  serve-Balanced (run r m) px px' es h =
      let r' = record r { has_executor = is_present p n t s px.executor } in
      elim (Option-cases (run_handler p n r')) [
        | inl e ↦ absurd (ground (arith, e, h))
        | inr (v, e) ↦
            balanced (run_effects p n t s r' m v) es (ground (arith, e, h))
              (run_handler-Balanced r' m v e)
      ]

  serve_all-balanced :
      (qs : List (Request p n t s)) (px px' : Proxy) (es : List (Effect p n t s))
      → serve_all p n t s qs px ≡ some (es, px')
      → length (runs_measured p (measurements es)) ≡ settled es
  unfolding serve_all
  serve_all-balanced [] px px' es h =
      subst (λ es. length (runs_measured p (measurements es)) ≡ settled es) {x = []} {y = es}
        (ground (arith, h)) refl
  serve_all-balanced (q ∷ qs) px px' es h = elim (Option-cases (serve p n t s q px)) [
    | inl a ↦ absurd (ground (arith, a, h))
    | inr ((first, px1), a) ↦ elim (Option-cases (serve_all p n t s qs px1)) [
      | inl b ↦ absurd (ground (arith, a, b, h))
      | inr ((later, px2), b) ↦
          subst (λ es. length (runs_measured p (measurements es)) ≡ settled es) {x = first ++ later}
            {y = es} (ground (arith, a, b, h))
            (serve-Balanced q px px1 first a later (serve_all-balanced qs px1 px2 later b))
    ]
  ]

  -- Over any requests that are all served, from books without pushes: the activations that were
  -- answered with the result of the action or whose EXECUTION_KILLED was posted are exactly as many
  -- as the pushes under /run, and each push of an /init stands right before the push of a /run,
  -- with its trace, activation and phase. An activation that was rejected pushes nothing.
  pub serve_all-pushed :
      (qs : List (Request p n t s)) (px px' : Proxy) (es : List (Effect p n t s))
      → serve_all p n t s qs px ≡ some (es, px')
      → (length (runs_pushed p (record_all p (measurements es) (new_books p)).pushed) ≡ settled es)
        × IsPaired p (record_all p (measurements es) (new_books p)).pushed
  serve_all-pushed qs px px' es h =
      let (paired, pushes) = record_all-pushed p (measurements es) (new_books p) tt in
      (ap length pushes ∙ serve_all-balanced qs px px' es h, paired)
