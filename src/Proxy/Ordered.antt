-- ===== src/Proxy/Ordered.antt =====
-- openwhisk/actionProxy.go and openwhisk/runHandler.go: the order of what the handlers record, post
-- and answer.
use openwhisk_runtime_go.Base.{
  ◌⊎◌, ℕ, Bool, true, false, Option, none, some, List, [], ◌∷◌, ◌++◌, ◌≡◌, inl, inr, arith, refl,
  subst, Option-cases, Bool-cases,
}
use openwhisk_runtime_go.Attribution.{Platform}
use openwhisk_runtime_go.Sidecar.Json.{Numbers}
use openwhisk_runtime_go.Recording.{Measurement}
use openwhisk_runtime_go.Monitor.Interact.{Interacted, interact}
use openwhisk_runtime_go.Run.{
  RunInputs, Run, Reply, rejected, unchanged, reinjected, recorded_with, error as run_error,
  run_handler, after_interact, extracted, measured_j, reply_to,
}
use openwhisk_runtime_go.Proxy.Extraction.{Tools, Settings}
use openwhisk_runtime_go.Proxy.Launch.{Proxy}
use openwhisk_runtime_go.Proxy.Init.{InitReply, ok, dropped, error, init_handler}
use openwhisk_runtime_go.Proxy.Served.{
  Request, init, run, metric, elsewhere, Effect, run_effects, init_effects, run_measurement, serve,
  serve_all, InOrder, is_present,
}

module _ (p : Platform) (n : Numbers p.float) (t : Tools) (s : Settings) where
  open p.float use {Carrier}

  -- From each start, before any effects that follow.
  abbrev Keeps : List (Effect p n t s) → Type 0
  Keeps es =
      (before : Option (Measurement p)) (later : List (Effect p n t s))
      → ((b : Option (Measurement p)) → InOrder p n t s b later)
      → InOrder p n t s before (es ++ later)

  kept : (a b : List (Effect p n t s)) → a ≡ b → Keeps a → Keeps b
  kept a b h = subst Keeps h

  ordered :
      (a b : List (Effect p n t s)) (before : Option (Measurement p))
      → a ≡ b
      → InOrder p n t s before a
      → InOrder p n t s before b
  ordered a b before h = subst (InOrder p n t s before) h

  init_effects-Keeps :
      (m : Measurement p) (reply : InitReply) → Keeps (init_effects p n t s m reply)
  init_effects-Keeps m ok before later h = h _
  init_effects-Keeps m dropped before later h = h _
  init_effects-Keeps m (error status) before later h = h _

  error-Keeps :
      (r : RunInputs p n) (m : Measurement p) (status : ℕ) (keeps : Bool)
      → Keeps (run_effects p n t s r m (run_error p n status keeps))
  error-Keeps r m status keeps before later h = (tt, h none)

  killed-Keeps :
      (r : RunInputs p n) (m : Measurement p) (j : Carrier) (total : Option Carrier)
      → Keeps (
          run_effects p n t s r m (record {
            reply = rejected 400;
            keeps_executor = false;
            killed_at_j = total;
            recorded = some j;
          }))
  unfolding run_measurement
  killed-Keeps r m j none before later h = (tt, h none)
  killed-Keeps r m j (some total) before later h = ((refl, refl), (tt, h none))

  replied-Keeps :
      (r : RunInputs p n) (m : Measurement p) (reply : Reply p n)
      → Keeps (
          run_effects p n t s r m (record {
            reply = reply;
            keeps_executor = true;
            killed_at_j = none;
            recorded = recorded_with p n reply;
          }))
  unfolding run_measurement
  replied-Keeps r m (rejected status) before later h = (tt, h none)
  replied-Keeps r m (unchanged out) before later h = ((refl, refl), h none)
  replied-Keeps r m (reinjected body) before later h = ((refl, refl), h none)

  after_interact-Keeps :
      (r r' : RunInputs p n) (m : Measurement p) (measured : Carrier) (x : Interacted p)
      → Keeps (run_effects p n t s r' m (after_interact p n r measured x))
  unfolding after_interact
  after_interact-Keeps r r' m measured x = elim (Option-cases x.kill_info) [
    | inr (k, e) ↦ rw (e, after_interact) (killed-Keeps r' m k.energy_consumed_j _)
    | inl e ↦ elim (Option-cases x.failure) [
      | inl f ↦
          rw (e, after_interact)
            (rw (f, after_interact)
              (replied-Keeps r' m (reply_to p n r measured x.energy x.answer)))
      | inr (_, f) ↦ rw (e, after_interact) (rw (f, after_interact) (error-Keeps r' m 400 false))
    ]
  ]

  -- The runs that runHandler ends in.
  pub run_handler_cases :
      (r : RunInputs p n) (v : Run p n)
      → run_handler p n r ≡ some v
      → ((status : ℕ) × (keeps : Bool) × (run_error p n status keeps ≡ v))
        ⊎ ((x : Interacted p) × (interact p (extracted p n r) r.interaction r.controller ≡ some x)
            × (after_interact p n r (measured_j p n (extracted p n r) r) x ≡ v))
  unfolding run_handler
  run_handler_cases r v h = elim (Bool-cases r.body_read) [
    | inr a ↦ inl (400, true, ground (arith, a, h))
    | inl a ↦ elim (Bool-cases r.has_executor) [
      | inr b ↦ inl (500, false, ground (arith, a, b, h))
      | inl b ↦ elim (Bool-cases r.exited) [
        | inl c ↦ inl (500, true, ground (arith, a, b, c, h))
        | inr c ↦ elim (Option-cases (interact p (extracted p n r) r.interaction r.controller)) [
          | inl d ↦ absurd (ground (arith, a, b, c, d, h))
          | inr (x, d) ↦ inr (x, d, ground (arith, a, b, c, d, h))
        ]
      ]
    ]
  ]

  run_handler-Keeps :
      (r : RunInputs p n) (m : Measurement p) (v : Run p n)
      → run_handler p n r ≡ some v
      → Keeps (run_effects p n t s r m v)
  run_handler-Keeps r m v h = elim (run_handler_cases r v h) [
    | inl (status, keeps, e) ↦
        subst (λ v. Keeps (run_effects p n t s r m v)) e (error-Keeps r m status keeps)
    | inr (x, i, e) ↦
        subst (λ v. Keeps (run_effects p n t s r m v)) e
          (after_interact-Keeps r r m (measured_j p n (extracted p n r) r) x)
  ]

  serve-Keeps :
      (q : Request p n t s) (px px' : Proxy) (es : List (Effect p n t s))
      → serve p n t s q px ≡ some (es, px')
      → Keeps es
  unfolding serve
  serve-Keeps metric px px' es h = kept [] es (ground (arith, h)) (λ before later k. k before)
  serve-Keeps elsewhere px px' es h = kept [] es (ground (arith, h)) (λ before later k. k before)
  serve-Keeps (init r m) px px' es h =
      kept (init_effects p n t s m (init_handler t s r px).0) es (ground (arith, h))
        (init_effects-Keeps m (init_handler t s r px).0)
  serve-Keeps (run r m) px px' es h =
      let r' = record r { has_executor = is_present p n t s px.executor } in
      elim (Option-cases (run_handler p n r')) [
        | inl e ↦ absurd (ground (arith, e, h))
        | inr (v, e) ↦
            kept (run_effects p n t s r' m v) es (ground (arith, e, h)) (run_handler-Keeps r' m v e)
      ]

  -- Over any requests that are all served, in any order: every EXECUTION_KILLED event is posted,
  -- and every result of an action is answered, right after a measurement was recorded,
  -- synchronously and under /run; there is no other effect between the two.
  pub serve_all-InOrder :
      (qs : List (Request p n t s)) (px px' : Proxy) (es : List (Effect p n t s))
      (before : Option (Measurement p))
      → serve_all p n t s qs px ≡ some (es, px')
      → InOrder p n t s before es
  unfolding serve_all
  serve_all-InOrder [] px px' es before h = ordered [] es before (ground (arith, h)) tt
  serve_all-InOrder (q ∷ qs) px px' es before h = elim (Option-cases (serve p n t s q px)) [
    | inl a ↦ absurd (ground (arith, a, h))
    | inr ((first, px1), a) ↦ elim (Option-cases (serve_all p n t s qs px1)) [
      | inl b ↦ absurd (ground (arith, a, b, h))
      | inr ((later, px2), b) ↦
          ordered (first ++ later) es before (ground (arith, a, b, h)) (
            serve-Keeps q px px1 first a before later (λ c. serve_all-InOrder qs px1 px2 later c b))
    ]
  ]
