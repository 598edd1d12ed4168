-- ===== src/Proxy/Locked.antt =====
-- openwhisk/initHandler.go and openwhisk/runHandler.go: the lock on the initialisation, and a
-- container without an executor, on one request.
use openwhisk_runtime_go.Base.{
  ◌+◌, ◌≡◌, ◌⊎◌, inl, inr, true, false, some, List, [], ◌∷◌, ◌++◌, arith, refl, Option-cases,
  Bool-cases,
}
use openwhisk_runtime_go.Attribution.{Platform}
use openwhisk_runtime_go.Sidecar.Json.{Numbers}
use openwhisk_runtime_go.Recording.{Measurement}
use openwhisk_runtime_go.Run.{RunInputs, Run, rejected, run_handler, error as run_error}
use openwhisk_runtime_go.Proxy.Env.{set_env}
use openwhisk_runtime_go.Proxy.Extraction.{
  Tools, Settings, End, Store, done, failed, panicked, extract_and_compile,
}
use openwhisk_runtime_go.Proxy.Launch.{System, Proxy, start_latest_action}
use openwhisk_runtime_go.Proxy.Init.{
  InitRequest, InitReply, ok, dropped, error, code_of, main_of, launched, deployed, init_handler,
}
use openwhisk_runtime_go.Proxy.Served.{
  Effect, recorded, posted, init_answered, run_answered, run_effects, accepted,
}

module _ (p : Platform) (n : Numbers p.float) (t : Tools) (s : Settings) where
  -- A reply ok closes the lock, any other leaves it.
  abbrev pub Locks : Proxy → InitReply × Proxy → Type 0
  Locks px (ok, px') = px'.initialized ≡ true
  Locks px (dropped, px') = px'.initialized ≡ px.initialized
  Locks px (error status, px') = px'.initialized ≡ px.initialized

  launched-Locks :
      (px : Proxy) (e : End Unit × Proxy)
      → e.1.initialized ≡ px.initialized
      → Locks px (launched t s e)
  unfolding launched
  launched-Locks px (done _, px') h = refl
  launched-Locks px (failed, px') h = h
  launched-Locks px (panicked, px') h = h

  start_latest_action-initialized :
      (y : System) (px : Proxy) → (start_latest_action t s y px).1.initialized ≡ px.initialized
  unfolding start_latest_action
  start_latest_action-initialized y px = ground arith

  deployed-Locks : (e : End Unit × Store) (y : System) (px : Proxy) → Locks px (deployed t s e y px)
  unfolding deployed
  deployed-Locks (failed, st) y px = refl
  deployed-Locks (panicked, st) y px = refl
  deployed-Locks (done _, st) y px =
      let px' = record px { store = st } in
      launched-Locks px (start_latest_action t s y px') (start_latest_action-initialized y px')

  pub init_handler-Locks : (r : InitRequest) (px : Proxy) → Locks px (init_handler t s r px)
  unfolding init_handler
  init_handler-Locks r px = elim (Option-cases r.body) [
    | inl e ↦ ground (arith, e)
    | inr (b, e) ↦ elim (Option-cases (code_of t s b)) [
      | inl f ↦ ground (arith, e, f)
      | inr (buf, f) ↦
          let env = set_env s.environ b.env px.env in
          ground (
            arith,
            e,
            f,
            deployed-Locks (extract_and_compile t s env (main_of b) buf px.store) r.system
                (record px { env = env }),
          )
    ]
  ]

  pub init_handler-locked :
      (r : InitRequest) (px : Proxy)
      → s.debugging ≡ false
      → px.initialized ≡ true
      → init_handler t s r px ≡ (error 403, px)
  unfolding init_handler
  init_handler-locked r px d h = ground (arith, d, h)

  pub accepted-append :
      (xs ys : List (Effect p n t s))
      → accepted p n t s (xs ++ ys) ≡ accepted p n t s xs + accepted p n t s ys
  accepted-append [] ys = omega arith
  accepted-append (recorded m ∷ xs) ys = accepted-append xs ys
  accepted-append (posted j ∷ xs) ys = accepted-append xs ys
  accepted-append (run_answered a ∷ xs) ys = accepted-append xs ys
  accepted-append (init_answered dropped ∷ xs) ys = accepted-append xs ys
  accepted-append (init_answered (error status) ∷ xs) ys = accepted-append xs ys
  accepted-append (init_answered ok ∷ xs) ys = omega (arith, accepted-append xs ys)

  pub accepted-run_effects :
      (r : RunInputs p n) (m : Measurement p) (v : Run p n)
      → accepted p n t s (run_effects p n t s r m v) ≡ 0
  accepted-run_effects r m v = ground arith

  -- Without an executor: refusals only.
  abbrev pub Refusals : List (Effect p n t s) → Type 0
  Refusals [] = Unit
  Refusals (init_answered (error status) ∷ es) = (status ≡ 403) × Refusals es
  Refusals (run_answered (rejected status) ∷ es) = ((status ≡ 400) ⊎ (status ≡ 500)) × Refusals es
  Refusals (_ ∷ es) = ⊥

  pub run_handler-absent :
      (r : RunInputs p n)
      → r.has_executor ≡ false
      → (run_handler p n r ≡ some (run_error p n 400 true))
        ⊎ (run_handler p n r ≡ some (run_error p n 500 false))
  unfolding run_handler
  run_handler-absent r h = elim (Bool-cases r.body_read) [
    | inl e ↦ inr (ground (arith, e, h))
    | inr e ↦ inl (ground (arith, e, h))
  ]
