-- ===== src/Proxy/Refused.antt =====
-- openwhisk/initHandler.go: what /init leaves when it does not answer ok, and the numbers of the
-- folders after any request.
use openwhisk_runtime_go.Base.{
  ℕ, ◌+◌, ◌<◌, ◌≤◌, ◌≡◌, ◌≢◌, true, [], inl, inr, arith, refl, sym, subst, Bool-cases, Option-cases,
}
use openwhisk_runtime_go.Base.Text.{Bytes, same}
use openwhisk_runtime_go.Proxy.Folders.{names, highest_of, highest_dir}
use openwhisk_runtime_go.Proxy.Numbered.{highest-remove}
use openwhisk_runtime_go.Proxy.Env.{Variables, set_env}
use openwhisk_runtime_go.Proxy.Extraction.{
  Tools, Settings, End, done, failed, panicked, Store, extract_action, extract_and_compile,
}
use openwhisk_runtime_go.Proxy.Launch.{System, Proxy, start_latest_action, listing}
use openwhisk_runtime_go.Proxy.Init.{
  InitRequest, ok, main_of, code_of, launched, deployed, init_handler,
}
use openwhisk_runtime_go.Proxy.Extracted.{End-cases, IsFresh, extract_and_compile-numbered}

module _ (t : Tools) (s : Settings) where
  -- The executor and the lock are those of before, and no executor was stopped.
  abbrev pub Undisturbed : Proxy → Proxy → Type 0
  Undisturbed px px' =
      (px'.executor ≡ px.executor) × (px'.initialized ≡ px.initialized) × (px'.stopped ≡ px.stopped)

  start_latest_action-failed :
      (y : System) (n : ℕ) (px : Proxy)
      → s.base_readable ≡ true
      → highest_of (names px.store.folders) 0 ≡ n
      → 0 < n
      → (start_latest_action t s y px).0 ≢ done tt
      → Undisturbed px (start_latest_action t s y px).1
  unfolding start_latest_action highest_dir
  start_latest_action-failed y n px r h l d = ground (arith, r, h, l, d)

  -- StartLatestAction only ever lowers the highest number.
  start_latest_action-numbered :
      (y : System) (px : Proxy)
      → ((start_latest_action t s y px).1.store.current_dir ≡ px.store.current_dir)
        × (highest_of (names (start_latest_action t s y px).1.store.folders) 0
            ≤ highest_of (names px.store.folders) 0)
  unfolding start_latest_action
  start_latest_action-numbered y px = ground (
    arith,
    highest-remove (t.itoa (highest_dir (listing t s px.store.folders))) px.store.folders 0,
  )

  extract_and_compile-kept :
      (env : Variables) (main buf : Bytes) (st : Store)
      → same buf [] ≡ true
      → extract_and_compile t s env main buf st ≡ (failed, st)
  unfolding extract_and_compile extract_action
  extract_and_compile-kept env main buf st h = ground (arith, h)

  deployed-refused :
      (e : End Unit × Store) (y : System) (n : ℕ) (px : Proxy)
      → s.base_readable ≡ true
      → highest_of (names e.1.folders) 0 ≡ n
      → 0 < n
      → (deployed t s e y px).0 ≢ ok
      → Undisturbed px (deployed t s e y px).1
  unfolding deployed launched
  deployed-refused (failed, st) y n px r h l o = (refl, refl, refl)
  deployed-refused (panicked, st) y n px r h l o = (refl, refl, refl)
  deployed-refused (done _, st) y n px r h l o =
      let px' = record px { store = st } in
      elim (End-cases (start_latest_action t s y px').0) [
        | inl f ↦ ground (arith, f, start_latest_action-failed y n px' r h l)
        | inr (inl f) ↦ ground (arith, f, start_latest_action-failed y n px' r h l)
        | inr (inr (_, f)) ↦ absurd (o (ground (arith, f)))
      ]

  unextracted :
      (env : Variables) (main buf : Bytes) (y : System) (px : Proxy)
      → same buf [] ≡ true
      → Undisturbed px (deployed t s (extract_and_compile t s env main buf px.store) y px).1
        × ((deployed t s (extract_and_compile t s env main buf px.store) y px).1.store ≡ px.store)
  unfolding deployed
  unextracted env main buf y px h =
      subst
        (λ e. Undisturbed px (deployed t s e y px).1 × ((deployed t s e y px).1.store ≡ px.store))
        (sym (extract_and_compile-kept env main buf px.store h)) ((refl, refl, refl), refl)

  -- Where /init does not answer ok, whatever the reason (the action is initialised already, the
  -- request cannot be read or decoded, it holds no code, the code cannot be extracted or compiled,
  -- the new action cannot be started, or the handler panics), with a baseDir that can be read and
  -- whose folders are numbered up to currentDir, where the next number is printed so that it is
  -- read back: the executor, the lock on the initialisation and the executors that were stopped are
  -- those of before.
  pub init_handler-refused :
      (r : InitRequest) (px : Proxy)
      → s.base_readable ≡ true
      → IsFresh t s px.store
      → (init_handler t s r px).0 ≢ ok
      → Undisturbed px (init_handler t s r px).1
  unfolding init_handler
  init_handler-refused r px readable fresh o = elim (Option-cases r.body) [
    | inl e ↦ ground (arith, e)
    | inr (b, e) ↦ elim (Option-cases (code_of t s b)) [
      | inl f ↦ ground (arith, e, f)
      | inr (buf, f) ↦
          let env = set_env s.environ b.env px.env in
          let px' = record px { env = env } in
          let step = extract_and_compile t s env (main_of b) buf px.store in
          elim (Bool-cases (same buf [])) [
            | inl g ↦ ground (arith, e, f, unextracted env (main_of b) buf r.system px' g)
            | inr g ↦
                let (_, highest) =
                  extract_and_compile-numbered t s env (main_of b) buf px.store fresh g in
                let refused =
                  deployed-refused step r.system (px.store.current_dir + 1) px' readable highest
                    (omega arith) in
                ground (arith, e, f, refused, o)
          ]
    ]
  ]

  deployed-numbered :
      (e : End Unit × Store) (y : System) (px : Proxy)
      → ((deployed t s e y px).1.store.current_dir ≡ e.1.current_dir)
        × (highest_of (names (deployed t s e y px).1.store.folders) 0
            ≤ highest_of (names e.1.folders) 0)
  unfolding deployed launched
  deployed-numbered (failed, st) y px = (refl, omega arith)
  deployed-numbered (panicked, st) y px = (refl, omega arith)
  deployed-numbered (done _, st) y px =
      let px' = record px { store = st } in
      elim (End-cases (start_latest_action t s y px').0) [
        | inl f ↦ ground (arith, f, start_latest_action-numbered y px')
        | inr (inl f) ↦ ground (arith, f, start_latest_action-numbered y px')
        | inr (inr (_, f)) ↦ ground (arith, f, start_latest_action-numbered y px')
      ]

  -- After any request to /init, from folders that are numbered up to currentDir, where the next
  -- number is printed so that it is read back, and whatever the reply: the folders are still
  -- numbered up to currentDir, also where the new folder was removed, and currentDir has grown by
  -- at most one.
  pub init_handler-numbered :
      (r : InitRequest) (px : Proxy)
      → IsFresh t s px.store
      → (highest_of (names (init_handler t s r px).1.store.folders) 0
          ≤ (init_handler t s r px).1.store.current_dir)
        × (px.store.current_dir ≤ (init_handler t s r px).1.store.current_dir)
        × ((init_handler t s r px).1.store.current_dir ≤ px.store.current_dir + 1)
  unfolding init_handler
  init_handler-numbered r px fresh = elim (Option-cases r.body) [
    | inl e ↦ ground (arith, e, fresh.numbered)
    | inr (b, e) ↦ elim (Option-cases (code_of t s b)) [
      | inl f ↦ ground (arith, e, f, fresh.numbered)
      | inr (buf, f) ↦
          let env = set_env s.environ b.env px.env in
          let px' = record px { env = env } in
          let step = extract_and_compile t s env (main_of b) buf px.store in
          elim (Bool-cases (same buf [])) [
            | inl g ↦
                ground (arith, e, f, fresh.numbered, unextracted env (main_of b) buf r.system px' g)
            | inr g ↦ ground (
              arith,
              e,
              f,
              fresh.numbered,
              deployed-numbered step r.system px',
              extract_and_compile-numbered t s env (main_of b) buf px.store fresh g,
            )
          ]
    ]
  ]
