-- ===== src/Proxy/Uploaded.antt =====
-- openwhisk/initHandler.go with openwhisk/extractor.go and openwhisk/actionProxy.go: the executor
-- that a successful /init starts is the code that it uploads.
use openwhisk_runtime_go.Base.{
  ℕ, ◌+◌, ◌<◌, ◌≡◌, true, false, some, [], inl, inr, arith, refl, ◌∙◌, ap, sym,
}
use openwhisk_runtime_go.Base.Text.{Bytes, codes, same}
use openwhisk_runtime_go.Proxy.Folders.{Contents, Folder, find, names, highest_of, highest_dir}
use openwhisk_runtime_go.Proxy.Env.{Variables, set_env}
use openwhisk_runtime_go.Proxy.Extraction.{
  Tools, Settings, End, done, failed, panicked, Store, write_all, contents_of, extracted_files,
  extract_action, extract_and_compile,
}
use openwhisk_runtime_go.Proxy.Launch.{System, Proxy, new_executor, start_latest_action}
use openwhisk_runtime_go.Proxy.Init.{
  InitBody, InitRequest, InitReply, ok, main_of, code_of, launched, deployed, init_handler,
}
use openwhisk_runtime_go.Proxy.Extracted.{
  End-cases, IsFresh, installed, with_debug, extract_and_compile-numbered, extract_and_compile-done,
}

module _ (t : Tools) (s : Settings) where
  start_latest_action-done :
      (y : System) (n : ℕ) (px : Proxy)
      → s.base_readable ≡ true
      → highest_of (names px.store.folders) 0 ≡ n
      → 0 < n
      → (start_latest_action t s y px).0 ≡ done tt
      → (start_latest_action t s y px).1.executor
        ≡ some (record {
          directory = n;
          executable =
              find
                (codes "exec")
                (contents_of t s (λ (f : Folder). f.bin) (t.itoa n) px.store.folders);
          env = with_debug t s px.env;
        })
  unfolding start_latest_action new_executor highest_dir
  start_latest_action-done y n px r h l d = ground (arith, r, h, l, d)

  init_handler-deployed :
      (r : InitRequest) (b : InitBody) (buf : Bytes) (px : Proxy)
      → r.body ≡ some b
      → code_of t s b ≡ some buf
      → (init_handler t s r px).0 ≡ ok
      → init_handler t s r px
        ≡ deployed t s
            (extract_and_compile t s (set_env s.environ b.env px.env) (main_of b) buf px.store)
            r.system
            (record px { env = set_env s.environ b.env px.env })
  unfolding init_handler
  init_handler-deployed r b buf px h c o = ground (arith, h, c, o)

  deployed-ok :
      (e : End Unit × Store) (y : System) (px : Proxy)
      → (deployed t s e y px).0 ≡ ok
      → (e.0 ≡ done tt)
        × ((start_latest_action t s y (record px { store = e.1 })).0 ≡ done tt)
        × ((deployed t s e y px).1.executor
            ≡ (start_latest_action t s y (record px { store = e.1 })).1.executor)
  unfolding deployed launched
  deployed-ok (failed, st) y px h = absurd (cc h)
  deployed-ok (panicked, st) y px h = absurd (cc h)
  deployed-ok (done _, st) y px h =
      elim (End-cases (start_latest_action t s y (record px { store = st })).0) [
        | inl f ↦ absurd (ground (arith, f, h))
        | inr (inl f) ↦ absurd (ground (arith, f, h))
        | inr (inr (_, f)) ↦ (refl, f, ground (arith, f))
      ]

  extract_and_compile-empty :
      (env : Variables) (main buf : Bytes) (st : Store)
      → (extract_and_compile t s env main buf st).0 ≡ done tt
      → same buf [] ≡ false
  unfolding extract_and_compile extract_action
  extract_and_compile-empty env main buf st h = ground (arith, h)

  -- Where /init answers ok to code that decodes to `buf`, with a baseDir that can be read and whose
  -- folders are numbered up to currentDir, where the next number is printed so that it is read
  -- back: the executor runs the file exec out of bin in the folder with the next number, which
  -- holds what `buf` extracts to, or what the compiler made of it where there is a compiler and the
  -- file is not executable yet; its environment is the one that SetEnv
  -- leaves, with OW_DEBUG while debugging.
  pub init_handler-runs_upload :
      (r : InitRequest) (b : InitBody) (buf : Bytes) (px : Proxy)
      → s.base_readable ≡ true
      → IsFresh t s px.store
      → r.body ≡ some b
      → code_of t s b ≡ some buf
      → (init_handler t s r px).0 ≡ ok
      → (file : Bytes) × ((extracted_files t s buf).1 ≡ done file)
        × ((init_handler t s r px).1.executor
            ≡ some (record {
              directory = px.store.current_dir + 1;
              executable = find (codes "exec") (
                  installed t s
                    (set_env s.environ b.env px.env)
                    (main_of b)
                    file
                    (write_all (extracted_files t s buf).0 []));
              env = with_debug t s (set_env s.environ b.env px.env);
            }))
  init_handler-runs_upload r b buf px readable fresh h c o =
      let env = set_env s.environ b.env px.env in
      let step = extract_and_compile t s env (main_of b) buf px.store in
      let whole = init_handler-deployed r b buf px h c o in
      let (built, started, kept) =
        deployed-ok step r.system (record px { env = env })
          (ap (λ (z : InitReply × Proxy). z.0) (sym whole) ∙ o) in
      let nonempty = extract_and_compile-empty env (main_of b) buf px.store built in
      let (counted, highest) =
        extract_and_compile-numbered t s env (main_of b) buf px.store fresh nonempty in
      let (file, is_file, files) =
        extract_and_compile-done t s env (main_of b) buf px.store fresh nonempty built in
      let runs =
        start_latest_action-done r.system (px.store.current_dir + 1)
          (record px { env = env; store = step.1 }) readable highest (omega arith) started in
      (
        file,
        is_file,
        ap (λ (z : InitReply × Proxy). z.1.executor) whole
            ∙ kept
            ∙ runs
            ∙ ap
                (λ (files : Contents). some (record {
                  directory = px.store.current_dir + 1;
                  executable = find (codes "exec") files;
                  env = with_debug t s env;
                }))
                files,
      )
