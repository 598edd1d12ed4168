-- ===== src/Proxy/Deployed.antt =====
-- openwhisk/actionProxy.go with openwhisk/initHandler.go: the numbers of the folders over any requests,
-- and the action that a later /init starts.
use openwhisk_runtime_go.Base.{
  ℕ, suc, ◌+◌, ◌≤◌, ◌<◌, ◌≡◌, true, some, List, [], ◌∷◌, inl, inr, arith, length, Option-cases,
}
use openwhisk_runtime_go.Base.Int64.{half}
use openwhisk_runtime_go.Base.Text.{Bytes, codes, parse_int}
use openwhisk_runtime_go.Attribution.{Platform}
use openwhisk_runtime_go.Sidecar.Json.{Numbers}
use openwhisk_runtime_go.Run.{run_handler}
use openwhisk_runtime_go.Proxy.Folders.{Folder, find, names, highest_of, highest_dir}
use openwhisk_runtime_go.Proxy.Env.{set_env}
use openwhisk_runtime_go.Proxy.Extraction.{Tools, Settings, Store, done, write_all, extracted_files}
use openwhisk_runtime_go.Proxy.Launch.{Proxy, new_action_proxy}
use openwhisk_runtime_go.Proxy.Init.{InitBody, InitRequest, ok, main_of, code_of, init_handler}
use openwhisk_runtime_go.Proxy.Extracted.{IsFresh, installed, with_debug}
use openwhisk_runtime_go.Proxy.Uploaded.{init_handler-runs_upload}
use openwhisk_runtime_go.Proxy.Refused.{init_handler-numbered}
use openwhisk_runtime_go.Proxy.Served.{
  Request, init, run, metric, elsewhere, Effect, serve, serve_all, is_present,
}

module _ (p : Platform) (n : Numbers p.float) (t : Tools) (s : Settings) where
  -- The numbers up to a bound are printed so that they are read back.
  abbrev Printed : ℕ → Type 0
  Printed bound = (k : ℕ) → k ≤ bound → parse_int (t.itoa k) ≡ some k

  -- The folders are numbered up to currentDir, which has grown by at most `k`.
  abbrev Numbered : ℕ → Proxy → Proxy → Type 0
  Numbered k px px' =
      (highest_of (names px'.store.folders) 0 ≤ px'.store.current_dir)
      × (px'.store.current_dir ≤ px.store.current_dir + k)

  bound-IsFresh :
      (bound : ℕ) (st : Store)
      → Printed bound
      → bound < half
      → highest_of (names st.folders) 0 ≤ st.current_dir
      → st.current_dir + 1 ≤ bound
      → IsFresh t s st
  bound-IsFresh bound st printed small h l = record {
    numbered = h;
    printed = printed (st.current_dir + 1) l;
    small = omega arith;
  }

  new_action_proxy-numbered :
      (folders : List Folder)
      → s.base_readable ≡ true
      → highest_of (names (new_action_proxy t s folders).store.folders) 0
        ≤ (new_action_proxy t s folders).store.current_dir
  unfolding new_action_proxy highest_dir
  new_action_proxy-numbered folders h = ground (arith, h)

  serve-Numbered :
      (bound : ℕ) (q : Request p n t s) (px px' : Proxy) (es : List (Effect p n t s))
      → Printed bound
      → bound < half
      → highest_of (names px.store.folders) 0 ≤ px.store.current_dir
      → px.store.current_dir + 1 ≤ bound
      → serve p n t s q px ≡ some (es, px')
      → Numbered 1 px px'
  unfolding serve
  serve-Numbered bound metric px px' es printed small h l e = ground (arith, e, h)
  serve-Numbered bound elsewhere px px' es printed small h l e = ground (arith, e, h)
  serve-Numbered bound (init r m) px px' es printed small h l e =
      ground
        (arith, e, init_handler-numbered t s r px (bound-IsFresh bound px.store printed small h l))
  serve-Numbered bound (run r m) px px' es printed small h l e =
      elim (Option-cases
        (run_handler p n (record r { has_executor = is_present p n t s px.executor }))) [
          | inl f ↦ absurd (ground (arith, e, f))
          | inr (v, f) ↦ ground (arith, e, f, h)
        ]

  serve_all-Numbered :
      (bound : ℕ) (qs : List (Request p n t s)) (px px' : Proxy) (es : List (Effect p n t s))
      → Printed bound
      → bound < half
      → highest_of (names px.store.folders) 0 ≤ px.store.current_dir
      → px.store.current_dir + length qs ≤ bound
      → serve_all p n t s qs px ≡ some (es, px')
      → Numbered (length qs) px px'
  unfolding serve_all
  serve_all-Numbered bound [] px px' es printed small h l e = ground (arith, e, h)
  serve_all-Numbered bound (q ∷ qs) px px' es printed small h l e =
      elim (Option-cases (serve p n t s q px)) [
        | inl a ↦ absurd (ground (arith, a, e))
        | inr ((first, px1), a) ↦ elim (Option-cases (serve_all p n t s qs px1)) [
          | inl b ↦ absurd (ground (arith, a, b, e))
          | inr ((later, px2), b) ↦
              let (numbered, grown) =
                serve-Numbered bound q px px1 first printed small h (omega arith) a in
              let (numbered', grown') =
                serve_all-Numbered bound qs px1 px2 later printed small numbered (omega arith) b in
              ground (arith, a, b, e, numbered', grown', grown)
        ]
      ]

  -- In a new container over any folders that it can read, after any requests that are all served, as
  -- long as the numbers stay within a bound below which they are printed so that they are read back:
  -- an /init that then answers ok has started what it uploaded. The executor runs the file exec out
  -- of bin in a new folder, which holds what the code extracts to, or what the compiler made of it
  -- where there is a compiler and the file is not executable yet, whatever was uploaded, failed or
  -- removed before.
  pub serve_all-runs_upload :
      (bound : ℕ) (folders : List Folder) (qs : List (Request p n t s)) (px : Proxy)
      (es : List (Effect p n t s)) (r : InitRequest) (b : InitBody) (buf : Bytes)
      → s.base_readable ≡ true
      → Printed bound
      → bound < half
      → (new_action_proxy t s folders).store.current_dir + suc (length qs) ≤ bound
      → serve_all p n t s qs (new_action_proxy t s folders) ≡ some (es, px)
      → r.body ≡ some b
      → code_of t s b ≡ some buf
      → (init_handler t s r px).0 ≡ ok
      → (file : Bytes) × ((extracted_files t s buf).1 ≡ done file)
        × ((init_handler t s r px).1.executor
            ≡ some (record {
              directory = px.store.current_dir + 1;
              executable = find (codes "exec") (
                  installed t s
                    (set_env s.environ b.env px.env)
                    (main_of b)
                    file
                    (write_all (extracted_files t s buf).0 []));
              env = with_debug t s (set_env s.environ b.env px.env);
            }))
  serve_all-runs_upload bound folders qs px es r b buf readable printed small l e h c o =
      let (numbered, grown) =
        serve_all-Numbered bound qs (new_action_proxy t s folders) px es printed small
          (new_action_proxy-numbered folders readable) (omega arith) e in
      init_handler-runs_upload t s r b buf px readable
        (bound-IsFresh bound px.store printed small numbered (omega arith)) h c o
