-- ===== src/Proxy/Init.antt =====
-- openwhisk/initHandler.go: initHandler, from the request to the reply, less log lines; Served adds
-- the measurement that it records on success. openwhisk/actionProxy.go: ExtractAndCompileIO.
use openwhisk_runtime_go.Base.{
  ℕ, Bool, true, not, ◌&&◌, Option, none, some, List, [], if◌then◌else◌,
}
use openwhisk_runtime_go.Base.Text.{Bytes, codes, same}
use openwhisk_runtime_go.Proxy.Folders.{Folder, folder}
use openwhisk_runtime_go.Proxy.Env.{Sent, set_env}
use openwhisk_runtime_go.Proxy.Extraction.{
  Tools, Settings, End, done, failed, panicked, Store, contents_of, extract_and_compile,
}
use openwhisk_runtime_go.Proxy.Zipped.{Packing, zip_folder}
use openwhisk_runtime_go.Proxy.Launch.{System, Proxy, start_latest_action}

-- The value of the request; what is missing is empty.
pub record InitBody : Type 0 where
  pub code : Bytes
  pub binary : Bool
  pub main : Bytes
  pub env : List (Bytes × Sent)

-- A request: whether its body can be read, what it decodes to, and what the system does on it.
pub record InitRequest : Type 0 where
  pub body_read : Bool
  pub body : Option InitBody
  pub system : System

-- `dropped`: the handler panics, and net/http drops the request.
pub data InitReply : Type 0 where
  ok dropped : InitReply
  error : ℕ → InitReply

abbrev pub main_of : InitBody → Bytes
main_of b = if same b.main [] then codes "main" else b.main

module _ (t : Tools) (s : Settings) where
  unfoldable pub code_of : InitBody → Option Bytes
  code_of b = if b.binary then t.decode_base64 b.code else some b.code

  -- The end of the handler, from StartLatestAction on.
  unfoldable pub launched : End Unit × Proxy → InitReply × Proxy
  launched (done _, px) = (ok, record px { initialized = true })
  launched (failed, px) = (error 502, px)
  launched (panicked, px) = (dropped, px)

  unfoldable pub deployed : End Unit × Store → System → Proxy → InitReply × Proxy
  unfolding launched start_latest_action
  deployed (failed, st) y px = (error 502, record px { store = st })
  deployed (panicked, st) y px = (dropped, record px { store = st })
  deployed (done _, st) y px = launched (start_latest_action t s y (record px { store = st }))

  unfoldable pub init_handler : InitRequest → Proxy → InitReply × Proxy
  unfolding code_of deployed extract_and_compile set_env
  init_handler r px =
      if px.initialized && not s.debugging
      then (error 403, px)
      else if not r.body_read
      then (error 400, px)
      else elim r.body [
        | none ↦ (error 400, px)
        | some b ↦
            let env' = set_env s.environ b.env px.env in
            let px' = record px { env = env' } in
            if same b.code [] then (error 403, px) else elim (code_of b) [
              | none ↦ (error 400, px')
              | some buf ↦
                  deployed (extract_and_compile t s env' (main_of b) buf px.store) r.system px'
            ]
      ]

  -- ExtractAndCompileIO on what it reads, with the env decoded; an error ends the process.
  unfoldable pub extract_and_compile_io :
      Packing → Option Bytes → List (Bytes × Sent) → Bytes → Proxy → End Bytes × Proxy
  unfolding extract_and_compile set_env folder zip_folder
  extract_and_compile_io g none payload main px = (failed, px)
  extract_and_compile_io g (some input) payload main px =
      let env' = set_env s.environ payload px.env in
      let (result, st) = extract_and_compile t s env' main input px.store in
      let px' = record px { env = env'; store = st } in
      elim result [
        | failed ↦ (failed, px')
        | panicked ↦ (panicked, px')
        | done _ ↦
            elim (zip_folder g
              (contents_of t s (λ (f : Folder). f.bin) (t.itoa st.current_dir) st.folders)) [
                | none ↦ (failed, px')
                | some archive ↦ (done archive, px')
              ]
      ]
