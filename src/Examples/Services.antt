-- ===== src/Examples/Services.antt =====
-- openwhisk/actionProxy.go: requests to a container with an action, to a new one, and to one whose
-- executor is gone.
use openwhisk_runtime_go.Proxy.Pushed.{measurements, settled, serve_all-pushed}
use openwhisk_runtime_go.Recording.{new_books}
use openwhisk_runtime_go.Recording.Ledger.{record_all, runs_pushed, IsPaired}
use openwhisk_runtime_go.Base.Int64.{lt}
use openwhisk_runtime_go.Base.Text.{Bytes, codes, parse_int, digits_value}
use openwhisk_runtime_go.Proxy.Folders.{find, highest_dir, highest_of}
use openwhisk_runtime_go.Proxy.Env.{set_env}
use openwhisk_runtime_go.Proxy.Extraction.{done, write_all, extracted_files}
use openwhisk_runtime_go.Proxy.Extracted.{installed, with_debug}
use openwhisk_runtime_go.Proxy.Deployed.{serve_all-runs_upload}
use openwhisk_runtime_go.Base.{
  ◌+◌, ◌≤◌, length, arith, ◌≡◌, refl, true, false, not, ◌&&◌, ◌||◌, none, some, List, [], ◌∷◌, ◌++◌,
  if◌then◌else◌,
}
use openwhisk_runtime_go.Recording.{Measurement}
use openwhisk_runtime_go.Run.{run_handler, rejected}
use openwhisk_runtime_go.Proxy.Launch.{Proxy, new_action_proxy}
use openwhisk_runtime_go.Proxy.Init.{main_of, error, ok, init_handler}
use openwhisk_runtime_go.Proxy.Served.{
  Request, init, run, metric, Effect, init_answered, run_answered, run_effects, init_effects, serve,
  serve_all, accepted, InOrder,
}
use openwhisk_runtime_go.Proxy.Locked.{init_handler-locked, Refusals}
use openwhisk_runtime_go.Proxy.Ordered.{serve_all-InOrder}
use openwhisk_runtime_go.Proxy.Once.{serve_all-accepts_once, serve_all-dead}
use openwhisk_runtime_go.Examples.Fixtures.{machine, numbers, cpu_at}
use openwhisk_runtime_go.Examples.Runs.{request, replied, replies, keeps_executor}
use openwhisk_runtime_go.Examples.Proxies.{
  tools, settings, init_on, good_system, fresh_proxy, accepts, initialized_proxy, initializes,
  bad_system, failed_proxy, fails, accepts_later, prints, script, init_body, payload, environ,
  decodes,
}

abbrev measurement : Measurement machine
measurement = record {
  endpoint = "/run";
  start = 5;
  energy_start = 1000;
  cpu_start = cpu_at 0 0;
  meta = none;
  sync = true;
  fallback_j = 0;
  energy_end = 8000;
  end = 11000000;
  cpu_usec = 5000;
  freeze_marks = [];
}

abbrev Requests : Type 0
Requests = List (Request machine numbers tools settings)

abbrev Effects : Type 0
Effects = List (Effect machine numbers tools settings)

abbrev ready : Proxy
ready = record fresh_proxy {
  initialized = true;
  executor = some (record { directory = 2; executable = none; env = [] });
}

abbrev ran : Effects
ran = run_effects machine numbers tools settings request measurement replied ++ []

abbrev one_run : Requests
one_run = run request measurement ∷ []

runs : serve_all machine numbers tools settings one_run ready ≡ some (ran, ready)
unfolding serve_all serve
runs = ground (arith, replies, keeps_executor)

serve_all-InOrder_example : InOrder machine numbers tools settings none ran
serve_all-InOrder_example =
    serve_all-InOrder machine numbers tools settings one_run ready ready ran none runs

abbrev two_inits : Requests
two_inits = init (init_on good_system) measurement ∷ (init (init_on good_system) measurement ∷ [])

abbrev accepted_once : Effects
accepted_once =
    init_effects machine numbers tools settings measurement ok ++ (init_answered (error 403) ∷ [])

serves :
    serve_all machine numbers tools settings two_inits fresh_proxy
    ≡ some (accepted_once, initialized_proxy)
unfolding serve_all serve
serves = ground (
  arith,
  accepts,
  init_handler-locked machine numbers tools settings (init_on good_system) initialized_proxy refl
      initializes,
)

serve_all-accepts_once_example :
    (accepted machine numbers tools settings accepted_once
      ≡ (if not false && initialized_proxy.initialized then 1 else 0))
    × ((not false || initialized_proxy.initialized) ≡ true)
unfolding init_handler new_action_proxy
serve_all-accepts_once_example =
    serve_all-accepts_once machine numbers tools settings two_inits fresh_proxy initialized_proxy
      accepted_once refl serves

abbrev gone : Proxy
gone = record ready { executor = none }

abbrev late : Requests
late = init (init_on good_system) measurement ∷ (run request measurement ∷ (metric ∷ []))

abbrev refusals : Effects
refusals = init_answered (error 403) ∷ (run_answered (rejected 500) ∷ [])

refuses : serve_all machine numbers tools settings late gone ≡ some (refusals, gone)
unfolding serve_all serve init_handler run_handler
refuses = refl

serve_all-dead_example : (gone ≡ gone) × Refusals machine numbers tools settings refusals
serve_all-dead_example =
    serve_all-dead machine numbers tools settings late gone gone refusals refl refl refl refuses

serve_all-pushed_example :
    (length (
        runs_pushed machine
          (record_all machine
            (measurements machine numbers tools settings ran)
            (new_books machine)).pushed)
      ≡ settled machine numbers tools settings ran)
    × IsPaired machine
        (record_all machine
          (measurements machine numbers tools settings ran)
          (new_books machine)).pushed
serve_all-pushed_example =
    serve_all-pushed machine numbers tools settings one_run ready ready ran runs

abbrev uploads : Requests
uploads = init (init_on bad_system) measurement ∷ (metric ∷ [])

abbrev failures : Effects
failures = init_answered (error 502) ∷ []

uploaded :
    serve_all machine numbers tools settings uploads fresh_proxy ≡ some (failures, failed_proxy)
unfolding serve_all serve
uploaded = ground (arith, fails)

few : fresh_proxy.store.current_dir + 3 ≤ 9
unfolding new_action_proxy highest_dir highest_of parse_int digits_value lt
few = omega arith

serve_all-runs_upload_example :
    (file : Bytes) × ((extracted_files tools settings script).1 ≡ done file)
    × ((init_handler tools settings (init_on good_system) failed_proxy).1.executor
        ≡ some (record {
          directory = failed_proxy.store.current_dir + 1;
          executable = find (codes "exec") (
              installed tools settings
                (set_env environ payload failed_proxy.env)
                (main_of init_body)
                file
                (write_all (extracted_files tools settings script).0 []));
          env = with_debug tools settings (set_env environ payload failed_proxy.env);
        }))
serve_all-runs_upload_example =
    serve_all-runs_upload machine numbers tools settings 9
      (record { name = codes "2"; src = none; bin = some [] } ∷ []) uploads failed_proxy failures
      (init_on good_system) init_body script refl prints (omega arith) few uploaded refl decodes
      accepts_later
