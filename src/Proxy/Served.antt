-- ===== src/Proxy/Served.antt =====
-- openwhisk/actionProxy.go: ServeHTTP over a sequence of requests, each served before the next, with
-- initHandler, runHandler, and what the two record, post and answer in turn.
use openwhisk_runtime_go.Base.{
  ℕ, suc, ◌≡◌, Bool, true, false, Option, none, some, List, [], ◌∷◌, ◌++◌, if◌then◌else◌,
}
use openwhisk_runtime_go.Attribution.{Platform}
use openwhisk_runtime_go.Sidecar.Json.{Numbers}
use openwhisk_runtime_go.Recording.{Measurement}
use openwhisk_runtime_go.Run.{
  RunInputs, Run, Reply, rejected, unchanged, reinjected, run_handler, extracted, freeze_marks,
}
use openwhisk_runtime_go.Proxy.Extraction.{Tools, Settings}
use openwhisk_runtime_go.Proxy.Launch.{Process, Proxy}
use openwhisk_runtime_go.Proxy.Init.{InitRequest, InitReply, ok, dropped, error, init_handler}

module _ (p : Platform) (n : Numbers p.float) (t : Tools) (s : Settings) where
  open p.float use {Carrier, of_int}

  -- A request by its path; `measured` is what recordMetricsImpl reads, should it be called.
  pub data Request : Type 0 where
    init : InitRequest → Measurement p → Request
    run : RunInputs p n → Measurement p → Request
    metric elsewhere : Request

  -- A call of recordMetricsImpl, a post of EXECUTION_KILLED with its energy, and the replies.
  pub data Effect : Type 0 where
    recorded : Measurement p → Effect
    posted : Carrier → Effect
    init_answered : InitReply → Effect
    run_answered : Reply p n → Effect

  abbrev pub is_present : Option Process → Bool
  is_present none = false
  is_present (some _) = true

  -- The arguments that the handlers pass to recordMetricsImpl.
  abbrev init_measurement : Measurement p → Measurement p
  init_measurement m = record m {
    endpoint = "/init";
    sync = false;
    fallback_j = of_int 0;
    freeze_marks = [];
  }

  unfoldable pub run_measurement : RunInputs p n → Measurement p → Carrier → Measurement p
  unfolding freeze_marks extracted
  run_measurement r m fallback = record m {
    endpoint = "/run";
    sync = true;
    fallback_j = fallback;
    energy_start = r.energy_start;
    cpu_start = r.cpu_start;
    freeze_marks = freeze_marks p n (extracted p n r) r;
  }

  abbrev pub records : RunInputs p n → Measurement p → Option Carrier → List Effect
  records r m none = []
  records r m (some fallback) = recorded (run_measurement r m fallback) ∷ []

  abbrev pub posts : Option Carrier → List Effect
  posts none = []
  posts (some j) = posted j ∷ []

  -- runHandler: what it records comes first, then the post, then the answer.
  abbrev pub run_effects : RunInputs p n → Measurement p → Run p n → List Effect
  run_effects r m v = records r m v.recorded ++ (posts v.killed_at_j ++ (run_answered v.reply ∷ []))

  -- initHandler answers before it records.
  abbrev pub init_effects : Measurement p → InitReply → List Effect
  init_effects m ok = init_answered ok ∷ (recorded (init_measurement m) ∷ [])
  init_effects m dropped = init_answered dropped ∷ []
  init_effects m (error status) = init_answered (error status) ∷ []

  -- `none`: the handler does not return.
  unfoldable pub serve : Request → Proxy → Option (List Effect × Proxy)
  unfolding init_handler run_handler
  serve metric px = some ([], px)
  serve elsewhere px = some ([], px)
  serve (init r m) px = let (reply, px') = init_handler t s r px in some (init_effects m reply, px')
  serve (run r m) px =
      let r' = record r { has_executor = is_present px.executor } in
      elim (run_handler p n r') [
        | none ↦ none
        | some v ↦
            some
              (run_effects r' m v, if v.keeps_executor then px else record px { executor = none })
      ]

  unfoldable pub serve_all : List Request → Proxy → Option (List Effect × Proxy)
  unfolding serve
  serve_all [] px = some ([], px)
  serve_all (q ∷ qs) px = elim (serve q px) [
    | none ↦ none
    | some (effects, px') ↦ elim (serve_all qs px') [
      | none ↦ none
      | some (later, px'') ↦ some (effects ++ later, px'')
    ]
  ]

  abbrev pub accepted : List Effect → ℕ
  accepted [] = 0
  accepted (init_answered ok ∷ es) = suc (accepted es)
  accepted (_ ∷ es) = accepted es

  -- An event is posted, and the result of an action is answered, right after its own measurement
  -- was recorded, synchronously and under /run; `before` is the measurement right before.
  abbrev IsRun : Option (Measurement p) → Type 0
  IsRun none = ⊥
  IsRun (some m) = (m.endpoint ≡ "/run") × (m.sync ≡ true)

  abbrev pub IsSettled : Option (Measurement p) → Reply p n → Type 0
  IsSettled before (rejected status) = Unit
  IsSettled before (unchanged out) = IsRun before
  IsSettled before (reinjected m) = IsRun before

  abbrev pub InOrder : Option (Measurement p) → List Effect → Type 0
  InOrder before [] = Unit
  InOrder before (recorded m ∷ es) = InOrder (some m) es
  InOrder before (posted j ∷ es) = IsRun before × InOrder none es
  InOrder before (init_answered reply ∷ es) = InOrder none es
  InOrder before (run_answered reply ∷ es) = IsSettled before reply × InOrder none es
