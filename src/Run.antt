-- ===== src/Run.antt =====
-- openwhisk/runHandler.go: runHandler, one activation from the request to the reply. The bodies are
-- taken after and before encoding/json; log lines are left out.
pub mod Request
pub mod Kept
pub mod Thawed
pub mod Stripped
use openwhisk_runtime_go.Base.{
  ℕ, ◌≡◌, subst, ◌∙◌, Bool, true, false, not, Option, none, some, List, [], String, if◌then◌else◌,
  arith, Option-cases, inl, inr,
}
use openwhisk_runtime_go.Attribution.{Platform, CpuSnapshot}
use openwhisk_runtime_go.Freezer.Machine.{Controller}
use openwhisk_runtime_go.Segments.Marks.{FreezeMark}
use openwhisk_runtime_go.Segments.Meter.{joules}
use openwhisk_runtime_go.Segments.Settlement.{segmented_attribution}
use openwhisk_runtime_go.Sidecar.Json.{Numbers, Members, lookup}
use openwhisk_runtime_go.Sidecar.State.{EnergyState}
use openwhisk_runtime_go.Sidecar.Transfer.{
  first_step_anchor_key, extract_energy_state, reinject_energy_state,
}
use openwhisk_runtime_go.Sidecar.RoundTrip.{advanced, extract-reinject}
use openwhisk_runtime_go.Monitor.Classes.{should_monitor_energy}
use openwhisk_runtime_go.Monitor.Interact.{
  Answer, line, no_line, exited, Interaction, Interacted, monitored, interact, interact-threshold,
}

module _ (p : Platform) (n : Numbers p.float) where
  open p.float use {Carrier, of_int, add}

  -- What json.Unmarshal makes of the action's line; a null is taken like a list.
  pub data Parsed : Type 0 where
    dictionary : Members n.Number → Parsed
    list neither : Parsed

  -- The request, what the handler reads, and what Interact meets. `params` is the value of the
  -- request, where it is decoded.
  pub record RunInputs : Type 0 where
    pub body_read : Bool
    pub has_executor : Bool
    pub exited : Bool
    pub params : Option (Members n.Number)
    pub short_action_name : String
    pub energy_start : ℕ
    pub cpu_start : CpuSnapshot
    pub interaction : Interaction p
    pub controller : Controller
    pub parse : String → Parsed
    pub energy_end : ℕ
    pub cpu_end : CpuSnapshot

  -- An error with its status, the action's line as it is, or the dictionary with the state.
  pub data Reply : Type 0 where
    rejected : ℕ → Reply
    unchanged : String → Reply
    reinjected : Members n.Number → Reply

  -- `killed_at_j` is the total energy of the EXECUTION_KILLED event, if one is posted; `recorded` is
  -- the fallback of the call of recordMetricsImpl, which is synchronous, if there is one.
  pub record Run : Type 0 where
    pub reply : Reply
    pub keeps_executor : Bool
    pub killed_at_j : Option Carrier
    pub recorded : Option Carrier

  abbrev pub error : ℕ → Bool → Run
  error status keeps = record {
    reply = rejected status;
    keeps_executor = keeps;
    killed_at_j = none;
    recorded = none;
  }

  abbrev pub recorded_with : Reply → Option Carrier
  recorded_with (rejected status) = none
  recorded_with (unchanged out) = some (of_int 0)
  recorded_with (reinjected m) = some (of_int 0)

  -- The state of this step, with the action's name.
  unfoldable pub extracted : RunInputs → Option (EnergyState p.float)
  extracted r = elim r.params [
    | none ↦ none
    | some m ↦ elim (extract_energy_state n m).0 [
      | none ↦ none
      | some s ↦ some (record s { resolved_action_name = r.short_action_name })
    ]
  ]

  -- FreezeMarks, once Interact has returned.
  unfoldable pub freeze_marks : Option (EnergyState p.float) → RunInputs → List FreezeMark
  freeze_marks none r = []
  freeze_marks (some s) r =
      if should_monitor_energy (some s)
      then (monitored p s r.interaction r.controller).world.tracking.marks
      else []

  unfoldable pub measured_j : Option (EnergyState p.float) → RunInputs → Carrier
  unfolding freeze_marks
  measured_j energy r =
      joules p
        (segmented_attribution p r.energy_start r.energy_end r.cpu_start r.cpu_end
          (freeze_marks energy r)).attributed_uj

  -- The reply to an answer; `after` is the state that Interact leaves.
  unfoldable pub reply_to : RunInputs → Carrier → Option (EnergyState p.float) → Answer → Reply
  reply_to r measured after no_line = rejected 400
  reply_to r measured after exited = rejected 400
  reply_to r measured after (line out) = elim (r.parse out) [
    | neither ↦ rejected 502
    | list ↦ unchanged out
    | dictionary m ↦ elim after [
      | none ↦ unchanged out
      | some s ↦ reinjected (reinject_energy_state n m (some s) measured)
    ]
  ]

  unfoldable pub after_interact : RunInputs → Carrier → Interacted p → Run
  unfolding reply_to
  after_interact r measured x = elim x.kill_info [
    | some k ↦ record {
      reply = rejected 400;
      keeps_executor = false;
      killed_at_j = elim x.energy [
        | none ↦ none
        | some s ↦ some (add k.energy_consumed_j s.consumed_before_j)
      ];
      recorded = some k.energy_consumed_j;
    }
    | none ↦ elim x.failure [
      | some e ↦ error 400 false
      | none ↦ record {
        reply = reply_to r measured x.energy x.answer;
        keeps_executor = true;
        killed_at_j = none;
        recorded = recorded_with (reply_to r measured x.energy x.answer);
      }
    ]
  ]

  -- `none`: Interact does not return.
  unfoldable pub run_handler : RunInputs → Option Run
  unfolding extracted measured_j after_interact
  run_handler r =
      if not r.body_read
      then some (error 400 true)
      else if not r.has_executor
      then some (error 500 false)
      else if r.exited
      then some (error 500 true)
      else elim (interact p (extracted r) r.interaction r.controller) [
        | none ↦ none
        | some x ↦ some (after_interact r (measured_j (extracted r) r) x)
      ]

  interact-answer :
      (energy : Option (EnergyState p.float)) (i : Interaction p) (c : Controller)
      (x : Interacted p)
      → interact p energy i c ≡ some x
      → x.answer ≡ i.answer
  unfolding interact
  interact-answer none i c x h = ground arith
  interact-answer (some s) i c x h = ground arith

  reply_to-next :
      (r : RunInputs) (measured : Carrier) (s : EnergyState p.float) (out : String)
      (m body : Members n.Number)
      → r.parse out ≡ dictionary m
      → lookup first_step_anchor_key m ≡ none
      → reply_to r measured (some s) (line out) ≡ reinjected body
      → (extract_energy_state n body).0 ≡ some (advanced n s measured)
  unfolding reply_to
  reply_to-next r measured s out m body e a h = ground (arith, e, extract-reinject n m s measured a)

  after_interact-reply :
      (r : RunInputs) (measured : Carrier) (x : Interacted p) (body : Members n.Number)
      → (after_interact r measured x).reply ≡ reinjected body
      → reply_to r measured x.energy x.answer ≡ reinjected body
  unfolding after_interact
  after_interact-reply r measured x body h = ground arith

  run_handler-reply :
      (r : RunInputs) (v : Run) (body : Members n.Number)
      → run_handler r ≡ some v
      → v.reply ≡ reinjected body
      → (x : Interacted p) × (interact p (extracted r) r.interaction r.controller ≡ some x)
        × (reply_to r (measured_j (extracted r) r) x.energy x.answer ≡ reinjected body)
  unfolding run_handler
  run_handler-reply r v body h b =
      elim (Option-cases (interact p (extracted r) r.interaction r.controller)) [
        | inl e ↦ absurd (ground (arith, e))
        | inr (x, e) ↦
            (x, e, ground (arith, e, after_interact-reply r (measured_j (extracted r) r) x body))
      ]

  -- A monitored step that replies with a dictionary and the state: what the next step extracts from
  -- the reply is this step's state with the energy of the step, settled from its freezes, added to
  -- what was consumed before, and with the threshold that the monitor last ran under, given that
  -- the action's own dictionary holds no energy_trace_id.
  pub run_handler-next_step :
      (r : RunInputs) (s : EnergyState p.float) (out : String) (m body : Members n.Number) (v : Run)
      → extracted r ≡ some s
      → should_monitor_energy (some s) ≡ true
      → r.interaction.answer ≡ line out
      → r.parse out ≡ dictionary m
      → lookup first_step_anchor_key m ≡ none
      → run_handler r ≡ some v
      → v.reply ≡ reinjected body
      → (extract_energy_state n body).0
        ≡ some (record s {
          consumed_before_j = add s.consumed_before_j (measured_j (some s) r);
          execution_threshold_j =
              (monitored p s r.interaction r.controller).energy.execution_threshold_j;
          resolved_action_name = "";
        })
  run_handler-next_step r s out m body v e on a d k h b =
      let (x, i, q) = run_handler-reply r v body h b in
      let i' = subst (λ z. interact p z r.interaction r.controller ≡ some x) e i in
      let q' = subst (λ z. reply_to r (measured_j z r) x.energy x.answer ≡ reinjected body) e q in
      reply_to-next r (measured_j (some s) r) _ out m body d k (
        subst (λ z. reply_to r (measured_j (some s) r) z (line out) ≡ reinjected body)
          (interact-threshold p s r.interaction r.controller x on i')
          (subst (λ z. reply_to r (measured_j (some s) r) x.energy z ≡ reinjected body)
            (interact-answer (some s) r.interaction r.controller x i' ∙ a) q'))
