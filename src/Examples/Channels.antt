-- ===== src/Examples/Channels.antt =====
-- openwhisk/schedulerChannel.go: concrete calls, dials and deliveries.
use openwhisk_runtime_go.Base.{
  ℕ, zero, suc, ◌≡◌, ◌≢◌, Bool, true, false, none, some, List, [], ◌∷◌, String, str_eq, ◌==◌,
  if◌then◌else◌,
}
use openwhisk_runtime_go.Channel.Recorder.{
  CallError, Note, cached_addr, connect_start, connect_done, got_conn, new_recorder, finish,
}
use openwhisk_runtime_go.Channel.Address.{Net, AddrCache, DialInputs, get, scheduler_dial_context}
use openwhisk_runtime_go.Channel.Dialing.{scheduler_dial_context_cached}
use openwhisk_runtime_go.Channel.Paused.{PausedCall, failed}
use openwhisk_runtime_go.Channel.Delivery.{
  Attempt, unreachable, answered, accepts_killed, deliver, Explains, deliver-Explains,
}

abbrev lost : CallError
lost = record { deadline_exceeded = true; net_timeout = none }

abbrev callbacks : List Note
callbacks = cached_addr ∷ connect_start 10 ∷ connect_done 30 ∷ got_conn 40 false ∷ []

abbrev net : Net
net = record {
  split_host_port = λ a. some ("scheduler", "5000");
  is_ip = λ a. str_eq a "10.0.0.7";
  is_ipv4 = λ a. str_eq a "10.0.0.7";
  join_host_port = λ h p. "10.0.0.7:5000";
}

abbrev dialing : Bool → DialInputs net
dialing connects = record {
  lookups = λ n. if n == 1 then none else some ("::7" ∷ "10.0.0.7" ∷ []);
  expired = λ n. false;
  further_attempts = suc (suc zero);
  resolve_started = 10;
  resolve_ended = 20;
  connect_started = 20;
  connect_ended = 30;
  connects = λ t. connects;
}

abbrev cached : AddrCache
cached = record { hostport = "scheduler:5000"; ipport = "10.0.0.7:5000"; resolving = false }

is_cached : get "scheduler:5000" cached ≢ ""
unfolding get
is_cached = λ h. cc h

scheduler_dial_context_cached_example :
    (scheduler_dial_context net
        (record (dialing true) { lookups = λ n. none })
        "scheduler:5000"
        cached
        (new_recorder 5)
      ≡ scheduler_dial_context net (dialing true) "scheduler:5000" cached (new_recorder 5))
    × ((finish 50 none false
          (scheduler_dial_context net
            (dialing true)
            "scheduler:5000"
            cached
            (new_recorder 5)).2).trace.dns_ns
        ≡ 0)
scheduler_dial_context_cached_example =
    scheduler_dial_context_cached net (dialing true) (λ n. none) "scheduler:5000" cached 5 50 none
      false is_cached

abbrev sent : PausedCall String
sent = record {
  marshals = true;
  builds = true;
  started = 5;
  callbacks = callbacks;
  ended = 90;
  exchange = failed lost;
}

-- Unreachable once, then accepted.
abbrev flaky : ℕ → Attempt
flaky n = if n == 0 then unreachable else answered 204

deliver-Explains_example :
    Explains accepts_killed 5 200000000 flaky 0 5 (deliver accepts_killed 5 200000000 flaky)
deliver-Explains_example = deliver-Explains accepts_killed 5 200000000 flaky
