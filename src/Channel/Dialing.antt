-- ===== src/Channel/Dialing.antt =====
-- openwhisk/schedulerChannel.go: what schedulerDialContext does to the cached address, and when
-- it resolves a name.
use openwhisk_runtime_go.Base.{
  ℕ, ◌≡◌, ◌≢◌, ◌⊎◌, inl, inr, Bool, Option, List, String, str_eq, eq_iff, arith, Option-cases,
  Bool-cases,
}
use openwhisk_runtime_go.Channel.Recorder.{
  ConnRecorder, CallError, new_recorder, notes, note, finish,
}
use openwhisk_runtime_go.Channel.Address.{
  Net, AddrCache, get, set, forget, resolve_async, DialInputs, Dialed, connected, connect_error,
  dial_cached, dial_target, dial_resolving, resolved_in_place, scheduler_dial_context,
}

module _ (net : Net) where
  -- While an address is cached, a dial resolves no name: it gives the same whatever the lookups
  -- would give, and the trace of its call shows no time for a resolution.
  pub scheduler_dial_context_cached :
      (i : DialInputs net) (lookups : ℕ → Option (List String)) (addr : String) (c : AddrCache)
      (start now : ℕ) (err : Option CallError) (unreadable : Bool)
      → get addr c ≢ ""
      → (scheduler_dial_context net (record i { lookups = lookups }) addr c (new_recorder start)
          ≡ scheduler_dial_context net i addr c (new_recorder start))
        × ((finish now err unreadable
              (scheduler_dial_context net i addr c (new_recorder start)).2).trace.dns_ns
            ≡ 0)
  unfolding scheduler_dial_context dial_cached finish notes note
  scheduler_dial_context_cached i lookups addr c start now err unreadable h =
      ground (arith, eq_iff (get addr c) "")

  abbrev Keeps : String → String → Dialed net × AddrCache × ConnRecorder → Type 0
  Keeps addr t r = (t ≡ addr) ⊎ (get addr r.1 ≡ t)

  dial_target-Keeps :
      (i : DialInputs net) (addr target t : String) (c : AddrCache) (rec : ConnRecorder)
      → (dial_target net i addr target c rec).0 ≡ connected t
      → Keeps addr t (dial_target net i addr target c rec)
  unfolding dial_target set get
  dial_target-Keeps i addr target t c rec h = ground (arith, eq_iff addr addr, eq_iff target addr)

  dial_cached-Keeps :
      (i : DialInputs net) (addr t : String) (c : AddrCache) (rec : ConnRecorder)
      → (dial_cached net i addr (get addr c) c rec).0 ≡ connected t
      → Keeps addr t (dial_cached net i addr (get addr c) c rec)
  unfolding dial_cached
  dial_cached-Keeps i addr t c rec h = ground arith

  dial_resolving-Keeps :
      (i : DialInputs net) (addr host port t : String) (c : AddrCache) (rec : ConnRecorder)
      → (dial_resolving net i addr host port c rec).0 ≡ connected t
      → Keeps addr t (dial_resolving net i addr host port c rec)
  unfolding dial_resolving
  dial_resolving-Keeps i addr host port t c rec h =
      elim (Option-cases (resolved_in_place net i.lookups i.expired i.further_attempts 1)) [
        | inl e ↦ cc (rw (e, dial_resolving) at h)
        | inr (ip, e) ↦
            rw (e, dial_resolving)
              (dial_target-Keeps i addr (net.join_host_port ip port) t c _
                (rw (e, dial_resolving) at h))
      ]

  -- After a dial that connects to `t`, the cache gives `t` for the address that was asked for,
  -- unless `t` is that address itself.
  scheduler_dial_context_connected :
      (i : DialInputs net) (addr t : String) (c : AddrCache) (rec : ConnRecorder)
      → (scheduler_dial_context net i addr c rec).0 ≡ connected t
      → (t ≡ addr) ⊎ (get addr (scheduler_dial_context net i addr c rec).1 ≡ t)
  unfolding scheduler_dial_context
  scheduler_dial_context_connected i addr t c rec h = elim (Bool-cases (str_eq (get addr c) "")) [
    | inr cached ↦
        rw (cached, scheduler_dial_context)
          (dial_cached-Keeps i addr t c rec (rw (cached, scheduler_dial_context) at h))
    | inl e ↦ elim (Option-cases (net.split_host_port addr)) [
      | inl s ↦
          rw (e, scheduler_dial_context)
            (rw (s, scheduler_dial_context)
              (dial_target-Keeps i addr addr t c rec
                (rw (s, scheduler_dial_context) at (rw (e, scheduler_dial_context) at h))))
      | inr ((host, port), s) ↦ ground (
        arith,
        dial_target-Keeps i addr addr t c rec,
        dial_resolving-Keeps i addr host port t c rec,
      )
    ]
  ]

  -- After a dial to the cached address that fails, the cache gives none for it, so that the next
  -- dial does not try that address again.
  scheduler_dial_context_failed :
      (i : DialInputs net) (addr : String) (c : AddrCache) (rec : ConnRecorder)
      → get addr c ≢ ""
      → (scheduler_dial_context net i addr c rec).0 ≡ connect_error
      → get addr (scheduler_dial_context net i addr c rec).1 ≡ ""
  unfolding scheduler_dial_context dial_cached get forget resolve_async
  scheduler_dial_context_failed i addr c rec h e =
      ground (arith, eq_iff (get addr c) "", eq_iff c.hostport addr)
