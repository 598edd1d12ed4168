-- ===== src/Channel/Address.antt =====
-- openwhisk/schedulerChannel.go: addrCache and schedulerDialContext. The package net and the
-- environment are parameters; the lock makes each method of the cache one step.
use openwhisk_runtime_go.Base.{
  ℕ, zero, suc, Bool, true, false, not, ◌&&◌, Option, none, some, List, [], ◌∷◌, String,
  if◌then◌else◌, str_eq,
}
use openwhisk_runtime_go.Base.Int64
use openwhisk_runtime_go.Channel.Recorder.{
  ConnRecorder, notes, cached_addr, resolve_start, resolve_done, connect_start, connect_done,
}

-- net.SplitHostPort, whether net.ParseIP reads a string and as an IPv4 address, net.JoinHostPort.
pub record Net : Type 0 where
  pub split_host_port : String → Option (String × String)
  pub is_ip : String → Bool
  pub is_ipv4 : String → Bool
  pub join_host_port : String → String → String

-- url.URL, by the parts that are read.
pub record Url : Type 0 where
  pub scheme : String
  pub hostname : String
  pub port : String

pub record AddrCache : Type 0 where
  pub hostport : String
  pub ipport : String
  pub resolving : Bool

unfoldable pub get : String → AddrCache → String
get hostport c = if str_eq c.hostport hostport then c.ipport else ""

unfoldable pub set : String → String → AddrCache → AddrCache
set hostport ipport c = record c { hostport = hostport; ipport = ipport }

unfoldable pub forget : String → AddrCache → AddrCache
forget hostport c = if str_eq c.hostport hostport then record c { ipport = "" } else c

-- positiveIntEnv, on what strconv.Atoi gives for the variable's value.
unfoldable pub positive_int_env : Option ℕ → ℕ → ℕ
positive_int_env none def = def
positive_int_env (some parsed) def = if Int64.lt 0 parsed then parsed else def

module _ (net : Net) where
  unfoldable first_ipv4 : List String → Option String
  first_ipv4 [] = none
  first_ipv4 (ip ∷ ips) = let later = first_ipv4 ips in if net.is_ipv4 ip then some ip else later

  -- The first IPv4 address, or else the first; "" without any.
  unfoldable pick_ip : List String → String
  unfolding first_ipv4
  pick_ip ips = elim (first_ipv4 ips) [
    | some ip ↦ ip
    | none ↦ elim ips [ [] ↦ "" | ip ∷ rest ↦ ip ]
  ]

  -- On what the lookup gives within its time, `none` for an error.
  unfoldable resolve_once : Option (List String) → Option String
  unfolding pick_ip
  resolve_once none = none
  resolve_once (some ips) = if str_eq (pick_ip ips) "" then none else some (pick_ip ips)

  -- resolveAsync up to the start of the goroutine: the new cache, and the host and port that the
  -- goroutine resolves, if one is started.
  unfoldable pub resolve_async : String → AddrCache → AddrCache × Option (String × String)
  resolve_async hostport c = elim (net.split_host_port hostport) [
    | none ↦ (c, none)
    | some (host, port) ↦
        if net.is_ip host
        then (c, none)
        else if c.resolving
        then (c, none)
        else (record c { resolving = true }, some (host, port))
  ]

  -- schedulerHostPort, on what url.Parse gives for the URL.
  unfoldable scheduler_host_port : Option Url → String
  scheduler_host_port none = ""
  scheduler_host_port (some u) =
      let default = if str_eq u.scheme "https" then "443" else "80" in
      if str_eq u.hostname ""
      then ""
      else net.join_host_port u.hostname (if str_eq u.port "" then default else u.port)

  -- warmSchedulerAddress, at the start of the container.
  unfoldable warm_scheduler_address : Option Url → AddrCache → AddrCache × Option (String × String)
  unfolding scheduler_host_port resolve_async get
  warm_scheduler_address url c =
      let hostport = scheduler_host_port url in
      if not (str_eq hostport "") && str_eq (get hostport c) ""
      then resolve_async hostport c
      else (c, none)

  -- The loop of the goroutine: the address found in the attempts, with how many were made.
  unfoldable attempts_found : (ℕ → Option (List String)) → ℕ → ℕ → Option String × ℕ
  unfolding resolve_once
  attempts_found lookups zero n = (none, n)
  attempts_found lookups (suc k) n = elim (resolve_once (lookups n)) [
    | some ip ↦ (some ip, suc n)
    | none ↦ attempts_found lookups k (suc n)
  ]

  -- The goroutine's effect on the cache, at its end.
  unfoldable resolved_in_background :
      String → String → (ℕ → Option (List String)) → ℕ → AddrCache → AddrCache
  unfolding attempts_found set
  resolved_in_background hostport port lookups max_attempts c =
      elim (attempts_found lookups max_attempts 0).0 [
        | some ip ↦ record (set hostport (net.join_host_port ip port) c) { resolving = false }
        | none ↦ record c { resolving = false }
      ]

  -- The loop of a resolution in place, `k` attempts left after this one; `expired` says that the
  -- call's context has ended by the end of an attempt.
  unfoldable pub resolved_in_place : (ℕ → Option (List String)) → (ℕ → Bool) → ℕ → ℕ → Option String
  unfolding resolve_once
  resolved_in_place lookups expired zero n = resolve_once (lookups n)
  resolved_in_place lookups expired (suc k) n = elim (resolve_once (lookups n)) [
    | some ip ↦ some ip
    | none ↦ elim (expired n) [ true ↦ none | false ↦ resolved_in_place lookups expired k (suc n) ]
  ]

  -- What one dial meets: the name lookups, the clock at each note, whether the connection to a
  -- target is made.
  pub record DialInputs : Type 0 where
    pub lookups : ℕ → Option (List String)
    pub expired : ℕ → Bool
    pub further_attempts : ℕ
    pub resolve_started : ℕ
    pub resolve_ended : ℕ
    pub connect_started : ℕ
    pub connect_ended : ℕ
    pub connects : String → Bool

  pub data Dialed : Type 0 where
    connected : String → Dialed
    connect_error dns_error : Dialed

  -- The end of a dial without a cached address.
  unfoldable pub dial_target :
      DialInputs → String → String → AddrCache → ConnRecorder → Dialed × AddrCache × ConnRecorder
  unfolding set
  dial_target i addr target c rec =
      let rec' = notes (connect_start i.connect_started ∷ connect_done i.connect_ended ∷ []) rec in
      if i.connects target
      then (connected target, (if str_eq target addr then c else set addr target c), rec')
      else (connect_error, c, rec')

  unfoldable pub dial_cached :
      DialInputs → String → String → AddrCache → ConnRecorder → Dialed × AddrCache × ConnRecorder
  unfolding forget resolve_async
  dial_cached i addr ipport c rec =
      let rec' =
        notes (cached_addr ∷ connect_start i.connect_started ∷ connect_done i.connect_ended ∷ [])
          rec in
      if i.connects ipport
      then (connected ipport, c, rec')
      else (connect_error, (resolve_async addr (forget addr c)).0, rec')

  unfoldable pub dial_resolving :
      DialInputs
      → String
      → String
      → String
      → AddrCache
      → ConnRecorder
      → Dialed × AddrCache × ConnRecorder
  unfolding dial_target resolved_in_place
  dial_resolving i addr host port c rec =
      elim (resolved_in_place i.lookups i.expired i.further_attempts 1) [
        | none ↦ (
          dns_error,
          c,
          notes (resolve_start i.resolve_started ∷ resolve_done i.resolve_ended false ∷ []) rec,
        )
        | some ip ↦
            dial_target i addr (net.join_host_port ip port) c
              (notes (resolve_start i.resolve_started ∷ resolve_done i.resolve_ended true ∷ []) rec)
      ]

  unfoldable pub scheduler_dial_context :
      DialInputs → String → AddrCache → ConnRecorder → Dialed × AddrCache × ConnRecorder
  unfolding dial_target dial_cached dial_resolving get
  scheduler_dial_context i addr c rec =
      if not (str_eq (get addr c) "")
      then dial_cached i addr (get addr c) c rec
      else elim (net.split_host_port addr) [
        | none ↦ dial_target i addr addr c rec
        | some (host, port) ↦
            if net.is_ip host
            then dial_target i addr addr c rec
            else dial_resolving i addr host port c rec
      ]
