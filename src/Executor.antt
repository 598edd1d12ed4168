-- ===== src/Executor.antt =====
-- openwhisk/executor.go: Interact by several callers at once on one Executor, with the goroutines
-- that read for them, the one that waits for the process in Start, and the process, as
-- interleavings of their moves. Of a monitor only its end is here, which its call waits for; what it
-- does is Monitor/Interact's. The process is
-- a function from a line and its state to a line. The proxy keeps its end of the pipe open for
-- writing, so that a reader waits for ever where the process has ended.
pub mod Released
pub mod Alone
pub mod Mixed
use openwhisk_runtime_go.Base.{
  ℕ, ◌≡◌, ◌⊎◌, Bool, true, false, Option, none, some, List, [], ◌∷◌, ◌++◌, ◌==◌, if◌then◌else◌,
}
use openwhisk_runtime_go.Base.Text.{Bytes, cut_at}
use openwhisk_runtime_go.Base.Streams.{newline}

-- Where a call of Interact stands. Its reader is part of it until the call leaves.
pub data Pc : Type 0 where
  idle wrote_body waiting : Pc
  -- The reader has a line, and the select has not received it.
  offered : Bytes → Pc
  -- The select has received the line, or from `exited`, and the call waits for its monitor; whether
  -- the reader still reads.
  selected : Bytes → Pc
  released : Bool → Pc
  -- The call has returned, with a line or because the process has ended.
  answered : Bytes → Pc
  left : Bool → Pc

module _ (S : Type 0) where
  -- The pipes, as bytes that the process has yet to read and lines that the readers have yet to
  -- read; the process; and the channel `exited`, which is closed or open.
  pub record Shared : Type 0 where
    pub stdin : Bytes
    pub stdout : List Bytes
    pub state : S
    pub dead : Bool
    pub exited : Bool

  -- `finished` says of each call that its monitor has returned, or that it has none.
  pub record System : Type 0 where
    pub mem : Shared
    pub pc : ℕ → Pc
    pub finished : ℕ → Bool

abbrev pub update : {A : Type 0} → (ℕ → A) → ℕ → A → ℕ → A
update f i p j = if i == j then p else f j

module _ {S : Type 0} where
  -- A move of one call, or of its reader.
  pub data Call (body : Bytes) (finished : Bool) (m : Shared S) : Pc → Shared S → Pc → Type 0 where
    write_body : Call body finished m idle (record m { stdin = m.stdin ++ body }) wrote_body
    write_newline :
        Call body finished m wrote_body (record m { stdin = m.stdin ++ (newline ∷ []) }) waiting
    read :
        {line : Bytes} {rest : List Bytes}
        → m.stdout ≡ line ∷ rest
        → Call body finished m waiting (record m { stdout = rest }) (offered line)
    take : {line : Bytes} → Call body finished m (offered line) m (selected line)
    leave : m.exited ≡ true → Call body finished m waiting m (released true)
    leave_offer :
        {line : Bytes} → m.exited ≡ true → Call body finished m (offered line) m (released false)
    return_line :
        {line : Bytes} → finished ≡ true → Call body finished m (selected line) m (answered line)
    return_error :
        {reads : Bool} → finished ≡ true → Call body finished m (released reads) m (left reads)

  -- A move of the process, or of the goroutine that waits for it.
  pub data Background (serve : Bytes → S → Option (Bytes × S)) (m : Shared S)
      : Shared S → Type 0 where
    reply :
        {line rest out : Bytes} {state : S}
        → m.dead ≡ false
        → cut_at newline m.stdin ≡ some (line, rest)
        → serve line m.state ≡ some (out, state)
        → Background serve m
            (record m { stdin = rest; stdout = m.stdout ++ (out ∷ []); state = state })
    die : Background serve m (record m { dead = true })
    close : m.dead ≡ true → Background serve m (record m { exited = true })

  pub data Step (serve : Bytes → S → Option (Bytes × S)) (bodies : ℕ → Bytes) (s : System S)
      : System S → Type 0 where
    call :
        (i : ℕ) {m : Shared S} {p : Pc}
        → Call (bodies i) (s.finished i) s.mem (s.pc i) m p
        → Step serve bodies s (record s { mem = m; pc = update s.pc i p })
    -- A reader whose call is past its select takes a line.
    stray :
        (i : ℕ) {past : Bool → Pc} {line : Bytes} {rest : List Bytes}
        → (past ≡ left) ⊎ (past ≡ released)
        → s.pc i ≡ past true
        → s.mem.stdout ≡ line ∷ rest
        → Step serve bodies s
            (record s { mem = record s.mem { stdout = rest }; pc = update s.pc i (past false) })
    -- The monitor of a call returns.
    finish : (i : ℕ) → Step serve bodies s (record s { finished = update s.finished i true })
    background :
        {m : Shared S} → Background serve s.mem m → Step serve bodies s (record s { mem = m })

  pub data Steps (serve : Bytes → S → Option (Bytes × S)) (bodies : ℕ → Bytes) (s : System S)
      : System S → Type 0 where
    here : Steps serve bodies s s
    next :
        {t u : System S} → Steps serve bodies s t → Step serve bodies t u → Steps serve bodies s u
