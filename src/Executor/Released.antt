-- ===== src/Executor/Released.antt =====
-- openwhisk/executor.go: the channel `exited` is closed when the process ends, which ends the select
-- of every call of Interact; a call that is monitored then waits for its monitor.
use openwhisk_runtime_go.Base.{
  ℕ, ◌≡◌, ◌+◌, ◌≤◌, ◌⊎◌, inl, inr, Bool, true, false, Option, Bool-cases, ◌==◌, if◌then◌else◌,
  arith, refl,
}
use openwhisk_runtime_go.Base.Text.{Bytes}
use openwhisk_runtime_go.Executor.{
  Pc, idle, wrote_body, waiting, offered, selected, released, answered, left, Shared, System, Call,
  write_body, write_newline, read, take, leave, leave_offer, return_line, return_error, Background,
  reply, die, close, Step, call, stray, finish, background, Steps, here, next,
}

-- The moves that a call has before it, at most.
abbrev pub remaining : Pc → ℕ
remaining idle = 5
remaining wrote_body = 4
remaining waiting = 3
remaining (offered line) = 2
remaining (selected line) = 1
remaining (released reads) = 1
remaining (answered line) = 0
remaining (left reads) = 0

-- The call is past its select, and its monitor has not returned.
abbrev pub AwaitsMonitor : Pc → Bool → Type 0
AwaitsMonitor p finished = (remaining p ≡ 1) × (finished ≡ false)

module _ {S : Type 0} where
  Call-remaining :
      {body : Bytes} {finished : Bool} {m m' : Shared S} {p p' : Pc}
      → Call body finished m p m' p'
      → (remaining p' + 1 ≤ remaining p) × (m'.exited ≡ m.exited)
  Call-remaining write_body = (omega arith, refl)
  Call-remaining write_newline = (omega arith, refl)
  Call-remaining (read e) = (omega arith, refl)
  Call-remaining take = (omega arith, refl)
  Call-remaining (leave e) = (omega arith, refl)
  Call-remaining (leave_offer e) = (omega arith, refl)
  Call-remaining (return_line e) = (omega arith, refl)
  Call-remaining (return_error e) = (omega arith, refl)

  -- Where a call is that finds the channel closed: it has returned, it has a move, or it waits for
  -- its monitor only.
  abbrev pub ReturnsOrWaits : Bytes → Bool → Shared S → Pc → Type 0
  ReturnsOrWaits body finished m p =
      (remaining p ≡ 0)
      ⊎ (((m' : Shared S) × (p' : Pc) × Call body finished m p m' p') ⊎ AwaitsMonitor p finished)

  Call-enabled :
      (body : Bytes) (finished : Bool) (m : Shared S) (p : Pc)
      → m.exited ≡ true
      → ReturnsOrWaits body finished m p
  Call-enabled body finished m idle h = inr (inl (_, _, write_body))
  Call-enabled body finished m wrote_body h = inr (inl (_, _, write_newline))
  Call-enabled body finished m waiting h = inr (inl (_, _, leave h))
  Call-enabled body finished m (offered line) h = inr (inl (_, _, take))
  Call-enabled body finished m (selected line) h = elim (Bool-cases finished) [
    | inl e ↦ inr (inl (_, _, return_line e))
    | inr e ↦ inr (inr (refl, e))
  ]
  Call-enabled body finished m (released reads) h = elim (Bool-cases finished) [
    | inl e ↦ inr (inl (_, _, return_error e))
    | inr e ↦ inr (inr (refl, e))
  ]
  Call-enabled body finished m (answered line) h = inl refl
  Call-enabled body finished m (left reads) h = inl refl

  Background-exited :
      {serve : Bytes → S → Option (Bytes × S)} {m m' : Shared S}
      → Background serve m m'
      → m.exited ≡ true
      → m'.exited ≡ true
  Background-exited (reply d c e) h = h
  Background-exited die h = h
  Background-exited (close d) h = refl

module _ {S : Type 0} {serve : Bytes → S → Option (Bytes × S)} {bodies : ℕ → Bytes} where
  -- How many of the steps are moves of a call.
  abbrev pub own : {s t : System S} → ℕ → Step serve bodies s t → ℕ
  own i (call j c) = if j == i then 1 else 0
  own i (stray j past e k) = 0
  own i (finish j) = 0
  own i (background b) = 0

  abbrev pub moves_of : {s t : System S} → ℕ → Steps serve bodies s t → ℕ
  moves_of i here = 0
  moves_of i (next r st) = moves_of i r + own i st

  Step-remaining :
      {s t : System S} (i : ℕ) (st : Step serve bodies s t)
      → remaining (t.pc i) + own i st ≤ remaining (s.pc i)
  Step-remaining i (call j c) = ground (arith, (Call-remaining c).0)
  Step-remaining i (stray j (inl past) e k) = ground (arith, past, e)
  Step-remaining i (stray j (inr past) e k) = ground (arith, past, e)
  Step-remaining i (finish j) = omega arith
  Step-remaining i (background b) = omega arith

  Step-exited : {s t : System S} → Step serve bodies s t → s.mem.exited ≡ true → t.mem.exited ≡ true
  Step-exited (call j c) h = ground (arith, (Call-remaining c).1, h)
  Step-exited (stray j past e k) h = h
  Step-exited (finish j) h = h
  Step-exited (background b) h = Background-exited b h

  Steps-remaining :
      {s t : System S} (i : ℕ) (r : Steps serve bodies s t)
      → remaining (t.pc i) + moves_of i r ≤ remaining (s.pc i)
  Steps-remaining i here = omega arith
  Steps-remaining i (next r st) = omega (arith, Steps-remaining i r, Step-remaining i st)

  Steps-exited :
      {s t : System S} → Steps serve bodies s t → s.mem.exited ≡ true → t.mem.exited ≡ true
  Steps-exited here h = h
  Steps-exited (next r st) h = Step-exited st (Steps-exited r h)

  -- However many calls share an Executor, and whatever steps they, their monitors and the process
  -- take after `exited` was closed: each call has returned, or has a move that it can make at once
  -- without the others, or is past its select and waits for its own monitor, which has not returned;
  -- and it has made at most five moves of its own, the last of which returns. A call whose monitor
  -- has returned, or that has none, never waits.
  pub Steps-released :
      {s t : System S} (r : Steps serve bodies s t) (i : ℕ)
      → s.mem.exited ≡ true
      → ReturnsOrWaits (bodies i) (t.finished i) t.mem (t.pc i)
        × (remaining (t.pc i) + moves_of i r ≤ 5)
  Steps-released {s} {t} r i h = (
    Call-enabled (bodies i) (t.finished i) t.mem (t.pc i) (Steps-exited r h),
    bounded (s.pc i) (Steps-remaining i r),
  )
    where
      bounded :
          (p : Pc)
          → remaining (t.pc i) + moves_of i r ≤ remaining p
          → remaining (t.pc i) + moves_of i r ≤ 5
      bounded p k = ground (arith, k)
