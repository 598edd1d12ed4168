-- ===== src/Executor/Alone.antt =====
-- openwhisk/executor.go: one call of Interact at a time.
use openwhisk_runtime_go.Base.{
  ◌≡◌, ◌⊎◌, inl, inr, Bool, true, false, Option, none, some, [], ◌∷◌, ◌++◌, arith, refl, ap,
}
use openwhisk_runtime_go.Base.Text.{Bytes, cut_at}
use openwhisk_runtime_go.Base.Streams.{newline, is_line, IsLine}
use openwhisk_runtime_go.Executor.{
  Pc, idle, wrote_body, waiting, offered, selected, released, answered, left, Shared, Call,
  write_body, write_newline, read, take, leave, leave_offer, return_line, return_error, Background,
  reply, die, close,
}

cut_at-line : (a : Bytes) → IsLine a → cut_at newline a ≡ none
unfolding cut_at is_line
cut_at-line [] h = refl
cut_at-line (c ∷ a) h = ground (arith, cut_at-line a)

pub cut_at-ended : (a : Bytes) → IsLine a → cut_at newline (a ++ (newline ∷ [])) ≡ some (a, [])
unfolding cut_at is_line
cut_at-ended [] h = refl
cut_at-ended (c ∷ a) h = ground (arith, cut_at-ended a)

module _ {S : Type 0} (serve : Bytes → S → Option (Bytes × S)) (body : Bytes) where
  -- The moves of one call and of what runs in the background, with no other call. The monitor of
  -- the call may return at any time.
  pub data Solo (m : Shared S) (p : Pc) : Shared S → Pc → Type 0 where
    here : Solo m p m p
    own :
        {finished : Bool} {m' m'' : Shared S} {p' p'' : Pc}
        → Solo m p m' p'
        → Call body finished m' p' m'' p''
        → Solo m p m'' p''
    behind :
        {m' m'' : Shared S} {p' : Pc} → Solo m p m' p' → Background serve m' m'' → Solo m p m'' p'

  -- The pipes are empty.
  abbrev pub IsQuiet : Shared S → Type 0
  IsQuiet m = (m.stdin ≡ []) × (m.stdout ≡ [])

  module _ (s s' : S) (out : Bytes) where
    -- What a call that is alone has done so far.
    abbrev Phase : Shared S → Pc → Type 0
    Phase m idle = (m.stdin ≡ []) × (m.stdout ≡ []) × (m.state ≡ s)
    Phase m wrote_body = (m.stdin ≡ body) × (m.stdout ≡ []) × (m.state ≡ s)
    Phase m waiting =
        ((m.stdin ≡ body ++ (newline ∷ [])) × (m.stdout ≡ []) × (m.state ≡ s))
        ⊎ ((m.stdin ≡ []) × (m.stdout ≡ out ∷ []) × (m.state ≡ s'))
    Phase m (offered line) = (m.stdin ≡ []) × (m.stdout ≡ []) × (m.state ≡ s') × (line ≡ out)
    Phase m (selected line) = (m.stdin ≡ []) × (m.stdout ≡ []) × (m.state ≡ s') × (line ≡ out)
    Phase m (answered line) = (m.stdin ≡ []) × (m.stdout ≡ []) × (m.state ≡ s') × (line ≡ out)
    Phase m (released reads) = Unit
    Phase m (left reads) = Unit

    Call-Phase :
        {finished : Bool} {m m' : Shared S} {p p' : Pc}
        → Call body finished m p m' p'
        → Phase m p
        → Phase m' p'
    Call-Phase write_body h = ground (arith, h)
    Call-Phase write_newline h = inl (ground (arith, h))
    Call-Phase (read e) (inl h) = ground (arith, e, h)
    Call-Phase (read e) (inr h) = ground (arith, e, h)
    Call-Phase take h = h
    Call-Phase (leave e) h = tt
    Call-Phase (leave_offer e) h = tt
    Call-Phase (return_line e) h = h
    Call-Phase (return_error e) h = tt

    module _ (is_line : IsLine body) (served : serve body s ≡ some (out, s')) where
      reply-Phase :
          (m : Shared S) (p : Pc) {line rest made : Bytes} {state : S}
          → cut_at newline m.stdin ≡ some (line, rest)
          → serve line m.state ≡ some (made, state)
          → Phase m p
          → Phase (record m { stdin = rest; stdout = m.stdout ++ (made ∷ []); state = state }) p
      unfolding cut_at
      reply-Phase m idle c e h = absurd (ground (arith, c, h))
      reply-Phase m wrote_body c e h = absurd (ground (arith, cut_at-line body is_line, c, h))
      reply-Phase m waiting c e (inl h) =
          inr (ground (arith, cut_at-ended body is_line, c, e, h, served))
      reply-Phase m waiting c e (inr h) = absurd (ground (arith, c, h))
      reply-Phase m (offered line) c e h = absurd (ground (arith, c, h))
      reply-Phase m (answered line) c e h = absurd (ground (arith, c, h))
      reply-Phase m (selected line) c e h = absurd (ground (arith, c, h))
      reply-Phase m (released reads) c e h = tt
      reply-Phase m (left reads) c e h = tt

      die-Phase :
          (m : Shared S) (p : Pc) (dead exited : Bool)
          → Phase m p
          → Phase (record m { dead = dead; exited = exited }) p
      die-Phase m idle dead exited h = h
      die-Phase m wrote_body dead exited h = h
      die-Phase m waiting dead exited h = h
      die-Phase m (offered line) dead exited h = h
      die-Phase m (answered line) dead exited h = h
      die-Phase m (selected line) dead exited h = h
      die-Phase m (released reads) dead exited h = h
      die-Phase m (left reads) dead exited h = h

      Background-Phase : {m m' : Shared S} (p : Pc) → Background serve m m' → Phase m p → Phase m' p
      Background-Phase {m} p (reply d c e) h = reply-Phase m p c e h
      Background-Phase {m} p die h = die-Phase m p true m.exited h
      Background-Phase {m} p (close d) h = die-Phase m p m.dead true h

      Solo-Phase :
          {m : Shared S} {p : Pc} {m' : Shared S} {p' : Pc}
          → Solo m p m' p'
          → Phase m p
          → Phase m' p'
      Solo-Phase here h = h
      Solo-Phase (own r c) h = Call-Phase c (Solo-Phase r h)
      Solo-Phase (behind {p'} r b) h = Background-Phase p' b (Solo-Phase r h)

  cut_at-next :
      (m : Shared S)
      → IsLine body
      → m.stdin ≡ []
      → cut_at newline ((m.stdin ++ body) ++ (newline ∷ [])) ≡ some (body, [])
  cut_at-next m l h = rw (h) (cut_at-ended body l)

  -- A process that is not dead lets the call return, once its monitor does.
  pub Solo-returns :
      (m : Shared S) (out : Bytes) (s' : S)
      → IsLine body
      → IsQuiet m
      → m.dead ≡ false
      → serve body m.state ≡ some (out, s')
      → (m' : Shared S) × Solo m idle m' (answered out)
  Solo-returns m out s' l (e, f) d h = (
    _,
    own {finished = true}
        (own {finished = true}
          (own {finished = true}
            (behind (own {finished = true} (own {finished = true} here write_body) write_newline)
              (reply d (cut_at-next m l e) h))
            (read (ap (λ o. o ++ (out ∷ [])) f)))
          take)
        (return_line refl),
  )

  -- A call that is alone, on pipes that are empty, with a body of one line that the process
  -- replies to: whenever the call returns a line, whatever the process, the goroutine that waits for
  -- it and the monitor do meanwhile, it is this reply, and it leaves the pipes empty and the process in the state
  -- after this body.
  pub Solo-answered :
      (m m' : Shared S) (out line : Bytes) (s' : S)
      → IsLine body
      → IsQuiet m
      → serve body m.state ≡ some (out, s')
      → Solo m idle m' (answered line)
      → (line ≡ out) × IsQuiet m' × (m'.state ≡ s')
  Solo-answered m m' out line s' l q h r =
      ground (arith, Solo-Phase m.state s' out l h r (q.0, q.1, refl))
