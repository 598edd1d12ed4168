-- ===== src/Executor/Mixed.antt =====
-- openwhisk/executor.go: two calls of Interact at once on one Executor.
use openwhisk_runtime_go.Base.{ℕ, ◌≡◌, false, Option, some, [], refl}
use openwhisk_runtime_go.Base.Text.{Bytes}
use openwhisk_runtime_go.Base.Streams.{IsLine}
use openwhisk_runtime_go.Executor.{
  idle, answered, write_body, write_newline, read, take, return_line, System, reply, call,
  background, finish, Steps, here, next,
}
use openwhisk_runtime_go.Executor.Alone.{cut_at-ended}

abbrev pub initial : {S : Type 0} → S → System S
initial s = record {
  mem = record { stdin = []; stdout = []; state = s; dead = false; exited = false };
  pc = λ i. idle;
  finished = λ i. false;
}

module _ {S : Type 0} {serve : Bytes → S → Option (Bytes × S)} (bodies : ℕ → Bytes) where
  -- Two calls whose bodies the process replies to one after the other: there is an interleaving
  -- in which each returns the reply to the other's body.
  pub Steps-swapped :
      (s s' s'' : S) (a b : Bytes)
      → IsLine (bodies 0)
      → IsLine (bodies 1)
      → serve (bodies 0) s ≡ some (a, s')
      → serve (bodies 1) s' ≡ some (b, s'')
      → (t : System S) × Steps serve bodies (initial s) t
        × (t.pc 0 ≡ answered b)
        × (t.pc 1 ≡ answered a)
  Steps-swapped s s' s'' a b l k f g = (
    _,
    next
        (next
          (next
            (next
              (next
                (next
                  (next
                    (next
                      (next
                        (next
                          (next
                            (next (next (next here (call 0 write_body)) (call 0 write_newline))
                              (background (reply refl (cut_at-ended (bodies 0) l) f)))
                            (call 1 write_body))
                          (call 1 write_newline))
                        (background (reply refl (cut_at-ended (bodies 1) k) g)))
                      (call 1 (read refl)))
                    (call 0 (read refl)))
                  (call 1 take))
                (call 0 take))
              (finish 0))
            (finish 1))
          (call 1 (return_line refl)))
        (call 0 (return_line refl)),
    refl,
    refl,
  )
