-- ===== src/Proxy/Env.antt =====
-- openwhisk/actionProxy.go: SetEnv. The process environment is a list of names and values, as
-- os.Environ gives it split at the first "=".
use openwhisk_runtime_go.Base.{
  ◌≡◌, true, Option, none, some, List, [], ◌∷◌, if◌then◌else◌, arith, refl, ◌∙◌, ap, Bool-cases,
  inl, inr,
}
use openwhisk_runtime_go.Base.Text.{Bytes, codes, same, same_iff, has_prefix, cut_at}
use openwhisk_runtime_go.Proxy.Folders.{find, write}

abbrev pub Variables : Type 0
Variables = List (Bytes × Bytes)

-- Getenv: empty where the variable is not set.
unfoldable pub getenv : Bytes → Variables → Bytes
unfolding find
getenv k environ = elim (find k environ) [ none ↦ [] | some value ↦ value ]

-- The second part of the split of "name=value" at every "=".
unfoldable pub second_part : Bytes → Bytes
unfolding cut_at
second_part value = elim (cut_at b'=' value) [ none ↦ value | some (before, after) ↦ before ]

-- A value of the payload: a string, or another one with what json.Marshal makes of it.
pub data Sent : Type 0 where
  text : Bytes → Sent
  other : Option Bytes → Sent

abbrev pub encoded : Sent → Option Bytes
encoded (text s) = some s
encoded (other buf) = buf

-- A variable that is copied if it is not empty.
abbrev propagate : Bytes → Bytes → Variables → Variables
propagate k value env = if same value [] then env else write k value env

-- The loop over the environment.
unfoldable pub inherit : Variables → Variables → Variables
unfolding has_prefix second_part write
inherit [] env = env
inherit ((k, value) ∷ environ) env =
    inherit environ (if has_prefix (codes "__OW_") k then write k (second_part value) env else env)

-- The loop over the payload.
unfoldable pub receive : List (Bytes × Sent) → Variables → Variables
unfolding write
receive [] env = env
receive ((k, v) ∷ payload) env =
    receive payload (elim (encoded v) [ none ↦ env | some s ↦ write k s env ])

unfoldable pub set_env : Variables → List (Bytes × Sent) → Variables → Variables
unfolding inherit receive getenv write
set_env environ payload env = receive payload (
    inherit environ (
      propagate (codes "__OW_WAIT_FOR_ACK") (getenv (codes "OW_WAIT_FOR_ACK") environ) (
        propagate (codes "__OW_EXECUTION_ENV") (getenv (codes "OW_EXECUTION_ENV") environ)
          (write (codes "__OW_PROXY_VERSION") (codes "1.17.1") env))))

-- The value that the payload gives to a name, and the one that the environment gives: the last one.
unfoldable pub received : Bytes → List (Bytes × Sent) → Option Bytes
received k [] = none
received k ((name, v) ∷ payload) =
    let later = received k payload in
    elim later [ some s ↦ some s | none ↦ if same name k then encoded v else none ]

unfoldable pub inherited : Bytes → Variables → Option Bytes
unfolding second_part has_prefix
inherited k [] = none
inherited k ((name, value) ∷ environ) =
    let later = inherited k environ in
    elim later [
      | some s ↦ some s
      | none ↦
          if same name k
          then if has_prefix (codes "__OW_") name then some (second_part value) else none
          else none
    ]

-- The value that SetEnv itself gives to a name.
abbrev pub given : Bytes → Bytes → Bytes → Option Bytes
given name value k = if same name k then if same value [] then none else some value else none

abbrev pub or_else : Option Bytes → Option Bytes → Option Bytes
or_else none b = b
or_else (some a) b = some a

same_congr : (a b c : Bytes) → same a b ≡ true → same a c ≡ same b c
same_congr a b c h = ground (arith, (same_iff a b).0 h)

pub find-write :
    {A : Type 0} (k j : Bytes) (a : A) (xs : List (Bytes × A))
    → find j (write k a xs) ≡ (if same k j then some a else find j xs)
unfolding find write
find-write k j a [] = ground arith
find-write k j a ((name, b) ∷ xs) = elim (Bool-cases (same name k)) [
  | inl e ↦ rw (e, write) (ground (arith, same_congr name k j e))
  | inr e ↦
      rw (e, write)
        (ground (arith, find-write k j a xs, same_iff k j, same_iff name j, same_iff name k))
]

receive-find :
    (k : Bytes) (payload : List (Bytes × Sent)) (env : Variables)
    → find k (receive payload env) ≡ or_else (received k payload) (find k env)
unfolding receive received
receive-find k [] env = refl
receive-find k ((name, text s) ∷ payload) env =
    ground (arith, receive-find k payload (write name s env), find-write name k s env)
receive-find k ((name, other none) ∷ payload) env = ground (arith, receive-find k payload env)
receive-find k ((name, other (some s)) ∷ payload) env =
    ground (arith, receive-find k payload (write name s env), find-write name k s env)

inherit-find :
    (k : Bytes) (environ env : Variables)
    → find k (inherit environ env) ≡ or_else (inherited k environ) (find k env)
unfolding inherit inherited
inherit-find k [] env = refl
inherit-find k ((name, value) ∷ environ) env = elim (Bool-cases (has_prefix (codes "__OW_") name)) [
  | inl e ↦
      rw (e, inherit, inherited)
        (ground (
          arith,
          inherit-find k environ (write name (second_part value) env),
          find-write name k (second_part value) env,
        ))
  | inr e ↦ rw (e, inherit, inherited) (ground (arith, inherit-find k environ env))
]

propagate-find :
    (name k value : Bytes) (env : Variables)
    → find k (propagate name value env) ≡ or_else (given name value k) (find k env)
propagate-find name k value env = ground (arith, find-write name k value env)

-- Which value an action sees under a name after SetEnv: the last one that the payload gives and
-- that can be encoded; else the one that the process environment gives under a name with the prefix
-- __OW_, up to its first "="; else the acknowledgement, the execution environment and the version
-- under their own names, the first two where they are not empty; else the one of before.
pub set_env-find :
    (k : Bytes) (environ : Variables) (payload : List (Bytes × Sent)) (env : Variables)
    → find k (set_env environ payload env)
      ≡ or_else (received k payload) (
          or_else (inherited k environ) (
            or_else
              (given (codes "__OW_WAIT_FOR_ACK") (getenv (codes "OW_WAIT_FOR_ACK") environ) k)
              (or_else
                (given (codes "__OW_EXECUTION_ENV") (getenv (codes "OW_EXECUTION_ENV") environ) k)
                (or_else (given (codes "__OW_PROXY_VERSION") (codes "1.17.1") k) (find k env)))))
unfolding set_env same
set_env-find k environ payload env =
    let version = write (codes "__OW_PROXY_VERSION") (codes "1.17.1") env in
    let execution =
      propagate (codes "__OW_EXECUTION_ENV") (getenv (codes "OW_EXECUTION_ENV") environ) version in
    let ack =
      propagate (codes "__OW_WAIT_FOR_ACK") (getenv (codes "OW_WAIT_FOR_ACK") environ) execution in
    receive-find k payload (inherit environ ack)
    ∙ ap (or_else (received k payload)) (
        inherit-find k environ ack
        ∙ ap (or_else (inherited k environ)) (
            propagate-find (codes "__OW_WAIT_FOR_ACK") k _ execution
            ∙ ap (or_else (given (codes "__OW_WAIT_FOR_ACK") _ k)) (
                propagate-find (codes "__OW_EXECUTION_ENV") k _ version
                ∙ ap (or_else (given (codes "__OW_EXECUTION_ENV") _ k))
                    (propagate-find (codes "__OW_PROXY_VERSION") k (codes "1.17.1") env))))
