-- ===== src/Launcher/Environment.antt =====
-- golang1.22/lib/launcher.go: the environment variables of the action over its requests.
use openwhisk_runtime_go.Base.{
  ◌≡◌, refl, Bool, not, ◌&&◌, Option, none, some, if◌then◌else◌, str_eq, arith, Bool-cases, [], inl,
  inr,
}
use openwhisk_runtime_go.Base.Text.{Bytes, codes, same}
use openwhisk_runtime_go.Sidecar.Json.{
  null, boolean, number, text, array, object, Members, no_members, member,
}
use openwhisk_runtime_go.Proxy.Folders.{find}
use openwhisk_runtime_go.Proxy.Env.{Variables, or_else, find-write}
use openwhisk_runtime_go.Launcher.{has_byte, setenv, variable_name, set_variables}

-- A name and a value that the system accepts.
unfoldable pub is_settable : Bytes → Bytes → Bool
unfolding has_byte same
is_settable k value =
    not (same k []) && not (has_byte b'=' k) && not (has_byte 0 k) && not (has_byte 0 value)

abbrev pub set_under : Bytes → Bytes → Bytes → Option Bytes
set_under name value k =
    if same name k then if is_settable name value then some value else none else none

pub setenv-find :
    (name value k : Bytes) (env : Variables)
    → find k (setenv name value env) ≡ or_else (set_under name value k) (find k env)
unfolding setenv is_settable
setenv-find name value k env = ground (arith, find-write name k value env)

module _ {N : Type 0} where
  -- The value that a request gives to a variable: the last string member, the payload apart.
  unfoldable pub set_by : Bytes → Members N → Option Bytes
  unfolding is_settable
  set_by k no_members = none
  set_by k (member j (text s) input) =
      let later = set_by k input in
      or_else later (if str_eq j "value" then none else set_under (variable_name j) (codes s) k)
  set_by k (member j v input) = set_by k input

  -- What a variable holds for the action: the string that the request has for it, upper case and
  -- with the prefix __OW_, if the system accepts it; else what it held before, also where that
  -- came with an earlier request.
  pub set_variables-find :
      (k : Bytes) (input : Members N) (env : Variables)
      → find k (set_variables input env) ≡ or_else (set_by k input) (find k env)
  unfolding set_variables set_by
  set_variables-find k no_members env = refl
  set_variables-find k (member j (text s) input) env = elim (Bool-cases (str_eq j "value")) [
    | inl e ↦ rw (e, set_variables, set_by) (ground (arith, set_variables-find k input env))
    | inr e ↦
        let env' = setenv (variable_name j) (codes s) env in
        rw (e, set_variables, set_by)
          (ground
            (arith, set_variables-find k input env', setenv-find (variable_name j) (codes s) k env))
  ]
  set_variables-find k (member j null input) env = set_variables-find k input env
  set_variables-find k (member j (boolean b) input) env = set_variables-find k input env
  set_variables-find k (member j (number n) input) env = set_variables-find k input env
  set_variables-find k (member j (array l) input) env = set_variables-find k input env
  set_variables-find k (member j (object m) input) env = set_variables-find k input env
