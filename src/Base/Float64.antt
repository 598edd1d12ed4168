-- ===== src/Base/Float64.antt =====
-- Go's float64, which the models do not define: its operations are a parameter of what uses them.
use Prim.Native.Nat.{ℕ, ◌<◌}
use mathlib.Core.Bool.{Bool}
use openwhisk_runtime_go.Base.Int64.{modulus}

pub record Float64 : Type 1 where
  pub Carrier : Type 0
  -- float64(n) and int64(x), on the bit patterns of int64.
  pub of_int : ℕ → Carrier
  pub to_int : Carrier → ℕ
  pub add : Carrier → Carrier → Carrier
  pub mul : Carrier → Carrier → Carrier
  pub div : Carrier → Carrier → Carrier
  pub lt : Carrier → Carrier → Bool
  pub le : Carrier → Carrier → Bool
  -- A conversion to int64 gives an int64.
  pub to_int_range : (x : Carrier) → to_int x < modulus
