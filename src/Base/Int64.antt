-- ===== src/Base/Int64.antt =====
-- Go's int64 as a bit pattern below 2 ^ 64: arithmetic wraps, comparison and division are signed.
use Prim.Native.Nat.{ℕ, ◌+◌, ◌-◌, ◌*◌, ◌/◌, ◌%◌, ◌≤◌, ◌<◌}
use mathlib.Core.Path.{◌≡◌}
use mathlib.Core.Bool.{Bool, false, not}
use native.Mathlib.Omega.{arith}
use openwhisk_runtime_go.Base.Tests.{ltb, leb, if◌then◌else◌}

abbrev pub modulus : ℕ
modulus = 18446744073709551616

abbrev pub half : ℕ
half = 9223372036854775808

unfoldable pub add : ℕ → ℕ → ℕ
add a b = (a + b) % modulus

unfoldable pub sub : ℕ → ℕ → ℕ
sub a b = (a + (modulus - b % modulus)) % modulus

unfoldable pub mul : ℕ → ℕ → ℕ
mul a b = a * b % modulus

-- The order of the signed readings, moved up by 2 ^ 63.
unfoldable pub lt : ℕ → ℕ → Bool
lt a b = ltb ((a + half) % modulus) ((b + half) % modulus)

unfoldable pub le : ℕ → ℕ → Bool
le a b = leb ((a + half) % modulus) ((b + half) % modulus)

-- Division by a positive number truncates towards zero.
unfoldable pub div : ℕ → ℕ → ℕ
div a k = if ltb a half then a / k else sub 0 (sub 0 a / k)

-- On values that are not negative the signed tests are the plain ones.
lt_nonneg : (a b : ℕ) → a < half → b < half → lt a b ≡ ltb a b
unfolding lt
lt_nonneg a b h k = ground arith

pub le_nonneg : (a b : ℕ) → a < half → b < half → le a b ≡ leb a b
unfolding le
le_nonneg a b h k = ground arith

pub sub_exact : (a b : ℕ) → b ≤ a → a < modulus → sub a b ≡ a - b
unfolding sub
sub_exact a b h k = omega arith

pub add_exact : (a b : ℕ) → a + b < modulus → add a b ≡ a + b
unfolding add
add_exact a b h = omega arith

pub add_range : (a b : ℕ) → add a b < modulus
unfolding add
add_range a b = omega arith

-- Replacing a summand of a wrapped sum by another.
pub replace_summand : (rest old new : ℕ) → add (add rest old) (sub new old) ≡ add rest new
unfolding add sub
replace_summand rest old new = omega arith

pub sub_range : (a b : ℕ) → sub a b < modulus
unfolding sub
sub_range a b = omega arith

pub div_range : (a k : ℕ) → div a k < modulus
unfolding div sub
div_range a k = ground arith

-- The signed test for a positive value.
pub positive : (x : ℕ) → x < modulus → le x 0 ≡ false → (0 < x) × (x < half)
unfolding le
positive x r h = ground arith

pub mul_exact : (a b : ℕ) → a * b < modulus → mul a b ≡ a * b
unfolding mul
mul_exact a b h = omega arith

pub lt-not_le : (a b : ℕ) → lt a b ≡ not (le b a)
unfolding lt le
lt-not_le a b = ground arith
