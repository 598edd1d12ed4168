-- ===== src/Base/Text.antt =====
-- Go strings where the code walks them: lists of bytes, with what the code uses of the packages
-- strings and strconv. White space is that of ASCII.
use Prim.Native.Char.{code}
use Prim.Native.String.{String}
use Prim.Native.Nat.{◌<◌, ℕ, zero, suc, ◌+◌, ◌-◌, ◌*◌}
use mathlib.Core.Path.{◌≡◌}
use mathlib.Core.Logic.{◌↔◌}
use mathlib.Core.Bool.{Bool, true, false, ◌&&◌, ◌||◌}
use mathlib.Core.Option.{Option, none, some}
use mathlib.Core.List.{List, [], ◌∷◌}
use native.Mathlib.Omega.{arith}
use openwhisk_runtime_go.Base.Tests.{ltb, leb, ◌==◌, if◌then◌else◌}
use openwhisk_runtime_go.Base.Int64.{half, modulus}

abbrev pub Bytes : Type 0
Bytes = List ℕ

-- The bytes of a text in ASCII.
abbrev pub codes : String → Bytes
codes String.[] = []
codes (String.◌∷◌ c s) = code c ∷ codes s

unfoldable pub same : Bytes → Bytes → Bool
same [] [] = true
same [] (y ∷ ys) = false
same (x ∷ xs) [] = false
same (x ∷ xs) (y ∷ ys) = (x == y) && same xs ys

pub same_iff : (xs ys : Bytes) → (same xs ys ≡ true) ↔ (xs ≡ ys)
unfolding same
same_iff [] [] = ground arith
same_iff [] (y ∷ ys) = ground arith
same_iff (x ∷ xs) [] = ground arith
same_iff (x ∷ xs) (y ∷ ys) = ground (arith, same_iff xs ys)

-- What follows the prefix, if it is one: HasPrefix, and TrimPrefix where it holds.
unfoldable pub after_prefix : Bytes → Bytes → Option Bytes
after_prefix [] s = some s
after_prefix (p ∷ ps) [] = none
after_prefix (p ∷ ps) (c ∷ s) = if p == c then after_prefix ps s else none

unfoldable pub has_prefix : Bytes → Bytes → Bool
unfolding after_prefix
has_prefix prefix s = elim (after_prefix prefix s) [ none ↦ false | some rest ↦ true ]

unfoldable pub contains : Bytes → Bytes → Bool
unfolding has_prefix
contains part [] = has_prefix part []
contains part (c ∷ s) = has_prefix part (c ∷ s) || contains part s

-- The first part of a split, and the rest of the parts.
abbrev push : ℕ → List Bytes → List Bytes
push c [] = (c ∷ []) ∷ []
push c (part ∷ parts) = (c ∷ part) ∷ parts

-- Split at one byte.
unfoldable pub split : ℕ → Bytes → List Bytes
split sep [] = [] ∷ []
split sep (c ∷ s) = let rest = split sep s in if c == sep then [] ∷ rest else push c rest

-- SplitN with 2: what comes before the first separator and what comes after it.
unfoldable pub cut_at : ℕ → Bytes → Option (Bytes × Bytes)
cut_at sep [] = none
cut_at sep (c ∷ s) =
    let rest = cut_at sep s in
    if c == sep
    then some ([], s)
    else elim rest [ none ↦ none | some (before, after) ↦ some (c ∷ before, after) ]

abbrev pub is_space : ℕ → Bool
is_space c = (c == b' ') || (leb 9 c && leb c 13)

unfoldable pub trim_left : Bytes → Bytes
trim_left [] = []
trim_left (c ∷ s) = let rest = trim_left s in if is_space c then rest else c ∷ s

unfoldable pub reverse_onto : Bytes → Bytes → Bytes
reverse_onto [] acc = acc
reverse_onto (c ∷ s) acc = reverse_onto s (c ∷ acc)

unfoldable pub trim_space : Bytes → Bytes
unfolding trim_left reverse_onto
trim_space s = reverse_onto (trim_left (reverse_onto (trim_left s) [])) []

abbrev not_empty : List Bytes → List Bytes
not_empty [] = []
not_empty ([] ∷ parts) = not_empty parts
not_empty ((c ∷ part) ∷ parts) = (c ∷ part) ∷ not_empty parts

abbrev spaces_to : ℕ → Bytes → Bytes
spaces_to c [] = []
spaces_to c (d ∷ s) = (if is_space d then c else d) ∷ spaces_to c s

-- Fields: the parts between runs of white space.
unfoldable pub fields : Bytes → List Bytes
unfolding split
fields s = not_empty (split b' ' (spaces_to b' ' s))

-- What follows the last occurrence of a byte.
unfoldable pub after_last : ℕ → Bytes → Option Bytes
after_last b [] = none
after_last b (c ∷ s) =
    let rest = after_last b s in
    elim rest [ some t ↦ some t | none ↦ if c == b then some s else none ]

abbrev is_digit : ℕ → Bool
is_digit c = leb b'0' c && leb c b'9'

-- The digits, after `acc`; none where one is no digit.
unfoldable pub digits_value : ℕ → Bytes → Option ℕ
digits_value acc [] = some acc
digits_value acc (c ∷ s) = elim (is_digit c) [
  | true ↦ digits_value (acc * 10 + (c - b'0')) s
  | false ↦ none
]

abbrev unsigned : Bytes → Option ℕ
unsigned [] = none
unsigned (c ∷ s) = digits_value 0 (c ∷ s)

abbrev within : ℕ → Option ℕ → Option ℕ
within bound none = none
within bound (some n) = if ltb n bound then some n else none

abbrev negated : Option ℕ → Option ℕ
negated none = none
negated (some zero) = some 0
negated (some (suc n)) = some (modulus - suc n)

-- ParseInt in base 10 with 64 bits, and Atoi: the bit pattern of the value.
unfoldable pub parse_int : Bytes → Option ℕ
unfolding digits_value
parse_int [] = none
parse_int (c ∷ s) =
    if c == b'-'
    then negated (within (half + 1) (unsigned s))
    else if c == b'+'
    then within half (unsigned s)
    else within half (unsigned (c ∷ s))

-- A number that is read is a bit pattern of 64 bits.
pub parse_int-range : (s : Bytes) (n : ℕ) → parse_int s ≡ some n → n < modulus
unfolding parse_int
parse_int-range [] n h = ground arith
parse_int-range (c ∷ s) n h = ground arith
