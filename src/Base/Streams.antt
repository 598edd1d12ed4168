-- ===== src/Base/Streams.antt =====
-- Streams of bytes that are read line by line: bufio.Reader.ReadBytes at a newline, over a whole
-- stream, and the removal of newlines by bytes.Replace.
use Prim.Native.Nat.{ℕ}
use mathlib.Core.Path.{◌≡◌, refl}
use mathlib.Core.Bool.{Bool, true, not, ◌&&◌}
use mathlib.Core.List.{List, [], ◌∷◌, ◌++◌, map}
use native.Mathlib.Omega.{arith}
use openwhisk_runtime_go.Base.Tests.{◌==◌, if◌then◌else◌}
use openwhisk_runtime_go.Base.Lists.{All}
use openwhisk_runtime_go.Base.Text.{Bytes}

abbrev pub newline : ℕ
newline = 10

abbrev into_first : ℕ → List Bytes → List Bytes
into_first c [] = []
into_first c (line ∷ lines) = (c ∷ line) ∷ lines

-- What the calls of ReadBytes return until the end of the stream, less the newline that ends each.
-- What follows the last newline comes with the error io.EOF, and is not among them.
unfoldable pub lines : Bytes → List Bytes
lines [] = []
lines (c ∷ s) = let rest = lines s in if c == newline then [] ∷ rest else into_first c rest

-- The lines, each written with its newline.
unfoldable pub written : List Bytes → Bytes
written [] = []
written (line ∷ rest) = line ++ (newline ∷ written rest)

unfoldable pub without_newlines : Bytes → Bytes
without_newlines [] = []
without_newlines (c ∷ s) = let rest = without_newlines s in if c == newline then rest else c ∷ rest

unfoldable pub is_line : Bytes → Bool
is_line [] = true
is_line (c ∷ s) = not (c == newline) && is_line s

abbrev pub IsLine : Bytes → Type 0
IsLine s = is_line s ≡ true

pub without_newlines-IsLine : (s : Bytes) → IsLine (without_newlines s)
unfolding without_newlines is_line
without_newlines-IsLine [] = refl
without_newlines-IsLine (c ∷ s) = ground (arith, without_newlines-IsLine s)

pub IsLine-append : (a b : Bytes) → IsLine a → IsLine b → IsLine (a ++ b)
unfolding is_line
IsLine-append [] b h k = k
IsLine-append (c ∷ a) b h k = ground (arith, IsLine-append a b)

lines-line : (a s : Bytes) → IsLine a → lines (a ++ (newline ∷ s)) ≡ a ∷ lines s
unfolding lines is_line
lines-line [] s h = refl
lines-line (c ∷ a) s h = ground (arith, lines-line a s)

-- A stream of lines is read back line by line.
pub lines-written : (ls : List Bytes) → All IsLine ls → lines (written ls) ≡ ls
unfolding written lines
lines-written [] h = refl
lines-written (a ∷ ls) h = ground (arith, lines-line a (written ls) (h.0), lines-written ls (h.1))

pub map-All : (xs : List Bytes) → All IsLine (map without_newlines xs)
map-All [] = tt
map-All (x ∷ xs) = (without_newlines-IsLine x, map-All xs)
