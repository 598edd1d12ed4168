-- ===== src/Examples/Zipped.antt =====
-- openwhisk/zip.go: a concrete format of archives, and a walk of folders that hold files only.
use openwhisk_runtime_go.Base.{
  ℕ, zero, suc, ◌≡◌, ◌≢◌, subst, refl, true, Option, none, some, List, [], ◌∷◌, ◌==◌, if◌then◌else◌,
  map, arith,
}
use openwhisk_runtime_go.Base.Text.{Bytes}
use openwhisk_runtime_go.Archives.Zip.{Entry, Kind, folder, regular, symbolic, stored}
use openwhisk_runtime_go.Proxy.Kinds.{is_zip, holds}
use openwhisk_runtime_go.Proxy.Zipped.{Packing, ReadsBack}

-- Texts end in a zero byte, and their own bytes are above it.
abbrev write_text : Bytes → Bytes → Bytes
write_text [] rest = 0 ∷ rest
write_text (b ∷ text) rest = suc b ∷ write_text text rest

unfoldable pub read_text : Bytes → Option (Bytes × Bytes)
read_text [] = none
read_text (zero ∷ rest) = some ([], rest)
read_text (suc b ∷ rest) = elim (read_text rest) [
  | none ↦ none
  | some (text, left) ↦ some (b ∷ text, left)
]

read_text-write_text : (text rest : Bytes) → read_text (write_text text rest) ≡ some (text, rest)
unfolding read_text
read_text-write_text [] rest = refl
read_text-write_text (b ∷ text) rest = ground (arith, read_text-write_text text rest)

abbrev code_of : Kind → ℕ
code_of folder = 0
code_of regular = 1
code_of symbolic = 2

abbrev kind_of : ℕ → Kind
kind_of zero = folder
kind_of (suc zero) = regular
kind_of (suc (suc n)) = symbolic

kind_of-code_of : (k : Kind) → kind_of (code_of k) ≡ k
kind_of-code_of folder = refl
kind_of-code_of regular = refl
kind_of-code_of symbolic = refl

abbrev write_contents : Option Bytes → Bytes → Bytes
write_contents none rest = 0 ∷ rest
write_contents (some text) rest = 1 ∷ write_text text rest

unfoldable pub read_contents : Bytes → Option (Option Bytes × Bytes)
unfolding read_text
read_contents [] = none
read_contents (zero ∷ rest) = some (none, rest)
read_contents (suc b ∷ rest) = elim (read_text rest) [
  | none ↦ none
  | some (text, left) ↦ some (some text, left)
]

read_contents-write_contents :
    (c : Option Bytes) (rest : Bytes) → read_contents (write_contents c rest) ≡ some (c, rest)
unfolding read_contents
read_contents-write_contents none rest = refl
read_contents-write_contents (some text) rest = ground (arith, read_text-write_text text rest)

-- The number of entries, and then the entries.
abbrev write_entries : List Entry → Bytes
write_entries [] = []
write_entries (e ∷ es) =
    code_of e.kind ∷ write_text e.name (write_contents e.contents (write_entries es))

unfoldable pub read_entries : ℕ → Bytes → Option (List Entry)
unfolding read_text read_contents
read_entries zero buf = some []
read_entries (suc n) [] = none
read_entries (suc n) (k ∷ buf) = elim (read_text buf) [
  | none ↦ none
  | some (name, rest) ↦ elim (read_contents rest) [
    | none ↦ none
    | some (contents, left) ↦ elim (read_entries n left) [
      | none ↦ none
      | some es ↦ some (record { name = name; kind = kind_of k; contents = contents } ∷ es)
    ]
  ]
]

abbrev count : List Entry → ℕ
count [] = 0
count (e ∷ es) = suc (count es)

read_entries-write_entries :
    (es : List Entry) → read_entries (count es) (write_entries es) ≡ some es
unfolding read_entries
read_entries-write_entries [] = refl
read_entries-write_entries (e ∷ es) = ground (
  arith,
  read_text-write_text e.name (write_contents e.contents (write_entries es)),
  read_contents-write_contents e.contents (write_entries es),
  read_entries-write_entries es,
  kind_of-code_of e.kind,
)

abbrev opened : Bytes → Option (List Entry)
opened (a ∷ b ∷ c ∷ d ∷ n ∷ rest) = read_entries n rest
opened _ = none

abbrev onto_first : ℕ → List Bytes → List Bytes
onto_first b [] = (b ∷ []) ∷ []
onto_first b (name ∷ names) = (b ∷ name) ∷ names

unfoldable pub split_slashes : Bytes → List Bytes
split_slashes [] = [] ∷ []
split_slashes (b ∷ path) =
    let names = split_slashes path in if b == b'/' then [] ∷ names else onto_first b names

abbrev pub drop_empty : List Bytes → List Bytes
drop_empty [] = []
drop_empty ([] ∷ names) = drop_empty names
drop_empty ((b ∷ name) ∷ names) = (b ∷ name) ∷ drop_empty names

-- The names of a path, less empty ones.
unfoldable pub names_of : Bytes → List Bytes
unfolding split_slashes
names_of path = drop_empty (split_slashes path)

abbrev pub packing : Packing
packing = record {
  walk = map (λ (f : Bytes × Bytes). (f.0, stored (some f.1)));
  clean = names_of;
  write_zip = λ es. some (80 ∷ 75 ∷ 3 ∷ 4 ∷ count es ∷ write_entries es);
  read_zip = opened;
}

header-is_zip : (rest : Bytes) → is_zip (80 ∷ 75 ∷ 3 ∷ 4 ∷ rest) ≡ true
unfolding is_zip holds
header-is_zip rest = ground arith

pub packing-ReadsBack : ReadsBack packing
packing-ReadsBack walk es buf plain z h =
    let made : (80 ∷ 75 ∷ 3 ∷ 4 ∷ count es ∷ write_entries es) ≡ buf = ground (arith, h) in
    subst (λ (b : Bytes). (opened b ≡ some es) × (es ≢ [] → is_zip b ≡ true)) made
      (read_entries-write_entries es, λ n. header-is_zip (count es ∷ write_entries es))
