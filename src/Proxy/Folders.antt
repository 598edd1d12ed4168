-- ===== src/Proxy/Folders.antt =====
-- openwhisk/extractor.go: highestDir; and the folders under baseDir, as the calls of the packages os
-- and io/ioutil leave them. Each holds up to two folders, src and bin, of files by name.
use openwhisk_runtime_go.Base.{ℕ, Option, none, some, List, [], ◌∷◌, if◌then◌else◌, map}
use openwhisk_runtime_go.Base.Int64.{lt}
use openwhisk_runtime_go.Base.Text.{Bytes, same, parse_int}

abbrev pub Contents : Type 0
Contents = List (Bytes × Bytes)

pub record Folder : Type 0 where
  pub name : Bytes
  pub src : Option Contents
  pub bin : Option Contents

-- The value of a name in a list of pairs: the first one.
unfoldable pub find : {A : Type 0} → Bytes → List (Bytes × A) → Option A
find k [] = none
find k ((name, a) ∷ rest) = let later = find k rest in if same name k then some a else later

-- WriteFile, and an assignment to a map.
unfoldable pub write : {A : Type 0} → Bytes → A → List (Bytes × A) → List (Bytes × A)
write k a [] = (k, a) ∷ []
write k a ((name, b) ∷ rest) =
    let later = write k a rest in if same name k then (name, a) ∷ rest else (name, b) ∷ later

unfoldable pub folder : Bytes → List Folder → Option Folder
folder k [] = none
folder k (f ∷ folders) = let later = folder k folders in if same f.name k then some f else later

-- MkdirAll of the src of a folder.
abbrev with_src : Folder → Folder
with_src f = elim f.src [ none ↦ record f { src = some [] } | some files ↦ f ]

unfoldable pub make_src : Bytes → List Folder → List Folder
make_src k [] = record { name = k; src = some []; bin = none } ∷ []
make_src k (f ∷ folders) =
    let later = make_src k folders in if same f.name k then with_src f ∷ folders else f ∷ later

-- A change of the folder with a name.
unfoldable pub change : Bytes → (Folder → Folder) → List Folder → List Folder
change k g [] = []
change k g (f ∷ folders) =
    let later = change k g folders in if same f.name k then g f ∷ folders else f ∷ later

-- RemoveAll of a folder.
unfoldable pub remove : Bytes → List Folder → List Folder
remove k [] = []
remove k (f ∷ folders) = let later = remove k folders in if same f.name k then later else f ∷ later

abbrev pub names : List Folder → List Bytes
names folders = map (λ (f : Folder). f.name) folders

-- One turn of the loop of highestDir.
abbrev pub higher : Option ℕ → ℕ → ℕ
higher none max = max
higher (some n) max = if lt max n then n else max

unfoldable pub highest_of : List Bytes → ℕ → ℕ
unfolding parse_int
highest_of [] max = max
highest_of (name ∷ rest) max = highest_of rest (higher (parse_int name) max)

-- On the names in a directory, `none` where it cannot be read.
unfoldable pub highest_dir : Option (List Bytes) → ℕ
unfolding highest_of
highest_dir none = 0
highest_dir (some listing) = highest_of listing 0
