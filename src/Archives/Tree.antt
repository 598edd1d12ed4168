-- ===== src/Archives/Tree.antt =====
-- The files under a folder, as the calls of the package os in openwhisk/zip.go and openwhisk/tar.go
-- leave them. A path is a list of names; one that leaves the folder begins with "..". No call goes
-- through a symbolic link.
use openwhisk_runtime_go.Base.{
  ◌≡◌, ◌↔◌, Bool, true, false, ◌&&◌, Option, none, some, List, [], ◌∷◌, ◌++◌, if◌then◌else◌, arith,
}
use openwhisk_runtime_go.Base.Text.{Bytes, same, same_iff}

unfoldable pub same_path : List Bytes → List Bytes → Bool
same_path [] [] = true
same_path [] (y ∷ ys) = false
same_path (x ∷ xs) [] = false
same_path (x ∷ xs) (y ∷ ys) = same x y && same_path xs ys

pub same_path_iff : (xs ys : List Bytes) → (same_path xs ys ≡ true) ↔ (xs ≡ ys)
unfolding same_path
same_path_iff [] [] = ground arith
same_path_iff [] (y ∷ ys) = ground arith
same_path_iff (x ∷ xs) [] = ground arith
same_path_iff (x ∷ xs) (y ∷ ys) = ground (arith, same_iff x y, same_path_iff xs ys)

pub data Node : Type 0 where
  directory : Node
  file link : Bytes → Node

abbrev pub Tree : Type 0
Tree = List (List Bytes × Node)

unfoldable pub get : List Bytes → Tree → Option Node
get p [] = none
get p ((q, node) ∷ tree) = let later = get p tree in if same_path q p then some node else later

-- An assignment to a path that is there.
unfoldable pub put : List Bytes → Node → Tree → Tree
put p node [] = []
put p node ((q, old) ∷ tree) =
    let later = put p node tree in if same_path q p then (q, node) ∷ tree else (q, old) ∷ later

-- What a call leaves, and whether it ends without error.
abbrev pub Left : Type 0
Left = Tree × Bool

-- Mkdir of a directory that may be there; an error where a file or a link is in its place.
unfoldable pub ensure : List Bytes → Tree → Left
ensure p tree = elim (get p tree) [
  | none ↦ (tree ++ ((p, directory) ∷ []), true)
  | some directory ↦ (tree, true)
  | some (file _) ↦ (tree, false)
  | some (link _) ↦ (tree, false)
]

-- MkdirAll from `base` on: each longer path up to the whole.
unfoldable pub mkdir_from : List Bytes → List Bytes → Tree → Left
mkdir_from base [] tree = (tree, true)
mkdir_from base (name ∷ rest) tree =
    let (tree', made) = ensure (base ++ (name ∷ [])) tree in
    elim made [ true ↦ mkdir_from (base ++ (name ∷ [])) rest tree' | false ↦ (tree', false) ]

abbrev pub mkdir_all : List Bytes → Tree → Left
mkdir_all p tree = mkdir_from [] p tree

-- Dir of a path.
unfoldable pub parent : List Bytes → List Bytes
parent [] = []
parent (name ∷ []) = []
parent (name ∷ next ∷ rest) = name ∷ parent (next ∷ rest)

-- A file opened for writing with O_CREATE and O_TRUNC, and its contents copied.
unfoldable pub write_file : List Bytes → Bytes → Tree → Left
write_file p contents tree = elim (get p tree) [
  | none ↦ (tree ++ ((p, file contents) ∷ []), true)
  | some (file _) ↦ (put p (file contents) tree, true)
  | some directory ↦ (tree, false)
  | some (link _) ↦ (tree, false)
]

-- Symlink, which fails where the path is there.
unfoldable pub symlink : List Bytes → Bytes → Tree → Left
symlink p target tree = elim (get p tree) [
  | none ↦ (tree ++ ((p, link target) ∷ []), true)
  | some _ ↦ (tree, false)
]
