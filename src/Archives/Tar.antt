-- ===== src/Archives/Tar.antt =====
-- openwhisk/tar.go: UnTar. What the reader of archive/tar gives is an argument: headers, each with its
-- contents, `none` where they cannot be copied, up to the end or an error.
use openwhisk_runtime_go.Base.{
  Bool, true, false, Option, none, some, List, [], ◌∷◌, ◌++◌, drop, length, if◌then◌else◌,
}
use openwhisk_runtime_go.Base.Text.{Bytes}
use openwhisk_runtime_go.Archives.Tree.{
  Node, directory, file, link, Tree, Left, get, put, mkdir_all, parent,
}

pub data Typeflag : Type 0 where
  type_dir type_reg other : Typeflag

-- The results of r.Next.
pub data Next : Type 0 where
  failure nil_header : Next
  header : Typeflag → Bytes → Option Bytes → Next

-- Whether files can be made in the folder.
abbrev pub is_folder : List Bytes → Tree → Bool
is_folder [] tree = true
is_folder (name ∷ rest) tree = elim (get (name ∷ rest) tree) [
  | none ↦ false
  | some directory ↦ true
  | some (file _) ↦ false
  | some (link _) ↦ false
]

-- OpenFile with O_CREATE and without O_TRUNC.
unfoldable pub open_file : List Bytes → Tree → Left
open_file p tree = elim (get p tree) [
  | none ↦ if is_folder (parent p) tree then (tree ++ ((p, file []) ∷ []), true) else (tree, false)
  | some (file _) ↦ (tree, true)
  | some directory ↦ (tree, false)
  | some (link _) ↦ (tree, false)
]

-- Copy over what an open file holds: what was longer stays.
abbrev pub over : Bytes → Option Node → Node
over contents (some (file old)) = file (contents ++ drop (length contents) old)
over contents _ = file contents

unfoldable pub copy_to : List Bytes → Option Bytes → Tree → Left
copy_to p none tree = (tree, false)
copy_to p (some contents) tree = (put p (over contents (get p tree)) tree, true)

module _ (clean : Bytes → List Bytes) where
  -- One header.
  unfoldable pub extract_header : Typeflag → Bytes → Option Bytes → Tree → Left
  extract_header type_dir name contents tree = elim (get (clean name) tree) [
    | none ↦ mkdir_all (clean name) tree
    | some _ ↦ (tree, true)
  ]
  extract_header type_reg name contents tree =
      let (tree', opened) = open_file (clean name) tree in
      if opened then copy_to (clean name) contents tree' else (tree', false)
  extract_header other name contents tree = (tree, true)

  -- The loop of UnTar; the end of the list is io.EOF.
  unfoldable pub untar_entries : List Next → Tree → Left
  untar_entries [] tree = (tree, true)
  untar_entries (failure ∷ rest) tree = (tree, false)
  untar_entries (nil_header ∷ rest) tree = untar_entries rest tree
  untar_entries (header flag name contents ∷ rest) tree =
      let (tree', extracted) = extract_header flag name contents tree in
      elim extracted [ true ↦ untar_entries rest tree' | false ↦ (tree', false) ]
