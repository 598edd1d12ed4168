-- ===== src/Archives/Zip.antt =====
-- openwhisk/zip.go: Zip and Unzip. An entry is what archive/zip keeps: its name, its kind from the
-- mode, and its contents, `none` where they cannot be read. filepath's cleaning of a name is an
-- argument.
use openwhisk_runtime_go.Base.{false, Option, none, some, List, [], ◌∷◌, ◌++◌, if◌then◌else◌}
use openwhisk_runtime_go.Base.Text.{Bytes, codes}
use openwhisk_runtime_go.Archives.Tree.{Tree, Left, mkdir_all, parent, write_file, symlink}

pub data Kind : Type 0 where
  folder regular symbolic : Kind

pub record Entry : Type 0 where
  pub name : Bytes
  pub kind : Kind
  pub contents : Option Bytes

-- What Walk meets at a path below the folder: an error, a link with its target, a folder, a regular
-- file, or another file.
pub data Met : Type 0 where
  unreadable subfolder irregular : Met
  linked stored : Option Bytes → Met

-- The entry of a link or of a file, where it can be read.
abbrev pub entry_of : Bytes → Kind → Option Bytes → Option (List Entry) → Option (List Entry)
entry_of name kind none rest = none
entry_of name kind (some c) none = none
entry_of name kind (some c) (some es) =
    some (record { name = name; kind = kind; contents = some c } ∷ es)

abbrev pub folder_entry : Bytes → Option (List Entry) → Option (List Entry)
folder_entry name none = none
folder_entry name (some es) =
    some (record { name = name ++ codes "/"; kind = folder; contents = some [] } ∷ es)

-- Zip, on the paths that Walk meets in its order; an error ends the walk.
unfoldable pub zip_of : List (Bytes × Met) → Option (List Entry)
zip_of [] = some []
zip_of ((name, unreadable) ∷ walk) = none
zip_of ((name, irregular) ∷ walk) = zip_of walk
zip_of ((name, linked target) ∷ walk) = entry_of name symbolic target (zip_of walk)
zip_of ((name, stored contents) ∷ walk) = entry_of name regular contents (zip_of walk)
zip_of ((name, subfolder) ∷ walk) = folder_entry name (zip_of walk)

module _ (clean : Bytes → List Bytes) where
  -- extractAndWriteFile.
  unfoldable pub extract_and_write_file : Entry → Tree → Left
  extract_and_write_file e tree = elim e.kind [
    | folder ↦ mkdir_all (clean e.name) tree
    | symbolic ↦ elim e.contents [
      | none ↦ (tree, false)
      | some target ↦ symlink (clean e.name) target tree
    ]
    | regular ↦ elim e.contents [
      | none ↦ (tree, false)
      | some contents ↦
          let (tree', made) = mkdir_all (parent (clean e.name)) tree in
          if made then write_file (clean e.name) contents tree' else (tree', false)
    ]
  ]

  -- The loop of Unzip: an error is only logged.
  unfoldable pub unzip_entries : List Entry → Tree → Tree
  unzip_entries [] tree = tree
  unzip_entries (e ∷ es) tree = unzip_entries es (extract_and_write_file e tree).0
