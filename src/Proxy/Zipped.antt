-- ===== src/Proxy/Zipped.antt =====
-- openwhisk/zip.go between the bytes of an archive and the files of a folder: Zip and Unzip of
-- Archives, with what filepath.Walk meets and what archive/zip writes and reads as arguments.
use openwhisk_runtime_go.Base.{
  ◌≡◌, ◌≢◌, ◌==◌, Bool, true, false, Option, none, some, List, [], ◌∷◌, ◌++◌, map,
}
use openwhisk_runtime_go.Base.Text.{Bytes}
use openwhisk_runtime_go.Archives.Tree.{directory, file, link, Tree}
use openwhisk_runtime_go.Archives.Zip.{Entry, Met, zip_of, unzip_entries}
use openwhisk_runtime_go.Archives.RoundTrip.{tree_of, IsWalk}
use openwhisk_runtime_go.Proxy.Kinds.{is_zip}
use openwhisk_runtime_go.Proxy.Folders.{Contents}
use openwhisk_runtime_go.Proxy.Extraction.{Tools, Archive}

-- filepath and archive/zip: what Walk meets in a folder, how a name is cleaned to a path, and the
-- writer and the reader of archives.
pub record Packing : Type 0 where
  pub walk : Contents → List (Bytes × Met)
  pub clean : Bytes → List Bytes
  pub write_zip : List Entry → Option Bytes
  pub read_zip : Bytes → Option (List Entry)

-- A path with its names joined.
unfoldable pub joined : List Bytes → Bytes
joined [] = []
joined (name ∷ []) = name
joined (name ∷ next ∷ rest) = name ++ (b'/' ∷ joined (next ∷ rest))

-- The regular files of a tree.
unfoldable pub files_in : Tree → Contents
unfolding joined
files_in [] = []
files_in ((path, directory) ∷ tree) = files_in tree
files_in ((path, link target) ∷ tree) = files_in tree
files_in ((path, file contents) ∷ tree) = (joined path, contents) ∷ files_in tree

abbrev pub ends_in_slash : Bytes → Bool
ends_in_slash [] = false
ends_in_slash (b ∷ []) = b == b'/'
ends_in_slash (b ∷ c ∷ rest) = ends_in_slash (c ∷ rest)

module _ (g : Packing) where
  -- Zip of a folder.
  unfoldable pub zip_folder : Contents → Option Bytes
  unfolding zip_of
  zip_folder c = elim (zip_of (g.walk c)) [ none ↦ none | some es ↦ g.write_zip es ]

  -- Unzip to a new folder; none where the archive cannot be opened.
  unfoldable pub unzip_archive : Bytes → Option Archive
  unfolding unzip_entries files_in
  unzip_archive buf = elim (g.read_zip buf) [
    | none ↦ none
    | some es ↦ some (record {
      entries = map (λ (e : Entry). e.name) es;
      files = files_in (unzip_entries g.clean es []);
    })
  ]

  abbrev pub unzipping : Tools → Tools
  unzipping t = record t { open_zip = unzip_archive }

  -- No path that Walk meets ends in a slash.
  abbrev pub IsPlain : List (Bytes × Met) → Type 0
  IsPlain [] = Unit
  IsPlain ((name, met) ∷ walk) = (ends_in_slash name ≡ false) × IsPlain walk

  -- archive/zip: the reader gives the entries that the writer was given, where a name ends in a
  -- slash just for a folder; and an archive that is not empty begins with the header of an entry.
  abbrev pub ReadsBack : Type 0
  ReadsBack =
      (walk : List (Bytes × Met)) (es : List Entry) (buf : Bytes)
      → IsPlain walk
      → zip_of walk ≡ some es
      → g.write_zip es ≡ some buf
      → (g.read_zip buf ≡ some es) × (es ≢ [] → is_zip buf ≡ true)

  -- filepath.Walk on this folder: each path once, after the folders above it, in a clean form; and
  -- the regular files that it meets are those of the folder.
  abbrev pub Meets : Contents → Type 0
  Meets c =
      IsPlain (g.walk c)
      × IsWalk g.clean [] (g.walk c)
      × (files_in (tree_of g.clean (g.walk c)) ≡ c)
