-- ===== src/Archives/RoundTrip.antt =====
-- openwhisk/zip.go: Unzip of what Zip makes.
use mathlib.Core.List.{append_assoc, append-nil}
use openwhisk_runtime_go.Base.{
  ◌≡◌, ◌≢◌, true, none, some, List, [], ◌∷◌, ◌++◌, arith, refl, sym, subst, ◌∙◌, ap, inl, inr,
  Option-cases,
}
use openwhisk_runtime_go.Base.Text.{Bytes, codes}
use openwhisk_runtime_go.Archives.Tree.{
  directory, file, link, Tree, Left, get, ensure, mkdir_from, parent, write_file, symlink,
}
use openwhisk_runtime_go.Archives.Zip.{
  Entry, folder, regular, symbolic, Met, subfolder, unreadable, irregular, linked, stored, zip_of,
  extract_and_write_file, unzip_entries,
}

-- Each path that is a proper part of the path from `base` on is a directory.
abbrev pub FoldersAbove : List Bytes → List Bytes → Tree → Type 0
FoldersAbove base [] tree = Unit
FoldersAbove base (name ∷ []) tree = Unit
FoldersAbove base (name ∷ next ∷ rest) tree =
    (get (base ++ (name ∷ [])) tree ≡ some directory)
    × FoldersAbove (base ++ (name ∷ [])) (next ∷ rest) tree

mkdir_from-there :
    (base rest : List Bytes) (name : Bytes) (tree : Tree)
    → get (base ++ (name ∷ [])) tree ≡ some directory
    → mkdir_from base (name ∷ rest) tree ≡ mkdir_from (base ++ (name ∷ [])) rest tree
unfolding mkdir_from ensure
mkdir_from-there base rest name tree h = ground (arith, h)

mkdir_from-parent :
    (base p : List Bytes) (tree : Tree)
    → FoldersAbove base p tree
    → mkdir_from base (parent p) tree ≡ (tree, true)
unfolding mkdir_from parent
mkdir_from-parent base [] tree h = refl
mkdir_from-parent base (name ∷ []) tree h = refl
mkdir_from-parent base (name ∷ next ∷ rest) tree h =
    let (here, above) = h in
    mkdir_from-there base (parent (next ∷ rest)) name tree here
    ∙ mkdir_from-parent (base ++ (name ∷ [])) (next ∷ rest) tree above

pub mkdir_from-new :
    (base p q : List Bytes) (tree : Tree)
    → p ≢ []
    → base ++ p ≡ q
    → FoldersAbove base p tree
    → get q tree ≡ none
    → mkdir_from base p tree ≡ (tree ++ ((q, directory) ∷ []), true)
unfolding mkdir_from ensure
mkdir_from-new base [] q tree n e h g = absurd (n refl)
mkdir_from-new base (name ∷ []) q tree n e h g = ground (arith, e, g)
mkdir_from-new base (name ∷ next ∷ rest) q tree n e h g =
    let (here, above) = h in
    mkdir_from-there base (next ∷ rest) name tree here
    ∙ mkdir_from-new (base ++ (name ∷ [])) (next ∷ rest) q tree (λ x. cc x)
        (append_assoc base (name ∷ []) (next ∷ rest) ∙ e) above g

module _ (clean : Bytes → List Bytes) where
  -- What is met, as it stands in a tree.
  abbrev nodes_of : List Bytes → Met → Tree
  nodes_of p unreadable = []
  nodes_of p irregular = []
  nodes_of p subfolder = (p, directory) ∷ []
  nodes_of p (linked none) = []
  nodes_of p (linked (some target)) = (p, link target) ∷ []
  nodes_of p (stored none) = []
  nodes_of p (stored (some contents)) = (p, file contents) ∷ []

  abbrev pub tree_of : List (Bytes × Met) → Tree
  tree_of [] = []
  tree_of ((name, met) ∷ walk) = nodes_of (clean name) met ++ tree_of walk

  -- The order of Walk, after `tree`: a path comes after the folders above it, and only once; and a
  -- slash at its end is cleaned away.
  abbrev pub IsWalk : Tree → List (Bytes × Met) → Type 0
  IsWalk tree [] = Unit
  IsWalk tree ((name, met) ∷ walk) =
      (clean name ≢ [])
      × (clean (name ++ codes "/") ≡ clean name)
      × FoldersAbove [] (clean name) tree
      × (get (clean name) tree ≡ none)
      × IsWalk (tree ++ nodes_of (clean name) met) walk

  -- The first entry, and then the rest.
  unzip_entries-cons :
      (e : Entry) (es rest : List Entry) (tree nodes later : Tree)
      → es ≡ e ∷ rest
      → extract_and_write_file clean e tree ≡ (tree ++ nodes, true)
      → unzip_entries clean rest (tree ++ nodes) ≡ (tree ++ nodes) ++ later
      → unzip_entries clean es tree ≡ tree ++ (nodes ++ later)
  unfolding unzip_entries
  unzip_entries-cons e es rest tree nodes later a x h =
      rw a (ap (λ (l : Left). unzip_entries clean rest l.0) x ∙ h ∙ append_assoc tree nodes later)

  unzip_entries-nil :
      (es : List Entry) (tree : Tree) → es ≡ [] → unzip_entries clean es tree ≡ tree ++ []
  unfolding unzip_entries
  unzip_entries-nil es tree h = rw h (sym (append-nil tree))

  extract-subfolder :
      (name : Bytes) (tree : Tree)
      → clean name ≢ []
      → clean (name ++ codes "/") ≡ clean name
      → FoldersAbove [] (clean name) tree
      → get (clean name) tree ≡ none
      → extract_and_write_file clean
          (record { name = name ++ codes "/"; kind = folder; contents = some [] })
          tree
        ≡ (tree ++ ((clean name, directory) ∷ []), true)
  unfolding extract_and_write_file
  extract-subfolder name tree n c h g =
      rw c (mkdir_from-new [] (clean name) (clean name) tree n refl h g)

  extract-link :
      (name target : Bytes) (tree : Tree)
      → get (clean name) tree ≡ none
      → extract_and_write_file clean
          (record { name = name; kind = symbolic; contents = some target })
          tree
        ≡ (tree ++ ((clean name, link target) ∷ []), true)
  unfolding extract_and_write_file symlink
  extract-link name target tree g = ground (arith, g)

  extract-file :
      (name contents : Bytes) (tree : Tree)
      → FoldersAbove [] (clean name) tree
      → get (clean name) tree ≡ none
      → extract_and_write_file clean
          (record { name = name; kind = regular; contents = some contents })
          tree
        ≡ (tree ++ ((clean name, file contents) ∷ []), true)
  unfolding extract_and_write_file write_file
  extract-file name contents tree h g = ground (arith, g, mkdir_from-parent [] (clean name) tree h)

  unzip-zip_from :
      (walk : List (Bytes × Met)) (es : List Entry) (tree : Tree)
      → zip_of walk ≡ some es
      → IsWalk tree walk
      → unzip_entries clean es tree ≡ tree ++ tree_of walk
  unfolding zip_of
  unzip-zip_from [] es tree z h = unzip_entries-nil es tree (ground (arith, z))
  unzip-zip_from ((name, unreadable) ∷ walk) es tree z h = absurd (cc z)
  unzip-zip_from ((name, irregular) ∷ walk) es tree z (n, c, above, new, later) =
      unzip-zip_from walk es tree z (subst (λ t. IsWalk t walk) (append-nil tree) later)
  unzip-zip_from ((name, linked none) ∷ walk) es tree z h = absurd (cc z)
  unzip-zip_from ((name, stored none) ∷ walk) es tree z h = absurd (cc z)
  unzip-zip_from ((name, subfolder) ∷ walk) es tree z (n, c, above, new, later) =
      elim (Option-cases (zip_of walk)) [
        | inl f ↦ absurd (ground (arith, f, z))
        | inr (rest, f) ↦
            unzip_entries-cons
              (record { name = name ++ codes "/"; kind = folder; contents = some [] }) es rest tree
              ((clean name, directory) ∷ []) (tree_of walk) (ground (arith, f, z))
              (extract-subfolder name tree n c above new)
              (unzip-zip_from walk rest (tree ++ ((clean name, directory) ∷ [])) f later)
      ]
  unzip-zip_from ((name, linked (some target)) ∷ walk) es tree z (n, c, above, new, later) =
      elim (Option-cases (zip_of walk)) [
        | inl f ↦ absurd (ground (arith, f, z))
        | inr (rest, f) ↦
            unzip_entries-cons (record { name = name; kind = symbolic; contents = some target }) es
              rest tree ((clean name, link target) ∷ []) (tree_of walk) (ground (arith, f, z))
              (extract-link name target tree new)
              (unzip-zip_from walk rest (tree ++ ((clean name, link target) ∷ [])) f later)
      ]
  unzip-zip_from ((name, stored (some contents)) ∷ walk) es tree z (n, c, above, new, later) =
      elim (Option-cases (zip_of walk)) [
        | inl f ↦ absurd (ground (arith, f, z))
        | inr (rest, f) ↦
            unzip_entries-cons (record { name = name; kind = regular; contents = some contents }) es
              rest tree ((clean name, file contents) ∷ []) (tree_of walk) (ground (arith, f, z))
              (extract-file name contents tree above new)
              (unzip-zip_from walk rest (tree ++ ((clean name, file contents) ∷ [])) f later)
      ]

  -- Unzip in an empty folder, of the entries that Zip makes of what Walk meets, in the order of
  -- Walk, with a slash at the end of a path cleaned away: it gives the folders, the files and the
  -- links that were met, with their contents and targets, in that order and nothing else.
  pub unzip_entries-zip_of :
      (walk : List (Bytes × Met)) (es : List Entry)
      → zip_of walk ≡ some es
      → IsWalk [] walk
      → unzip_entries clean es [] ≡ tree_of walk
  unzip_entries-zip_of walk es z h = unzip-zip_from walk es [] z h
