-- ===== src/Archives/Untarred.antt =====
-- openwhisk/tar.go: UnTar of an archive of folders and files.
use mathlib.Core.List.{append_assoc, append-nil}
use openwhisk_runtime_go.Base.{
  ℕ, zero, suc, drop, length, ◌≡◌, ◌≢◌, ◌⊎◌, true, none, some, List, [], ◌∷◌, ◌++◌, arith, refl,
  sym, ◌∙◌, ap, subst, inl, inr,
}
use openwhisk_runtime_go.Base.Text.{Bytes}
use openwhisk_runtime_go.Archives.Tree.{
  Node, directory, file, Tree, get, put, same_path_iff, parent,
}
use openwhisk_runtime_go.Archives.Tar.{
  Next, header, type_dir, type_reg, is_folder, open_file, over, copy_to, extract_header,
  untar_entries,
}
use openwhisk_runtime_go.Archives.RoundTrip.{FoldersAbove, mkdir_from-new}

get-parent :
    (base p : List Bytes) (tree : Tree)
    → FoldersAbove base p tree
    → (parent p ≡ []) ⊎ (get (base ++ parent p) tree ≡ some directory)
unfolding parent
get-parent base [] tree h = inl refl
get-parent base (name ∷ []) tree h = inl refl
get-parent base (name ∷ next ∷ rest) tree h =
    let (here, above) = h in
    elim (get-parent (base ++ (name ∷ [])) (next ∷ rest) tree above) [
      | inl e ↦ inr (subst (λ q. get (base ++ (name ∷ q)) tree ≡ some directory) (sym e) here)
      | inr g ↦ inr (
          subst (λ q. get q tree ≡ some directory)
            (append_assoc base (name ∷ []) (parent (next ∷ rest))) g)
    ]

folder_found :
    (p : List Bytes) (tree : Tree) → get p tree ≡ some directory → is_folder p tree ≡ true
folder_found [] tree h = refl
folder_found (name ∷ rest) tree h = ground (arith, h)

parent-is_folder :
    (p : List Bytes) (tree : Tree) → FoldersAbove [] p tree → is_folder (parent p) tree ≡ true
parent-is_folder p tree h = elim (get-parent [] p tree h) [
  | inl e ↦ subst (λ q. is_folder q tree ≡ true) (sym e) refl
  | inr g ↦ folder_found (parent p) tree g
]

put-snoc :
    (p : List Bytes) (old node : Node) (tree : Tree)
    → get p tree ≡ none
    → put p node (tree ++ ((p, old) ∷ [])) ≡ tree ++ ((p, node) ∷ [])
unfolding get put
put-snoc p old node [] h = ground (arith, same_path_iff p p)
put-snoc p old node ((q, n) ∷ tree) h = ground (arith, h, put-snoc p old node tree)

get-snoc :
    (p : List Bytes) (node : Node) (tree : Tree)
    → get p tree ≡ none
    → get p (tree ++ ((p, node) ∷ [])) ≡ some node
unfolding get
get-snoc p node [] h = ground (arith, same_path_iff p p)
get-snoc p node ((q, n) ∷ tree) h = ground (arith, h, get-snoc p node tree)

drop_nil : (n : ℕ) → drop {A = ℕ} n [] ≡ []
drop_nil zero = refl
drop_nil (suc n) = refl

-- Over an empty file.
over_empty : (contents : Bytes) → over contents (some (file [])) ≡ file contents
over_empty contents =
    ap (λ (rest : Bytes). file (contents ++ rest)) (drop_nil (length contents))
    ∙ ap file (append-nil contents)

module _ (clean : Bytes → List Bytes) where
  -- Folders, and files with their contents, by name.
  pub data Item : Type 0 where
    a_folder : Bytes → Item
    a_file : Bytes → Bytes → Item

  abbrev pub header_of : Item → Next
  header_of (a_folder name) = header type_dir name (some [])
  header_of (a_file name contents) = header type_reg name (some contents)

  abbrev pub name_of : Item → Bytes
  name_of (a_folder name) = name
  name_of (a_file name contents) = name

  abbrev pub node_of : Item → Node
  node_of (a_folder name) = directory
  node_of (a_file name contents) = file contents

  abbrev pub items_tree : List Item → Tree
  items_tree [] = []
  items_tree (i ∷ items) = (clean (name_of i), node_of i) ∷ items_tree items

  abbrev pub headers_of : List Item → List Next
  headers_of [] = []
  headers_of (i ∷ items) = header_of i ∷ headers_of items

  -- The folders above an item come before it, and no path comes twice.
  abbrev IsOrdered : Tree → List Item → Type 0
  IsOrdered tree [] = Unit
  IsOrdered tree (i ∷ items) =
      (clean (name_of i) ≢ [])
      × FoldersAbove [] (clean (name_of i)) tree
      × (get (clean (name_of i)) tree ≡ none)
      × IsOrdered (tree ++ ((clean (name_of i), node_of i) ∷ [])) items

  extract_item :
      (i : Item) (tree : Tree)
      → clean (name_of i) ≢ []
      → FoldersAbove [] (clean (name_of i)) tree
      → get (clean (name_of i)) tree ≡ none
      → (rest : List Next)
      → untar_entries clean (header_of i ∷ rest) tree
        ≡ untar_entries clean rest (tree ++ ((clean (name_of i), node_of i) ∷ []))
  unfolding untar_entries extract_header open_file copy_to
  extract_item (a_folder name) tree n h g rest =
      ground (arith, g, mkdir_from-new [] (clean name) (clean name) tree n refl h g)
  extract_item (a_file name contents) tree n h g rest = ground (
    arith,
    g,
    parent-is_folder (clean name) tree h,
    over_empty contents,
    get-snoc (clean name) (file []) tree g,
    put-snoc (clean name) (file []) (file contents) tree g,
  )

  untar_from :
      (items : List Item) (tree : Tree)
      → IsOrdered tree items
      → untar_entries clean (headers_of items) tree ≡ (tree ++ items_tree items, true)
  unfolding untar_entries
  untar_from [] tree h = ap (λ t. (t, true)) (sym (append-nil tree))
  untar_from (i ∷ items) tree (n, above, new, later) =
      extract_item i tree n above new (headers_of items)
      ∙ untar_from items (tree ++ ((clean (name_of i), node_of i) ∷ [])) later
      ∙ ap (λ t. (t, true))
          (append_assoc tree ((clean (name_of i), node_of i) ∷ []) (items_tree items))

  -- UnTar in an empty folder, of an archive of folders and files in which the folders above each one
  -- come before it and no path comes twice: it ends without error and leaves these folders, and
  -- these files with their contents, in that order and nothing else.
  untar_entries-items_tree :
      (items : List Item)
      → IsOrdered [] items
      → untar_entries clean (headers_of items) [] ≡ (items_tree items, true)
  untar_entries-items_tree items h = untar_from items [] h
