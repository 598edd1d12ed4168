-- ===== src/Examples/Packed.antt =====
-- openwhisk/zip.go and openwhisk/tar.go: a folder with a file and a link in it.
use openwhisk_runtime_go.Base.{◌≡◌, refl, some, List, [], ◌∷◌}
use openwhisk_runtime_go.Base.Text.{Bytes, codes, same}
use openwhisk_runtime_go.Archives.Tree.{get, same_path}
use openwhisk_runtime_go.Archives.Zip.{
  Entry, folder, regular, symbolic, Met, subfolder, stored, linked, zip_of, unzip_entries,
}
use openwhisk_runtime_go.Archives.RoundTrip.{IsWalk, tree_of, unzip_entries-zip_of}

-- The names of one character, with and without a slash at the end, and those below one folder.
abbrev clean : Bytes → List Bytes
clean [] = []
clean (a ∷ []) = (a ∷ []) ∷ []
clean (a ∷ _ ∷ []) = (a ∷ []) ∷ []
clean (a ∷ _ ∷ b ∷ _) = (a ∷ []) ∷ (b ∷ []) ∷ []

abbrev walk : List (Bytes × Met)
walk =
    (codes "d", subfolder)
    ∷ (codes "d/f", stored (some (codes "x")))
    ∷ (codes "d/l", linked (some (codes "f")))
    ∷ []

abbrev entries : List Entry
entries =
    record { name = codes "d/"; kind = folder; contents = some [] }
    ∷ record { name = codes "d/f"; kind = regular; contents = some (codes "x") }
    ∷ record { name = codes "d/l"; kind = symbolic; contents = some (codes "f") }
    ∷ []

packs : zip_of walk ≡ some entries
unfolding zip_of
packs = refl

walk-IsWalk : IsWalk clean [] walk
unfolding get same_path same
walk-IsWalk = (
  (λ h. cc h),
  refl,
  tt,
  refl,
  ((λ h. cc h), refl, (refl, tt), refl, ((λ h. cc h), refl, (refl, tt), refl, tt)),
)

unzip_entries-zip_of_example : unzip_entries clean entries [] ≡ tree_of clean walk
unzip_entries-zip_of_example = unzip_entries-zip_of clean walk entries packs walk-IsWalk
