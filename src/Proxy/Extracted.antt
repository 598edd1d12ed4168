-- ===== src/Proxy/Extracted.antt =====
-- openwhisk/extractor.go: what ExtractAction and ExtractAndCompile leave in the folders.
use openwhisk_runtime_go.Base.{
  ℕ, ◌+◌, ◌≤◌, ◌<◌, ◌≡◌, true, false, ◌||◌, none, some, List, [], ◌∷◌, ◌++◌, ◌⊎◌, inl, inr,
  if◌then◌else◌, arith, refl, ◌∙◌, ap, Bool-cases,
}
use openwhisk_runtime_go.Base.Int64.{half, lt}
use openwhisk_runtime_go.Base.Text.{Bytes, codes, same, parse_int}
use openwhisk_runtime_go.Proxy.Folders.{
  Contents, Folder, folder, make_src, change, names, highest_of, higher,
}
use openwhisk_runtime_go.Proxy.Numbered.{
  highest_of-snoc, folder-fresh, names-make_src, folder-make_src, names-change, folder-change,
}
use openwhisk_runtime_go.Proxy.Env.{Variables}
use openwhisk_runtime_go.Proxy.Extraction.{
  Tools, Settings, End, done, failed, panicked, Store, write_all, fill, rename, contents_of,
  extracted_files, extract_action, is_compiled, compile_action, compiled, extract_and_compile,
}

pub End-cases :
    {A : Type 0} (e : End A) → (e ≡ failed) ⊎ ((e ≡ panicked) ⊎ ((a : A) × (e ≡ done a)))
End-cases failed = inl refl
End-cases panicked = inr (inl refl)
End-cases (done a) = inr (inr (a, refl))

module _ (t : Tools) (s : Settings) where
  -- The next number is above those of the folders, and is printed so that it is read back.
  pub record IsFresh (st : Store) : Type 0 where
    pub numbered : highest_of (names st.folders) 0 ≤ st.current_dir
    pub printed : parse_int (t.itoa (st.current_dir + 1)) ≡ some (st.current_dir + 1)
    pub small : st.current_dir + 1 < half

  -- The files of bin, from those that were uploaded.
  abbrev pub installed : Variables → Bytes → Bytes → Contents → Contents
  installed env main file src =
      if same s.compiler [] || is_compiled t s file src then src else (t.compile env main src).bin

  -- The environment of the process.
  abbrev pub with_debug : Variables → Variables
  with_debug env =
      if s.debugging then env ++ ((codes "OW_DEBUG", codes "/tmp/action.log") ∷ []) else env

  abbrev pub added : Contents → Store → List Folder
  added files st =
      change (t.itoa (st.current_dir + 1)) (fill files)
        (make_src (t.itoa (st.current_dir + 1)) st.folders)

  higher-next :
      (k : Bytes) (n max : ℕ)
      → parse_int k ≡ some n
      → n < half
      → max < n
      → higher (parse_int k) max ≡ n
  unfolding lt
  higher-next k n max e b h = ground (arith, e)

  added-highest :
      (files : Contents) (st : Store)
      → IsFresh st
      → highest_of (names (added files st)) 0 ≡ st.current_dir + 1
  added-highest files st h =
      let k = t.itoa (st.current_dir + 1) in
      let fresh =
        folder-fresh k (st.current_dir + 1) st.folders h.printed h.small
          (omega (arith, h.numbered)) in
      ap (λ xs. highest_of xs 0)
        (names-change k (fill files) (make_src k st.folders) (λ f. refl)
          ∙ names-make_src k st.folders fresh)
      ∙ highest_of-snoc (names st.folders) k 0
      ∙ higher-next k (st.current_dir + 1) (highest_of (names st.folders) 0) h.printed h.small
          (omega (arith, h.numbered))

  pub added-folder :
      (files : Contents) (st : Store)
      → IsFresh st
      → folder (t.itoa (st.current_dir + 1)) (added files st)
        ≡ some (record {
          name = t.itoa (st.current_dir + 1);
          src = some (write_all files []);
          bin = none;
        })
  added-folder files st h =
      let k = t.itoa (st.current_dir + 1) in
      let fresh =
        folder-fresh k (st.current_dir + 1) st.folders h.printed h.small
          (omega (arith, h.numbered)) in
      folder-change k (fill files) (make_src k st.folders) _ (λ f. refl)
        (folder-make_src k st.folders fresh)

  rename-name : (f : Folder) → (rename f).name ≡ f.name
  rename-name f = ground arith

  compiled-names :
      (env : Variables) (main file k : Bytes) (fs : List Folder)
      → names (compiled t s env main file k fs).1 ≡ names fs
  unfolding compiled
  compiled-names env main file k fs =
      let src = contents_of t s (λ (f : Folder). f.src) k fs in
      elim (Bool-cases (same s.compiler [] || is_compiled t s file src)) [
        | inl e ↦ rw (e, compiled) (names-change k rename fs rename-name)
        | inr e ↦ rw (e, compiled) (names-change k _ fs (λ f. refl))
      ]

  -- Where the compilation succeeds, bin holds what was installed.
  compiled-folder :
      (env : Variables) (main file k : Bytes) (fs : List Folder) (src : Contents)
      → folder k fs ≡ some (record { name = k; src = some src; bin = none })
      → (compiled t s env main file k fs).0 ≡ true
      → contents_of t s (λ (f : Folder). f.bin) k (compiled t s env main file k fs).1
        ≡ installed env main file src
  unfolding compiled compile_action
  compiled-folder env main file k fs src h e =
      elim (Bool-cases (same s.compiler [] || is_compiled t s file src)) [
        | inl g ↦ ground (arith, h, g, folder-change k rename fs _ rename-name h)
        | inr g ↦ ground (
          arith,
          h,
          g,
          e,
          folder-change k (λ (f : Folder). record f { bin = some (t.compile env main src).bin }) fs
              _ (λ f. refl) h,
        )
      ]

  -- Both steps keep to the new number, on every branch.
  pub extract_and_compile-numbered :
      (env : Variables) (main buf : Bytes) (st : Store)
      → IsFresh st
      → same buf [] ≡ false
      → ((extract_and_compile t s env main buf st).1.current_dir ≡ st.current_dir + 1)
        × (highest_of (names (extract_and_compile t s env main buf st).1.folders) 0
            ≡ st.current_dir + 1)
  unfolding extract_and_compile extract_action
  extract_and_compile-numbered env main buf st h e = elim (End-cases (extracted_files t s buf).1) [
    | inl f ↦ ground (arith, e, f, added-highest (extracted_files t s buf).0 st h)
    | inr (inl f) ↦ ground (arith, e, f, added-highest (extracted_files t s buf).0 st h)
    | inr (inr (file, f)) ↦ ground (
      arith,
      e,
      f,
      added-highest (extracted_files t s buf).0 st h,
      compiled-names env main file (t.itoa (st.current_dir + 1))
          (added (extracted_files t s buf).0 st),
    )
  ]

  pub extract_and_compile-done :
      (env : Variables) (main buf : Bytes) (st : Store)
      → IsFresh st
      → same buf [] ≡ false
      → (extract_and_compile t s env main buf st).0 ≡ done tt
      → (file : Bytes) × ((extracted_files t s buf).1 ≡ done file)
        × (contents_of t s
              (λ (f : Folder). f.bin)
              (t.itoa (st.current_dir + 1))
              (extract_and_compile t s env main buf st).1.folders
            ≡ installed env main file (write_all (extracted_files t s buf).0 []))
  unfolding extract_and_compile extract_action
  extract_and_compile-done env main buf st h e d = elim (End-cases (extracted_files t s buf).1) [
    | inl f ↦ absurd (ground (arith, e, f, d))
    | inr (inl f) ↦ absurd (ground (arith, e, f, d))
    | inr (inr (file, f)) ↦ (
      file,
      f,
      ground (
        arith,
        e,
        f,
        d,
        compiled-folder env main file (t.itoa (st.current_dir + 1))
            (added (extracted_files t s buf).0 st) (write_all (extracted_files t s buf).0 [])
            (added-folder (extracted_files t s buf).0 st h),
      ),
    )
  ]
