-- ===== src/Proxy/Precompiled.antt =====
-- main/proxy.go with openwhisk/actionProxy.go and openwhisk/extractor.go: an action that is compiled
-- on the fly, and then uploaded.
use openwhisk_runtime_go.Base.{
  ◌+◌, ◌≡◌, ◌≢◌, sym, map, true, false, Option, none, some, List, [], ◌∷◌, inl, inr, arith, refl,
  ap, ◌∙◌, Option-cases, Bool-cases,
}
use openwhisk_runtime_go.Base.Text.{Bytes, codes, same}
use openwhisk_runtime_go.Proxy.Kinds.{is_zip}
use openwhisk_runtime_go.Proxy.Folders.{Contents, Folder, find}
use openwhisk_runtime_go.Proxy.Env.{Variables, Sent, getenv, set_env}
use openwhisk_runtime_go.Proxy.Extraction.{
  Tools, Settings, Archive, End, done, Store, write_all, contents_of, extracted_files, unzip,
  extract_action, is_compiled, compiled, extract_and_compile,
}
use openwhisk_runtime_go.Archives.Zip.{Entry, zip_of, unzip_entries}
use openwhisk_runtime_go.Archives.RoundTrip.{unzip_entries-zip_of}
use openwhisk_runtime_go.Proxy.Zipped.{
  Packing, zip_folder, unzip_archive, unzipping, files_in, ReadsBack, Meets,
}
use openwhisk_runtime_go.Proxy.Launch.{Proxy, new_action_proxy}
use openwhisk_runtime_go.Proxy.Init.{extract_and_compile_io}
use openwhisk_runtime_go.Proxy.Extracted.{
  IsFresh, added, added-folder, End-cases, extract_and_compile-done, extract_and_compile-numbered,
}
use openwhisk_runtime_go.Proxy.Command.{Flags, packed, settings_of, main}

module _ (t : Tools) (s : Settings) where
  -- The bin of the latest folder of a store.
  abbrev pub bin_of : Store → Contents
  bin_of st = contents_of t s (λ (f : Folder). f.bin) (t.itoa st.current_dir) st.folders

  extract_and_compile_io-archive :
      (g : Packing) (stdin : Option Bytes) (payload : List (Bytes × Sent)) (name archive : Bytes)
      (px px' : Proxy)
      → extract_and_compile_io t s g stdin payload name px ≡ (done archive, px')
      → zip_folder g (bin_of px'.store) ≡ some archive
  unfolding extract_and_compile_io
  extract_and_compile_io-archive g none payload name archive px px' h = absurd (ground (arith, h))
  extract_and_compile_io-archive g (some input) payload name archive px px' h =
      let r = extract_and_compile t s (set_env s.environ payload px.env) name input px.store in
      elim (End-cases r.0) [
        | inl e ↦ absurd (ground (arith, e, h))
        | inr (inl e) ↦ absurd (ground (arith, e, h))
        | inr (inr (a, e)) ↦ elim (Option-cases (zip_folder g (bin_of r.1))) [
          | inl z ↦ absurd (ground (arith, e, z, h))
          | inr (b, z) ↦ ground (arith, e, z, h)
        ]
      ]

  extracted_files-zip :
      (archive : Bytes) (a : Archive)
      → is_zip archive ≡ true
      → t.open_zip archive ≡ some a
      → getenv (codes "OW_SAVE_JAR") s.environ ≡ []
      → extracted_files t s archive ≡ (a.files, done (codes "exec"))
  unfolding extracted_files unzip same
  extracted_files-zip archive a h k j = ground (arith, h, k, j)

  -- An upload that holds its executable is not compiled again.
  compiled-executable :
      (env : Variables) (name file k : Bytes) (folders : List Folder) (src : Contents)
      → contents_of t s (λ (f : Folder). f.src) k folders ≡ src
      → is_compiled t s file src ≡ true
      → (compiled t s env name file k folders).0 ≡ true
  unfolding compiled
  compiled-executable env name file k folders src h c = ground (arith, h, c)

  extract_and_compile-executable :
      (env : Variables) (name buf file : Bytes) (files : Contents) (st : Store)
      → IsFresh t s st
      → same buf [] ≡ false
      → extracted_files t s buf ≡ (files, done file)
      → is_compiled t s file (write_all files []) ≡ true
      → (extract_and_compile t s env name buf st).0 ≡ done tt
  unfolding extract_and_compile extract_action
  extract_and_compile-executable env name buf file files st fresh e x c =
      let k = t.itoa (st.current_dir + 1) in
      let folders = added t s files st in
      let src : contents_of t s (λ (f : Folder). f.src) k folders ≡ write_all files [] =
        ground (arith, added-folder t s files st fresh) in
      ground (
        arith,
        e,
        ap (λ z. z.0) x,
        ap (λ z. z.1) x,
        compiled-executable env name file k folders (write_all files []) src c,
      )

  extract_and_compile-bin_of :
      (env : Variables) (name buf file : Bytes) (files : Contents) (st : Store)
      → IsFresh t s st
      → same buf [] ≡ false
      → extracted_files t s buf ≡ (files, done file)
      → is_compiled t s file (write_all files []) ≡ true
      → bin_of (extract_and_compile t s env name buf st).1 ≡ write_all files []
  extract_and_compile-bin_of env name buf file files st fresh e x c =
      let d = extract_and_compile-executable env name buf file files st fresh e x c in
      let (g, made, bin) = extract_and_compile-done t s env name buf st fresh e d in
      let number = (extract_and_compile-numbered t s env name buf st fresh e).0 in
      ground (arith, c, ap (λ z. z.0) x, ap (λ z. z.1) x, made, bin, number)

is_zip_nonempty : (buf : Bytes) → is_zip buf ≡ true → same buf [] ≡ false
unfolding is_zip same
is_zip_nonempty [] h = ground (arith, h)
is_zip_nonempty (b ∷ buf) h = refl

files_in-write_all : (c : Contents) → c ≡ [] → write_all c [] ≡ []
unfolding write_all
files_in-write_all c h = rw h refl

module _ (g : Packing) where
  -- Unzip gives back the files of a folder that Zip packed.
  unzip_archive-zip_folder :
      (c : Contents) (buf : Bytes)
      → ReadsBack g
      → Meets g c
      → zip_folder g c ≡ some buf
      → (es : List Entry) × (g.read_zip buf ≡ some es)
        × (es ≢ [] → is_zip buf ≡ true)
        × (files_in (unzip_entries g.clean es []) ≡ c)
  unfolding zip_folder
  unzip_archive-zip_folder c buf back (plain, walks, met) z =
      elim (Option-cases (zip_of (g.walk c))) [
        | inl e ↦ absurd (ground (arith, e, z))
        | inr (es, e) ↦
            let (read, header) = back (g.walk c) es buf plain e (ground (arith, e, z)) in
            (
              es,
              read,
              header,
              ap files_in (unzip_entries-zip_of g.clean (g.walk c) es e walks) ∙ met,
            )
      ]

  -- An archive of a folder that holds a file has an entry.
  packed-nonempty :
      (c : Contents) (es : List Entry)
      → c ≢ []
      → files_in (unzip_entries g.clean es []) ≡ c
      → es ≢ []
  unfolding unzip_entries files_in
  packed-nonempty c [] n h e = n (sym h)
  packed-nonempty c (x ∷ es) n h e = cc e

  opened-files :
      (buf : Bytes) (es : List Entry) (c : Contents)
      → g.read_zip buf ≡ some es
      → files_in (unzip_entries g.clean es []) ≡ c
      → (a : Archive) × (unzip_archive g buf ≡ some a) × (a.files ≡ c)
  unfolding unzip_archive
  opened-files buf es c h e = (
    record {
      entries = map (λ (x : Entry). x.name) es;
      files = files_in (unzip_entries g.clean es []);
    },
    rw (h, unzip_archive) refl,
    e,
  )

is_compiled-nonempty :
    (t : Tools) (s : Settings) (c : Contents)
    → is_compiled t s (codes "exec") (write_all c []) ≡ true
    → c ≢ []
unfolding is_compiled find
is_compiled-nonempty t s c h e = ground (arith, h, files_in-write_all c e)

main-io :
    (t : Tools) (g : Packing) (flags : Flags) (s : Settings) (folders : List Folder)
    (stdin : Option Bytes) (made : End Bytes × Proxy)
    → main t g flags s folders stdin ≡ packed made
    → extract_and_compile_io t
        (settings_of flags s)
        g
        stdin
        flags.env
        flags.compile
        (new_action_proxy t (settings_of flags s) folders)
      ≡ made
unfolding main
main-io t g flags s folders stdin made h = elim (Bool-cases flags.version) [
  | inl e ↦ absurd (ground (arith, e, h))
  | inr e ↦ elim (Bool-cases (same flags.compile [])) [
    | inl k ↦ absurd (ground (arith, e, k, h))
    | inr k ↦ ground (arith, e, k, h)
  ]
]

-- An action that the command line compiles and Zip packs, and whose archive is then uploaded to any
-- proxy and unpacked by Unzip. Given that archive/zip reads back what it wrote, that Walk meets the
-- files of the bin folder, that jars are not saved as they are, that these files hold an executable
-- for that proxy's system, and that its next folder is free: ExtractAndCompile succeeds there
-- without its compiler, and leaves in bin the files that the command line left in bin.
pub main-precompiled :
    (tools : Tools) (g : Packing) (flags : Flags) (s s' : Settings) (folders : List Folder)
    (stdin : Option Bytes) (archive : Bytes) (px : Proxy) (env : Variables) (name : Bytes)
    (st : Store)
    → ReadsBack g
    → Meets g (bin_of (unzipping g tools) (settings_of flags s) px.store)
    → main (unzipping g tools) g flags s folders stdin ≡ packed (done archive, px)
    → getenv (codes "OW_SAVE_JAR") s'.environ ≡ []
    → is_compiled
        (unzipping g tools)
        s'
        (codes "exec")
        (write_all (bin_of (unzipping g tools) (settings_of flags s) px.store) [])
      ≡ true
    → IsFresh (unzipping g tools) s' st
    → let r = extract_and_compile (unzipping g tools) s' env name archive st in
      (r.0 ≡ done tt)
      × (bin_of (unzipping g tools) s' r.1
          ≡ write_all (bin_of (unzipping g tools) (settings_of flags s) px.store) [])
main-precompiled tools g flags s s' folders stdin archive px env name st back meets h j c fresh =
    let t = unzipping g tools in
    let bin = bin_of t (settings_of flags s) px.store in
    let z =
      extract_and_compile_io-archive t (settings_of flags s) g stdin flags.env flags.compile archive
        (new_action_proxy t (settings_of flags s) folders) px
        (main-io t g flags s folders stdin (done archive, px) h) in
    let (es, read, header, files) = unzip_archive-zip_folder g bin archive back meets z in
    let is = header (packed-nonempty g bin es (is_compiled-nonempty t s' bin c) files) in
    let (a, opened, same_files) = opened-files g archive es bin read files in
    let x =
      extracted_files-zip t s' archive a is opened j
      ∙ ap (λ (f : Contents). (f, done (codes "exec"))) same_files in
    let e = is_zip_nonempty archive is in
    (
      extract_and_compile-executable t s' env name archive (codes "exec") _ st fresh e x c,
      extract_and_compile-bin_of t s' env name archive (codes "exec") _ st fresh e x c,
    )
