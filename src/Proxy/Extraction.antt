-- ===== src/Proxy/Extraction.antt =====
-- openwhisk/extractor.go: ExtractAction; openwhisk/compiler.go; openwhisk/initHandler.go:
-- ExtractAndCompile. The archives and the compiler are arguments: what a call of Unzip or UnTar
-- writes, and what the compiler leaves. A request whose handler panics is dropped by net/http.
use openwhisk_runtime_go.Base.{
  ℕ, ◌+◌, Bool, true, false, ◌||◌, Option, none, some, List, [], ◌∷◌, if◌then◌else◌,
}
use openwhisk_runtime_go.Base.Text.{Bytes, codes, same}
use openwhisk_runtime_go.Proxy.Kinds.{is_executable, is_zip, is_gz}
use openwhisk_runtime_go.Proxy.Folders.{Contents, Folder, find, write, folder, make_src, change}
use openwhisk_runtime_go.Proxy.Env.{Variables, getenv}

-- An archive: the names of its entries, and the files that they stand for.
pub record Archive : Type 0 where
  pub entries : List Bytes
  pub files : Contents

-- What the compiler leaves: the files in bin, its output, and whether it ends without error.
pub record Compiled : Type 0 where
  pub bin : Contents
  pub out : Bytes
  pub succeeds : Bool

-- Packages and tools: fmt's %d, encoding/base64, archive/zip, archive/tar (what is written, and
-- whether without error), and the compiler on its environment, main and src.
pub record Tools : Type 0 where
  pub itoa : ℕ → Bytes
  pub decode_base64 : Bytes → Option Bytes
  pub open_zip : Bytes → Option Archive
  pub untar : Bytes → Contents × Bool
  pub compile : Variables → Bytes → Contents → Compiled

-- What holds while the proxy runs: os.Environ, runtime.GOOS, Debugging, the compiler, whether
-- baseDir can be read, and whether it is the folder ./action.
pub record Settings : Type 0 where
  pub environ : Variables
  pub runtime : Bytes
  pub debugging : Bool
  pub compiler : Bytes
  pub base_readable : Bool
  pub base_is_action : Bool

-- How a call ends: with a result, with an error, or in a panic.
pub data End (A : Type 0) : Type 0 where
  done : A → End A
  failed panicked : End A

-- ap.currentDir and the folders in ap.baseDir.
pub record Store : Type 0 where
  pub current_dir : ℕ
  pub folders : List Folder

unfoldable pub listed : Bytes → List Bytes → Bool
listed k [] = false
listed k (name ∷ rest) = same name k || listed k rest

unfoldable pub write_all : Contents → Contents → Contents
unfolding write
write_all [] into = into
write_all ((name, contents) ∷ files) into = write_all files (write name contents into)

abbrev pub files_of : Option Contents → Contents
files_of none = []
files_of (some files) = files

-- Files written to the src of a folder.
abbrev pub fill : Contents → Folder → Folder
fill files f = record f { src = some (write_all files (files_of f.src)) }

-- Rename of src to bin, which fails on a bin with files.
abbrev pub rename : Folder → Folder
rename f = elim f.src [
  | none ↦ f
  | some files ↦ elim (files_of f.bin) [
    | [] ↦ record f { src = none; bin = some files }
    | _ ∷ _ ↦ f
  ]
]

module _ (t : Tools) (s : Settings) where
  -- Unzip: an archive that cannot be opened is a nil pointer.
  unfoldable pub unzip : Bytes → End Contents
  unzip buf = elim (t.open_zip buf) [ none ↦ panicked | some a ↦ done a.files ]

  unfoldable pub unzip_or_save_jar : Bytes → Bytes → End Contents
  unfolding unzip listed
  unzip_or_save_jar buf jar = elim (t.open_zip buf) [
    | none ↦ failed
    | some a ↦
        if listed (codes "META-INF/MANIFEST.MF") a.entries
        then done ((jar, buf) ∷ [])
        else unzip buf
  ]

  -- What ExtractAction writes to the new folder, and the file that it returns.
  abbrev unpacked : End Contents → Bytes → Contents × End Bytes
  unpacked (done files) file = (files, done file)
  unpacked failed file = ([], failed)
  unpacked panicked file = ([], panicked)

  unfoldable pub extracted_files : Bytes → Contents × End Bytes
  unfolding unzip unzip_or_save_jar getenv is_zip is_gz
  extracted_files buf =
      let jar = getenv (codes "OW_SAVE_JAR") s.environ in
      if is_zip buf
      then if same jar []
        then unpacked (unzip buf) (codes "exec")
        else unpacked (unzip_or_save_jar buf jar) jar
      else if is_gz buf
      then ((t.untar buf).0, if (t.untar buf).1 then done (codes "exec") else failed)
      else ((codes "exec", buf) ∷ [], done (codes "exec"))

  -- ExtractAction to src; an empty buffer stands for nil too.
  unfoldable pub extract_action : Bytes → Store → End Bytes × Store
  unfolding extracted_files make_src change
  extract_action buf st =
      let n = st.current_dir + 1 in
      let (files, result) = extracted_files buf in
      if same buf [] then (failed, st) else (
        result,
        record {
          current_dir = n;
          folders = change (t.itoa n) (fill files) (make_src (t.itoa n) st.folders);
        },
      )

  abbrev pub contents_of : (Folder → Option Contents) → Bytes → List Folder → Contents
  contents_of part k folders = elim (folder k folders) [ none ↦ [] | some f ↦ files_of (part f) ]

  unfoldable pub is_compiled : Bytes → Contents → Bool
  unfolding find is_executable
  is_compiled file files = elim (find file files) [
    | none ↦ false
    | some buf ↦ is_executable buf s.runtime
  ]

  -- CompileAction: whether it ends without error, and the files in bin.
  unfoldable pub compile_action : Variables → Bytes → Contents → Contents → Bool × Contents
  compile_action env main src bin =
      let c = t.compile env main src in
      if same s.compiler []
      then (false, bin)
      else if same c.out []
      then (c.succeeds, c.bin)
      else (false, c.bin)

  -- ExtractAndCompile once the action is extracted to the folder `k`.
  unfoldable pub compiled : Variables → Bytes → Bytes → Bytes → List Folder → Bool × List Folder
  unfolding is_compiled compile_action change folder find
  compiled env main file k folders =
      let src = contents_of (λ (f : Folder). f.src) k folders in
      let bin = contents_of (λ (f : Folder). f.bin) k folders in
      let (succeeds, made) = compile_action env main src bin in
      if same s.compiler [] || is_compiled file src then (true, change k rename folders) else (
        elim (find (codes "exec") made) [ none ↦ false | some _ ↦ succeeds ],
        change k (λ (f : Folder). record f { bin = some made }) folders,
      )

  unfoldable pub extract_and_compile : Variables → Bytes → Bytes → Store → End Unit × Store
  unfolding extract_action compiled
  extract_and_compile env main buf st =
      let (result, st') = extract_action buf st in
      elim result [
        | failed ↦ (failed, st')
        | panicked ↦ (panicked, st')
        | done file ↦
            let (succeeds, folders') =
              compiled env main file (t.itoa st'.current_dir) st'.folders in
            (if succeeds then done tt else failed, record st' { folders = folders' })
      ]
