-- ===== src/Examples/Compiled.antt =====
-- main/proxy.go: a program that is compiled on the fly, and its archive.
use openwhisk_runtime_go.Base.{◌+◌, ◌≡◌, refl, true, false, none, some, [], ◌∷◌, arith}
use openwhisk_runtime_go.Base.Int64.{lt}
use openwhisk_runtime_go.Base.Text.{
  Bytes, codes, same, has_prefix, after_prefix, parse_int, digits_value, cut_at,
}
use openwhisk_runtime_go.Proxy.Kinds.{
  holds, is_zip, is_gz, is_executable, is_mach64, is_bang_path, is_elf, is_exe,
}
use openwhisk_runtime_go.Proxy.Folders.{
  Contents, find, highest_of, highest_dir, write, make_src, change, folder,
}
use openwhisk_runtime_go.Proxy.Env.{set_env, inherit, receive, second_part, getenv}
use openwhisk_runtime_go.Proxy.Extraction.{
  Tools, Settings, End, done, write_all, extracted_files, extract_and_compile, extract_action,
  compiled, is_compiled, compile_action,
}
use openwhisk_runtime_go.Proxy.Launch.{Proxy, new_action_proxy}
use openwhisk_runtime_go.Proxy.Init.{extract_and_compile_io}
use openwhisk_runtime_go.Proxy.Extracted.{IsFresh}
use openwhisk_runtime_go.Proxy.Command.{Flags, packed, environ_of, settings_of, main}
use openwhisk_runtime_go.Proxy.Precompiled.{bin_of, main-precompiled}
use openwhisk_runtime_go.Proxy.Zipped.{Meets, zip_folder, unzipping, files_in, joined}
use openwhisk_runtime_go.Archives.Zip.{zip_of}
use openwhisk_runtime_go.Archives.Tree.{get}
use openwhisk_runtime_go.Examples.Zipped.{packing, packing-ReadsBack, names_of, split_slashes}
use openwhisk_runtime_go.Examples.Proxies.{settings, script, fresh_proxy}

-- A compiler that makes a script.
abbrev tools : Tools
tools = record {
  itoa = λ n. (n + b'0') ∷ [];
  decode_base64 = λ s. some s;
  open_zip = λ buf. none;
  untar = λ buf. ([], false);
  compile = λ env main src. record { bin = (codes "exec", script) ∷ []; out = []; succeeds = true };
}

abbrev compiling : Tools
compiling = unzipping packing tools

abbrev flags : Flags
flags = record { version = false; debug = false; compile = codes "main"; env = [] }

abbrev with_compiler : Settings
with_compiler = record settings { environ = (codes "OW_COMPILER", codes "c") ∷ [] }

abbrev result : End Bytes × Proxy
result =
    extract_and_compile_io compiling (settings_of flags with_compiler) packing
      (some (codes "package main")) [] (codes "main")
      (new_action_proxy compiling (settings_of flags with_compiler) [])

abbrev packed_bin : Contents
packed_bin = (codes "exec", script) ∷ []

abbrev archive : Bytes
archive = elim (zip_folder packing packed_bin) [ none ↦ [] | some buf ↦ buf ]

packs :
    main compiling packing flags with_compiler [] (some (codes "package main"))
    ≡ packed (done archive, result.1)
unfolding main same extract_and_compile_io settings_of environ_of new_action_proxy highest_dir
    highest_of set_env inherit receive getenv find write extract_and_compile extract_action
    extracted_files is_zip is_gz holds make_src change folder write_all compiled is_compiled
    compile_action is_executable is_mach64 is_bang_path is_elf is_exe has_prefix after_prefix
    second_part cut_at zip_folder zip_of
packs = refl

walks : Meets packing packed_bin
unfolding zip_folder files_in joined names_of split_slashes get
walks = ((refl, tt), ((λ h. cc h), refl, tt, refl, tt), refl)

bin_packed : bin_of compiling (settings_of flags with_compiler) result.1.store ≡ packed_bin
unfolding extract_and_compile_io settings_of environ_of new_action_proxy highest_dir highest_of
    set_env inherit receive getenv find write extract_and_compile extract_action extracted_files
    is_zip is_gz holds make_src change folder write_all compiled is_compiled compile_action
    is_executable is_mach64 is_bang_path is_elf is_exe has_prefix after_prefix second_part cut_at
    same zip_folder zip_of
bin_packed = refl

unsaved : getenv (codes "OW_SAVE_JAR") settings.environ ≡ []
unfolding getenv find same
unsaved = refl

executable :
    is_compiled compiling settings
      (codes "exec")
      (write_all (bin_of compiling (settings_of flags with_compiler) result.1.store) [])
    ≡ true
unfolding is_compiled extract_and_compile_io settings_of environ_of new_action_proxy highest_dir
    highest_of set_env inherit receive getenv find write extract_and_compile extract_action
    extracted_files is_zip is_gz holds make_src change folder write_all compiled compile_action
    is_executable is_mach64 is_bang_path is_elf is_exe has_prefix after_prefix second_part cut_at
    same zip_folder zip_of
executable = refl

next-IsFresh : IsFresh compiling settings fresh_proxy.store
unfolding new_action_proxy highest_dir highest_of parse_int digits_value lt
next-IsFresh = record { numbered = omega arith; printed = refl; small = omega arith }

main-precompiled_example :
    ((extract_and_compile compiling settings [] (codes "main") archive fresh_proxy.store).0
      ≡ done tt)
    × (bin_of compiling settings
          (extract_and_compile compiling settings [] (codes "main") archive fresh_proxy.store).1
        ≡ write_all (bin_of compiling (settings_of flags with_compiler) result.1.store) [])
main-precompiled_example =
    main-precompiled tools packing flags with_compiler settings [] (some (codes "package main"))
      archive result.1 [] (codes "main") fresh_proxy.store packing-ReadsBack (rw bin_packed walks)
      packs unsaved executable next-IsFresh
