-- ===== src/Proxy/Command.antt =====
-- main/proxy.go: main, from the flags to what the process does. flag, os and encoding/json are taken
-- to have read the flags, the environment, the standard input and the folders of ./action.
use openwhisk_runtime_go.Base.{Bool, true, Option, List, [], if◌then◌else◌}
use openwhisk_runtime_go.Base.Text.{Bytes, codes, same}
use openwhisk_runtime_go.Proxy.Folders.{Folder, write}
use openwhisk_runtime_go.Proxy.Env.{Variables, Sent, getenv}
use openwhisk_runtime_go.Proxy.Extraction.{Tools, Settings, End}
use openwhisk_runtime_go.Proxy.Zipped.{Packing}
use openwhisk_runtime_go.Proxy.Launch.{Proxy, new_action_proxy}
use openwhisk_runtime_go.Proxy.Init.{extract_and_compile_io}

-- `env` is the object that the flag holds, empty where it holds none.
pub record Flags : Type 0 where
  pub version : Bool
  pub debug : Bool
  pub compile : Bytes
  pub env : List (Bytes × Sent)

-- What main does: it shows the version, compiles to standard output, or serves.
pub data Ran : Type 0 where
  shown : Ran
  packed : End Bytes × Proxy → Ran
  serving : Proxy → Ran

unfoldable pub environ_of : Flags → Variables → Variables
unfolding write
environ_of flags environ =
    if flags.debug then write (codes "OW_DEBUG") (codes "1") environ else environ

-- The settings that main starts the proxy with.
unfoldable pub settings_of : Flags → Settings → Settings
unfolding environ_of getenv
settings_of flags s =
    let environ = environ_of flags s.environ in
    record s {
      environ = environ;
      debugging = flags.debug;
      compiler = getenv (codes "OW_COMPILER") environ;
      base_is_action = true;
    }

unfoldable pub main : Tools → Packing → Flags → Settings → List Folder → Option Bytes → Ran
unfolding settings_of new_action_proxy extract_and_compile_io same
main t g flags s folders stdin =
    let s' = settings_of flags s in
    let px = new_action_proxy t s' folders in
    if flags.version
    then shown
    else if same flags.compile []
    then serving px
    else packed (extract_and_compile_io t s' g stdin flags.env flags.compile px)
