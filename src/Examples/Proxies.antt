-- ===== src/Examples/Proxies.antt =====
-- openwhisk/initHandler.go and openwhisk/actionProxy.go: a script that is uploaded to a new container
-- without a compiler, and requests to containers in other states.
use openwhisk_runtime_go.Base.{
  ℕ, ◌+◌, ◌≤◌, ◌≡◌, ◌≢◌, refl, true, false, none, some, List, [], ◌∷◌, arith,
}
use openwhisk_runtime_go.Base.Int64.{lt}
use openwhisk_runtime_go.Base.Text.{
  Bytes, codes, same, has_prefix, after_prefix, cut_at, parse_int, digits_value,
}
use openwhisk_runtime_go.Proxy.Kinds.{
  holds, is_zip, is_gz, is_executable, is_mach64, is_bang_path, is_elf, is_exe,
}
use openwhisk_runtime_go.Proxy.Folders.{
  find, highest_of, highest_dir, write, make_src, change, folder, remove,
}
use openwhisk_runtime_go.Proxy.Env.{
  Variables, Sent, text, other, set_env, set_env-find, inherit, receive, second_part, getenv,
  received, inherited, given, or_else,
}
use openwhisk_runtime_go.Proxy.Extraction.{
  Tools, Settings, write_all, extracted_files, extract_and_compile, extract_action, compiled,
  is_compiled, compile_action,
}
use openwhisk_runtime_go.Proxy.Launch.{
  System, Proxy, ack, received as arrived, start_latest_action, start, new_action_proxy,
  new_executor, environment_matches,
}
use openwhisk_runtime_go.Proxy.Init.{
  error, InitBody, InitRequest, ok, code_of, init_handler, deployed, launched,
}
use openwhisk_runtime_go.Proxy.Extracted.{IsFresh}
use openwhisk_runtime_go.Proxy.Refused.{init_handler-refused, Undisturbed}

-- Numbers of one digit, no archives, and a compiler that always fails.
abbrev pub tools : Tools
tools = record {
  itoa = λ n. (n + b'0') ∷ [];
  decode_base64 = λ s. some s;
  open_zip = λ buf. none;
  untar = λ buf. ([], false);
  compile = λ env main src. record { bin = []; out = codes "no"; succeeds = false };
}

abbrev pub environ : Variables
environ = (codes "HOME", codes "/root") ∷ (codes "__OW_API_HOST", codes "https://h?k=v") ∷ []

abbrev pub settings : Settings
settings = record {
  environ = environ;
  runtime = codes "linux";
  debugging = false;
  compiler = [];
  base_readable = true;
  base_is_action = true;
}

abbrev pub script : Bytes
script = codes "#!/bin/sh"

abbrev pub payload : List (Bytes × Sent)
payload =
    (codes "LIMIT", text (codes "9")) ∷ (codes "__OW_API_HOST", other (some (codes "{}"))) ∷ []

abbrev pub init_body : InitBody
init_body = record { code = script; binary = false; main = []; env = payload }

-- A system on which the process starts, and one on which it exits at once.
abbrev pub good_system : System
good_system = record {
  has_pipes = true;
  has_cgroup = true;
  starts = true;
  exits_early = false;
  first = arrived (ack true);
}

abbrev pub bad_system : System
bad_system = record good_system { exits_early = true }

abbrev pub init_on : System → InitRequest
init_on y = record { body_read = true; body = some init_body; system = y }

-- A new container with the folder of an earlier action.
abbrev pub fresh_proxy : Proxy
fresh_proxy =
    new_action_proxy tools settings (record { name = codes "2"; src = none; bin = some [] } ∷ [])

store-IsFresh : IsFresh tools settings fresh_proxy.store
unfolding new_action_proxy highest_dir highest_of parse_int digits_value lt
store-IsFresh = record { numbered = omega arith; printed = refl; small = omega arith }

set_env-find_example :
    find (codes "__OW_API_HOST") (set_env environ payload [])
    ≡ or_else (received (codes "__OW_API_HOST") payload) (
        or_else (inherited (codes "__OW_API_HOST") environ) (
          or_else
            (given
              (codes "__OW_WAIT_FOR_ACK")
              (getenv (codes "OW_WAIT_FOR_ACK") environ)
              (codes "__OW_API_HOST"))
            (or_else
              (given
                (codes "__OW_EXECUTION_ENV")
                (getenv (codes "OW_EXECUTION_ENV") environ)
                (codes "__OW_API_HOST"))
              (or_else
                (given (codes "__OW_PROXY_VERSION") (codes "1.17.1") (codes "__OW_API_HOST"))
                (find (codes "__OW_API_HOST") [])))))
set_env-find_example = set_env-find (codes "__OW_API_HOST") environ payload []

pub accepts : (init_handler tools settings (init_on good_system) fresh_proxy).0 ≡ ok
unfolding init_handler code_of set_env inherit receive getenv second_part has_prefix after_prefix
    cut_at find write extract_and_compile extract_action extracted_files is_zip is_gz holds
    write_all make_src change folder compiled is_compiled compile_action is_executable is_mach64
    is_bang_path is_elf is_exe deployed launched start_latest_action start new_executor
    environment_matches new_action_proxy highest_dir highest_of parse_int digits_value lt same
    remove
accepts = refl

-- After a first upload whose process exits at once.
abbrev pub failed_proxy : Proxy
failed_proxy = (init_handler tools settings (init_on bad_system) fresh_proxy).1

pub fails : (init_handler tools settings (init_on bad_system) fresh_proxy).0 ≡ error 502
unfolding init_handler code_of set_env inherit receive getenv second_part has_prefix after_prefix
    cut_at find write extract_and_compile extract_action extracted_files is_zip is_gz holds
    write_all make_src change folder compiled is_compiled compile_action is_executable is_mach64
    is_bang_path is_elf is_exe deployed launched start_latest_action start new_executor
    environment_matches new_action_proxy highest_dir highest_of parse_int digits_value lt same
    remove
fails = refl

pub accepts_later : (init_handler tools settings (init_on good_system) failed_proxy).0 ≡ ok
unfolding init_handler code_of set_env inherit receive getenv second_part has_prefix after_prefix
    cut_at find write extract_and_compile extract_action extracted_files is_zip is_gz holds
    write_all make_src change folder compiled is_compiled compile_action is_executable is_mach64
    is_bang_path is_elf is_exe deployed launched start_latest_action start new_executor
    environment_matches new_action_proxy highest_dir highest_of parse_int digits_value lt same
    remove
accepts_later = refl

pub prints : (k : ℕ) → k ≤ 9 → parse_int (tools.itoa k) ≡ some k
unfolding parse_int digits_value
prints k h = ground arith

abbrev pub initialized_proxy : Proxy
initialized_proxy = (init_handler tools settings (init_on good_system) fresh_proxy).1

pub initializes : initialized_proxy.initialized ≡ true
unfolding init_handler code_of set_env inherit receive getenv second_part has_prefix after_prefix
    cut_at find write extract_and_compile extract_action extracted_files is_zip is_gz holds
    write_all make_src change folder compiled is_compiled compile_action is_executable is_mach64
    is_bang_path is_elf is_exe deployed launched start_latest_action start new_executor
    environment_matches new_action_proxy highest_dir highest_of parse_int digits_value lt same
    remove
initializes = refl

refuses : (init_handler tools settings (init_on bad_system) fresh_proxy).0 ≢ ok
unfolding init_handler code_of set_env inherit receive getenv second_part has_prefix after_prefix
    cut_at find write extract_and_compile extract_action extracted_files is_zip is_gz holds
    write_all make_src change folder compiled is_compiled compile_action is_executable is_mach64
    is_bang_path is_elf is_exe deployed launched start_latest_action start new_executor
    environment_matches new_action_proxy highest_dir highest_of parse_int digits_value lt same
    remove
refuses h = cc h

pub decodes : code_of tools settings init_body ≡ some script
unfolding code_of
decodes = refl

init_handler-refused_example :
    Undisturbed tools settings fresh_proxy
      (init_handler tools settings (init_on bad_system) fresh_proxy).1
init_handler-refused_example =
    init_handler-refused tools settings (init_on bad_system) fresh_proxy refl store-IsFresh refuses
