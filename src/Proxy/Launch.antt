-- ===== src/Proxy/Launch.antt =====
-- openwhisk/executor.go: NewExecutor and Start; openwhisk/actionProxy.go: StartLatestAction. What the
-- system does with the new process is an argument. Stop is Freezer.Stopping.stop, taken to return.
use openwhisk_runtime_go.Base.{
  ℕ, Bool, true, false, not, ◌&&◌, Option, none, some, List, [], ◌∷◌, ◌++◌, if◌then◌else◌, ◌==◌,
}
use openwhisk_runtime_go.Base.Text.{Bytes, codes, same, trim_space}
use openwhisk_runtime_go.Proxy.Folders.{Folder, find, folder, remove, names, highest_dir}
use openwhisk_runtime_go.Proxy.Env.{Variables, getenv}
use openwhisk_runtime_go.Proxy.Extraction.{
  Tools, Settings, End, done, failed, panicked, Store, contents_of,
}

-- The line that the action acknowledges with, as read and decoded.
pub data Ack : Type 0 where
  unread malformed : Ack
  ack : Bool → Ack

-- What Start receives first when it waits: the acknowledgement, or the exit.
pub data First : Type 0 where
  received : Ack → First
  exited : First

-- What the system does: whether the pipes and the cgroup can be made, whether the process starts,
-- whether it exits within DefaultTimeoutStart, and what comes first.
pub record System : Type 0 where
  pub has_pipes : Bool
  pub has_cgroup : Bool
  pub starts : Bool
  pub exits_early : Bool
  pub first : First

-- An executor: the folder that its command stands in, the command's contents, its environment.
pub record Process : Type 0 where
  pub directory : ℕ
  pub executable : Option Bytes
  pub env : Variables

-- An ActionProxy, with the executors on which it has called Stop.
pub record Proxy : Type 0 where
  pub initialized : Bool
  pub store : Store
  pub executor : Option Process
  pub env : Variables
  pub stopped : List Process

-- Whether Start ends without error.
unfoldable pub start : Bool → System → Bool
start waits y =
    if not y.starts
    then false
    else if not waits
    then not y.exits_early
    else elim y.first [ received (ack ok) ↦ ok | _ ↦ false ]

module _ (t : Tools) (s : Settings) where
  abbrev pub is_set : Bytes → Bool
  is_set k = not (same (getenv k s.environ) [])

  unfoldable pub new_executor : System → ℕ → Proxy → Option Process
  unfolding find folder
  new_executor y n px =
      if y.has_pipes && y.has_cgroup
      then some (record {
        directory = n;
        executable =
            find (codes "exec")
              (contents_of t s (λ (f : Folder). f.bin) (t.itoa n) px.store.folders);
        env =
            if s.debugging
            then px.env ++ ((codes "OW_DEBUG", codes "/tmp/action.log") ∷ [])
            else px.env;
      })
      else none

  -- The check of bin/exec.env.
  unfoldable pub environment_matches : ℕ → List Folder → Bool
  unfolding getenv find folder trim_space
  environment_matches n folders =
      let expected = getenv (codes "OW_EXECUTION_ENV") s.environ in
      if same expected []
      then true
      else elim (find (codes "exec.env")
          (contents_of t s (λ (f : Folder). f.bin) (t.itoa n) folders)) [
            | none ↦ false
            | some contents ↦ same (trim_space contents) expected
          ]

  abbrev pub listing : List Folder → Option (List Bytes)
  listing folders = if s.base_readable then some (names folders) else none

  -- NewActionProxy, on the folders that baseDir holds.
  unfoldable pub new_action_proxy : List Folder → Proxy
  unfolding highest_dir
  new_action_proxy folders = record {
    initialized = false;
    store = record { current_dir = highest_dir (listing folders); folders = folders };
    executor = none;
    env = [];
    stopped = [];
  }

  abbrev pub with_old : Option Process → List Process → List Process
  with_old none stopped = stopped
  with_old (some old) stopped = old ∷ stopped

  -- RemoveAll of "./action/<n>/".
  abbrev without_action : ℕ → Store → Store
  without_action n st =
      if not s.debugging && s.base_is_action
      then record st { folders = remove (t.itoa n) st.folders }
      else st

  unfoldable pub start_latest_action : System → Proxy → End Unit × Proxy
  unfolding new_executor environment_matches start highest_dir remove getenv
  start_latest_action y px =
      let n = highest_dir (listing px.store.folders) in
      let waits = is_set (codes "OW_WAIT_FOR_ACK") in
      if n == 0
      then (failed, record px { executor = none })
      else if not (environment_matches n px.store.folders)
      then (failed, px)
      else elim (new_executor y n px) [
        | none ↦ (panicked, px)
        | some process ↦
            if start waits y
            then (
              done tt,
              record px { executor = some process; stopped = with_old px.executor px.stopped },
            )
            else (failed, record px { store = without_action n px.store })
      ]
