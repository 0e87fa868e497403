-- ===== src/Processes.antt =====
-- cli/process_manager.cpp, as it is compiled for POSIX: the processes that connectors run in. Beside its
-- entries the state says which groups were forked, which were sent SIGTERM, and which `waitpid` has reported
-- as ended.
pub mod Groups
mod Tests
use droidcli.Common.{
  ℕ, zero, suc, Bool, true, false, not, ◌&&◌, Option, none, some, List, [], ◌∷◌, ◌++◌, Bytes, codes,
  same, ltb, ◌==◌, map, if◌then◌else◌,
}

pub record ProcessInfo : Type 0 where
  pub key : Bytes
  pub label : Bytes
  pub command : Bytes
  pub working_dir : Bytes
  pub pid : ℕ
  pub running : Bool
  pub status_text : Bytes

-- The key of the map is that of the info, which `launch` sets before it lets go of the lock.
pub record Entry : Type 0 where
  pub info : ProcessInfo
  pub pgid : ℕ

pub record ProcessManager : Type 0 where
  pub entries : List Entry
  pub forked : List ℕ
  pub signalled : List ℕ
  pub ended : List ℕ

abbrev pub no_processes : ProcessManager
no_processes = record { entries = []; forked = []; signalled = []; ended = [] }

-- `operator<` on strings
unfoldable pub less : Bytes → Bytes → Bool
less s [] = false
less [] (d ∷ t) = true
less (c ∷ s) (d ∷ t) = if c == d then less s t else ltb c d

abbrev pub new_info : Bytes → Bytes → Bytes → Bytes → ProcessInfo
new_info key label working_dir command = record {
  key = key;
  label = label;
  command = command;
  working_dir = working_dir;
  pid = 0;
  running = false;
  status_text = codes "idle";
}

-- `entries_[key]`, in the order of the keys
unfoldable pub entry_at : Bytes → List Entry → Entry
unfolding same less
entry_at key [] = record { info = new_info [] [] [] []; pgid = 0 }
entry_at key (e ∷ es) =
    if same key e.info.key
    then e
    else if less key e.info.key
    then record { info = new_info [] [] [] []; pgid = 0 }
    else entry_at key es

-- What is stored there.
unfoldable pub put_entry : Bytes → Entry → List Entry → List Entry
unfolding same less
put_entry key entry [] = entry ∷ []
put_entry key entry (e ∷ es) =
    let rest = put_entry key entry es in
    if same key e.info.key
    then entry ∷ es
    else if less key e.info.key
    then entry ∷ e ∷ es
    else e ∷ rest

-- The groups that it signals.
abbrev pub group_of : Entry → List ℕ
group_of entry = if ltb 0 entry.pgid then entry.pgid ∷ [] else []

abbrev pub stopped_text : ProcessInfo → Bytes
stopped_text info = if info.running then codes "stopped" else info.status_text

unfoldable pub stop_locked : Entry → Entry
stop_locked entry =
    if ltb 0 entry.pgid
    then record {
      info = record entry.info { running = false; status_text = stopped_text entry.info };
      pgid = 0;
    }
    else record entry { info = record entry.info { running = false } }

-- `waitpid` of a process that still runs gives 0, which `alive` says.
unfoldable pub refresh_locked : (ℕ → Bool) → Entry → Entry
refresh_locked alive entry =
    if not (ltb 0 entry.pgid)
    then record entry { info = record entry.info { running = false } }
    else if alive entry.info.pid
    then record entry { info = record entry.info { running = true; status_text = codes "running" } }
    else record {
      info = record entry.info { running = false; status_text = codes "exited" };
      pgid = 0;
    }

-- The group that a refresh finds ended.
abbrev pub ended_of : (ℕ → Bool) → Entry → List ℕ
ended_of alive entry =
    if ltb 0 entry.pgid && not (alive entry.info.pid) then entry.pgid ∷ [] else []

unfoldable pub refresh_all : (ℕ → Bool) → List Entry → List Entry
unfolding refresh_locked
refresh_all alive [] = []
refresh_all alive (e ∷ es) = refresh_locked alive e ∷ refresh_all alive es

unfoldable pub all_ended : (ℕ → Bool) → List Entry → List ℕ
all_ended alive [] = []
all_ended alive (e ∷ es) = ended_of alive e ++ all_ended alive es

-- The infos, and what a refresh leaves.
unfoldable pub process_snapshot : (ℕ → Bool) → ProcessManager → List ProcessInfo × ProcessManager
unfolding refresh_all all_ended
process_snapshot alive m =
    let entries = refresh_all alive m.entries in
    (
      map (λ e. e.info) entries,
      record m { entries = entries; ended = m.ended ++ all_ended alive m.entries },
    )

-- The entry after `fork`, which gives a process or fails.
abbrev pub launched : ProcessInfo → Option ℕ → Entry
launched info none = record { info = record info { status_text = codes "fork failed" }; pgid = 0 }
launched info (some pid) = record {
  info = record info { pid = pid; running = true; status_text = codes "running" };
  pgid = pid;
}

abbrev pub forked_of : Option ℕ → List ℕ
forked_of none = []
forked_of (some pid) = pid ∷ []

abbrev pub launch_result : Option ℕ → Bool × Bytes
launch_result none = (false, codes "fork failed")
launch_result (some pid) = (true, [])

-- The result and the error text, and the state afterwards.
unfoldable pub launch :
    Option ℕ → Bytes → Bytes → Bytes → Bytes → ProcessManager → (Bool × Bytes) × ProcessManager
unfolding entry_at put_entry stop_locked
launch fork_result key label working_dir command m = (
  launch_result fork_result,
  record m {
    entries =
        put_entry key (launched (new_info key label working_dir command) fork_result) m.entries;
    forked = m.forked ++ forked_of fork_result;
    signalled = m.signalled ++ group_of (entry_at key m.entries);
  },
)

-- The first entry of the key.
unfoldable pub has_key : Bytes → List Entry → Bool
unfolding same
has_key key [] = false
has_key key (e ∷ es) = if same key e.info.key then true else has_key key es

abbrev pub stopped_at : Bytes → ProcessManager → (Bool × Bytes) × ProcessManager
stopped_at key m =
    let entry = entry_at key m.entries in
    if not (ltb 0 entry.pgid) then ((false, codes "process not running"), m) else (
      (true, []),
      record m {
        entries = put_entry key (stop_locked entry) m.entries;
        signalled = m.signalled ++ group_of entry;
      },
    )

unfoldable pub stop : Bytes → ProcessManager → (Bool × Bytes) × ProcessManager
unfolding has_key entry_at put_entry stop_locked
stop key m =
    if not (has_key key m.entries)
    then ((false, codes "no process for key"), m)
    else stopped_at key m
