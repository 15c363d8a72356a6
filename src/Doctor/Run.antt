-- ===== src/Doctor/Run.antt =====
-- internal/doctor/doctor.go: the repair phase of `Run`, from the findings to the exit code.
pub mod Rule
pub mod Consent
pub mod Account
pub mod Undoes
pub mod Entries
pub mod Groups
pub mod Tracked
pub mod Counted
pub mod Repaired
pub mod Journaled
pub mod UndoesAll
use machokeeper.Base.{
  ℕ, ◌+◌, String, Bool, true, false, not, Option, none, some, List, [], ◌∷◌, ◌++◌, ltb, length,
  if◌then◌else◌, ◌>>=◌, eq_string,
}
use machokeeper.Engine.Defs.{Change, Hashes}
use machokeeper.Doctor.Scan.{Finding}
use machokeeper.Doctor.Disk.{Disk, System, Calls}
use machokeeper.Doctor.Files.{
  RepairResult, repaired, not_planned, not_written, repair_file, JournalEntry,
}

-- `group`. The store path "" is `none`.
pub record Group : Type 0 where
  pub store_path : Option String
  pub files : List Finding

-- `storeBackend`. `S` is the state of the store's database. A query that fails gives `none`, and
-- `reconcile_hash` says whether it failed.
pub record Store (S : Type 0) : Type 0 where
  pub store_path_of : String → Option String
  pub is_content_addressed : S → Disk → String → Option Bool
  pub blockers : S → Disk → String → Option (List String)
  pub reconcile_hash : String → Disk → S → S × Bool

-- The key of a finding's group.
unfoldable pub key_of : String → Option String → String
key_of file none = file
key_of file (some store_path) = store_path

-- One round of the loop that groups: the map of groups, in the order of `order`.
unfoldable pub add_finding :
    String → Option String → Finding → List (String × Group) → List (String × Group)
add_finding key store_path f [] = (key, record { store_path = store_path; files = f ∷ [] }) ∷ []
add_finding key store_path f ((k, g) ∷ groups) =
    let rest = add_finding key store_path f groups in
    if eq_string k key
    then (k, record { store_path = g.store_path; files = g.files ++ (f ∷ []) }) ∷ groups
    else (k, g) ∷ rest

-- That loop. `store_path_of` is the backend's `StorePathOf`.
unfoldable pub group_findings :
    (String → Option String) → List Finding → List (String × Group) → List (String × Group)
group_findings store_path_of [] groups = groups
group_findings store_path_of (f ∷ fs) groups =
    let store_path = store_path_of f.file in
    group_findings store_path_of fs
      (if f.repairable then add_finding (key_of f.file store_path) store_path f groups else groups)

-- What stands before the repair of a group: a query that failed, a content-addressed path, or a path
-- in use.
pub data Decision : Type 0 where
  proceed undetermined content_addressed unknown_blockers in_use : Decision

unfoldable pub blocked : Bool → Option (List String) → Decision
blocked true found = proceed
blocked false none = unknown_blockers
blocked false (some []) = proceed
blocked false (some (b ∷ bs)) = in_use

unfoldable pub consent : Bool → Option Bool → Option (List String) → Decision
consent fix_live none found = undetermined
consent fix_live (some true) found = content_addressed
consent fix_live (some false) found = blocked fix_live found

-- The variables of the repair phase.
pub record RunState (S : Type 0) : Type 0 where
  pub disk : Disk
  pub db : S
  pub journal : List JournalEntry
  pub fixed : ℕ

-- A file's repair: its journal entry, and whether the loop goes on.
unfoldable pub note_repair :
    {S : Type 0} → String → RepairResult → Disk → RunState S → RunState S × Bool
note_repair file (repaired changes) d st = (
  record st { disk = d; journal = st.journal ++ (record { file = file; changes = changes } ∷ []) },
  true,
)
note_repair file (not_planned e) d st = (record st { disk = d }, false)
note_repair file (not_written e) d st = (record st { disk = d }, false)

module _ {S : Type 0} (hashes : Hashes) (sys : System) (store : Store S)
    (calls : String → Disk → Calls) where
  unfoldable pub decide : Bool → Option String → RunState S → Decision
  decide fix_live none st = proceed
  decide fix_live (some path) st =
      consent fix_live (store.is_content_addressed st.db st.disk path)
        (store.blockers st.db st.disk path)

  -- The loop over a group's files: the state, `ok` and `repairedInGroup`.
  unfoldable pub repair_files : List Finding → ℕ → RunState S → Option (RunState S × Bool × ℕ)
  repair_files [] n st = some (st, true, n)
  repair_files (f ∷ fs) n st = do
    (d, result) ← repair_file hashes sys (calls f.file st.disk) f.file st.disk
    let (st', go_on) = note_repair f.file result d st
    let rest = repair_files fs (n + 1) st'
    if go_on then rest else some (st', false, n)

  -- The reconciliation, and the count.
  unfoldable pub register : Option String → ℕ → RunState S → RunState S
  register none n st = record st { fixed = st.fixed + n }
  register (some path) n st =
      let (db, failed) = store.reconcile_hash path st.disk st.db in
      if failed then record st { db = db } else record st { db = db; fixed = st.fixed + n }

  unfoldable pub repair_decided : Decision → Group → RunState S → Option (RunState S)
  repair_decided proceed g st = do
    (st', ok, n) ← repair_files g.files 0 st
    some (if ok then register g.store_path n st' else st')
  repair_decided _ g st = some st

  -- One round of `runRepairs`.
  unfoldable pub repair_group : Bool → Group → RunState S → Option (RunState S)
  repair_group fix_live g st = repair_decided (decide fix_live g.store_path st) g st

  -- `runRepairs`
  unfoldable pub run_repairs : Bool → List (String × Group) → RunState S → Option (RunState S)
  run_repairs fix_live [] st = some st
  run_repairs fix_live ((key, g) ∷ groups) st = do
    st' ← repair_group fix_live g st
    run_repairs fix_live groups st'

  -- `Run` with `--fix`, behind the scan.
  unfoldable pub run_fix : Bool → List Finding → Disk → S → Option (RunState S)
  run_fix fix_live findings d db =
      run_repairs fix_live (group_findings store.store_path_of findings [])
        (record { disk = d; db = db; journal = []; fixed = 0 })

-- The exit code of a run with `--fix` that found something.
unfoldable pub exit_status : {S : Type 0} → List Finding → RunState S → ℕ
exit_status findings st = if ltb st.fixed (length findings) then 2 else 0
