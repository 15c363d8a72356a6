-- ===== src/Doctor/Command.antt =====
-- internal/doctor/doctor.go: `Run` and `Check` as commands. What `walkParallel` delivers for a path, and the order that `sort.Slice` makes, are
-- parameters.
pub mod Quiet
pub mod Exit
pub mod Locked
pub mod Undoes
pub mod Collected
pub mod Sound
pub mod Clean
pub mod Checked
use machokeeper.Base.{
  ℕ, ◌+◌, String, Bool, true, false, not, ◌&&◌, Option, none, some, List, [], ◌∷◌, ◌++◌, ltb,
  length, if◌then◌else◌, ◌>>=◌, eq_string,
}
use machokeeper.Engine.Defs.{Hashes}
use machokeeper.Doctor.Scan.{Finding}
use machokeeper.Doctor.Disk.{Disk, System, Calls}
use machokeeper.Doctor.Files.{JournalEntry}
use machokeeper.Doctor.JournalFile.{JournalCalls, journal_file, write_journal}
use machokeeper.Doctor.Pool.{ScanConfig}
use machokeeper.Doctor.Flags.{parse_scan_flags}
use machokeeper.Doctor.Lock.{LockCalls, repair_locked, any_store_path}
use machokeeper.Doctor.Run.{Group, Store, group_findings, RunState, run_repairs, exit_status}

-- The flags of `Run`, and its paths.
pub record Flags : Type 0 where
  pub fix : Bool
  pub fix_live : Bool
  pub scan : Bool
  pub quiet : Bool
  pub json_out : Bool
  pub paths : List String

-- One round of the loop over the arguments.
unfoldable pub set_flag : String → Flags → Flags
set_flag a fl =
    if eq_string a "--fix"
    then record fl { fix = true }
    else if eq_string a "--fix-live"
    then record fl { fix = true; fix_live = true }
    else if eq_string a "--scan"
    then record fl { scan = true }
    else if eq_string a "--quiet"
    then record fl { quiet = true }
    else if eq_string a "--json"
    then record fl { quiet = true; json_out = true }
    else record fl { paths = fl.paths ++ (a ∷ []) }

-- That loop.
unfoldable pub set_flags : List String → Flags → Flags
set_flags [] fl = fl
set_flags (a ∷ rest) fl = set_flags rest (set_flag a fl)

abbrev pub no_flags : Flags
no_flags = record {
  fix = false;
  fix_live = false;
  scan = false;
  quiet = false;
  json_out = false;
  paths = [];
}

unfoldable pub paths_of : Flags → List String
paths_of fl = if fl.scan then fl.paths ++ ("/nix/store" ∷ []) else fl.paths

-- The findings of all paths. A path that cannot be walked has none.
unfoldable pub collect : (String → Option (List Finding)) → List String → List Finding
collect walk [] = []
collect walk (p ∷ ps) = elim (walk p) [ none ↦ collect walk ps | some fs ↦ fs ++ collect walk ps ]

abbrev pub is_empty {ℓ} : {A : Type ℓ} → List A → Bool
is_empty [] = true
is_empty (x ∷ xs) = false

-- The loop of `Check`, with the number of findings so far: `none` where a path cannot be walked.
unfoldable pub count_stale : (String → Option (List Finding)) → List String → ℕ → Option ℕ
count_stale walk [] stale = some stale
count_stale walk (p ∷ ps) stale = elim (walk p) [
  | none ↦ none
  | some fs ↦ count_stale walk ps (stale + length fs)
]

unfoldable pub check_code : Option ℕ → ℕ
check_code none = 1
check_code (some stale) = if ltb 0 stale then 2 else 0

-- `Check` behind `parseScanFlags`.
unfoldable pub check_paths : (String → Option (List Finding)) → List String → ℕ
check_paths walk paths = if is_empty paths then 1 else check_code (count_stale walk paths 0)

-- What `Run` needs of its surroundings beside the store: the calls for each file, those on the lock
-- and on the journal's file, with their paths, the time, and the journal's JSON. `L` is the state of
-- the locks.
pub record Surroundings (L : Type 0) : Type 0 where
  pub calls : String → Disk → Calls
  pub lock_calls : LockCalls L
  pub lock_path : String
  pub journal_calls : JournalCalls
  pub parents : List String
  pub journal_dir : String
  pub seconds : String
  pub encode : List JournalEntry → Option (List ℕ)

-- The calls on the lock, in a state that has another part.
abbrev pub beside : {L R : Type 0} → LockCalls L → LockCalls (L × R)
beside calls = record {
  open_file = λ path s. let (l, ok) = calls.open_file path s.0 in ((l, s.1), ok);
  lock_shared = λ s. let (l, ok) = calls.lock_shared s.0 in ((l, s.1), ok);
  unlock = λ s. (calls.unlock s.0, s.1);
  close = λ s. (calls.close s.0, s.1);
}

-- What `Run` leaves: its state with that of the locks, and its exit code.
abbrev pub Outcome : Type 0 → Type 0 → Type 0
Outcome S L = (RunState S × L) × ℕ

abbrev pub start_state : {S : Type 0} → Disk → S → RunState S
start_state d db = record { disk = d; db = db; journal = []; fixed = 0 }

module _ {S L : Type 0} (hashes : Hashes) (sys : System) (store : Store S)
    (around : Surroundings L) where
  -- `runRepairs` under the lock, if a group has a store path.
  unfoldable pub run_repairs_locked :
      Bool → List (String × Group) → RunState S → L → L × Option (RunState S)
  run_repairs_locked fix_live groups st l =
      repair_locked (beside around.lock_calls) around.lock_path (any_store_path groups)
        (λ s. (s.0, s.1 >>= run_repairs hashes sys store around.calls fix_live groups)) (l, some st)

  -- The journal, and the exit code.
  unfoldable pub finish_run : String → List Finding → L × Option (RunState S) → Option (Outcome S L)
  finish_run path findings (l, none) = none
  finish_run path findings (l, some st) =
      let d = write_journal sys around.journal_calls around.encode path st.journal st.disk in
      some ((record st { disk = d }, l), exit_status findings st)

  -- `Run` with `--fix`, behind the scan.
  unfoldable pub fix_found : Bool → List Finding → Disk → S → L → Option (Outcome S L)
  fix_found fix_live findings d db l =
      let groups = group_findings store.store_path_of findings [] in
      let (path, probed) =
        journal_file around.journal_calls around.parents around.journal_dir around.seconds d in
      finish_run path findings (run_repairs_locked fix_live groups (start_state probed db) l)

  module _ (sort : List Finding → List Finding) where
    -- `Run` behind the scan.
    unfoldable pub run_found : Flags → List Finding → Disk → S → L → Option (Outcome S L)
    run_found fl findings d db l =
        if fl.json_out && not fl.fix
        then some ((start_state d db, l), if is_empty findings then 0 else 2)
        else if is_empty findings
        then some ((start_state d db, l), 0)
        else if not fl.fix
        then some ((start_state d db, l), 2)
        else fix_found fl.fix_live findings d db l

    -- `Run` behind `parseScanFlags`.
    unfoldable pub run_doctor :
        (Disk → String → Option (List Finding)) → List String → Disk → S → L → Option (Outcome S L)
    run_doctor walk rest d db l =
        let fl = set_flags rest no_flags in
        let paths = paths_of fl in
        if is_empty paths
        then some ((start_state d db, l), 1)
        else run_found fl (sort (collect (walk d) paths)) d db l

    -- `Run`
    unfoldable pub doctor_run :
        (ScanConfig → Disk → String → Option (List Finding))
        → List String
        → Disk
        → S
        → L
        → Option (Outcome S L)
    doctor_run walk args d db l =
        let (cfg, rest) = parse_scan_flags args in run_doctor (walk cfg) rest d db l

-- `Check`
unfoldable pub doctor_check : (ScanConfig → String → Option (List Finding)) → List String → ℕ
doctor_check walk args = let (cfg, paths) = parse_scan_flags args in check_paths (walk cfg) paths
