-- ===== src/Doctor/Files.antt =====
-- internal/doctor/doctor.go: `repairFileHardlinkSafe`, `writeRepair`, `undoFile` and `Undo`, on the
-- disk.
pub mod Repair
pub mod Undo
pub mod Others
pub mod Journal
use machokeeper.Base.{
  ℕ, String, Bool, true, false, Option, none, some, List, [], ◌∷◌, if◌then◌else◌, ◌>>=◌,
}
use machokeeper.Engine.Defs.{Change, Hashes}
use machokeeper.Doctor.Plan.{VerifiedRepair, Plan, verified, rejected, PlanError, plan_file_repair}
use machokeeper.Doctor.Undo.{UndoError, Restored, restored, refused, restore}
use machokeeper.Doctor.Disk.{
  Entry, regular, irregular, Disk, System, Calls, Failure, read_file, replace_file,
}

-- What `repairFileHardlinkSafe` returns.
pub data RepairResult : Type 0 where
  repaired : List Change → RepairResult
  not_planned : PlanError → RepairResult
  not_written : Failure → RepairResult

-- `writeRepair`
unfoldable pub write_repair : System → Calls → VerifiedRepair → Disk → Disk × Option Failure
write_repair sys calls v d = replace_file sys calls v.path v.bytes d

unfoldable pub written_result : List Change → Option Failure → RepairResult
written_result changes none = repaired changes
written_result changes (some e) = not_written e

-- `repairFileHardlinkSafe` behind `planFileRepair`.
unfoldable pub commit : System → Calls → Plan → Disk → Disk × RepairResult
commit sys calls (rejected e) d = (d, not_planned e)
commit sys calls (verified v) d =
    let (d', failed) = write_repair sys calls v d in (d', written_result v.changes failed)

-- `repairFileHardlinkSafe`
unfoldable pub repair_file : Hashes → System → Calls → String → Disk → Option (Disk × RepairResult)
repair_file hashes sys calls path d = do
  plan ← plan_file_repair hashes (read_file sys calls d path) path
  some (commit sys calls plan d)

-- `journalEntry`, less its time.
pub record JournalEntry : Type 0 where
  pub file : String
  pub changes : List Change

-- What `undoFile` returns. `undone` holds whether it warned.
pub data UndoResult : Type 0 where
  undone : Bool → UndoResult
  not_found not_regular not_read : UndoResult
  not_restored : UndoError → UndoResult
  not_replaced : Failure → UndoResult

unfoldable pub replaced_result : Bool → Option Failure → UndoResult
replaced_result warned none = undone warned
replaced_result warned (some e) = not_replaced e

-- `undoFile` behind the loops.
unfoldable pub put_back : System → Calls → String → Restored → Disk → Disk × UndoResult
put_back sys calls path (refused e) d = (d, not_restored e)
put_back sys calls path (restored bytes warned) d =
    let (d', failed) = replace_file sys calls path bytes d in (d', replaced_result warned failed)

-- `undoFile` behind the read.
unfoldable pub undo_read :
    System → Calls → JournalEntry → Option (List ℕ) → Disk → Option (Disk × UndoResult)
undo_read sys calls e none d = some (d, not_read)
undo_read sys calls e (some bytes) d = do
  r ← restore e.changes bytes
  some (put_back sys calls e.file r d)

-- `undoFile`
unfoldable pub undo_file : System → Calls → JournalEntry → Disk → Option (Disk × UndoResult)
undo_file sys calls e d = if calls.lstat_fails then some (d, not_found) else elim (d.names e.file) [
  | none ↦ some (d, not_found)
  | some irregular ↦ some (d, not_regular)
  | some (regular i) ↦ undo_read sys calls e (read_file sys calls d e.file) d
]

unfoldable pub exit_code : Bool → UndoResult → Bool
exit_code failed (undone warned) = failed
exit_code failed _ = true

-- The loop of `Undo`. The flag says that the exit code is 1.
unfoldable pub undo_all :
    System → (String → Disk → Calls) → List JournalEntry → Bool → Disk → Option (Disk × Bool)
undo_all sys calls [] failed d = some (d, failed)
undo_all sys calls (e ∷ rest) failed d = do
  (d', result) ← undo_file sys (calls e.file d) e d
  undo_all sys calls rest (exit_code failed result) d'

-- The journal that `Undo` is given: one argument, a file that can be read, and JSON.
unfoldable pub read_journal :
    System
    → (String → Disk → Calls)
    → (List ℕ → Option (List JournalEntry))
    → List String
    → Disk
    → Option (List JournalEntry)
read_journal sys calls decode [] d = none
read_journal sys calls decode (path ∷ []) d = do
  raw ← read_file sys (calls path d) d path
  decode raw
read_journal sys calls decode (path ∷ other ∷ rest) d = none

-- `Undo`
unfoldable pub undo :
    System
    → (String → Disk → Calls)
    → (List ℕ → Option (List JournalEntry))
    → List String
    → Disk
    → Option (Disk × Bool)
undo sys calls decode args d = elim (read_journal sys calls decode args d) [
  | none ↦ some (d, true)
  | some journal ↦ undo_all sys calls journal false d
]
