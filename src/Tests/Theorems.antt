-- ===== src/Tests/Theorems.antt =====
-- The theorems at concrete files.
use machokeeper.Base.{ℕ, ◌≡◌, ◌↔◌, ◌≢◌, false, Option, none, some, List, [], arith, Returns}
use machokeeper.Engine.Defs.{ad_hoc, stronger, cms, Error, cms_repair, Change}
use machokeeper.Engine.Walk.{Walked, detect, walk, check, repair}
use machokeeper.Engine.Container.Slices.{IsSlice}
use machokeeper.Engine.Walk.Strongest.{IsAtMost, detect-IsSlice}
use machokeeper.Engine.Walk.Total.{walk_unwritten}
use machokeeper.Engine.Walk.Cms.{repair-cms, repair_thin-failed}
use machokeeper.Engine.Verify.Check.{IsFileValid, check-IsFileValid}
use machokeeper.Doctor.Undo.{restored, restore}
use machokeeper.Doctor.Undo.Restores.{restore-repair}
use machokeeper.Tests.Engine.{sound-IsFileValid, detect_cms, detect-broken, thin_broken}
use machokeeper.Engine.Verify.Repair.{unrepaired, repair-IsFileValid}
use machokeeper.Doctor.Plan.{plan_file_repair}
use machokeeper.Doctor.Plan.Safe.{IsSafePlan, plan_file_repair-IsSafe}
use machokeeper.Doctor.Scan.{scan_file}
use machokeeper.Doctor.Scan.Finds.{IsFound, scan_file-IsFound}
use machokeeper.Doctor.Disk.{Disk}
use machokeeper.Doctor.Files.{JournalEntry, repair_file, UndoResult, undone, undo_file}
use machokeeper.Doctor.Files.Repair.{IsFile, IsRepairedFile, repair_file-IsRepairedFile}
use machokeeper.Doctor.Files.Undo.{undo_file-repair_file}
use machokeeper.Tests.Doctor.{
  linkless, smooth, the_file, disk, disk_after, both_slots, run_repair_file, disk_has_file,
  undo-IsSmooth, opened, bounds, broken-IsPresented,
}
use machokeeper.Base.{◌∷◌, ◌⊎◌, refl}
use mathlib.Core.List.{Mem}
use machokeeper.Doctor.Run.{run_fix, repair_group}
use machokeeper.Doctor.Run.Account.{IsAccounted, run_fix-IsAccounted}
use machokeeper.Doctor.Run.Undoes.{run_fix-undo_file}
use machokeeper.Doctor.Run.Consent.{repair_group-IsConsented}
use machokeeper.Tests.Doctor.{
  small_store, used_store, calls, state_after, run_finding, finding, group, state, used-IsConsented,
  disk-IsSmall,
}
use machokeeper.Tests.Fixtures.{toy, sound, broken, cms_file, fat_file}

check-IsFileValid_example :
    Returns (λ stale. (stale ≡ false) ↔ IsFileValid toy fat_file) (check toy fat_file "f")
check-IsFileValid_example = check-IsFileValid toy fat_file (omega arith) "f"

restore-repair_example :
    Returns
      (λ (r : Walked × Option Error).
        (changes : List Change) × (r.0.buffer.changed ≡ some changes)
        × (restore changes r.0.buffer.bytes ≡ some (restored broken false)))
      (repair toy broken "f")
restore-repair_example = restore-repair toy broken "f" (omega arith)

repair-cms_example :
    repair toy cms_file "f"
    ≡ some (
      record { buffer = record { bytes = cms_file; changed = some [] }; modified = false },
      some (cms_repair "f"),
    )
repair-cms_example = repair-cms toy "f" cms_file detect_cms

walk_unwritten_example :
    Returns
      (λ (r : Walked × Option Error). (r.0).buffer ≡ record { bytes = broken; changed = none })
      (walk toy "f" false (record { bytes = broken; changed = none }))
walk_unwritten_example =
    walk_unwritten toy "f" (record { bytes = broken; changed = none }) (omega arith)

repair_thin-failed_example :
    Returns (λ (r : Walked × Option Error). (r.1 ≡ none) ↔ (ad_hoc ≢ cms)) (repair toy broken "f")
repair_thin-failed_example =
    repair_thin-failed toy "f" broken (omega arith) thin_broken ad_hoc (omega arith) detect-broken

detect-IsSlice_example :
    Returns
      (λ k.
        (stronger k ad_hoc ≡ false)
        ↔ ((base stop : ℕ) → IsSlice fat_file base stop → IsAtMost fat_file ad_hoc base stop))
      (detect fat_file)
detect-IsSlice_example = detect-IsSlice fat_file (omega arith) ad_hoc

plan_file_repair-IsSafe_example :
    Returns (IsSafePlan toy broken "f") (plan_file_repair toy (some broken) "f")
plan_file_repair-IsSafe_example = plan_file_repair-IsSafe toy broken "f" (omega arith)

scan_file-IsFound_example :
    Returns (IsFound toy broken "f" (omega arith)) (scan_file toy bounds opened "f")
scan_file-IsFound_example =
    scan_file-IsFound toy broken "f" (omega arith) bounds opened broken-IsPresented

repair_file-IsRepairedFile_example :
    Returns
      (IsRepairedFile toy linkless (smooth "t") "f" disk the_file disk_has_file (omega arith))
      (repair_file toy linkless (smooth "t") "f" disk)
repair_file-IsRepairedFile_example =
    repair_file-IsRepairedFile toy linkless (smooth "t") "f" disk the_file disk_has_file
      (omega arith)

undo_file-repair_file_example :
    Returns
      (λ (u : Disk × UndoResult). (u.1 ≡ undone false) × IsFile u.0 "f" the_file)
      (undo_file linkless (smooth "u") (record { file = "f"; changes = both_slots }) disk_after)
undo_file-repair_file_example =
    undo_file-repair_file toy linkless (smooth "t") (smooth "u") "f" disk disk_after the_file
      both_slots disk_has_file (omega arith) run_repair_file undo-IsSmooth

repair-IsFileValid_example :
    Returns (λ (r : Walked × Option Error). r.0 ≡ unrepaired sound) (repair toy sound "f")
repair-IsFileValid_example = repair-IsFileValid toy sound "f" (omega arith) sound-IsFileValid

run_fix-IsAccounted_example :
    Returns
      (IsAccounted toy "f" the_file)
      (run_fix toy linkless small_store calls false (finding ∷ finding ∷ []) disk 0)
run_fix-IsAccounted_example =
    run_fix-IsAccounted toy "f" the_file linkless small_store calls false (finding ∷ finding ∷ [])
      disk 0 disk-IsSmall disk_has_file

run_fix-undo_file_example :
    IsFile disk_after "f" the_file
    ⊎ ((e : JournalEntry) × Mem e state_after.journal
        × (e.file ≡ "f")
        × Returns
            (λ (u : Disk × UndoResult). (u.1 ≡ undone false) × IsFile u.0 "f" the_file)
            (undo_file linkless (smooth "u") e disk_after))
run_fix-undo_file_example =
    run_fix-undo_file toy linkless small_store calls "f" the_file false (finding ∷ []) disk 0
      state_after (smooth "u") disk-IsSmall disk_has_file run_finding undo-IsSmooth

repair_group-IsConsented_example :
    repair_group toy linkless used_store calls false group state ≡ some state
repair_group-IsConsented_example =
    repair_group-IsConsented toy linkless used_store calls false group "p" refl state
      used-IsConsented
