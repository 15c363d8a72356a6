-- ===== src/Tests/Tracking.antt =====
-- A run that exits with 0, with a store that records the bytes of the one file.
use machokeeper.Base.{
  ℕ, ◌≡◌, refl, ap, sym, String, false, Option, none, some, List, [], ◌∷◌, eq_string,
}
use machokeeper.Doctor.Plan.{plan_file_repair, plan_repair, judge, changes_of}
use machokeeper.Doctor.Disk.{
  Disk, read_file, replace_file, fill_temp, create_temp, write_inode, chmod_inode, rename_file,
  remove_temp,
}
use machokeeper.Doctor.Files.{repair_file, commit, write_repair, written_result}
use machokeeper.Doctor.Run.{
  Store, RunState, run_fix, run_repairs, repair_group, decide, consent, blocked, repair_decided,
  repair_files, note_repair, register, group_findings, add_finding, key_of, exit_status,
}
use machokeeper.Doctor.Run.Rule.{AllFiles}
use machokeeper.Doctor.Run.Tracked.{IsTracking}
use machokeeper.Doctor.Run.Repaired.{IsSound, run_fix-IsSound}
use machokeeper.Tests.Engine.{run_repair}
use machokeeper.Tests.Fixtures.{toy}
use machokeeper.Tests.Doctor.{
  linkless, smooth, the_file, disk, disk_after, disk_has_file, disk-IsSmall, both_slots, finding,
  calls,
}

-- The archive of the only store path, "p".
abbrev dump : Disk → Option (List ℕ)
dump d = read_file linkless (smooth "t") d "f"

abbrev recording : Store (Option (List ℕ))
recording = record {
  store_path_of = λ path. some "p";
  is_content_addressed = λ db d path. some false;
  blockers = λ db d path. some [];
  reconcile_hash = λ path d db. (dump d, false);
}

abbrev Records : Option (List ℕ) → Disk → String → Type 0
Records db d path = path ≡ "p" → db ≡ dump d

tracking : IsTracking toy linkless recording calls Records
tracking = record {
  own_path = λ file path e. e;
  registers = λ path d db e p. refl;
  other_rows = λ path q d db n m p. refl;
  other_files = λ file q d d' result db e n m p. absurd (n (ap some (sym p)));
}

abbrev ended : RunState (Option (List ℕ))
ended = record {
  disk = disk_after;
  db = dump disk_after;
  journal = record { file = "f"; changes = both_slots } ∷ [];
  fixed = 1;
}

run_recording : run_fix toy linkless recording calls false (finding ∷ []) disk none ≡ some ended
unfolding run_fix run_repairs repair_group decide consent blocked repair_decided repair_files
    note_repair register group_findings add_finding key_of repair_file read_file plan_file_repair
    plan_repair run_repair judge changes_of commit write_repair written_result replace_file
    fill_temp create_temp write_inode chmod_inode rename_file remove_temp eq_string
run_recording = refl

all_repaired : exit_status (finding ∷ []) ended ≡ 0
unfolding exit_status
all_repaired = refl

run_fix-IsSound_example :
    AllFiles (IsSound toy disk_after) (finding ∷ [])
    × ((path : String) → Records none disk path → Records (dump disk_after) disk_after path)
run_fix-IsSound_example =
    run_fix-IsSound toy linkless recording calls Records tracking false (finding ∷ []) disk none
      ended disk-IsSmall ((the_file, disk_has_file), tt) run_recording all_repaired
