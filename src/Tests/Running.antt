-- ===== src/Tests/Running.antt =====
-- `Run` as a command at the small disk: under the lock, with the journal's file, and undone.
use machokeeper.Base.{
  ℕ, suc, ◌-◌, ◌≡◌, refl, String, Bool, true, false, Option, none, some, List, [], ◌∷◌, arith,
  eq_string, eq_string_iff, if◌then◌else◌, Returns, At, At-cons, At-nil, inl, inr,
}
use machokeeper.Doctor.Scan.{Finding}
use machokeeper.Doctor.Plan.{plan_file_repair, plan_repair, judge, changes_of}
use machokeeper.Doctor.Disk.{
  Inode, Disk, read_file, replace_file, fill_temp, create_temp, write_inode, chmod_inode,
  rename_file, remove_temp,
}
use machokeeper.Doctor.Files.{JournalEntry, repair_file, commit, write_repair, written_result, undo}
use machokeeper.Doctor.Files.Repair.{IsFile}
use machokeeper.Doctor.JournalFile.{
  JournalCalls, join_text, journal_name, make_dir, make_dirs, make_path, remove_probe, probe_dir,
  probed, made, journal_file,
}
use machokeeper.Doctor.Run.{
  RunState, run_fix, run_repairs, repair_group, decide, consent, blocked, repair_decided,
  repair_files, note_repair, register, group_findings, add_finding, key_of,
}
use machokeeper.Doctor.Run.UndoesAll.{IsSteady}
use machokeeper.Doctor.Lock.{LockCalls}
use machokeeper.Doctor.Pool.{ScanConfig}
use machokeeper.Doctor.Command.{Surroundings, Outcome, start_state, fix_found, doctor_run}
use machokeeper.Doctor.Command.Quiet.{doctor_run-unfixed}
use machokeeper.Doctor.Command.Undoes.{undo-fix_found}
use machokeeper.Tests.Fixtures.{toy, sound}
use machokeeper.Tests.Engine.{run_repair}
use machokeeper.Tests.Doctor.{
  linkless, smooth, the_file, disk, both_slots, disk_has_file, disk-IsSmall, small_store, finding,
  calls,
}

-- The number of locks held.
abbrev locks : LockCalls ℕ
locks = record {
  open_file = λ path l. (l, true);
  lock_shared = λ l. (suc l, true);
  unlock = λ l. l - 1;
  close = λ l. l;
}

abbrev journal_calls : JournalCalls
journal_calls = record {
  mkdir_fails = false;
  probe_fails = false;
  remove_fails = false;
  open_fails = false;
  write_fails = false;
  written = 0;
  probe = "probe";
}

abbrev entries : List JournalEntry
entries = record { file = "f"; changes = both_slots } ∷ []

-- Any text may stand for the one journal.
abbrev pub around : Surroundings ℕ
around = record {
  calls = calls;
  lock_calls = locks;
  lock_path = "gc.lock";
  journal_calls = journal_calls;
  parents = [];
  journal_dir = "j";
  seconds = "0";
  encode = λ journal. some (b'[' ∷ b']' ∷ []);
}

abbrev pub journal_path : String
journal_path = "j/machokeeper-undo-0.json"

abbrev pub probed_disk : Disk
probed_disk = (journal_file journal_calls [] "j" "0" disk).1

pub at_path : journal_file journal_calls [] "j" "0" disk ≡ (journal_path, probed_disk)
unfolding journal_file journal_name join_text made probed probe_dir remove_probe make_path make_dirs
    make_dir create_temp eq_string
at_path = refl

abbrev pub repaired_state : RunState ℕ
repaired_state = record {
  disk = (replace_file linkless (smooth "t") "f" sound probed_disk).0;
  db = 1;
  journal = entries;
  fixed = 1;
}

pub repairs :
    run_fix toy linkless small_store calls false (finding ∷ []) probed_disk 0 ≡ some repaired_state
unfolding run_fix run_repairs repair_group decide consent blocked repair_decided repair_files
    note_repair register group_findings add_finding key_of repair_file read_file plan_file_repair
    plan_repair run_repair judge changes_of commit write_repair written_result replace_file
    fill_temp create_temp write_inode chmod_inode rename_file remove_temp eq_string journal_file
    journal_name join_text made probed probe_dir remove_probe make_path make_dirs make_dir
repairs = refl

pub is_new :
    (repaired_state.disk.names journal_path ≡ none) × (repaired_state.disk.names "u" ≡ none)
unfolding replace_file fill_temp create_temp write_inode chmod_inode rename_file remove_temp
    eq_string journal_file journal_name join_text made probed probe_dir remove_probe make_path
    make_dirs make_dir
is_new = (refl, refl)

other_path : eq_string "u" journal_path ≡ false
unfolding eq_string
other_path = refl

steady : IsSteady "u" (λ path d. smooth "u")
steady = record {
  smooth = λ path d free. record {
    no_lstat_failure = refl;
    no_read_failure = refl;
    no_stat_failure = refl;
    no_create_failure = refl;
    no_write_failure = refl;
    no_close_failure = refl;
    no_chmod_failure = refl;
    no_rename_failure = refl;
    new_temp = free;
  };
  removes = λ path d. refl;
  temp_is = λ path d. refl;
}

undo-fix_found_example :
    Returns
      (λ (r : Outcome ℕ ℕ).
        Returns
          (λ (u : Disk × Bool).
            (u.1 ≡ false)
            × ((file : String) (node : Inode) → IsFile disk file node → IsFile u.0 file node))
          (undo linkless
            (λ path d. smooth "u")
            (λ raw. some entries)
            (journal_path ∷ [])
            r.0.0.disk))
      (fix_found toy linkless small_store around false (finding ∷ []) disk 0 0)
undo-fix_found_example =
    undo-fix_found toy linkless small_store around (λ path d. smooth "u") "u" (λ raw. some entries)
      false (finding ∷ []) disk probed_disk 0 0 journal_path repaired_state (b'[' ∷ b']' ∷ [])
      disk-IsSmall ((the_file, disk_has_file), tt) at_path repairs (omega arith) refl refl
      (omega arith) refl refl is_new.0 is_new.1
      (λ p. absurd (ground (arith, other_path, (eq_string_iff "u" journal_path).1 p))) steady

-- A walk that finds the one file.
abbrev pub finds : ScanConfig → Disk → String → Option (List Finding)
finds cfg d path = if eq_string path "f" then some (finding ∷ []) else none

not_among : (flag : String) → eq_string flag "f" ≡ false → ¬ At flag ("f" ∷ [])
not_among flag e a = elim (At-cons flag "f" [] a) [
  | inl p ↦ absurd (ground (arith, (eq_string_iff flag "f").1 p))
  | inr b ↦ absurd (At-nil flag b)
]

not_fix : eq_string "--fix" "f" ≡ false
unfolding eq_string
not_fix = refl

not_fix_live : eq_string "--fix-live" "f" ≡ false
unfolding eq_string
not_fix_live = refl

doctor_run-unfixed_example :
    Returns
      (λ (r : Outcome ℕ ℕ). r.0 ≡ (start_state disk 0, 0))
      (doctor_run toy linkless small_store around (λ fs. fs) finds ("f" ∷ []) disk 0 0)
doctor_run-unfixed_example =
    doctor_run-unfixed toy linkless small_store around finds (λ fs. fs) ("f" ∷ []) disk 0 0
      (not_among "--fix" not_fix) (not_among "--fix-live" not_fix_live)
