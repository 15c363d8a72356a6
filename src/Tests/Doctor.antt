-- ===== src/Tests/Doctor.antt =====
-- Runs of internal/doctor/doctor.go on a disk with one file.
use machokeeper.Base.{
  ℕ, ◌≡◌, ◌^◌, refl, ap, String, true, false, Option, none, some, List, [], ◌∷◌, arith, pos,
  if◌then◌else◌, inl, eq_string, take, drop,
}
use machokeeper.Engine.Defs.{Change}
use machokeeper.Doctor.Plan.{plan_file_repair, plan_repair, judge, changes_of}
use machokeeper.Doctor.Scan.{Opened, Bounds}
use machokeeper.Doctor.Scan.Finds.{IsPresented}
use machokeeper.Doctor.Disk.{
  Inode, Entry, regular, Disk, System, Calls, read_file, create_temp, write_inode, chmod_inode,
  rename_file, remove_temp, fill_temp, replace_file,
}
use machokeeper.Doctor.Files.{repaired, commit, write_repair, written_result, repair_file}
use machokeeper.Doctor.Files.Repair.{IsFile}
use machokeeper.Doctor.Files.Undo.{IsSmooth}
use machokeeper.Tests.Engine.{run_repair}
use machokeeper.Base.{◌+◌, length}
use machokeeper.Engine.Defs.{ad_hoc}
use machokeeper.Doctor.Disk.Keeps.{IsSmall}
use machokeeper.Doctor.Scan.{Finding}
use machokeeper.Doctor.Run.{
  Group, Store, RunState, run_fix, run_repairs, repair_group, decide, consent, blocked,
  repair_decided, repair_files, note_repair, register, group_findings, add_finding, key_of,
}
use machokeeper.Doctor.Run.Consent.{IsConsented}
use machokeeper.Tests.Fixtures.{toy, broken, sound, sum, replicate, thin_header}

-- A system that follows no link.
abbrev pub target : Option Entry → Option ℕ
target (some (regular i)) = some i
target _ = none

abbrev pub linkless : System
linkless = record {
  follow = λ d path. target (d.names path);
  follow-regular = λ d path i e. ap target e;
}

abbrev pub smooth : String → Calls
smooth temp = record {
  lstat_fails = false;
  read_fails = false;
  stat_fails = false;
  create_fails = false;
  write_fails = false;
  written = 0;
  close_fails = false;
  chmod_fails = false;
  rename_fails = false;
  remove_fails = false;
  temp = temp;
}

abbrev pub the_file : Inode
the_file = record { bytes = broken; mode = 0 }

abbrev pub disk : Disk
disk = record {
  names = λ path. if eq_string path "f" then some (regular 0) else none;
  inodes = λ i. the_file;
  next = 1;
}

abbrev pub disk_after : Disk
disk_after = (replace_file linkless (smooth "t") "f" sound disk).0

-- The two slots of `broken`.
abbrev pub both_slots : List Change
both_slots =
    record {
      offset = pos 112;
      old = replicate 20 0;
      new = replicate 20 (sum (take 32 (thin_header 104)));
    }
    ∷ record {
      offset = pos 132;
      old = replicate 20 0;
      new = replicate 20 (sum (drop 32 (thin_header 104)));
    }
    ∷ []

pub run_repair_file :
    repair_file toy linkless (smooth "t") "f" disk ≡ some (disk_after, repaired both_slots)
unfolding repair_file read_file plan_file_repair plan_repair run_repair judge changes_of commit
    write_repair written_result replace_file fill_temp create_temp write_inode chmod_inode
    rename_file remove_temp eq_string
run_repair_file = refl

pub disk_has_file : IsFile disk "f" the_file
unfolding eq_string
disk_has_file = record { inode = 0; named = refl; used = omega arith; content = refl }

pub undo-IsSmooth : IsSmooth (smooth "u") disk_after
unfolding replace_file fill_temp create_temp write_inode chmod_inode rename_file remove_temp
    eq_string
undo-IsSmooth = record {
  no_lstat_failure = refl;
  no_read_failure = refl;
  no_stat_failure = refl;
  no_create_failure = refl;
  no_write_failure = refl;
  no_close_failure = refl;
  no_chmod_failure = refl;
  no_rename_failure = refl;
  new_temp = refl;
}

-- A scan of `broken`, mapped into memory.
abbrev pub opened : Opened
opened = record {
  opens = true;
  peek = some (take 4 broken);
  size = some 152;
  mapped = some broken;
  read = none;
}

abbrev pub bounds : Bounds
bounds = record {
  max_file_size = 2 ^ 32;
  max_in_memory_size = 2 ^ 29;
  oversized_class = λ size. "unverifiable";
}

pub broken-IsPresented : IsPresented bounds opened broken
broken-IsPresented = record {
  opens = refl;
  peek = refl;
  size = refl;
  in_bounds = omega arith;
  loads = inl refl;
}

-- A store with one path, which nothing uses. The database counts the reconciliations.
abbrev pub small_store : Store ℕ
small_store = record {
  store_path_of = λ path. some "p";
  is_content_addressed = λ db d path. some false;
  blockers = λ db d path. some [];
  reconcile_hash = λ path d db. (db + 1, false);
}

-- The same store, with a user of the path.
abbrev pub used_store : Store ℕ
used_store = record small_store { blockers = λ db d path. some ("root" ∷ []) }

abbrev pub finding : Finding
finding = record { file = "f"; kind = ad_hoc; class = "ad-hoc"; repairable = true }

abbrev pub state : RunState ℕ
state = record { disk = disk; db = 0; journal = []; fixed = 0 }

abbrev pub group : Group
group = record { store_path = some "p"; files = finding ∷ [] }

abbrev summary : Option (RunState ℕ) → Option (ℕ × ℕ × ℕ)
summary none = none
summary (some st) = some (length st.journal, st.db, st.fixed)

-- The calls for a file: the temporary file's name is new on this disk.
abbrev pub calls : String → Disk → Calls
calls file d = smooth "t"

abbrev pub state_after : RunState ℕ
state_after = record {
  disk = disk_after;
  db = 1;
  journal = record { file = "f"; changes = both_slots } ∷ [];
  fixed = 1;
}

pub run_finding :
    run_fix toy linkless small_store calls false (finding ∷ []) disk 0 ≡ some state_after
unfolding run_fix run_repairs repair_group decide consent blocked repair_decided repair_files
    note_repair register group_findings add_finding key_of repair_file read_file plan_file_repair
    plan_repair run_repair judge changes_of commit write_repair written_result replace_file
    fill_temp create_temp write_inode chmod_inode rename_file remove_temp eq_string
run_finding = refl

-- A file that is found twice, as by two paths that overlap, is repaired, but not reconciled.
run_twice :
    summary (run_fix toy linkless small_store calls false (finding ∷ finding ∷ []) disk 0)
    ≡ some (1, 0, 0)
unfolding run_fix run_repairs repair_group decide consent blocked repair_decided repair_files
    note_repair register group_findings add_finding key_of repair_file read_file plan_file_repair
    plan_repair run_repair judge changes_of commit write_repair written_result replace_file
    fill_temp create_temp write_inode chmod_inode rename_file remove_temp eq_string
run_twice = refl

pub used-IsConsented : ¬ IsConsented toy linkless used_store calls false group "p" refl state
used-IsConsented = λ (c, u). absurd (ground arith)

pub disk-IsSmall : IsSmall disk
disk-IsSmall i = omega arith
