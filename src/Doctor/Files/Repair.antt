-- ===== src/Doctor/Files/Repair.antt =====
-- internal/doctor/doctor.go: `repairFileHardlinkSafe` on a regular file.
use machokeeper.Base.{
  ℕ, ◌^◌, ◌<◌, ◌≡◌, ◌≢◌, refl, ap, ◌∙◌, String, true, false, Option, none, some, List, arith,
  length, inl, inr, Bool-cases, Returns, Returns-bind,
}
use machokeeper.Engine.Defs.{Hashes}
use machokeeper.Engine.Verify.Check.{IsFileValid}
use machokeeper.Doctor.Plan.{VerifiedRepair, Plan, verified, rejected, unreadable, plan_file_repair}
use machokeeper.Doctor.Plan.Safe.{IsSafe, IsSafePlan, plan_file_repair-IsSafe}
use machokeeper.Doctor.Undo.{restored, restore}
use machokeeper.Doctor.Disk.{Inode, regular, Disk, System, Calls, Failure, read_file}
use machokeeper.Doctor.Disk.Replace.{IsReplaced, replace_file-IsReplaced}
use machokeeper.Doctor.Files.{
  RepairResult, repaired, not_planned, not_written, write_repair, written_result, commit,
  repair_file,
}

-- `path` names a regular file with this content.
pub record IsFile (d : Disk) (path : String) (node : Inode) : Type 0 where
  pub inode : ℕ
  pub named : d.names path ≡ some (regular inode)
  pub used : inode < d.next
  pub content : d.inodes inode ≡ node

pub read_file-IsFile :
    (sys : System) (calls : Calls) (d : Disk) (path : String) (node : Inode)
    → IsFile d path node
    → calls.read_fails ≡ false
    → read_file sys calls d path ≡ some node.bytes
unfolding read_file
read_file-IsFile sys calls d path node f ok =
    rw (ok, sys.follow-regular d path f.inode f.named, f.content) refl

-- What a repair of the file leaves under its name: the entry of before, or a valid file that the
-- changes undo.
abbrev pub Leaves : Hashes → String → Disk → Inode → Disk → RepairResult → Type 0
Leaves hashes path d node d' (repaired changes) =
    (bytes : List ℕ) × IsFile d' path (record { bytes = bytes; mode = node.mode })
    × IsFileValid hashes bytes
    × (restore changes bytes ≡ some (restored node.bytes false))
Leaves hashes path d node d' (not_planned e) = d'.names path ≡ d.names path
Leaves hashes path d node d' (not_written e) = d'.names path ≡ d.names path

module _ (hashes : Hashes) (sys : System) (calls : Calls) (path : String) (d : Disk) (node : Inode)
    (f : IsFile d path node) (small : length node.bytes < 2 ^ 62) where
  -- What a repair of the file leaves on the disk.
  pub record IsRepairedFile (r : Disk × RepairResult) : Type 0 where
    pub kept_inodes : (i : ℕ) → i < d.next → (r.0).inodes i ≡ d.inodes i
    pub kept_names : (q : String) → q ≢ path → q ≢ calls.temp → (r.0).names q ≡ d.names q
    pub leaves : Leaves hashes path d node r.0 r.1

  replaced :
      (v : VerifiedRepair) (d' : Disk) (failed : Option Failure)
      → IsSafe hashes node.bytes path v
      → IsReplaced calls path v.bytes f.inode d d' failed
      → IsRepairedFile (d', written_result v.changes failed)
  unfolding written_result
  replaced v d' (some e) safe r = record {
    kept_inodes = r.kept_inodes;
    kept_names = r.kept_names;
    leaves = r.unchanged (λ p. ground arith);
  }
  replaced v d' none safe r = record {
    kept_inodes = r.kept_inodes;
    kept_names = r.kept_names;
    leaves = (
      v.bytes,
      record {
        inode = d.next;
        named = r.fresh refl;
        used = r.used refl;
        content =
            r.content refl
            ∙ ap (λ (n : Inode). record { bytes = v.bytes; mode = n.mode }) f.content;
      },
      safe.valid,
      safe.undone,
    );
  }

  commit-IsRepairedFile :
      (plan : Plan)
      → IsSafePlan hashes node.bytes path plan
      → IsRepairedFile (commit sys calls plan d)
  unfolding commit write_repair
  commit-IsRepairedFile (rejected e) safe = record {
    kept_inodes = λ i h. refl;
    kept_names = λ q h k. refl;
    leaves = refl;
  }
  commit-IsRepairedFile (verified v) safe = rw safe.same_path (
      replaced v _ _ safe (replace_file-IsReplaced sys calls path v.bytes f.inode d f.named f.used))

  unread : calls.read_fails ≡ true → read_file sys calls d path ≡ none
  unfolding read_file
  unread e = ground arith

  -- Whatever call fails, on a regular file of less than 2^62 bytes `repairFileHardlinkSafe` returns,
  -- with no panic. No inode that was there is written to, and no name but the file's and the
  -- temporary file's changes. If it returns an error, the file's name still leads to the same inode;
  -- else the file has its mode and bytes with only valid signatures, from which the returned changes
  -- restore the bytes before.
  pub repair_file-IsRepairedFile : Returns IsRepairedFile (repair_file hashes sys calls path d)
  unfolding repair_file
  repair_file-IsRepairedFile = elim (Bool-cases calls.read_fails) [
    | inl fails ↦
        rw (repair_file, unread fails)
          (unfold plan_file_repair in (_, refl, commit-IsRepairedFile (rejected unreadable) tt))
    | inr ok ↦
        rw (repair_file, read_file-IsFile sys calls d path node f ok)
          (Returns-bind (IsSafePlan hashes node.bytes path) IsRepairedFile _ _
            (plan_file_repair-IsSafe hashes node.bytes path small)
            λ plan safe. (_, refl, commit-IsRepairedFile plan safe))
  ]
