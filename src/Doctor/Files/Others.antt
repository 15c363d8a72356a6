-- ===== src/Doctor/Files/Others.antt =====
-- internal/doctor/doctor.go: `repairFileHardlinkSafe`, and the files other than its own; the repair of a
-- valid file.
use machokeeper.Base.{
  ℕ, ◌^◌, ◌<◌, ◌≡◌, ◌≢◌, refl, sym, ap, ◌∙◌, String, false, Option, none, some, List, [], arith,
  inl, inr, length, Option-cases, Returns, Returns-bind,
}
use mathlib.Core.Path.{subst}
use machokeeper.Engine.Defs.{Error, Hashes}
use machokeeper.Engine.Walk.{Walked}
use machokeeper.Engine.Verify.Check.{IsFileValid}
use machokeeper.Engine.Verify.Repair.{unrepaired, repair-IsFileValid}
use machokeeper.Doctor.Plan.{
  Plan, verified, rejected, unreadable, judge, plan_repair, plan_file_repair,
}
use machokeeper.Doctor.Plan.Safe.{IsSafePlan, plan_file_repair-IsSafe}
use machokeeper.Doctor.Disk.{Inode, Disk, System, Calls, read_file}
use machokeeper.Doctor.Disk.Keeps.{IsSmall, Keeps, replace_file-Keeps}
use machokeeper.Doctor.Files.{
  RepairResult, repaired, not_planned, not_written, write_repair, commit, repair_file,
}
use machokeeper.Doctor.Files.Repair.{IsFile}

pub IsFile-Keeps :
    (q path : String) (d d' : Disk) (node : Inode)
    → q ≢ path
    → Keeps path d d'
    → IsFile d q node
    → IsFile d' q node
IsFile-Keeps q path d d' node n k f = record {
  inode = f.inode;
  named = k.kept_entries q _ n f.named;
  used = omega (arith, k.grows, f.used);
  content = k.kept_inodes f.inode f.used ∙ f.content;
}

pub same_entry :
    (path : String) (node : Inode) (d q : Disk)
    → IsFile d path node
    → q.names path ≡ d.names path
    → Keeps path d q
    → IsFile q path node
same_entry path node d q f e k = record {
  inode = f.inode;
  named = e ∙ f.named;
  used = omega (arith, k.grows, f.used);
  content = k.kept_inodes f.inode f.used ∙ f.content;
}

pub Keeps-same : (path : String) (d : Disk) → IsSmall d → Keeps path d d
Keeps-same path d small = record {
  kept_inodes = λ i h. refl;
  kept_entries = λ q e n h. h;
  grows = omega arith;
  small = small;
}

-- The disk is the same, and the result is an error.
abbrev pub IsUntouched : Disk → Disk × RepairResult → Type 0
IsUntouched d (d', repaired changes) = ⊥
IsUntouched d (d', not_planned e) = d' ≡ d
IsUntouched d (d', not_written e) = d' ≡ d

module _ (sys : System) (calls : Calls) (path : String) (d : Disk) (small : IsSmall d) where
  -- What is read is the content of an inode.
  pub read_file-short :
      (contents : List ℕ) → read_file sys calls d path ≡ some contents → length contents < 2 ^ 62
  unfolding read_file
  read_file-short contents e = elim (Option-cases (sys.follow d path)) [
    | inl f ↦ absurd (ground arith)
    | inr (i, f) ↦ ground (arith, small i)
  ]

module _ (hashes : Hashes) (sys : System) (calls : Calls) (path : String) (d : Disk)
    (small : IsSmall d) where
  commit-Keeps :
      (contents : List ℕ) (plan : Plan)
      → length contents < 2 ^ 62
      → IsSafePlan hashes contents path plan
      → Keeps path d (commit sys calls plan d).0
  unfolding commit write_repair
  commit-Keeps contents (rejected e) short safe = Keeps-same path d small
  commit-Keeps contents (verified v) short safe =
      rw safe.same_path
        (replace_file-Keeps sys calls path v.bytes d (omega (arith, safe.same_length)) small)

  pub repair_file-Keeps :
      Returns (λ (r : Disk × RepairResult). Keeps path d r.0) (repair_file hashes sys calls path d)
  unfolding repair_file
  repair_file-Keeps = elim (Option-cases (read_file sys calls d path)) [
    | inl e ↦
        rw (repair_file, e)
          (unfold plan_file_repair in
            (_, refl, commit-Keeps [] (rejected unreadable) (omega arith) tt))
    | inr (contents, e) ↦
        rw (repair_file, e)
          (Returns-bind (IsSafePlan hashes contents path)
            (λ (r : Disk × RepairResult). Keeps path d r.0) _ _
            (plan_file_repair-IsSafe hashes contents path
              (read_file-short sys calls path d small contents e))
            λ plan safe. (
              _,
              refl,
              commit-Keeps contents plan (read_file-short sys calls path d small contents e) safe,
            ))
  ]

  read_is :
      (node : Inode)
      → IsFile d path node
      → (contents : List ℕ) → read_file sys calls d path ≡ some contents
      → contents ≡ node.bytes
  unfolding read_file
  read_is node f contents e = ground (arith, sys.follow-regular d path f.inode f.named, f.content)

  -- A repair that is planned for a valid file.
  abbrev pub IsRefused : Plan → Type 0
  IsRefused (verified v) = ⊥
  IsRefused (rejected e) = Unit

  judge-IsRefused :
      (w : Walked) (failed : Option Error)
      → w.modified ≡ false
      → Returns IsRefused (judge hashes path w failed)
  unfolding judge
  judge-IsRefused w (some e) m = (_, refl, tt)
  judge-IsRefused w none m = rw m (_, refl, tt)

  commit-IsRefused : (plan : Plan) → IsRefused plan → IsUntouched d (commit sys calls plan d)
  unfolding commit
  commit-IsRefused (rejected e) r = refl
  commit-IsRefused (verified v) r = absurd r

  plan_repair-IsRefused :
      (contents : List ℕ)
      → length contents < 2 ^ 62
      → IsFileValid hashes contents
      → Returns IsRefused (plan_repair hashes contents path)
  unfolding plan_repair
  plan_repair-IsRefused contents short valid =
      Returns-bind (λ (r : Walked × Option Error). r.0 ≡ unrepaired contents) IsRefused _ _
        (repair-IsFileValid hashes contents path short valid)
        λ (w, failed) e. judge-IsRefused w failed (ap (λ (v : Walked). v.modified) e)

  -- The repair of a valid file leaves the disk, and is an error.
  pub repair_file-IsFileValid :
      (node : Inode)
      → IsFile d path node
      → IsFileValid hashes node.bytes
      → Returns (IsUntouched d) (repair_file hashes sys calls path d)
  unfolding repair_file plan_file_repair commit
  repair_file-IsFileValid node f valid = elim (Option-cases (read_file sys calls d path)) [
    | inl e ↦ rw (repair_file, e) (_, refl, refl)
    | inr (contents, e) ↦
        rw (repair_file, e)
          (Returns-bind IsRefused (IsUntouched d) _ _
            (plan_repair-IsRefused contents (read_file-short sys calls path d small contents e)
              (subst (IsFileValid hashes) (sym (read_is node f contents e)) valid))
            λ plan r. (_, refl, commit-IsRefused plan r))
  ]
