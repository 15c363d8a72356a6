-- ===== src/Doctor/Run/Account.antt =====
-- internal/doctor/doctor.go: the journal of `Run`, and the files on the disk.
use machokeeper.Base.{
  ℕ, ◌^◌, ◌<◌, ◌≡◌, ◌≢◌, ◌⊎◌, refl, String, Bool, false, some, List, arith, inl, inr, length,
  Bool-cases, Returns, Returns-both, eq_string, eq_string_iff,
}
use mathlib.Core.Path.{subst}
use mathlib.Core.List.{Mem, mem-append_left, mem-append_right, mem-cons_self}
use machokeeper.Engine.Defs.{Hashes}
use machokeeper.Engine.Verify.Check.{IsFileValid}
use machokeeper.Doctor.Scan.{Finding}
use machokeeper.Doctor.Undo.{restored, restore}
use machokeeper.Doctor.Disk.{Inode, Disk, System, Calls}
use machokeeper.Doctor.Disk.Keeps.{IsSmall, Keeps}
use machokeeper.Doctor.Files.{
  RepairResult, repaired, not_planned, not_written, repair_file, JournalEntry,
}
use machokeeper.Doctor.Files.Repair.{IsFile, Leaves, IsRepairedFile, repair_file-IsRepairedFile}
use machokeeper.Doctor.Files.Others.{
  IsFile-Keeps, same_entry, repair_file-Keeps, repair_file-IsFileValid,
}
use machokeeper.Doctor.Run.Rule.{AllFiles-every, note_repair-IsUntouched, run_fix-P}
use machokeeper.Doctor.Run.{Store, RunState, note_repair, run_fix}

module _ {S : Type 0} (hashes : Hashes) (path : String) (node : Inode) where
  -- The journal has an entry for the file, the file is valid, and the entry undoes it.
  pub record IsRecorded (st : RunState S) : Type 0 where
    pub entry : JournalEntry
    pub listed : Mem entry st.journal
    pub names_it : entry.file ≡ path
    pub bytes : List ℕ
    pub there : IsFile st.disk path (record { bytes = bytes; mode = node.mode })
    pub valid : IsFileValid hashes bytes
    pub undoes : restore entry.changes bytes ≡ some (restored node.bytes false)

  -- The file is as before, or recorded.
  abbrev pub IsAccounted : RunState S → Type 0
  IsAccounted st = IsFile st.disk path node ⊎ IsRecorded st

  -- The invariant of the run.
  pub record Inv (st : RunState S) : Type 0 where
    pub small : IsSmall st.disk
    pub accounted : IsAccounted st

  -- A recorded file stays so when the journal grows and the file is kept.
  record_kept :
      (st st' : RunState S)
      → ((e : JournalEntry) → Mem e st.journal → Mem e st'.journal)
      → ((n : Inode) → IsFile st.disk path n → IsFile st'.disk path n)
      → IsAccounted st
      → IsAccounted st'
  record_kept st st' more kept (inl f) = inl (kept node f)
  record_kept st st' more kept (inr r) = inr (record {
    entry = r.entry;
    listed = more r.entry r.listed;
    names_it = r.names_it;
    bytes = r.bytes;
    there = kept _ r.there;
    valid = r.valid;
    undoes = r.undoes;
  })

  journal_grows :
      (file : String) (result : RepairResult) (d : Disk) (st : RunState S) (e : JournalEntry)
      → Mem e st.journal
      → Mem e (note_repair file result d st).0.journal
  unfolding note_repair
  journal_grows file (repaired changes) d st e m = mem-append_left _ m
  journal_grows file (not_planned x) d st e m = m
  journal_grows file (not_written x) d st e m = m

  note_repair-disk :
      (file : String) (result : RepairResult) (d : Disk) (st : RunState S)
      → (note_repair file result d st).0.disk ≡ d
  unfolding note_repair
  note_repair-disk file (repaired changes) d st = refl
  note_repair-disk file (not_planned x) d st = refl
  note_repair-disk file (not_written x) d st = refl

  -- The first repair of the file itself.
  note-Leaves :
      (result : RepairResult) (d : Disk) (st : RunState S)
      → IsFile st.disk path node
      → Keeps path st.disk d
      → Leaves hashes path st.disk node d result
      → IsAccounted (note_repair path result d st).0
  unfolding note_repair
  note-Leaves (repaired changes) d st f k (bytes, there, valid, undoes) = inr (record {
    entry = record { file = path; changes = changes };
    listed = mem-append_right st.journal mem-cons_self;
    names_it = refl;
    bytes = bytes;
    there = there;
    valid = valid;
    undoes = undoes;
  })
  note-Leaves (not_planned x) d st f k e = inl (same_entry path node st.disk d f e k)
  note-Leaves (not_written x) d st f k e = inl (same_entry path node st.disk d f e k)

  -- The database and the count do not matter.
  Inv-same :
      (st st' : RunState S) → st'.disk ≡ st.disk → st'.journal ≡ st.journal → Inv st → Inv st'
  Inv-same st st' d j v = record {
    small = rw d v.small;
    accounted = record_kept st st' (λ e m. rw j m) (λ n f. rw d f) v.accounted;
  }

  module _ (sys : System) (store : Store S) (calls : String → Disk → Calls) where
    abbrev Noted : String → RunState S → Disk × RepairResult → Type 0
    Noted file st r = Inv (note_repair file r.1 r.0 st).0

    -- The repair of another file,
    other_repair :
        (file : String) (st : RunState S)
        → path ≢ file
        → Inv st
        → Returns (Noted file st) (repair_file hashes sys (calls file st.disk) file st.disk)
    other_repair file st n v =
        let (r, e, k) = repair_file-Keeps hashes sys (calls file st.disk) file st.disk v.small in
        (
          r,
          e,
          record {
            small = rw (note_repair-disk file r.1 r.0 st) k.small;
            accounted =
                record_kept st _ (journal_grows file r.1 r.0 st)
                  (λ m f.
                    rw (note_repair-disk file r.1 r.0 st)
                      (IsFile-Keeps path file st.disk r.0 m n k f))
                  v.accounted;
          },
        )

    -- and of the file itself.
    own_repair :
        (st : RunState S)
        → Inv st
        → Returns (Noted path st) (repair_file hashes sys (calls path st.disk) path st.disk)
    own_repair st v = own v.accounted
      where
        own :
            IsAccounted st
            → Returns (Noted path st) (repair_file hashes sys (calls path st.disk) path st.disk)
        own (inl f) =
            let c = calls path st.disk in
            let short : length node.bytes < 2 ^ 62 =
              subst (λ (n : Inode). length n.bytes < 2 ^ 62) f.content (v.small f.inode) in
            let (r, e, (i, k)) =
              Returns-both (IsRepairedFile hashes sys c path st.disk node f short)
                (λ (r : Disk × RepairResult). Keeps path st.disk r.0) _
                (repair_file-IsRepairedFile hashes sys c path st.disk node f short)
                (repair_file-Keeps hashes sys c path st.disk v.small) in
            (
              r,
              e,
              record {
                small = rw (note_repair-disk path r.1 r.0 st) k.small;
                accounted = note-Leaves r.1 r.0 st f k i.leaves;
              },
            )
        own (inr recorded) =
            let c = calls path st.disk in
            let (r, e, untouched) =
              repair_file-IsFileValid hashes sys c path st.disk v.small _ recorded.there
                recorded.valid in
            let (same, journal) = note_repair-IsUntouched path st r untouched in
            (r, e, Inv-same st _ same journal v)

    one_repair :
        (file : String) (st : RunState S)
        → Inv st
        → Returns (Noted file st) (repair_file hashes sys (calls file st.disk) file st.disk)
    one_repair file st v = elim (Bool-cases (eq_string path file)) [
      | inl e ↦ rw (← (eq_string_iff path file).0 e) (own_repair st v)
      | inr e ↦ other_repair file st (λ p. absurd (ground (arith, (eq_string_iff path file).1 p))) v
    ]

    -- On a disk whose files are of less than 2^62 bytes a run with `--fix` returns, with no panic,
    -- whatever the findings, the store's answers and the failing calls. Every regular file is then as
    -- before, or it has its mode and only valid signatures and the journal has an entry for it, which
    -- undoes it to the bytes before.
    pub run_fix-IsAccounted :
        (fix_live : Bool) (findings : List Finding) (d : Disk) (db : S)
        → IsSmall d
        → IsFile d path node
        → Returns IsAccounted (run_fix hashes sys store calls fix_live findings d db)
    run_fix-IsAccounted fix_live findings d db small f =
        let (st, e, v) =
          run_fix-P hashes sys store calls (λ file. Unit {0}) Inv
            (record { on_same = Inv-same; on_repair = λ file st t v. one_repair file st v })
            fix_live findings d db (AllFiles-every _ findings (λ file. tt))
            (record { small = small; accounted = inl f }) in
        (st, e, v.accounted)
