-- ===== src/Doctor/Run/Journaled.antt =====
-- internal/doctor/doctor.go: the journal of `Run` as a whole.
use machokeeper.Base.{
  ◌^◌, ◌<◌, ◌≡◌, sym, ◌∙◌, String, Bool, true, false, List, arith, inl, inr, length, Bool-cases,
  Returns, Returns-both, eq_string, eq_string_iff,
}
use mathlib.Core.Path.{subst}
use machokeeper.Engine.Defs.{Hashes}
use machokeeper.Doctor.Scan.{Finding}
use machokeeper.Doctor.Disk.{Inode, Disk, System, Calls}
use machokeeper.Doctor.Disk.Keeps.{IsSmall, Keeps}
use machokeeper.Doctor.Files.{RepairResult, repaired, not_planned, not_written, repair_file}
use machokeeper.Doctor.Files.Repair.{IsFile, Leaves, IsRepairedFile, repair_file-IsRepairedFile}
use machokeeper.Doctor.Files.Others.{
  IsFile-Keeps, same_entry, repair_file-Keeps, repair_file-IsFileValid,
}
use machokeeper.Doctor.Run.{Store, RunState, note_repair, run_fix}
use machokeeper.Doctor.Run.Entries.{
  named, IsDistinct, AllEntries, named-append, IsDistinct-append, AllEntries-append,
  AllEntries-named, AllEntries-Keeps,
}
use machokeeper.Doctor.Run.Rule.{AllFiles, note_repair-IsUntouched, run_fix-P}

module _ (hashes : Hashes) (before : Disk) where
  -- The invariant of a run that started on the disk `before`: what the journal names it describes,
  -- and what it does not name is untouched.
  pub record IsJournaled {S : Type 0} (st : RunState S) : Type 0 where
    pub small : IsSmall st.disk
    pub entries : AllEntries hashes before st.disk st.journal
    pub distinct : IsDistinct st.journal
    pub untouched :
        (path : String) (node : Inode)
        → IsFile before path node
        → named st.journal path ≡ false
        → IsFile st.disk path node

  module _ {S : Type 0} (sys : System) (calls : String → Disk → Calls) where
    IsJournaled-same :
        (st st' : RunState S)
        → st'.disk ≡ st.disk
        → st'.journal ≡ st.journal
        → IsJournaled st
        → IsJournaled st'
    IsJournaled-same st st' d j v = record {
      small = rw d v.small;
      entries = rw (d, j) v.entries;
      distinct = rw j v.distinct;
      untouched = λ q n f m. rw d (v.untouched q n f (rw j at m));
    }

    module _ (file : String) (node : Inode) (was : IsFile before file node) (st : RunState S)
        (v : IsJournaled st) (new : named st.journal file ≡ false) (d : Disk)
        (k : Keeps file st.disk d) where
      other_untouched :
          (q : String) (n : Inode)
          → IsFile before q n
          → named st.journal q ≡ false
          → eq_string file q ≡ false
          → IsFile d q n
      other_untouched q n f m p =
          IsFile-Keeps q file st.disk d n
            (λ s. absurd (ground (arith, (eq_string_iff file q).1 (sym s)))) k (v.untouched q n f m)

      failed : d.names file ≡ st.disk.names file → IsJournaled (record st { disk = d })
      failed e = record {
        small = k.small;
        entries = AllEntries-Keeps hashes before file st.disk d st.journal new k v.entries;
        distinct = v.distinct;
        untouched = λ q n f m. elim (Bool-cases (eq_string file q)) [
          | inl p ↦
              let s : file ≡ q = (eq_string_iff file q).0 p in
              same_entry q n st.disk d (v.untouched q n f m)
                (subst (λ (r : String). d.names r ≡ st.disk.names r) s e)
                (subst (λ (r : String). Keeps r st.disk d) s k)
          | inr p ↦ other_untouched q n f m p
        ];
      }

      noted :
          (result : RepairResult)
          → Leaves hashes file st.disk node d result
          → IsJournaled (note_repair file result d st).0
      unfolding note_repair
      noted (not_planned e) same = failed same
      noted (not_written e) same = failed same
      noted (repaired changes) (bytes, there, valid, undoes) = record {
        small = k.small;
        entries =
            AllEntries-append hashes before d st.journal (record { file = file; changes = changes })
              (AllEntries-Keeps hashes before file st.disk d st.journal new k v.entries)
              (record {
                node = node;
                was = was;
                bytes = bytes;
                there = there;
                valid = valid;
                undoes = undoes;
              });
        distinct =
            IsDistinct-append st.journal (record { file = file; changes = changes }) new v.distinct;
        untouched = λ q n f m.
            let split =
              sym (named-append st.journal (record { file = file; changes = changes }) q) ∙ m in
            other_untouched q n f (ground arith) (ground arith);
      }

    repair_new :
        (file : String) (node : Inode) (st : RunState S)
        → IsFile before file node
        → IsJournaled st
        → named st.journal file ≡ false
        → Returns
            (λ (r : Disk × RepairResult). IsJournaled (note_repair file r.1 r.0 st).0)
            (repair_file hashes sys (calls file st.disk) file st.disk)
    repair_new file node st was v new =
        let c = calls file st.disk in
        let f = v.untouched file node was new in
        let short : length node.bytes < 2 ^ 62 =
          subst (λ (n : Inode). length n.bytes < 2 ^ 62) f.content (v.small f.inode) in
        let (r, e, (i, k)) =
          Returns-both (IsRepairedFile hashes sys c file st.disk node f short)
            (λ (r : Disk × RepairResult). Keeps file st.disk r.0) _
            (repair_file-IsRepairedFile hashes sys c file st.disk node f short)
            (repair_file-Keeps hashes sys c file st.disk v.small) in
        (r, e, noted file node was st v new r.0 k r.1 i.leaves)

    -- A file that the journal names is valid, and is not repaired again.
    repair_named :
        (file : String) (st : RunState S)
        → IsJournaled st
        → named st.journal file ≡ true
        → Returns
            (λ (r : Disk × RepairResult). IsJournaled (note_repair file r.1 r.0 st).0)
            (repair_file hashes sys (calls file st.disk) file st.disk)
    repair_named file st v old =
        let (e, names_it, h) =
          AllEntries-named hashes before st.disk st.journal file old v.entries in
        let (r, returns, u) =
          repair_file-IsFileValid hashes sys (calls file st.disk) file st.disk v.small _
            (subst
              (λ (q : String). IsFile st.disk q (record { bytes = h.bytes; mode = h.node.mode }))
              names_it h.there)
            h.valid in
        let (same, journal) = note_repair-IsUntouched file st r u in
        (r, returns, IsJournaled-same st _ same journal v)

  -- A run on findings in regular files.
  pub run_fix-IsJournaled :
      {S : Type 0}
      → (sys : System) (store : Store S) (calls : String → Disk → Calls) (fix_live : Bool)
        (findings : List Finding) (db : S)
      → IsSmall before
      → AllFiles (λ file. (node : Inode) × IsFile before file node) findings
      → Returns IsJournaled (run_fix hashes sys store calls fix_live findings before db)
  run_fix-IsJournaled sys store calls fix_live findings db small regular_files =
      run_fix-P hashes sys store calls _ IsJournaled
        (record {
          on_same = IsJournaled-same sys calls;
          on_repair = λ file st (node, was) v. elim (Bool-cases (named st.journal file)) [
            | inl old ↦ repair_named sys calls file st v old
            | inr new ↦ repair_new sys calls file node st was v new
          ];
        })
        fix_live findings before db regular_files
        (record { small = small; entries = tt; distinct = tt; untouched = λ path node f n. f })
