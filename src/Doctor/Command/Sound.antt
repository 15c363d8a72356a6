-- ===== src/Doctor/Command/Sound.antt =====
-- internal/doctor/doctor.go: the exit code 0 of `Run`, as a command.
use machokeeper.Base.{
  ◌≡◌, refl, ◌∙◌, String, Bool, not, ◌&&◌, Option, none, some, List, [], ◌∷◌, arith, Returns,
  Returns-if,
}
use mathlib.Core.List.{Permᴰ}
use mathlib.Core.List.Permᴰ
use machokeeper.Engine.Defs.{Hashes}
use machokeeper.Doctor.Scan.{Finding}
use machokeeper.Doctor.Disk.{Inode, Disk, System}
use machokeeper.Doctor.Disk.Keeps.{IsSmall}
use machokeeper.Doctor.Files.Repair.{IsFile}
use machokeeper.Doctor.JournalFile.{journal_file}
use machokeeper.Doctor.JournalFile.Writes.{Preserves, journal_file-Preserves, write_journal-kept}
use machokeeper.Doctor.Pool.{ScanConfig}
use machokeeper.Doctor.Flags.{parse_scan_flags}
use machokeeper.Doctor.Run.{Store, RunState, run_fix}
use machokeeper.Doctor.Run.Rule.{AllFiles, AllFiles-map}
use machokeeper.Doctor.Run.Journaled.{run_fix-IsJournaled}
use machokeeper.Doctor.Run.Tracked.{IsTracking}
use machokeeper.Doctor.Run.Repaired.{IsSound, IsSound-IsJournaled, run_fix-IsSound}
use machokeeper.Doctor.Command.{
  Flags, Surroundings, Outcome, set_flags, no_flags, paths_of, collect, is_empty, fix_found,
  run_found, run_doctor, doctor_run,
}
use machokeeper.Doctor.Command.Locked.{run_repairs_locked-run_fix}
use machokeeper.Doctor.Command.Undoes.{finish_run-some}
use machokeeper.Doctor.Command.Collected.{
  AllFound, AllFiles-collect, AllFound-collect, AllFiles-permuted,
}

abbrev pub IsRegular : Disk → String → Type 0
IsRegular d file = (node : Inode) × IsFile d file node

-- The store path of a store path is itself.
abbrev pub IsIdempotent : {S : Type 0} → Store S → Type 0
IsIdempotent store =
    (file path : String)
    → store.store_path_of file ≡ some path
    → store.store_path_of path ≡ some path

-- What the arguments say.
abbrev pub config_of : List String → ScanConfig
config_of args = (parse_scan_flags args).0

abbrev pub flags_of : List String → Flags
flags_of args = set_flags (parse_scan_flags args).1 no_flags

module _ {S L : Type 0} (hashes : Hashes) (sys : System) (store : Store S) (around : Surroundings L)
    (idempotent : IsIdempotent store) where
  -- The predicate on the database is not needed for the files.
  untracked : IsTracking hashes sys store around.calls (λ db d path. Unit)
  untracked = record {
    own_path = idempotent;
    registers = λ path d db e. tt;
    other_rows = λ path q d db n m. tt;
    other_files = λ file q d d' result db e n m. tt;
  }

  -- Where the journal goes, and the disk behind the probe.
  abbrev pub journal_at : Disk → String × Disk
  journal_at d =
      journal_file around.journal_calls around.parents around.journal_dir around.seconds d

  -- The run leaves no file of the journal's name.
  abbrev pub IsJournalNew : Bool → List Finding → Disk → S → Type 0
  IsJournalNew fix_live findings d db =
      (st : RunState S)
      → run_fix hashes sys store around.calls fix_live findings (journal_at d).1 db ≡ some st
      → st.disk.names (journal_at d).0 ≡ none

  -- No valid file is spoiled, and with the code 0 every file that was found is valid.
  abbrev LeavesSound : Disk → List Finding → Outcome S L → Type 0
  LeavesSound d findings r =
      ((file : String) → IsSound hashes d file → IsSound hashes r.0.0.disk file)
      × (r.1 ≡ 0 → AllFiles (IsSound hashes r.0.0.disk) findings)

  fix_found-IsSound :
      (fix_live : Bool) (findings : List Finding) (d : Disk) (db : S) (l : L)
      → IsSmall d
      → AllFiles (IsRegular d) findings
      → IsJournalNew fix_live findings d db
      → Returns
          (LeavesSound d findings)
          (fix_found hashes sys store around fix_live findings d db l)
  unfolding fix_found
  fix_found-IsSound fix_live findings d db l small regular_files is_new =
      let (path, probed) = journal_at d in
      let q : Preserves d probed =
        journal_file-Preserves around.journal_calls around.parents around.journal_dir around.seconds
          d small in
      let regular_still =
        AllFiles-map _ _ findings (λ file (node, f). (node, q.kept file node f)) regular_files in
      let (st, ran, v) =
        run_fix-IsJournaled hashes probed sys store around.calls fix_live findings db q.small
          regular_still in
      let locked =
        run_repairs_locked-run_fix hashes sys store around fix_live findings probed db l in
      let written : (file : String) → IsSound hashes st.disk file → IsSound hashes _ file =
        λ file (node, f, valid). (
          node,
          write_journal-kept sys around.journal_calls path st.disk file node (is_new st ran) f
              around.encode st.journal,
          valid,
        ) in
      (
        _,
        finish_run-some hashes sys store around path findings _ st _ (locked ∙ ran) refl,
        (
          λ file (node, f, valid).
              written file
                (IsSound-IsJournaled hashes probed st v file (node, q.kept file node f, valid)),
          λ zero.
              let (files, rows) =
                run_fix-IsSound hashes sys store around.calls (λ db d path. Unit) untracked fix_live
                  findings probed db st q.small regular_still ran zero in
              AllFiles-map _ _ findings written files,
        ),
      )

  module _ (sort : List Finding → List Finding) where
    run_found-IsSound :
        (fl : Flags) (findings : List Finding) (d : Disk) (db : S) (l : L)
        → IsSmall d
        → AllFiles (IsRegular d) findings
        → IsJournalNew fl.fix_live findings d db
        → Returns
            (LeavesSound d findings)
            (run_found hashes sys store around sort fl findings d db l)
    unfolding run_found
    run_found-IsSound fl [] d db l small regular_files is_new =
        Returns-if (LeavesSound d []) (fl.json_out && not fl.fix) _ _
          (λ _. (_, refl, (λ file f. f, λ zero. tt))) (λ _. (_, refl, (λ file f. f, λ zero. tt)))
    run_found-IsSound fl (f ∷ fs) d db l small regular_files is_new =
        let P = LeavesSound d (f ∷ fs) in
        Returns-if P (fl.json_out && not fl.fix) _ _
          (λ _. (_, refl, (λ file f. f, λ zero. absurd (omega (arith, zero)))))
          λ _.
            Returns-if P (not fl.fix) _ _
              (λ _. (_, refl, (λ file f. f, λ zero. absurd (omega (arith, zero)))))
              λ _. fix_found-IsSound fl.fix_live (f ∷ fs) d db l small regular_files is_new

    module _ (walk : ScanConfig → Disk → String → Option (List Finding))
        (permutes : (fs : List Finding) → Permᴰ (sort fs) fs) where
      -- What is found, in order.
      abbrev pub found_in : List String → Disk → List Finding
      found_in args d = sort (collect (walk (config_of args) d) (paths_of (flags_of args)))

      -- `Run` returns, keeps every valid file valid, and exits with 0 only if nothing broken remains:
      -- every file that was found below a path that the arguments name, and that could be walked, is
      -- then a regular file with only valid signatures. So it is with and without `--fix`, whatever becomes of the lock, the probe, the
      -- write of the journal and the calls of the repairs, on a disk whose files are of less than 2^62
      -- bytes. The walk finds only regular files, the sorting permutes the findings, the store path of
      -- a store path is itself, and the repairs leave no file of the journal's name.
      pub doctor_run-IsSound :
          (args : List String) (d : Disk) (db : S) (l : L)
          → IsSmall d
          → AllFound (IsRegular d) (walk (config_of args) d) (paths_of (flags_of args))
          → IsJournalNew (flags_of args).fix_live (found_in args d) d db
          → Returns
              (λ (r : Outcome S L).
                ((file : String) → IsSound hashes d file → IsSound hashes r.0.0.disk file)
                × (r.1 ≡ 0
                    → AllFound
                        (IsSound hashes r.0.0.disk)
                        (walk (config_of args) d)
                        (paths_of (flags_of args))))
              (doctor_run hashes sys store around sort walk args d db l)
      unfolding doctor_run run_doctor
      doctor_run-IsSound args d db l small regular_files is_new =
          let paths = paths_of (flags_of args) in
          let walked = walk (config_of args) d in
          let found = collect walked paths in
          let regular_found =
            AllFiles-permuted (IsRegular d) (Permᴰ.symm (permutes found))
              (AllFiles-collect (IsRegular d) walked paths regular_files) in
          let (r, ran, (keeps, sound)) =
            run_found-IsSound (flags_of args) (sort found) d db l small regular_found is_new in
          Returns-if
            (λ (r : Outcome S L).
              ((file : String) → IsSound hashes d file → IsSound hashes r.0.0.disk file)
              × (r.1 ≡ 0 → AllFound (IsSound hashes r.0.0.disk) walked paths))
            (is_empty paths) _ _
            (λ _. (_, refl, (λ file f. f, λ zero. absurd (omega (arith, zero)))))
            λ _. (
              r,
              ran,
              (
                keeps,
                λ zero.
                    AllFound-collect (IsSound hashes r.0.0.disk) walked paths
                      (AllFiles-permuted (IsSound hashes r.0.0.disk) (permutes found) (sound zero)),
              ),
            )
