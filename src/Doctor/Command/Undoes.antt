-- ===== src/Doctor/Command/Undoes.antt =====
-- internal/doctor/doctor.go: `Run` with `--fix`, and then `Undo` with the journal's file.
use machokeeper.Base.{
  ℕ, ◌^◌, ◌<◌, ◌≡◌, ◌≢◌, refl, sym, ◌∙◌, String, Bool, false, Option, none, some, List, [], ◌∷◌,
  arith, inl, inr, length, Bool-cases, Returns,
}
use mathlib.Core.Path.{subst}
use mathlib.Core.Option.{some-injective, some-ne-none}
use machokeeper.Engine.Defs.{Hashes}
use machokeeper.Doctor.Scan.{Finding}
use machokeeper.Doctor.Disk.{Inode, Disk, System, Calls}
use machokeeper.Doctor.Disk.Keeps.{IsSmall}
use machokeeper.Doctor.Files.{JournalEntry, read_journal, undo}
use machokeeper.Doctor.Files.Repair.{IsFile, read_file-IsFile}
use machokeeper.Doctor.Files.Others.{IsFile-Keeps}
use machokeeper.Doctor.JournalFile.{
  JournalCalls, journal_file, write_file, write_json, write_journal,
}
use machokeeper.Doctor.JournalFile.Writes.{
  Preserves, journal_file-Preserves, IsFile-ne, IsWritten, write_file-IsWritten,
}
use machokeeper.Doctor.Run.{Store, RunState, run_fix, exit_status, group_findings}
use machokeeper.Doctor.Run.Rule.{AllFiles, AllFiles-map}
use machokeeper.Doctor.Run.Entries.{named, AllEntries-named, AllEntries-Keeps}
use machokeeper.Doctor.Run.Journaled.{IsJournaled, run_fix-IsJournaled}
use machokeeper.Doctor.Run.UndoesAll.{IsSteady, undo_all-IsRestored}
use machokeeper.Doctor.Command.{
  Surroundings, Outcome, start_state, run_repairs_locked, finish_run, fix_found,
}
use machokeeper.Doctor.Command.Locked.{run_repairs_locked-run_fix}

write_journal-write_file :
    (sys : System) (calls : JournalCalls) (encode : List JournalEntry → Option (List ℕ))
    (path : String) (journal : List JournalEntry) (raw : List ℕ) (d : Disk)
    → 0 < length journal
    → encode journal ≡ some raw
    → write_journal sys calls encode path journal d ≡ write_file sys calls path raw d
unfolding write_journal write_json
write_journal-write_file sys calls encode path [] raw d some_entry e = absurd (omega arith)
write_journal-write_file sys calls encode path (x ∷ journal) raw d some_entry e = rw e refl

-- `Undo` behind the run: the journal names what has changed on the disk `before`.
module _ {S : Type 0} (hashes : Hashes) (before : Disk) (sys : System) (temp : String)
    (undo_calls : String → Disk → Calls) (steady : IsSteady temp undo_calls)
    (decode : List ℕ → Option (List JournalEntry)) (st : RunState S)
    (v : IsJournaled hashes before st) (path : String) (raw : List ℕ) (d : Disk)
    (decoded : decode raw ≡ some st.journal) (new_path : st.disk.names path ≡ none)
    (new_temp : st.disk.names temp ≡ none) (differ : temp ≢ path)
    (w : IsWritten path raw st.disk d) where
  path_unnamed : named st.journal path ≡ false
  path_unnamed = elim (Bool-cases (named st.journal path)) [
    | inl n ↦
        let (e, names_it, h) = AllEntries-named hashes before st.disk st.journal path n v.entries in
        absurd (IsFile-ne st.disk path e.file _ h.there new_path names_it)
    | inr n ↦ n
  ]

  no_temp : d.names temp ≡ none
  no_temp = w.other_names temp differ ∙ new_temp

  read_journal-written : read_journal sys undo_calls decode (path ∷ []) d ≡ some st.journal
  unfolding read_journal
  read_journal-written =
      rw
        (read_file-IsFile sys (undo_calls path d) d path _ w.content
          (steady.smooth path d no_temp).no_read_failure)
        decoded

  undo-written :
      Returns
        (λ (u : Disk × Bool).
          (u.1 ≡ false)
          × ((file : String) (node : Inode) → IsFile before file node → IsFile u.0 file node))
        (undo sys undo_calls decode (path ∷ []) d)
  unfolding undo
  undo-written =
      let (u, returns, (ok, back)) =
        undo_all-IsRestored hashes before sys temp undo_calls steady st.journal d
          (AllEntries-Keeps hashes before path st.disk d st.journal path_unnamed w.keeps v.entries)
          v.distinct w.keeps.small no_temp in
      (
        u,
        rw (undo, read_journal-written) returns,
        (
          ok,
          λ file node was. back file node was (elim (Bool-cases (named st.journal file)) [
            | inl n ↦ inl n
            | inr n ↦
                let f = v.untouched file node was n in
                inr (
                  IsFile-Keeps file path st.disk d node
                    (IsFile-ne st.disk path file node f new_path) w.keeps f)
          ]),
        ),
      )

module _ {S L : Type 0} (hashes : Hashes) (sys : System) (store : Store S)
    (around : Surroundings L) where
  pub finish_run-some :
      (path : String) (findings : List Finding) (r : L × Option (RunState S)) (st : RunState S)
      (d : Disk)
      → r.1 ≡ some st
      → write_journal sys around.journal_calls around.encode path st.journal st.disk ≡ d
      → finish_run hashes sys store around path findings r
        ≡ some ((record st { disk = d }, r.0), exit_status findings st)
  unfolding finish_run
  finish_run-some path findings (l, none) st d e w = absurd (some-ne-none st (sym e))
  finish_run-some path findings (l, some st') st d e w = rw (some-injective st' st e, w) refl

  module _ (undo_calls : String → Disk → Calls) (temp : String)
      (decode : List ℕ → Option (List JournalEntry)) where
    -- `Run` with `--fix` on findings in regular files, on a disk whose files are of less than 2^62 bytes,
    -- returns, and if it has repaired something, `Undo` with the file of its journal then returns, exits
    -- with 0, and gives every regular file the mode and the bytes of before the run. So it is if the
    -- journal's JSON can be made, is read as the same journal, is of less than 2^62 bytes and is
    -- written; if the run has left neither a file of the journal's name nor one of the name that the
    -- undo uses for temporary files, which differ; and if no call of the undo fails. Whatever becomes of
    -- the lock, the probe of the journal's directory and the calls of the repairs.
    pub undo-fix_found :
        (fix_live : Bool) (findings : List Finding) (d probed : Disk) (db : S) (l : L)
        (path : String) (st : RunState S) (raw : List ℕ)
        → IsSmall d
        → AllFiles (λ file. (node : Inode) × IsFile d file node) findings
        → journal_file around.journal_calls around.parents around.journal_dir around.seconds d
          ≡ (path, probed)
        → run_fix hashes sys store around.calls fix_live findings probed db ≡ some st
        → 0 < length st.journal
        → around.encode st.journal ≡ some raw
        → decode raw ≡ some st.journal
        → length raw < 2 ^ 62
        → around.journal_calls.open_fails ≡ false
        → around.journal_calls.write_fails ≡ false
        → st.disk.names path ≡ none
        → st.disk.names temp ≡ none
        → temp ≢ path
        → IsSteady temp undo_calls
        → Returns
            (λ (r : Outcome S L).
              Returns
                (λ (u : Disk × Bool).
                  (u.1 ≡ false)
                  × ((file : String) (node : Inode) → IsFile d file node → IsFile u.0 file node))
                (undo sys undo_calls decode (path ∷ []) r.0.0.disk))
            (fix_found hashes sys store around fix_live findings d db l)
    unfolding fix_found
    undo-fix_found fix_live findings d probed db l path st raw small regular_files at_path ran
          some_entry encoded decoded short opens writes new_path new_temp differ steady =
        let q : Preserves d probed =
          subst (λ (r : String × Disk). Preserves d r.1) at_path
            (journal_file-Preserves around.journal_calls around.parents around.journal_dir
              around.seconds d small) in
        let (st', ran', v') =
          run_fix-IsJournaled hashes probed sys store around.calls fix_live findings db q.small (
            AllFiles-map _ _ findings (λ file (node, f). (node, q.kept file node f))
              regular_files) in
        let v : IsJournaled hashes probed st =
          subst (IsJournaled hashes probed) (some-injective _ _ (sym ran' ∙ ran)) v' in
        let w =
          write_file-IsWritten sys around.journal_calls path raw st.disk opens writes new_path short
            v.small in
        let written = write_file sys around.journal_calls path raw st.disk in
        let (u, returns, (ok, back)) =
          undo-written hashes probed sys temp undo_calls steady decode st v path raw written decoded
            new_path new_temp differ w in
        let locked =
          run_repairs_locked hashes sys store around fix_live
            (group_findings store.store_path_of findings []) (start_state probed db) l in
        (
          ((record st { disk = written }, locked.0), exit_status findings st),
          rw at_path (
              finish_run-some path findings _ st _
                (run_repairs_locked-run_fix hashes sys store around fix_live findings probed db l
                  ∙ ran)
                (write_journal-write_file sys around.journal_calls around.encode path st.journal raw
                  st.disk some_entry encoded)),
          (u, returns, (ok, λ file node f. back file node (q.kept file node f))),
        )
