-- ===== src/Doctor/Run/Undoes.antt =====
-- internal/doctor/doctor.go: `Run` with `--fix`, and then `undoFile`.
use machokeeper.Base.{◌≡◌, sym, ◌∙◌, ◌⊎◌, inl, inr, String, Bool, false, some, List, Returns}
use mathlib.Core.Path.{subst}
use mathlib.Core.Option.{some-injective}
use mathlib.Core.List.{Mem}
use machokeeper.Engine.Defs.{Hashes}
use machokeeper.Doctor.Scan.{Finding}
use machokeeper.Doctor.Disk.{Inode, Disk, System, Calls}
use machokeeper.Doctor.Disk.Keeps.{IsSmall}
use machokeeper.Doctor.Files.{UndoResult, undone, undo_file, JournalEntry}
use machokeeper.Doctor.Files.Repair.{IsFile}
use machokeeper.Doctor.Files.Undo.{IsSmooth, undo_file-IsUndone}
use machokeeper.Doctor.Run.{Store, RunState, run_fix}
use machokeeper.Doctor.Run.Account.{IsAccounted, IsRecorded, run_fix-IsAccounted}

recorded-undo_file :
    {S : Type 0}
    → {hashes : Hashes} → {path : String} → {node : Inode} → (sys : System) → (undo_calls : Calls)
    → (st : RunState S) → IsSmooth undo_calls st.disk
    → (r : IsRecorded hashes path node st)
    → Returns
        (λ (u : Disk × UndoResult). (u.1 ≡ undone false) × IsFile u.0 path node)
        (undo_file sys undo_calls r.entry st.disk)
recorded-undo_file {path = path} {node = node} sys undo_calls st smooth r =
    subst
      (λ (file : String).
        Returns (λ (u : Disk × UndoResult). (u.1 ≡ undone false) × IsFile u.0 path node)
          (undo_file sys undo_calls (record { file = file; changes = r.entry.changes }) st.disk))
      (sym r.names_it)
      (undo_file-IsUndone sys undo_calls path st.disk (record { bytes = r.bytes; mode = node.mode })
        r.entry.changes node.bytes r.there smooth r.undoes)

module _ {S : Type 0} (hashes : Hashes) (sys : System) (store : Store S)
    (calls : String → Disk → Calls) where
  -- After a run with `--fix` that has left a state, on a disk whose files are of less than 2^62 bytes,
  -- every regular file is as before, or the journal has an entry for it with which `undoFile`, where
  -- no call fails, returns, reports no error, has verified every slot, and gives the file the mode
  -- and the bytes of before.
  pub run_fix-undo_file :
      (path : String) (node : Inode) (fix_live : Bool) (findings : List Finding) (d : Disk) (db : S)
      (st : RunState S) (undo_calls : Calls)
      → IsSmall d
      → IsFile d path node
      → run_fix hashes sys store calls fix_live findings d db ≡ some st
      → IsSmooth undo_calls st.disk
      → IsFile st.disk path node
        ⊎ ((e : JournalEntry) × Mem e st.journal
            × (e.file ≡ path)
            × Returns
                (λ (u : Disk × UndoResult). (u.1 ≡ undone false) × IsFile u.0 path node)
                (undo_file sys undo_calls e st.disk))
  run_fix-undo_file path node fix_live findings d db st undo_calls small f e smooth =
      let (st', e', accounted) =
        run_fix-IsAccounted hashes path node sys store calls fix_live findings d db small f in
      let here : IsAccounted hashes path node st =
        subst (IsAccounted hashes path node) (some-injective _ _ (sym e' ∙ e)) accounted in
      elim here [
        | inl same ↦ inl same
        | inr r ↦ inr (r.entry, r.listed, r.names_it, recorded-undo_file sys undo_calls st smooth r)
      ]
