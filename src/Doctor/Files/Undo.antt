-- ===== src/Doctor/Files/Undo.antt =====
-- internal/doctor/doctor.go: `undoFile` on a regular file.
use machokeeper.Base.{
  ℕ, ◌^◌, ◌<◌, ◌≡◌, refl, sym, ap, ◌∙◌, String, false, none, some, List, arith, length, Returns,
}
use mathlib.Core.Path.{subst}
use mathlib.Core.Option.{some-injective}
use machokeeper.Engine.Defs.{Change, Hashes}
use machokeeper.Doctor.Undo.{restored, restore}
use machokeeper.Doctor.Disk.{Inode, Disk, System, Calls, replace_file, fill_temp}
use machokeeper.Doctor.Disk.Replace.{replace_file-IsReplaced}
use machokeeper.Doctor.Files.{
  RepairResult, repaired, repair_file, UndoResult, undone, put_back, undo_read, undo_file,
  replaced_result,
}
use machokeeper.Doctor.Files.Repair.{IsFile, read_file-IsFile, Leaves, repair_file-IsRepairedFile}

-- Nothing fails.
pub record IsSmooth (calls : Calls) (d : Disk) : Type 0 where
  pub no_lstat_failure : calls.lstat_fails ≡ false
  pub no_read_failure : calls.read_fails ≡ false
  pub no_stat_failure : calls.stat_fails ≡ false
  pub no_create_failure : calls.create_fails ≡ false
  pub no_write_failure : calls.write_fails ≡ false
  pub no_close_failure : calls.close_fails ≡ false
  pub no_chmod_failure : calls.chmod_fails ≡ false
  pub no_rename_failure : calls.rename_fails ≡ false
  pub new_temp : d.names calls.temp ≡ none

replace_file-IsSmooth :
    (sys : System) (calls : Calls) (path : String) (bytes : List ℕ) (d : Disk) (node : Inode)
    → IsFile d path node
    → IsSmooth calls d
    → (replace_file sys calls path bytes d).1 ≡ none
unfolding replace_file fill_temp
replace_file-IsSmooth sys calls path bytes d node f s = ground (
  arith,
  sys.follow-regular d path f.inode f.named,
  s.no_stat_failure,
  s.no_create_failure,
  s.new_temp,
  s.no_write_failure,
  s.no_close_failure,
  s.no_chmod_failure,
  s.no_rename_failure,
)

module _ (sys : System) (calls : Calls) (path : String) (d : Disk) (node : Inode)
    (changes : List Change) (original : List ℕ) (f : IsFile d path node) (s : IsSmooth calls d)
    (r : restore changes node.bytes ≡ some (restored original false)) where
  -- The file is there, with these bytes and its mode, and the undo reports no error.
  abbrev pub IsUndone : Disk × UndoResult → Type 0
  IsUndone u =
      (u.1 ≡ undone false) × IsFile u.0 path (record { bytes = original; mode = node.mode })

  put_back-IsUndone : IsUndone (put_back sys calls path (restored original false) d)
  unfolding put_back replaced_result
  put_back-IsUndone =
      let ok = replace_file-IsSmooth sys calls path original d node f s in
      let q = replace_file-IsReplaced sys calls path original f.inode d f.named f.used in
      (
        ground (arith, ok),
        record {
          inode = d.next;
          named = q.fresh ok;
          used = q.used ok;
          content =
              q.content ok
              ∙ ap (λ (n : Inode). record { bytes = original; mode = n.mode }) f.content;
        },
      )

  put_back-no_leftover :
      calls.remove_fails ≡ false
      → (put_back sys calls path (restored original false) d).0.names calls.temp
        ≡ d.names calls.temp
  unfolding put_back
  put_back-no_leftover =
      (replace_file-IsReplaced sys calls path original f.inode d f.named f.used).no_leftover

  undo_file-put_back :
      undo_file sys calls (record { file = path; changes = changes }) d
      ≡ some (put_back sys calls path (restored original false) d)
  unfolding undo_file undo_read put_back replace_file
  undo_file-put_back =
      rw
        (
          undo_file,
          s.no_lstat_failure,
          f.named,
          read_file-IsFile sys calls d path node f s.no_read_failure,
          r,
        )
        refl

  pub undo_file-IsUndone :
      Returns IsUndone (undo_file sys calls (record { file = path; changes = changes }) d)
  undo_file-IsUndone = (_, undo_file-put_back, put_back-IsUndone)

  -- So it is, and the temporary file is gone.
  pub undo_file-no_leftover :
      calls.remove_fails ≡ false
      → Returns
          (λ (u : Disk × UndoResult). IsUndone u × (u.0.names calls.temp ≡ d.names calls.temp))
          (undo_file sys calls (record { file = path; changes = changes }) d)
  undo_file-no_leftover e = (_, undo_file-put_back, (put_back-IsUndone, put_back-no_leftover e))

-- If `repairFileHardlinkSafe` has repaired a regular file of less than 2^62 bytes, then `undoFile`, on
-- the disk that it left and with the changes that it returned, where no call fails, returns, reports
-- no error and has verified every slot, and the file again has the mode and the bytes of before.
pub undo_file-repair_file :
    (hashes : Hashes) (sys : System) (calls undo_calls : Calls) (path : String) (d d' : Disk)
    (node : Inode) (changes : List Change)
    → IsFile d path node
    → length node.bytes < 2 ^ 62
    → repair_file hashes sys calls path d ≡ some (d', repaired changes)
    → IsSmooth undo_calls d'
    → Returns
        (λ (u : Disk × UndoResult). (u.1 ≡ undone false) × IsFile u.0 path node)
        (undo_file sys undo_calls (record { file = path; changes = changes }) d')
undo_file-repair_file hashes sys calls undo_calls path d d' node changes f small e s =
    let (r, e', i) = repair_file-IsRepairedFile hashes sys calls path d node f small in
    let (bytes, g, valid, u) =
      subst (λ (r : Disk × RepairResult). Leaves hashes path d node r.0 r.1)
        (some-injective _ _ (sym e' ∙ e)) i.leaves in
    undo_file-IsUndone sys undo_calls path d' (record { bytes = bytes; mode = node.mode }) changes
      node.bytes g s u
