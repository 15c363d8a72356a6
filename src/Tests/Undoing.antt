-- ===== src/Tests/Undoing.antt =====
-- `Undo` at a disk with a journal.
use machokeeper.Base.{
  ℕ, zero, suc, ◌≡◌, ◌≢◌, refl, sym, ◌∙◌, String, Bool, false, Option, none, some, List, [], ◌∷◌,
  arith, length, copy_at, copy, eq_string, eq_string_iff, if◌then◌else◌, ◌==◌, Returns,
}
use mathlib.Core.Path.{subst}
use mathlib.Core.Option.{some-injective}
use mathlib.Core.List.{Mem, not-mem-nil, forall_mem-cons}
use machokeeper.Doctor.Disk.{
  Inode, regular, Disk, Calls, read_file, replace_file, fill_temp, create_temp, write_inode,
  chmod_inode, rename_file, remove_temp,
}
use machokeeper.Doctor.Disk.Keeps.{IsSmall}
use machokeeper.Doctor.Files.{
  JournalEntry, read_journal, undo, undo_all, undo_file, undo_read, put_back, replaced_result,
  exit_code,
}
use machokeeper.Engine.Read.{rd_slice}
use machokeeper.Doctor.Undo.{
  restore, first_out_of_bounds, change_out_of_bounds, restore_loop, bytes_eq,
}
use machokeeper.Doctor.Files.Repair.{IsFile}
use machokeeper.Doctor.Files.Journal.{undo-IsFile}
use machokeeper.Tests.Fixtures.{sound, broken}
use machokeeper.Tests.Doctor.{linkless, smooth, the_file, both_slots}

-- "f" is not repaired, "g" is, and "j" is the journal.
abbrev content : ℕ → Inode
content zero = the_file
content (suc zero) = record { bytes = sound; mode = 0 }
content _ = record { bytes = 91 ∷ 93 ∷ []; mode = 0 }

abbrev three_files : Disk
three_files = record {
  names = λ path.
      if eq_string path "f"
      then some (regular 0)
      else if eq_string path "g"
      then some (regular 1)
      else if eq_string path "j"
      then some (regular 2)
      else none;
  inodes = content;
  next = 3;
}

abbrev entries : List JournalEntry
entries = record { file = "g"; changes = both_slots } ∷ []

abbrev decode : List ℕ → Option (List JournalEntry)
decode raw = if length raw == 2 then some entries else none

abbrev undo_calls : String → Disk → Calls
undo_calls path d = smooth "t"

three_files-IsSmall : IsSmall three_files
three_files-IsSmall zero = omega arith
three_files-IsSmall (suc zero) = omega arith
three_files-IsSmall (suc (suc i)) = omega arith

f-IsFile : IsFile three_files "f" the_file
unfolding eq_string
f-IsFile = record { inode = 0; named = refl; used = omega arith; content = refl }

read_entries : read_journal linkless undo_calls decode ("j" ∷ []) three_files ≡ some entries
unfolding read_journal read_file eq_string
read_entries = refl

-- "g" has the bytes of before.
bytes_of_g : Option (Disk × Bool) → Option (List ℕ)
bytes_of_g none = none
bytes_of_g (some (d, failed)) = if failed then none else read_file linkless (smooth "t") d "g"

undo_entries : bytes_of_g (undo linkless undo_calls decode ("j" ∷ []) three_files) ≡ some broken
unfolding bytes_of_g undo read_journal undo_all undo_file undo_read put_back replaced_result
    exit_code restore first_out_of_bounds change_out_of_bounds restore_loop bytes_eq rd_slice
    copy_at copy read_file replace_file fill_temp create_temp write_inode chmod_inode rename_file
    remove_temp eq_string
undo_entries = refl

distinct : eq_string "f" "g" ≡ false
unfolding eq_string
distinct = refl

abbrev Unnamed : List JournalEntry → Type 0
Unnamed journal = (e : JournalEntry) → Mem e journal → "f" ≢ e.file

entries-Unnamed : Unnamed entries
entries-Unnamed = (forall_mem-cons (λ e. hlevel)).1 (
  λ p. absurd (ground (arith, distinct, (eq_string_iff "f" "g").1 p)),
  λ e m. absurd (not-mem-nil m),
)

journal-Unnamed :
    (journal : List JournalEntry)
    → read_journal linkless undo_calls decode ("j" ∷ []) three_files ≡ some journal
    → Unnamed journal
journal-Unnamed journal r =
    subst Unnamed (some-injective entries journal (sym read_entries ∙ r)) entries-Unnamed

undo-IsFile_example :
    Returns
      (λ (r : Disk × Bool). IsFile r.0 "f" the_file)
      (undo linkless undo_calls decode ("j" ∷ []) three_files)
undo-IsFile_example =
    undo-IsFile linkless undo_calls "f" the_file decode ("j" ∷ []) three_files three_files-IsSmall
      f-IsFile journal-Unnamed
