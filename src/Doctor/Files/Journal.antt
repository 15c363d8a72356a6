-- ===== src/Doctor/Files/Journal.antt =====
-- internal/doctor/doctor.go: `Undo` on any journal, and the files that no entry names.
use machokeeper.Base.{
  ℕ, ◌+◌, ◌^◌, ◌≤◌, ◌<◌, ◌≡◌, ◌≢◌, refl, ◌∙◌, String, Bool, true, false, Option, none, some, List,
  [], ◌∷◌, arith, inl, inr, length, copy_at, length-copy_at, Option-cases, Bool-cases, Returns,
  Returns-bind, Returns-if, pos, negsuc, pos_part, ◌==◌, ℤ, Returns-read, window, not,
}
use mathlib.Core.List.{
  Mem, not-mem-nil, forall_mem-cons, mem-cons_self, mem-cons_of_mem, reverse, mem-reverse,
}
use machokeeper.Engine.Defs.{Change}
use machokeeper.Engine.Read.{rd_slice-window}
use machokeeper.Doctor.Undo.{
  bytes_eq, Restored, restored, refused, changed_since, change_out_of_bounds, first_out_of_bounds,
  restore_loop, restore,
}
use machokeeper.Doctor.Disk.{Inode, Disk, System, Calls, regular, irregular, read_file}
use machokeeper.Doctor.Disk.Keeps.{IsSmall, Keeps, replace_file-Keeps}
use machokeeper.Doctor.Files.{
  JournalEntry, UndoResult, not_found, not_regular, put_back, undo_read, undo_file, undo_all,
  read_journal, undo, exit_code,
}
use machokeeper.Doctor.Files.Repair.{IsFile}
use machokeeper.Doctor.Files.Others.{IsFile-Keeps, Keeps-same, read_file-short}

cons_all {ℓ κ} :
    {A : Type ℓ} {P : A → Type κ} {a : A} {l : List A}
    → ((x : A) → Mem x (a ∷ l) → P x)
    → P a × ((x : A) → Mem x l → P x)
cons_all {a = a} h = (h a mem-cons_self, λ x m. h x (mem-cons_of_mem a m))

-- The restored bytes, if there are any, are of the given length.
abbrev HasLength : ℕ → Restored → Type 0
HasLength n (restored bytes warned) = length bytes ≡ n
HasLength n (refused e) = Unit

within_from :
    (offset : ℤ) (old new : List ℕ) (size : ℕ)
    → change_out_of_bounds (record { offset = offset; old = old; new = new }) size ≡ false
    → pos_part offset + length old ≤ size
unfolding change_out_of_bounds
within_from (pos n) old new size h = ground arith
within_from (negsuc n) old new size h = absurd (ground arith)

within :
    (c : Change) (size : ℕ)
    → change_out_of_bounds c size ≡ false
    → pos_part c.offset + length c.old ≤ size
within c size e = within_from c.offset c.old c.new size e

abbrev AllWithin : ℕ → List Change → Type 0
AllWithin size cs = (c : Change) → Mem c cs → change_out_of_bounds c size ≡ false

first_out_of_bounds-AllWithin :
    (cs : List Change) (size : ℕ) → first_out_of_bounds cs size ≡ none → AllWithin size cs
unfolding first_out_of_bounds
first_out_of_bounds-AllWithin [] size e = λ c m. absurd (not-mem-nil m)
first_out_of_bounds-AllWithin (c ∷ cs) size e = elim (Bool-cases (change_out_of_bounds c size)) [
  | inl out ↦ absurd (ground arith)
  | inr ok ↦
      (forall_mem-cons (λ x. hlevel)).1 (ok, first_out_of_bounds-AllWithin cs size (ground arith))
]

restore_loop-HasLength :
    (cs : List Change) (bytes : List ℕ) (warned : Bool) (size : ℕ)
    → length bytes ≡ size
    → AllWithin size cs
    → Returns (HasLength size) (restore_loop cs bytes warned)
unfolding restore_loop
restore_loop-HasLength [] bytes warned size l h = (_, refl, l)
restore_loop-HasLength (c ∷ cs) bytes warned size l h =
    let offset = pos_part c.offset in
    let (first, others) = cons_all h in
    let fits = within c size first in
    let next : (b : Bool)
        → Returns (HasLength size) (restore_loop cs (copy_at bytes offset c.old) b) =
      λ b.
        restore_loop-HasLength cs (copy_at bytes offset c.old) b size
          (length-copy_at bytes offset c.old ∙ l) others in
    Returns-if (HasLength size) (length c.new == 0) _ _ (λ e. next true)
      λ e.
        Returns-read (HasLength size) _ (window bytes offset (length c.old)) _
          (rd_slice-window bytes offset (length c.old) (omega (arith, fits, l)))
          (Returns-if (HasLength size) (not (bytes_eq (window bytes offset (length c.old)) c.new))
            (some (refused (changed_since c.offset))) _ (λ e. (_, refl, tt)) λ e. next warned)

restore-HasLength :
    (changes : List Change) (bytes : List ℕ)
    → Returns (HasLength (length bytes)) (restore changes bytes)
unfolding restore
restore-HasLength changes bytes = elim (Option-cases (first_out_of_bounds changes (length bytes))) [
  | inr (e, out) ↦ rw (restore, out) (_, refl, tt)
  | inl ok ↦
      rw (restore, ok)
        (restore_loop-HasLength (reverse changes) bytes false (length bytes) refl
          λ c m. first_out_of_bounds-AllWithin changes (length bytes) ok c (mem-reverse.0 m))
]

module _ (sys : System) (calls : Calls) (e : JournalEntry) (d : Disk) (small : IsSmall d) where
  abbrev Kept : Disk × UndoResult → Type 0
  Kept r = Keeps e.file d r.0

  put_back-Keeps :
      (bytes : List ℕ) (r : Restored)
      → length bytes < 2 ^ 62
      → HasLength (length bytes) r
      → Kept (put_back sys calls e.file r d)
  unfolding put_back
  put_back-Keeps bytes (restored b warned) short l =
      replace_file-Keeps sys calls e.file b d (omega (arith, short, l)) small
  put_back-Keeps bytes (refused x) short l = Keeps-same e.file d small

  undo_read-Keeps :
      (read : Option (List ℕ))
      → ((bytes : List ℕ) → read ≡ some bytes → length bytes < 2 ^ 62)
      → Returns Kept (undo_read sys calls e read d)
  unfolding undo_read
  undo_read-Keeps none short = (_, refl, Keeps-same e.file d small)
  undo_read-Keeps (some bytes) short =
      Returns-bind (HasLength (length bytes)) Kept _ _ (restore-HasLength e.changes bytes)
        λ r l. (_, refl, put_back-Keeps bytes r (short bytes refl) l)

  pub undo_file-Keeps : Returns Kept (undo_file sys calls e d)
  unfolding undo_file
  undo_file-Keeps =
      Returns-if Kept calls.lstat_fails _ _ (λ f. (_, refl, Keeps-same e.file d small))
        λ f.
          elim (d.names e.file)
            as (λ n. Returns Kept (elim n [
              | none ↦ some (d, not_found)
              | some irregular ↦ some (d, not_regular)
              | some (regular i) ↦ undo_read sys calls e (read_file sys calls d e.file) d
            ])) [
              | none ↦ (_, refl, Keeps-same e.file d small)
              | some irregular ↦ (_, refl, Keeps-same e.file d small)
              | some (regular i) ↦
                  undo_read-Keeps (read_file sys calls d e.file)
                    (read_file-short sys calls e.file d small)
            ]

module _ (sys : System) (calls : String → Disk → Calls) (path : String) (node : Inode) where
  abbrev Stays : Disk × Bool → Type 0
  Stays r = IsFile r.0 path node

  undo_all-IsFile :
      (journal : List JournalEntry) (failed : Bool) (d : Disk)
      → IsSmall d
      → IsFile d path node
      → ((e : JournalEntry) → Mem e journal → path ≢ e.file)
      → Returns Stays (undo_all sys calls journal failed d)
  unfolding undo_all
  undo_all-IsFile [] failed d small f unnamed = (_, refl, f)
  undo_all-IsFile (e ∷ rest) failed d small f unnamed =
      let (first, others) = cons_all unnamed in
      Returns-bind (λ (r : Disk × UndoResult). Keeps e.file d r.0) Stays _ _
        (undo_file-Keeps sys (calls e.file d) e d small)
        λ r k.
          undo_all-IsFile rest (exit_code failed r.1) r.0 k.small
            (IsFile-Keeps path e.file d r.0 node first k f) others

  -- On a disk whose files are of less than 2^62 bytes `Undo` returns, with no panic, whatever its
  -- arguments, the journal's changes and the failing calls; and a regular file that no entry of the
  -- journal names still has its mode and bytes.
  pub undo-IsFile :
      (decode : List ℕ → Option (List JournalEntry)) (args : List String) (d : Disk)
      → IsSmall d
      → IsFile d path node
      → ((journal : List JournalEntry)
          → read_journal sys calls decode args d ≡ some journal
          → (e : JournalEntry) → Mem e journal
          → path ≢ e.file)
      → Returns (λ (r : Disk × Bool). IsFile r.0 path node) (undo sys calls decode args d)
  unfolding undo
  undo-IsFile decode args d small f unnamed =
      elim (Option-cases (read_journal sys calls decode args d)) [
        | inl n ↦ rw (undo, n) (_, refl, f)
        | inr (journal, j) ↦
            rw (undo, j) (undo_all-IsFile journal false d small f (unnamed journal j))
      ]
