-- ===== src/Doctor/Undo.antt =====
-- internal/doctor/doctor.go: what `undoFile` does to the bytes of the file, between the read and the
-- write, and `bytesEq`.
pub mod Restores
use machokeeper.Base.{
  ℕ, ◌+◌, ◌-◌, String, Bool, true, false, not, ◌&&◌, ◌||◌, Option, none, some, List, [], ◌∷◌, ltb,
  ◌==◌, if◌then◌else◌, length, copy_at, ◌>>=◌, ℤ, pos, negsuc, pos_part,
}
use mathlib.Core.List.{reverse}
use machokeeper.Engine.Defs.{Change}
use machokeeper.Engine.Read.{rd_slice}

-- `bytesEq`
unfoldable pub bytes_eq : List ℕ → List ℕ → Bool
bytes_eq [] [] = true
bytes_eq [] (b ∷ bs) = false
bytes_eq (a ∷ xs) [] = false
bytes_eq (a ∷ xs) (b ∷ bs) = a == b && bytes_eq xs bs

-- The errors of the two loops over the changes.
pub data UndoError : Type 0 where
  out_of_bounds : ℤ → ℕ → UndoError
  changed_since : ℤ → UndoError

-- The restored bytes with the flag `warned`, or an error.
pub data Restored : Type 0 where
  restored : List ℕ → Bool → Restored
  refused : UndoError → Restored

-- The test of the first loop, on int64 values. A file's length is no negative int64.
unfoldable pub change_out_of_bounds : Change → ℕ → Bool
change_out_of_bounds c size = elim c.offset [
  | negsuc n ↦ true
  | pos offset ↦ ltb size (length c.old) || ltb (size - length c.old) offset
]

-- The first loop: the first change that does not lie within the file.
unfoldable pub first_out_of_bounds : List Change → ℕ → Option UndoError
first_out_of_bounds [] size = none
first_out_of_bounds (c ∷ cs) size =
    if change_out_of_bounds c size
    then some (out_of_bounds c.offset size)
    else first_out_of_bounds cs size

-- The second loop, over the changes from the last to the first.
unfoldable pub restore_loop : List Change → List ℕ → Bool → Option Restored
restore_loop [] bytes warned = some (restored bytes warned)
restore_loop (c ∷ cs) bytes warned =
    let offset = pos_part c.offset in
    let next = restore_loop cs (copy_at bytes offset c.old) in
    if length c.new == 0 then next true else do
      there ← rd_slice bytes offset (offset + length c.old)
      if not (bytes_eq there c.new) then some (refused (changed_since c.offset)) else next warned

-- `undoFile` from the read to the write.
unfoldable pub restore : List Change → List ℕ → Option Restored
restore changes bytes = elim (first_out_of_bounds changes (length bytes)) [
  | some e ↦ some (refused e)
  | none ↦ restore_loop (reverse changes) bytes false
]
