-- ===== src/Doctor/Undo/Restores.antt =====
-- internal/doctor/doctor.go: `undoFile` on the journal of a repair.
use machokeeper.Base.{
  ℕ, ◌+◌, ◌^◌, ◌≤◌, ◌<◌, ◌≡◌, refl, sym, ap, ◌∙◌, String, Bool, true, false, Option, none, some,
  List, [], ◌∷◌, ◌++◌, arith, length, window, copy_at, copy_at_undo, length-copy_at, window-copy_at,
  Returns, pos,
}
use mathlib.Core.List.{reverse, reverse-append, reverse-reverse}
use machokeeper.Engine.Defs.{Change, Error, Hashes}
use machokeeper.Engine.Read.{rd_slice, rd_slice-window}
use machokeeper.Engine.Fixup.{Buffer}
use machokeeper.Engine.Walk.{Walked, repair}
use machokeeper.Engine.Walk.Journal.{Journaled, untouched, slot, IsJournaled, repair-IsJournaled}
use machokeeper.Doctor.Undo.{
  bytes_eq, restored, change_out_of_bounds, first_out_of_bounds, restore_loop, restore,
}

pub bytes_eq_refl : (xs : List ℕ) → bytes_eq xs xs ≡ true
unfolding bytes_eq
bytes_eq_refl [] = refl
bytes_eq_refl (x ∷ xs) = ground (arith, bytes_eq_refl xs)

Journaled-length :
    (original bytes : List ℕ) (cs : List Change)
    → Journaled original cs bytes
    → length bytes ≡ length original
Journaled-length original bytes [] (untouched e) = ap length e
Journaled-length original bytes (c ∷ cs) (slot before off o fits was l m e j) =
    ap length e ∙ length-copy_at before off c.new ∙ Journaled-length original before cs j

module _ (before bytes : List ℕ) (off : ℕ) (c : Change) (fits : off + length c.old ≤ length before)
    (was : c.old ≡ window before off (length c.old)) (l : length c.new ≡ length c.old)
    (e : bytes ≡ copy_at before off c.new) where
  -- The slot holds the new bytes,
  held : rd_slice bytes off (off + length c.old) ≡ some c.new
  held =
      rd_slice-window bytes off (length c.old)
        (omega (arith, ap length e, length-copy_at before off c.new))
      ∙ ap some (rw (e, ← l) (window-copy_at before off c.new (omega arith)))

  -- and putting the old ones back gives the bytes before the change.
  copied_back : copy_at bytes off c.old ≡ before
  copied_back =
      ap (λ b. copy_at b off c.old) e
      ∙ ap (copy_at (copy_at before off c.new) off) (was ∙ ap (window before off) (sym l))
      ∙ copy_at_undo before off c.new

first_out_of_bounds-append :
    (cs : List Change) (c : Change) (size : ℕ)
    → first_out_of_bounds cs size ≡ none
    → change_out_of_bounds c size ≡ false
    → first_out_of_bounds (cs ++ (c ∷ [])) size ≡ none
unfolding first_out_of_bounds
first_out_of_bounds-append [] c size h k = ground arith
first_out_of_bounds-append (d ∷ cs) c size h k =
    ground (arith, first_out_of_bounds-append cs c size)

module _ (original : List ℕ) where
  -- The second loop undoes a journal, and verifies every slot.
  restore_loop-Journaled :
      (bytes : List ℕ) (cs : List Change) (warned : Bool)
      → Journaled original cs bytes
      → restore_loop cs bytes warned ≡ some (restored original warned)
  unfolding restore_loop
  restore_loop-Journaled bytes [] warned (untouched e) = ap (λ b. some (restored b warned)) e
  restore_loop-Journaled bytes (c ∷ cs) warned (slot before off o fits was l m e j) = ground (
    arith,
    held before bytes off c fits was l e,
    copied_back before bytes off c fits was l e,
    bytes_eq_refl c.new,
    restore_loop-Journaled before cs warned j,
  )

  in_bounds :
      (before : List ℕ) (off : ℕ) (c : Change)
      → c.offset ≡ pos off
      → off + length c.old ≤ length before
      → length before ≡ length original
      → change_out_of_bounds c (length original) ≡ false
  unfolding change_out_of_bounds
  in_bounds before off c o fits e = ground arith

  first_out_of_bounds-Journaled :
      (bytes : List ℕ) (cs : List Change)
      → Journaled original cs bytes
      → first_out_of_bounds (reverse cs) (length original) ≡ none
  first_out_of_bounds-Journaled bytes [] j = unfold first_out_of_bounds in refl
  first_out_of_bounds-Journaled bytes (c ∷ cs) (slot before off o fits was l m e j) =
      rw (reverse-append (c ∷ []) cs) (
        first_out_of_bounds-append (reverse cs) c (length original)
          (first_out_of_bounds-Journaled before cs j)
          (in_bounds before off c o fits (Journaled-length original before cs j)))

-- The journal of a repair undoes it.
pub restore-IsJournaled :
    (original : List ℕ) (buf : Buffer) (j : IsJournaled original buf)
    → restore j.changes buf.bytes ≡ some (restored original false)
unfolding restore
restore-IsJournaled original buf j =
    let first = first_out_of_bounds-Journaled original buf.bytes (reverse j.changes) j.chain in
    rw (restore, j.same_length, ← reverse-reverse j.changes, first)
      (restore_loop-Journaled original buf.bytes (reverse j.changes) false j.chain)

-- On a file of less than 2^62 bytes a repair returns, with no panic, and journals its changes; from
-- the bytes and the journal that it leaves, `undoFile` restores the bytes before it and has verified
-- every slot. So it is whether or not the repair also returns an error.
pub restore-repair :
    (hashes : Hashes) (contents : List ℕ) (path : String)
    → length contents < 2 ^ 62
    → Returns
        (λ (r : Walked × Option Error).
          (changes : List Change) × (r.0.buffer.changed ≡ some changes)
          × (restore changes r.0.buffer.bytes ≡ some (restored contents false)))
        (repair hashes contents path)
restore-repair hashes contents path small =
    let (r, e, j) = repair-IsJournaled hashes contents path small in
    (r, e, (j.changes, j.written, restore-IsJournaled contents (r.0).buffer j))
