-- ===== src/Engine/Walk/Journal.antt =====
-- engine/engine.go: the journal of a repair, from the last change back to the first.
use machokeeper.Base.{
  ℕ, ◌+◌, ◌^◌, ◌≤◌, ◌<◌, ◌≡◌, refl, ◌∙◌, String, true, Option, some, List, [], ◌∷◌, ◌++◌, arith,
  length, window, copy_at, length-copy_at, pos, Returns,
}
use mathlib.Core.List.{reverse, reverse-append}
use machokeeper.Engine.Defs.{Change, Error, Hashes}
use machokeeper.Engine.Fixup.{Buffer}
use machokeeper.Engine.Fixup.Frame.{IsFrame}
use machokeeper.Engine.Walk.Total.{walk-P}
use machokeeper.Engine.Walk.{Walked, repair}

-- From the last change back to the first: each names a slot of the bytes before it, what stood
-- there, and what stands there now.
pub data Journaled (original : List ℕ) : List Change → List ℕ → Type 0 where
  untouched : {bytes : List ℕ} → bytes ≡ original → Journaled original [] bytes
  slot :
      {c : Change} {cs : List Change} {bytes : List ℕ} (before : List ℕ) (off : ℕ)
      → c.offset ≡ pos off
      → off + length c.old ≤ length before
      → c.old ≡ window before off (length c.old)
      → length c.new ≡ length c.old
      → 0 < length c.old
      → bytes ≡ copy_at before off c.new
      → Journaled original cs before
      → Journaled original (c ∷ cs) bytes

-- The assertion that a repair keeps.
pub record IsJournaled (original : List ℕ) (buf : Buffer) : Type 0 where
  pub same_length : length buf.bytes ≡ length original
  pub changes : List Change
  pub written : buf.changed ≡ some changes
  pub chain : Journaled original (reverse changes) buf.bytes

IsJournaled-IsFrame : (original : List ℕ) → IsFrame true (length original) (IsJournaled original)
IsJournaled-IsFrame original = record {
  sized = λ buf j. j.same_length;
  kept = λ buf off old sum w fits some_old was l j. record {
    same_length = length-copy_at buf.bytes off sum ∙ j.same_length;
    changes = j.changes ++ (record { offset = pos off; old = old; new = sum } ∷ []);
    written = rw j.written;
    chain =
        rw (reverse-append j.changes _)
          (slot buf.bytes off refl (omega (arith, j.same_length)) was l some_old refl j.chain);
  };
}

abbrev pub JournaledWalk : List ℕ → Walked × Option Error → Type 0
JournaledWalk original r = IsJournaled original (r.0).buffer

pub repair-IsJournaled :
    (hashes : Hashes) (contents : List ℕ) (path : String)
    → length contents < 2 ^ 62
    → Returns (JournaledWalk contents) (repair hashes contents path)
unfolding repair
repair-IsJournaled hashes contents path small =
    walk-P hashes (length contents) small (IsJournaled contents) true path _
      (IsJournaled-IsFrame contents)
      (record { same_length = refl; changes = []; written = refl; chain = untouched refl })
