-- ===== src/Engine/Walk.antt =====
-- engine/engine.go: `Detect`, `walk`, `Check` and `Repair`.
pub mod Total
pub mod Cms
pub mod Journal
pub mod Strongest
pub mod Valid
use machokeeper.Base.{
  ℕ, String, Bool, true, false, ◌||◌, Option, none, some, List, [], if◌then◌else◌, ◌>>=◌,
}
use machokeeper.Engine.Defs.{Kind, unsigned, stronger, Error, cms_repair, Hashes}
use machokeeper.Engine.Signature.{detect_slice, slice_carries_cms}
use machokeeper.Engine.Container.{walk_container}
use machokeeper.Engine.Fixup.{Buffer, fixup_slice}

-- The closure that `Detect` passes.
unfoldable pub detect_visit : List ℕ → ℕ → ℕ → Kind → Option (Kind × Option Error)
detect_visit contents slice_base slice_end result = do
  k ← detect_slice contents slice_base
  some ((if stronger k result then k else result), none)

-- `Detect`
unfoldable pub detect : List ℕ → Option Kind
detect contents = do
  (result, ignored) ← walk_container (λ _. contents) (detect_visit contents) unsigned
  some result

-- The closure of the scan that `walk` makes in write mode. `cms ||` skips the call once it is set.
unfoldable pub cms_visit : List ℕ → ℕ → ℕ → Bool → Option (Bool × Option Error)
cms_visit contents slice_base slice_end true = some (true, none)
cms_visit contents slice_base slice_end false = do
  carries ← slice_carries_cms contents slice_base
  some (carries, none)

unfoldable pub any_cms : List ℕ → Option Bool
any_cms contents = do
  (carries, ignored) ← walk_container (λ _. contents) (cms_visit contents) false
  some carries

-- The state of the walk that checks or repairs.
pub record Walked : Type 0 where
  pub buffer : Buffer
  pub modified : Bool

module _ (hashes : Hashes) where
  -- The closure that calls `fixupSlice`.
  unfoldable pub fixup_visit : String → Bool → ℕ → ℕ → Walked → Option (Walked × Option Error)
  fixup_visit path write slice_base slice_end w = do
    r ← fixup_slice hashes slice_base slice_end path write w.buffer
    some (record { buffer = r.buffer; modified = w.modified || r.modified }, r.failed)

  unfoldable pub walk_fixup : String → Bool → Buffer → Option (Walked × Option Error)
  walk_fixup path write buf =
      walk_container (λ w. w.buffer.bytes) (fixup_visit path write)
        (record { buffer = buf; modified = false })

  -- `walk`
  unfoldable pub walk : String → Bool → Buffer → Option (Walked × Option Error)
  walk path true buf = do
    carries ← any_cms buf.bytes
    if carries
        then some (record { buffer = buf; modified = false }, some (cms_repair path))
        else walk_fixup path true buf
  walk path false buf = walk_fixup path false buf

  -- `Check`
  unfoldable pub check : List ℕ → String → Option Bool
  check contents path = do
    (w, ignored) ← walk path false (record { bytes = contents; changed = none })
    some w.modified

  -- `Repair`: the slice that it leaves, the journal, and the flag and the error that it returns.
  unfoldable pub repair : List ℕ → String → Option (Walked × Option Error)
  repair contents path = walk path true (record { bytes = contents; changed = some [] })
