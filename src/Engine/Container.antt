-- ===== src/Engine/Container.antt =====
-- engine/engine.go: `validSliceBounds` and `walkContainer`.
pub mod Rules
pub mod Maps
pub mod Slices
pub mod Visits
pub mod Only
use machokeeper.Base.{
  ℕ, zero, suc, ◌+◌, ◌-◌, ◌*◌, ◌^◌, Bool, true, false, not, ◌&&◌, ◌||◌, Option, none, some, List,
  ltb, leb, ◌==◌, if◌then◌else◌, length, ◌>>=◌, u64,
}
use machokeeper.Engine.Defs.{
  Error, mach_magic32, mach_magic64, fat_magic32, fat_magic64, mach_header_size32, fat_header_size,
  fat_arch_size32, fat_arch_size64, max_n_fat_arch,
}
use machokeeper.Engine.Read.{rd_le32, rd_be32, rd_be64}

-- `validSliceBounds`, with the subtraction of its uint64 arguments written out.
unfoldable pub valid_slice_bounds : ℕ → ℕ → ℕ → ℕ → Bool
valid_slice_bounds slice_off slice_size arch_array_end file_size =
    if slice_size == 0 || ltb slice_off arch_array_end || leb file_size slice_off
    then false
    else leb slice_size (u64 (file_size + 2 ^ 64 - slice_off))

-- The container's kind, from the two readings of its magic.
pub data Format : Type 0 where
  thin fat32 fat64 other : Format

unfoldable pub format : ℕ → ℕ → Format
format magic_le magic_be =
    if magic_le == mach_magic32 || magic_le == mach_magic64
    then thin
    else if not (magic_be == fat_magic32) && not (magic_be == fat_magic64)
    then other
    else if magic_be == fat_magic64
    then fat64
    else fat32

abbrev pub arch_size_of : Bool → ℕ
arch_size_of is64 = if is64 then fat_arch_size64 else fat_arch_size32

-- The offset and the size of a slice, from its fat_arch entry.
unfoldable pub rd_arch : List ℕ → Bool → ℕ → Option (ℕ × ℕ)
rd_arch b true arch_off = do
  slice_off ← rd_be64 b (arch_off + 8)
  slice_size ← rd_be64 b (arch_off + 16)
  some (slice_off, slice_size)
rd_arch b false arch_off = do
  slice_off ← rd_be32 b (arch_off + 8)
  slice_size ← rd_be32 b (arch_off + 12)
  some (slice_off, slice_size)

-- The visitor's state may hold the bytes that the walk reads: a repair writes to them meanwhile.
-- A visit returns the new state and Go's error.
module _ {S : Type 0} (contents : S → List ℕ) (visit : ℕ → ℕ → S → Option (S × Option Error)) where
  -- One round of the loop over the fat_arch array.
  unfoldable pub visit_arch : Bool → ℕ → ℕ → S → Option (S × Option Error)
  visit_arch is64 arch_array_end i s = do
    (slice_off, slice_size) ← rd_arch (contents s) is64 (fat_header_size + i * arch_size_of is64)
    if not (valid_slice_bounds slice_off slice_size arch_array_end (length (contents s)))
        then some (s, none)
        else visit slice_off (u64 (slice_off + slice_size)) s

  -- The loop, `n` entries left. An error ends it.
  unfoldable pub walk_archs : Bool → ℕ → ℕ → ℕ → S → Option (S × Option Error)
  walk_archs is64 arch_array_end zero i s = some (s, none)
  walk_archs is64 arch_array_end (suc n) i s = do
    (s', failed) ← visit_arch is64 arch_array_end i s
    let rest = walk_archs is64 arch_array_end n (i + 1) s'
    elim failed [ none ↦ rest | some e ↦ some (s', some e) ]

  -- The part of `walkContainer` for fat containers.
  unfoldable pub walk_fat : Bool → S → Option (S × Option Error)
  walk_fat is64 s = do
    nfat ← rd_be32 (contents s) 4
    let arch_array_end = u64 (fat_header_size + u64 (nfat * arch_size_of is64))
    if nfat == 0 || ltb max_n_fat_arch nfat || ltb (length (contents s)) arch_array_end
        then some (s, none)
        else walk_archs is64 arch_array_end nfat 0 s

  -- `walkContainer`
  unfoldable pub walk_container : S → Option (S × Option Error)
  walk_container s = if ltb (length (contents s)) mach_header_size32 then some (s, none) else do
    magic_le ← rd_le32 (contents s) 0
    magic_be ← rd_be32 (contents s) 0
    elim (format magic_le magic_be) [
      | thin ↦ visit 0 (length (contents s)) s
      | fat32 ↦ walk_fat false s
      | fat64 ↦ walk_fat true s
      | other ↦ some (s, none)
    ]
