-- ===== src/Engine/Signature.antt =====
-- engine/engine.go: `findSignature`, `hasNonEmptyCMS`, `detectSlice` and `sliceCarriesCMS`.
-- Offsets are sums of a position in the file and of 32-bit fields, far below the 2^63 of Go's `int`.
pub mod Bounds
pub mod Kinds
use machokeeper.Base.{
  ℕ, zero, suc, ◌+◌, ◌*◌, Bool, true, false, not, ◌||◌, Option, none, some, List, ltb, ◌==◌,
  if◌then◌else◌, length, ◌>>=◌,
}
use machokeeper.Engine.Defs.{
  Kind, unsigned, ad_hoc, cms, mach_magic32, mach_magic64, mach_header_size32, mach_header_size64,
  lc_code_signature, load_command_size, linkedit_data_cmd_size, super_blob_header_size,
  blob_index_size, cs_slot_signature, cs_magic_blob_wrapper, cs_magic_embedded_signature,
  max_super_blob_count,
}
use machokeeper.Engine.Read.{rd_le32, rd_be32}

-- The offset, relative to the slice, and the size that LC_CODE_SIGNATURE names.
abbrev pub Location : Type 0
Location = ℕ × ℕ

-- An LC_CODE_SIGNATURE command.
unfoldable pub read_location : List ℕ → ℕ → ℕ → Option (Option Location)
read_location b lc_off cmdsize = if ltb cmdsize linkedit_data_cmd_size then some none else do
  sig_off ← rd_le32 b (lc_off + 8)
  sig_size ← rd_le32 b (lc_off + 12)
  some (some (sig_off, sig_size))

-- The loop over the load commands, `n` of them left.
unfoldable pub find_loop : List ℕ → ℕ → ℕ → ℕ → Option (Option Location)
find_loop b zero lc_off lc_end = some none
find_loop b (suc n) lc_off lc_end =
    if ltb lc_end (lc_off + load_command_size) then some none else do
      cmd ← rd_le32 b lc_off
      cmdsize ← rd_le32 b (lc_off + 4)
      let rest = find_loop b n (lc_off + cmdsize) lc_end
      if ltb cmdsize load_command_size || ltb lc_end (lc_off + cmdsize)
          then some none
          else if cmd == lc_code_signature
          then read_location b lc_off cmdsize
          else rest

-- The size of the header that a magic number announces.
unfoldable pub header_size_of : ℕ → Option ℕ
header_size_of magic =
    if magic == mach_magic64
    then some mach_header_size64
    else if magic == mach_magic32
    then some mach_header_size32
    else none

-- `findSignature` behind the switch on the magic. A 32-bit `sizeofcmds` is no negative `int`.
unfoldable pub find_commands : List ℕ → ℕ → ℕ → Option (Option Location)
find_commands b slice_base header_size =
    if ltb (length b) (slice_base + header_size) then some none else do
      ncmds ← rd_le32 b (slice_base + 16)
      sizeofcmds ← rd_le32 b (slice_base + 20)
      if ltb (length b) (slice_base + header_size + sizeofcmds)
          then some none
          else find_loop b ncmds (slice_base + header_size) (slice_base + header_size + sizeofcmds)

-- `findSignature`
unfoldable pub find_signature : List ℕ → ℕ → Option (Option Location)
find_signature b slice_base =
    if ltb (length b) (slice_base + mach_header_size32) then some none else do
      magic ← rd_le32 b slice_base
      elim (header_size_of magic) [
        | none ↦ some none
        | some header_size ↦ find_commands b slice_base header_size
      ]

-- Whether one entry of a SuperBlob is a signature slot with more than the empty wrapper.
unfoldable pub entry_is_cms : List ℕ → ℕ → ℕ → ℕ → Option Bool
entry_is_cms b sb_abs sig_size entry_off = do
  slot ← rd_be32 b entry_off
  if not (slot == cs_slot_signature) then some false else do
    blob_rel ← rd_be32 b (entry_off + 4)
    if ltb sig_size blob_rel || ltb (sb_abs + sig_size) (sb_abs + blob_rel + 8)
        then some false
        else do
          magic ← rd_be32 b (sb_abs + blob_rel)
          if not (magic == cs_magic_blob_wrapper)
              then some false
              else do blob_length ← rd_be32 b (sb_abs + blob_rel + 4); some (ltb 8 blob_length)

-- The loop of `hasNonEmptyCMS`, `n` entries left.
unfoldable pub cms_loop : List ℕ → ℕ → ℕ → ℕ → ℕ → Option Bool
cms_loop b sb_abs sig_size zero bi = some false
cms_loop b sb_abs sig_size (suc n) bi =
    let entry_off = sb_abs + super_blob_header_size + bi * blob_index_size in
    if ltb (sb_abs + sig_size) (entry_off + blob_index_size) then some false else do
      found ← entry_is_cms b sb_abs sig_size entry_off
      let rest = cms_loop b sb_abs sig_size n (bi + 1)
      if found then some true else rest

-- `hasNonEmptyCMS`
unfoldable pub has_non_empty_cms : List ℕ → ℕ → ℕ → ℕ → Option Bool
has_non_empty_cms b sb_abs sig_size sb_count = cms_loop b sb_abs sig_size sb_count 0

-- The tests of `detectSlice`, `sliceCarriesCMS` and `fixupSlice` on the SuperBlob's header: its
-- number of entries, or `none` where it does not parse.
unfoldable pub super_blob_count : List ℕ → ℕ → ℕ → Option (Option ℕ)
super_blob_count b sb_abs sig_size =
    if ltb sig_size super_blob_header_size
      || ltb (length b) (sb_abs + sig_size)
      || ltb (sb_abs + sig_size) sb_abs
    then some none
    else do
      magic ← rd_be32 b sb_abs
      if not (magic == cs_magic_embedded_signature) then some none else do
        sb_count ← rd_be32 b (sb_abs + 8)
        if ltb max_super_blob_count sb_count then some none else some (some sb_count)

-- `detectSlice`
unfoldable pub detect_slice : List ℕ → ℕ → Option Kind
detect_slice b slice_base = do
  found ← find_signature b slice_base
  elim found [
    | none ↦ some unsigned
    | some (sig_off, sig_size) ↦ do
      count ← super_blob_count b (slice_base + sig_off) sig_size
      elim count [
        | none ↦ some ad_hoc
        | some sb_count ↦ do
          carries ← has_non_empty_cms b (slice_base + sig_off) sig_size sb_count
          if carries then some cms else some ad_hoc
      ]
  ]

-- `sliceCarriesCMS`
unfoldable pub slice_carries_cms : List ℕ → ℕ → Option Bool
slice_carries_cms b slice_base = do
  found ← find_signature b slice_base
  elim found [
    | none ↦ some false
    | some (sig_off, sig_size) ↦ do
      count ← super_blob_count b (slice_base + sig_off) sig_size
      elim count [
        | none ↦ some false
        | some sb_count ↦ has_non_empty_cms b (slice_base + sig_off) sig_size sb_count
      ]
  ]
