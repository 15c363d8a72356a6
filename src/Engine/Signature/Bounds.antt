-- ===== src/Engine/Signature/Bounds.antt =====
-- engine/engine.go: the reads of `findSignature`, `hasNonEmptyCMS`, `detectSlice` and
-- `sliceCarriesCMS`.
use machokeeper.Base.{ℕ, zero, suc, ◌+◌, ◌*◌, ◌≤◌, ◌≡◌, ◌≢◌, none, some, List, arith, length}
use machokeeper.Engine.Read.{le32, be32, rd_le32_within, rd_be32_within}
use machokeeper.Engine.Signature.{
  read_location, find_loop, header_size_of, find_commands, find_signature, entry_is_cms, cms_loop,
  has_non_empty_cms, super_blob_count,
}

module _ (b : List ℕ) where
  read_location-ne-none :
      (lc_off cmdsize : ℕ) → lc_off + cmdsize ≤ length b → read_location b lc_off cmdsize ≢ none
  unfolding read_location
  read_location-ne-none lc_off cmdsize h =
      ground (arith, rd_le32_within b (lc_off + 8), rd_le32_within b (lc_off + 12))

  find_loop-ne-none : (n lc_off lc_end : ℕ) → lc_end ≤ length b → find_loop b n lc_off lc_end ≢ none
  unfolding find_loop
  find_loop-ne-none zero lc_off lc_end h = λ e. ground arith
  find_loop-ne-none (suc n) lc_off lc_end h = ground (
    arith,
    rd_le32_within b lc_off,
    rd_le32_within b (lc_off + 4),
    read_location-ne-none lc_off (le32 b (lc_off + 4)),
    find_loop-ne-none n (lc_off + le32 b (lc_off + 4)) lc_end h,
  )

  find_commands-ne-none :
      (slice_base header_size : ℕ)
      → 28 ≤ header_size
      → find_commands b slice_base header_size ≢ none
  unfolding find_commands
  find_commands-ne-none base header h = ground (
    arith,
    rd_le32_within b (base + 16),
    rd_le32_within b (base + 20),
    find_loop-ne-none (le32 b (base + 16)) (base + header) (base + header + le32 b (base + 20)),
  )

  header_size_of-ge : (magic header : ℕ) → header_size_of magic ≡ some header → 28 ≤ header
  unfolding header_size_of
  header_size_of-ge magic header e = ground arith

  pub find_signature-ne-none : (slice_base : ℕ) → find_signature b slice_base ≢ none
  unfolding find_signature header_size_of
  find_signature-ne-none base =
      ground
        (arith, rd_le32_within b base, find_commands-ne-none base 28, find_commands-ne-none base 32)

  entry_is_cms-ne-none :
      (sb_abs sig_size entry_off : ℕ)
      → sb_abs + sig_size ≤ length b
      → entry_off + 8 ≤ length b
      → entry_is_cms b sb_abs sig_size entry_off ≢ none
  unfolding entry_is_cms
  entry_is_cms-ne-none sb_abs sig_size entry_off h k =
      let blob = sb_abs + be32 b (entry_off + 4) in
      ground (
        arith,
        rd_be32_within b entry_off,
        rd_be32_within b (entry_off + 4),
        rd_be32_within b blob,
        rd_be32_within b (blob + 4),
      )

  cms_loop-ne-none :
      (sb_abs sig_size n bi : ℕ)
      → sb_abs + sig_size ≤ length b
      → cms_loop b sb_abs sig_size n bi ≢ none
  unfolding cms_loop
  cms_loop-ne-none sb_abs sig_size zero bi h = λ e. ground arith
  cms_loop-ne-none sb_abs sig_size (suc n) bi h = ground (
    arith,
    entry_is_cms-ne-none sb_abs sig_size (sb_abs + 12 + bi * 8) h,
    cms_loop-ne-none sb_abs sig_size n (bi + 1) h,
  )

  pub has_non_empty_cms-ne-none :
      (sb_abs sig_size sb_count : ℕ)
      → sb_abs + sig_size ≤ length b
      → has_non_empty_cms b sb_abs sig_size sb_count ≢ none
  unfolding has_non_empty_cms
  has_non_empty_cms-ne-none sb_abs sig_size sb_count h =
      cms_loop-ne-none sb_abs sig_size sb_count 0 h

  pub super_blob_count-ne-none : (sb_abs sig_size : ℕ) → super_blob_count b sb_abs sig_size ≢ none
  unfolding super_blob_count
  super_blob_count-ne-none sb_abs sig_size =
      ground (arith, rd_be32_within b sb_abs, rd_be32_within b (sb_abs + 8))

  -- A SuperBlob that parses lies within the file.
  pub super_blob_count_within :
      (sb_abs sig_size count : ℕ)
      → super_blob_count b sb_abs sig_size ≡ some (some count)
      → sb_abs + sig_size ≤ length b
  unfolding super_blob_count
  super_blob_count_within sb_abs sig_size count e = ground arith
