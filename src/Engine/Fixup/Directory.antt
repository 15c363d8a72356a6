-- ===== src/Engine/Fixup/Directory.antt =====
-- What the fields of a CodeDirectory are, and what the tests of `fixupSlice` on them give.
use machokeeper.Base.{
  ℕ, ◌+◌, ◌*◌, ◌^◌, ◌≤◌, ◌<◌, ◌≡◌, false, some, List, arith, length, ◌⊎◌, inl, inr,
}
use machokeeper.Engine.Defs.{Hashes}
use machokeeper.Engine.Read.{be32, byte, rd_be32_within, rd_byte_within}
use machokeeper.Engine.Fixup.{CodeDirectory, rd_code_directory, Region, malformed, hash_of}

-- The directory at `blob_abs`.
unfoldable pub code_directory : List ℕ → ℕ → CodeDirectory
code_directory b blob_abs = record {
  hash_offset = be32 b (blob_abs + 16);
  n_special_slots = be32 b (blob_abs + 24);
  n_code_slots = be32 b (blob_abs + 28);
  code_limit = be32 b (blob_abs + 32);
  hash_size = byte b (blob_abs + 36);
  hash_type = byte b (blob_abs + 37);
  page_size_log2 = byte b (blob_abs + 39);
}

pub rd_code_directory_within :
    (b : List ℕ) (blob_abs : ℕ)
    → blob_abs + 44 ≤ length b
    → rd_code_directory b blob_abs ≡ some (code_directory b blob_abs)
unfolding rd_code_directory code_directory
rd_code_directory_within b blob h = rw (
  rd_be32_within b (blob + 16) (omega arith),
  rd_be32_within b (blob + 24) (omega arith),
  rd_be32_within b (blob + 28) (omega arith),
  rd_be32_within b (blob + 32) (omega arith),
  rd_byte_within b (blob + 36) (omega arith),
  rd_byte_within b (blob + 37) (omega arith),
  rd_byte_within b (blob + 39) (omega arith),
)

-- What a directory that passes the tests satisfies, in exact arithmetic.
pub record IsUsable (g : Region) (size blob_abs cd_length : ℕ) (cd : CodeDirectory) : Type 0 where
  pub slots_fit : blob_abs + cd.hash_offset + cd.n_code_slots * cd.hash_size ≤ size
  pub slots_in_blob :
      blob_abs + cd.hash_offset + cd.n_code_slots * cd.hash_size ≤ blob_abs + cd_length
  pub special_fit : cd.n_special_slots * cd.hash_size ≤ cd.hash_offset
  pub page_size_pos : 0 < cd.page_size_log2
  pub page_size_bound : cd.page_size_log2 ≤ 16
  pub limit_fits : g.slice_base + cd.code_limit ≤ g.slice_end

abbrev pub IsDigestSize : ℕ → Type 0
IsDigestSize n = (n ≡ 20) ⊎ (n ≡ 32)

module _ (g : Region) (size blob_abs cd_length : ℕ) (cd : CodeDirectory) (n : ℕ) where
  pub malformed-hash_size : malformed g size blob_abs cd_length cd n ≡ false → cd.hash_size ≡ n
  unfolding malformed
  malformed-hash_size e = ground arith

  -- The wrap-around of the source's uint64 sums plays no part.
  pub malformed-IsUsable :
      malformed g size blob_abs cd_length cd n ≡ false
      → IsDigestSize n
      → size < 2 ^ 62
      → blob_abs ≤ size
      → g.slice_base ≤ size
      → cd_length < 2 ^ 32
      → cd.n_code_slots < 2 ^ 32
      → cd.n_special_slots < 2 ^ 32
      → cd.code_limit < 2 ^ 32
      → IsUsable g size blob_abs cd_length cd
  unfolding malformed
  malformed-IsUsable e (inl d) h1 h2 h3 h4 h5 h6 h7 = ground arith
  malformed-IsUsable e (inr d) h1 h2 h3 h4 h5 h6 h7 = ground arith

pub hash_of-IsDigestSize :
    (hashes : Hashes) (hash_type n : ℕ) (digest : List ℕ → List ℕ)
    → hash_of hashes hash_type ≡ some (digest, n)
    → IsDigestSize n
unfolding hash_of
hash_of-IsDigestSize hashes t n digest e = ground arith

pub length-hash_of :
    (hashes : Hashes) (hash_type n : ℕ) (digest : List ℕ → List ℕ)
    → hash_of hashes hash_type ≡ some (digest, n)
    → (bytes : List ℕ) → length (digest bytes) ≡ n
unfolding hash_of
length-hash_of hashes t n digest e bytes =
    ground (arith, hashes.length-sha1 bytes, hashes.length-sha256 bytes)
