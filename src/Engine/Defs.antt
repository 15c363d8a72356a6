-- ===== src/Engine/Defs.antt =====
-- engine/engine.go: the constants, the kinds of signature, the error and the recorded changes.
-- A byte slice is a list of numbers below 256.
use machokeeper.Base.{ℕ, ◌≡◌, String, ℤ, List, Bool, true, false, length}

abbrev pub mach_magic32 : ℕ
mach_magic32 = 0xfeedface

abbrev pub mach_magic64 : ℕ
mach_magic64 = 0xfeedfacf

abbrev pub fat_magic32 : ℕ
fat_magic32 = 0xcafebabe

abbrev pub fat_magic64 : ℕ
fat_magic64 = 0xcafebabf

abbrev pub lc_code_signature : ℕ
lc_code_signature = 0x1d

abbrev pub cs_magic_embedded_signature : ℕ
cs_magic_embedded_signature = 0xfade0cc0

abbrev pub cs_magic_code_directory : ℕ
cs_magic_code_directory = 0xfade0c02

abbrev pub cs_magic_blob_wrapper : ℕ
cs_magic_blob_wrapper = 0xfade0b01

abbrev pub cs_slot_signature : ℕ
cs_slot_signature = 0x10000

abbrev pub cs_hash_type_sha1 : ℕ
cs_hash_type_sha1 = 1

abbrev pub cs_hash_type_sha256 : ℕ
cs_hash_type_sha256 = 2

abbrev pub cs_hash_size_sha1 : ℕ
cs_hash_size_sha1 = 20

abbrev pub cs_hash_size_sha256 : ℕ
cs_hash_size_sha256 = 32

abbrev pub max_page_size_log2 : ℕ
max_page_size_log2 = 16

abbrev pub mach_header_size32 : ℕ
mach_header_size32 = 28

abbrev pub mach_header_size64 : ℕ
mach_header_size64 = 32

abbrev pub fat_header_size : ℕ
fat_header_size = 8

abbrev pub fat_arch_size32 : ℕ
fat_arch_size32 = 20

abbrev pub fat_arch_size64 : ℕ
fat_arch_size64 = 32

abbrev pub load_command_size : ℕ
load_command_size = 8

abbrev pub linkedit_data_cmd_size : ℕ
linkedit_data_cmd_size = 16

abbrev pub super_blob_header_size : ℕ
super_blob_header_size = 12

abbrev pub blob_index_size : ℕ
blob_index_size = 8

abbrev pub cd_header_size : ℕ
cd_header_size = 44

abbrev pub max_n_fat_arch : ℕ
max_n_fat_arch = 128

abbrev pub max_super_blob_count : ℕ
max_super_blob_count = 16

-- `Kind`, in the order of its values: `unsigned` is the source's `None`.
pub data Kind : Type 0 where
  unsigned ad_hoc cms : Kind

-- `Kind.String`. A value out of range has no counterpart here.
unfoldable pub kind_string : Kind → String
kind_string unsigned = "unsigned"
kind_string ad_hoc = "ad-hoc"
kind_string cms = "CMS (Developer ID)"

-- `k > result` on the values of a Kind.
abbrev pub stronger : Kind → Kind → Bool
stronger unsigned result = false
stronger ad_hoc unsigned = true
stronger ad_hoc _ = false
stronger cms cms = false
stronger cms _ = true

-- `ErrCMSRepair`, with its path.
pub data Error : Type 0 where
  cms_repair : String → Error

-- `Change`. An offset is an int64: a repair writes none below zero, a journal may hold any.
pub record Change : Type 0 where
  pub offset : ℤ
  pub old : List ℕ
  pub new : List ℕ

-- `crypto/sha1` and `crypto/sha256`: functions from bytes to digests of a fixed length.
pub record Hashes : Type 0 where
  pub sha1 : List ℕ → List ℕ
  pub sha256 : List ℕ → List ℕ
  pub length-sha1 : (bytes : List ℕ) → length (sha1 bytes) ≡ cs_hash_size_sha1
  pub length-sha256 : (bytes : List ℕ) → length (sha256 bytes) ≡ cs_hash_size_sha256
