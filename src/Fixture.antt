-- ===== src/Fixture.antt =====
-- internal/machofixture/machofixture.go: the Mach-O files that the Go tests of the higher layers use.
-- The constants are the source's own, apart from the engine's. `none` is a panic.
pub mod Size
use machokeeper.Base.{
  ℕ, ◌+◌, ◌*◌, ◌/◌, ◌%◌, ◌^◌, Bool, true, false, Option, none, some, List, [], ◌∷◌, ◌++◌, ◌>>=◌,
  if◌then◌else◌, ltb, leb, length, replicate, copy_at, u32,
}

abbrev pub mach_magic64 : ℕ
mach_magic64 = 0xfeedfacf

abbrev pub lc_code_signature : ℕ
lc_code_signature = 0x1d

abbrev pub cs_magic_embedded_signature : ℕ
cs_magic_embedded_signature = 0xfade0cc0

abbrev pub cs_magic_code_directory : ℕ
cs_magic_code_directory = 0xfade0c02

abbrev pub cs_magic_blob_wrapper : ℕ
cs_magic_blob_wrapper = 0xfade0b01

abbrev pub cs_slot_signature : ℕ
cs_slot_signature = 0x10000

abbrev pub cs_hash_type_sha256 : ℕ
cs_hash_type_sha256 = 2

abbrev pub cs_hash_size_sha256 : ℕ
cs_hash_size_sha256 = 32

-- One assignment: where, and which bytes.
pub record Write : Type 0 where
  pub offset : ℕ
  pub bytes : List ℕ

-- `le32` and `be32`, with the bytes that `PutUint32` puts, and the assignment of a byte.
unfoldable pub le32 : ℕ → ℕ → Write
le32 o v = record {
  offset = o;
  bytes = v % 256 ∷ v / 2 ^ 8 % 256 ∷ v / 2 ^ 16 % 256 ∷ v / 2 ^ 24 % 256 ∷ [];
}

unfoldable pub be32 : ℕ → ℕ → Write
be32 o v = record {
  offset = o;
  bytes = v / 2 ^ 24 % 256 ∷ v / 2 ^ 16 % 256 ∷ v / 2 ^ 8 % 256 ∷ v % 256 ∷ [];
}

unfoldable pub byte : ℕ → ℕ → Write
byte o v = record { offset = o; bytes = v ∷ [] }

-- An assignment panics out of range.
unfoldable pub write : Write → List ℕ → Option (List ℕ)
write w s =
    if leb (w.offset + length w.bytes) (length s) then some (copy_at s w.offset w.bytes) else none

unfoldable pub write_all : List Write → List ℕ → Option (List ℕ)
write_all [] s = some s
write_all (w ∷ ws) s = do s' ← write w s; write_all ws s'

-- The sizes that `build` computes.
pub record Layout : Type 0 where
  pub pages : ℕ
  pub cms_len : ℕ
  pub have_cms : Bool
  pub sig_off : ℕ
  pub n_blobs : ℕ
  pub sb_header : ℕ
  pub cd_len : ℕ
  pub sig_size : ℕ

unfoldable pub layout : ℕ → ℕ → Layout
layout pages cms_len =
    let have_cms = ltb 0 cms_len in
    let n_blobs = if have_cms then 2 else 1 in
    let sb_header = 12 + n_blobs * 8 in
    let cd_len = 44 + pages * cs_hash_size_sha256 in
    record {
      pages = pages;
      cms_len = cms_len;
      have_cms = have_cms;
      sig_off = pages * 4096;
      n_blobs = n_blobs;
      sb_header = sb_header;
      cd_len = cd_len;
      sig_size = if have_cms then sb_header + cd_len + cms_len else sb_header + cd_len;
    }

-- The header and the load command.
unfoldable pub header_writes : Layout → List Write
header_writes l =
    le32 0 mach_magic64
    ∷ le32 16 1
    ∷ le32 20 16
    ∷ le32 32 lc_code_signature
    ∷ le32 36 16
    ∷ le32 40 (u32 l.sig_off)
    ∷ le32 44 (u32 l.sig_size)
    ∷ []

-- The SuperBlob, without the entry of the CMS blob.
unfoldable pub blob_writes : Layout → List Write
blob_writes l =
    be32 l.sig_off cs_magic_embedded_signature
    ∷ be32 (l.sig_off + 4) (u32 l.sig_size)
    ∷ be32 (l.sig_off + 8) (u32 l.n_blobs)
    ∷ be32 (l.sig_off + 12) 0
    ∷ be32 (l.sig_off + 16) (u32 l.sb_header)
    ∷ []

unfoldable pub entry_writes : Layout → List Write
entry_writes l =
    if l.have_cms
    then be32 (l.sig_off + 20) cs_slot_signature
      ∷ be32 (l.sig_off + 24) (u32 (l.sb_header + l.cd_len))
      ∷ []
    else []

-- The CodeDirectory. Its slots stay zero.
unfoldable pub directory_writes : Layout → List Write
directory_writes l =
    let cd_off = l.sig_off + l.sb_header in
    be32 cd_off cs_magic_code_directory
    ∷ be32 (cd_off + 4) (u32 l.cd_len)
    ∷ be32 (cd_off + 16) 44
    ∷ be32 (cd_off + 24) 0
    ∷ be32 (cd_off + 28) (u32 l.pages)
    ∷ be32 (cd_off + 32) (u32 l.sig_off)
    ∷ byte (cd_off + 36) cs_hash_size_sha256
    ∷ byte (cd_off + 37) cs_hash_type_sha256
    ∷ byte (cd_off + 39) 12
    ∷ []

unfoldable pub cms_writes : Layout → List Write
cms_writes l =
    let cms_off = l.sig_off + l.sb_header + l.cd_len in
    if l.have_cms
    then be32 cms_off cs_magic_blob_wrapper ∷ be32 (cms_off + 4) (u32 l.cms_len) ∷ []
    else []

-- `build`
unfoldable pub build : ℕ → ℕ → Option (List ℕ)
build pages cms_len =
    let l = layout pages cms_len in
    write_all
      (header_writes l
        ++ (blob_writes l ++ (entry_writes l ++ (directory_writes l ++ cms_writes l))))
      (replicate l.sig_off b'A' ++ replicate l.sig_size 0)

-- `Repairable` and `CMS`
unfoldable pub repairable : ℕ → Option (List ℕ)
repairable pages = build pages 0

unfoldable pub with_cms : ℕ → Option (List ℕ)
with_cms pages = build pages 64

-- `Unsigned`
unfoldable pub unsigned : Option (List ℕ)
unsigned =
    write_all (le32 0 mach_magic64 ∷ le32 16 1 ∷ le32 20 16 ∷ le32 32 0x32 ∷ le32 36 16 ∷ [])
      (replicate 48 0)
