-- ===== src/Engine/Verify/Spec.antt =====
-- A signature is valid if it parses and every slot of each of its CodeDirectories holds the hash of
-- its page. All sums are exact.
use Prim.Native.Nat.{min}
use machokeeper.Base.{ℕ, ◌+◌, ◌-◌, ◌*◌, ◌≤◌, ◌<◌, ◌≡◌, false, some, List, length, window}
use machokeeper.Engine.Defs.{Hashes, cs_magic_code_directory}
use machokeeper.Engine.Read.{be32}
use machokeeper.Engine.Signature.{Location, find_signature, super_blob_count}
use machokeeper.Engine.Fixup.{Pages, Region, hash_of, pages_of}
use machokeeper.Engine.Fixup.Directory.{code_directory, IsUsable}

abbrev pub page_lo : Pages → ℕ → ℕ
page_lo p i = p.slice_base + i * p.page_size

abbrev pub page_hi : Pages → ℕ → ℕ
page_hi p i = min (p.slice_base + (i + 1) * p.page_size) (p.slice_base + p.code_limit)

-- Page `i` lies in the file, and slot `i` holds its hash.
pub record IsPageValid (b : List ℕ) (p : Pages) (i : ℕ) : Type 0 where
  pub ordered : page_lo p i ≤ page_hi p i
  pub in_file : page_hi p i ≤ length b
  pub hashed :
      window b (p.slots_abs + i * p.hash_size) p.hash_size
      ≡ p.digest (window b (page_lo p i) (page_hi p i - page_lo p i))

-- Where entry `bi` of the SuperBlob lies, and its blob.
abbrev pub entry_at : Region → ℕ → ℕ
entry_at g bi = g.sb_abs + 12 + bi * 8

abbrev pub blob_at : List ℕ → Region → ℕ → ℕ
blob_at b g bi = g.sb_abs + be32 b (entry_at g bi + 4)

-- The region of a slice that a check visits.
abbrev pub region : ℕ → ℕ → Location → Region
region base stop (sig_off, sig_size) = record {
  slice_base = base;
  slice_end = stop;
  sb_abs = base + sig_off;
  sig_size = sig_size;
  write = false;
}

module _ (hashes : Hashes) where
  -- The CodeDirectory at `blob` lies in the signature, has a known hash, fits, and all its pages are
  -- valid.
  pub record IsDirectoryValid (b : List ℕ) (g : Region) (blob : ℕ) : Type 0 where
    pub header_fits : blob + 44 ≤ g.sb_abs + g.sig_size
    pub length_min : 44 ≤ be32 b (blob + 4)
    pub length_fits : blob + be32 b (blob + 4) ≤ g.sb_abs + g.sig_size
    pub length_max : be32 b (blob + 4) ≤ g.sig_size
    pub digest : List ℕ → List ℕ
    pub known :
        hash_of hashes (code_directory b blob).hash_type
        ≡ some (digest, (code_directory b blob).hash_size)
    pub usable : IsUsable g (length b) blob (be32 b (blob + 4)) (code_directory b blob)
    pub pages :
        (i : ℕ)
        → i < (code_directory b blob).n_code_slots
        → IsPageValid b (pages_of g blob (code_directory b blob) digest) i

  -- Entry `bi` of the SuperBlob and its blob lie in the signature; a CodeDirectory is valid.
  pub record IsEntryValid (b : List ℕ) (g : Region) (bi : ℕ) : Type 0 where
    pub entry_fits : entry_at g bi + 8 ≤ g.sb_abs + g.sig_size
    pub blob_starts : be32 b (entry_at g bi + 4) ≤ g.sig_size
    pub blob_fits : blob_at b g bi + 8 ≤ g.sb_abs + g.sig_size
    pub directory :
        be32 b (blob_at b g bi) ≡ cs_magic_code_directory → IsDirectoryValid b g (blob_at b g bi)

  -- The SuperBlob parses, its entries are valid, and one of them is a CodeDirectory.
  pub record IsSignatureValid (b : List ℕ) (g : Region) : Type 0 where
    pub count : ℕ
    pub parses : super_blob_count b g.sb_abs g.sig_size ≡ some (some count)
    pub entries : (bi : ℕ) → bi < count → IsEntryValid b g bi
    pub directory_entry : ℕ
    pub directory_in_range : directory_entry < count
    pub directory_there : be32 b (blob_at b g directory_entry) ≡ cs_magic_code_directory

  -- If the slice has a signature, that is valid.
  abbrev pub IsSliceValid : List ℕ → ℕ → ℕ → Type 0
  IsSliceValid b base stop =
      (l : Location)
      → find_signature b base ≡ some (some l)
      → IsSignatureValid b (region base stop l)
