-- ===== src/Engine/Fixup.antt =====
-- engine/engine.go: `fixupSlice`, from its innermost loop outwards, and `bytesEqual`.
pub mod Frame
pub mod Directory
use machokeeper.Base.{
  ℕ, zero, suc, ◌+◌, ◌*◌, ◌^◌, String, Bool, true, false, not, ◌&&◌, ◌||◌, Option, none, some, List,
  [], ◌∷◌, ◌++◌, ltb, ◌==◌, if◌then◌else◌, length, copy_at, ◌>>=◌, u64, pos,
}
use machokeeper.Engine.Defs.{
  Error, cms_repair, Change, Hashes, cs_hash_type_sha1, cs_hash_type_sha256, cs_hash_size_sha1,
  cs_hash_size_sha256, max_page_size_log2, cd_header_size, cs_magic_code_directory,
  super_blob_header_size, blob_index_size,
}
use machokeeper.Engine.Read.{rd_be32, rd_byte, rd_slice}
use machokeeper.Engine.Signature.{find_signature, super_blob_count, has_non_empty_cms}

-- `bytesEqual`
unfoldable pub bytes_equal : List ℕ → List ℕ → Bool
bytes_equal [] [] = true
bytes_equal [] (b ∷ bs) = false
bytes_equal (a ∷ xs) [] = false
bytes_equal (a ∷ xs) (b ∷ bs) = a == b && bytes_equal xs bs

-- The file's bytes and the journal. `none` is the nil pointer that a check passes for `changed`.
pub record Buffer : Type 0 where
  pub bytes : List ℕ
  pub changed : Option (List Change)

-- The variables of the loops: the buffer and the three flags.
pub record Progress : Type 0 where
  pub buffer : Buffer
  pub modified : Bool
  pub unverifiable : Bool
  pub any_code_directory : Bool

abbrev pub suspect : Progress → Progress
suspect s = record s { unverifiable = true }

abbrev pub log_change : Change → Option (List Change) → Option (List Change)
log_change c none = none
log_change c (some cs) = some (cs ++ (c ∷ []))

-- What stays fixed while the slots of one CodeDirectory are visited.
pub record Pages : Type 0 where
  pub digest : List ℕ → List ℕ
  pub hash_size : ℕ
  pub page_size : ℕ
  pub slots_abs : ℕ
  pub slice_base : ℕ
  pub code_limit : ℕ

-- `pageEnd`, cut off at the code limit.
unfoldable pub page_end : Pages → ℕ → ℕ
page_end p i =
    let full = u64 (p.slice_base + u64 ((i + 1) * p.page_size)) in
    let limit = u64 (p.slice_base + p.code_limit) in if ltb limit full then limit else full

unfoldable pub page_start : Pages → ℕ → ℕ
page_start p i = u64 (p.slice_base + u64 (i * p.page_size))

-- A stale slot: it is journaled and rewritten if `write` is set.
unfoldable pub rewrite_slot : Bool → ℕ → List ℕ → List ℕ → Progress → Progress
rewrite_slot write slot old sum s =
    if write
    then record s {
      buffer = record {
        bytes = copy_at s.buffer.bytes slot sum;
        changed = log_change (record { offset = pos slot; old = old; new = sum }) s.buffer.changed;
      };
      modified = true;
    }
    else record s { modified = true }

-- The body of the loop over the code slots.
unfoldable pub fixup_slot : Bool → Pages → ℕ → Progress → Option Progress
fixup_slot write p i s =
    if ltb (length s.buffer.bytes) (page_end p i) || ltb (page_end p i) (page_start p i)
    then some (suspect s)
    else do
      page ← rd_slice s.buffer.bytes (page_start p i) (page_end p i)
      let slot = p.slots_abs + i * p.hash_size
      old ← rd_slice s.buffer.bytes slot (slot + p.hash_size)
      if bytes_equal old (p.digest page)
          then some s
          else some (rewrite_slot write slot old (p.digest page) s)

-- That loop, `n` slots left.
unfoldable pub fixup_slots : Bool → Pages → ℕ → ℕ → Progress → Option Progress
fixup_slots write p zero i s = some s
fixup_slots write p (suc n) i s = do s' ← fixup_slot write p i s; fixup_slots write p n (i + 1) s'

-- The fields of a CodeDirectory that are read.
pub record CodeDirectory : Type 0 where
  pub hash_offset : ℕ
  pub n_special_slots : ℕ
  pub n_code_slots : ℕ
  pub code_limit : ℕ
  pub hash_size : ℕ
  pub hash_type : ℕ
  pub page_size_log2 : ℕ

unfoldable pub rd_code_directory : List ℕ → ℕ → Option CodeDirectory
rd_code_directory b blob_abs = do
  hash_offset ← rd_be32 b (blob_abs + 16)
  n_special_slots ← rd_be32 b (blob_abs + 24)
  n_code_slots ← rd_be32 b (blob_abs + 28)
  code_limit ← rd_be32 b (blob_abs + 32)
  hash_size ← rd_byte b (blob_abs + 36)
  hash_type ← rd_byte b (blob_abs + 37)
  page_size_log2 ← rd_byte b (blob_abs + 39)
  some (record {
    hash_offset = hash_offset;
    n_special_slots = n_special_slots;
    n_code_slots = n_code_slots;
    code_limit = code_limit;
    hash_size = hash_size;
    hash_type = hash_type;
    page_size_log2 = page_size_log2;
  })

-- Where the slice and its signature lie, and the mode.
pub record Region : Type 0 where
  pub slice_base : ℕ
  pub slice_end : ℕ
  pub sb_abs : ℕ
  pub sig_size : ℕ
  pub write : Bool

-- The tests behind the switch on the hash type: one that holds makes the directory unverifiable.
unfoldable pub malformed : Region → ℕ → ℕ → ℕ → CodeDirectory → ℕ → Bool
malformed g size blob_abs cd_length cd expected_hash_size =
    let slots_end = u64 (blob_abs + cd.hash_offset + u64 (cd.n_code_slots * cd.hash_size)) in
    not (cd.hash_size == expected_hash_size)
    || (cd.page_size_log2 == 0 || ltb max_page_size_log2 cd.page_size_log2)
    || ltb cd.hash_offset (u64 (cd.n_special_slots * cd.hash_size))
    || (ltb cd_length cd.hash_offset
        || ltb (u64 (blob_abs + cd_length)) slots_end
        || ltb size slots_end)
    || ltb g.slice_end (u64 (g.slice_base + cd.code_limit))

-- What `fixupSlice` returns, and the buffer that it leaves.
pub record Fixed : Type 0 where
  pub buffer : Buffer
  pub modified : Bool
  pub failed : Option Error

-- Its last lines: a signature without a CodeDirectory cannot be verified.
unfoldable pub conclude : Bool → Progress → Fixed
conclude write s = record {
  buffer = s.buffer;
  modified = s.modified || (not write && (s.unverifiable || not s.any_code_directory));
  failed = none;
}

abbrev pub start : Buffer → Progress
start buf = record {
  buffer = buf;
  modified = false;
  unverifiable = false;
  any_code_directory = false;
}

-- The pages that a CodeDirectory hashes.
abbrev pub pages_of : Region → ℕ → CodeDirectory → (List ℕ → List ℕ) → Pages
pages_of g blob_abs cd digest = record {
  digest = digest;
  hash_size = cd.hash_size;
  page_size = 2 ^ cd.page_size_log2;
  slots_abs = blob_abs + cd.hash_offset;
  slice_base = g.slice_base;
  code_limit = cd.code_limit;
}

module _ (hashes : Hashes) where
  -- The switch on the hash type: the digest and the expected size of a slot.
  unfoldable pub hash_of : ℕ → Option ((List ℕ → List ℕ) × ℕ)
  hash_of hash_type =
      if hash_type == cs_hash_type_sha256
      then some (hashes.sha256, cs_hash_size_sha256)
      else if hash_type == cs_hash_type_sha1
      then some (hashes.sha1, cs_hash_size_sha1)
      else none

  -- A CodeDirectory whose header has been read.
  unfoldable pub fixup_pages : Region → ℕ → ℕ → CodeDirectory → Progress → Option Progress
  fixup_pages g blob_abs cd_length cd s = elim (hash_of cd.hash_type) [
    | none ↦ some (suspect s)
    | some (digest, expected_hash_size) ↦
        if malformed g (length s.buffer.bytes) blob_abs cd_length cd expected_hash_size
        then some (suspect s)
        else fixup_slots g.write (pages_of g blob_abs cd digest) cd.n_code_slots 0 s
  ]

  -- A blob with the magic of a CodeDirectory.
  unfoldable pub fixup_directory : Region → ℕ → Progress → Option Progress
  fixup_directory g blob_abs s =
      let sb_end = g.sb_abs + g.sig_size in
      if ltb sb_end (blob_abs + cd_header_size) then some (suspect s) else do
        cd_length ← rd_be32 s.buffer.bytes (blob_abs + 4)
        if ltb cd_length cd_header_size
              || ltb g.sig_size cd_length
              || ltb sb_end (blob_abs + cd_length)
            then some (suspect s)
            else do
              cd ← rd_code_directory s.buffer.bytes blob_abs
              fixup_pages g blob_abs cd_length cd s

  -- One entry of the SuperBlob.
  unfoldable pub fixup_entry : Region → ℕ → Progress → Option Progress
  fixup_entry g entry_off s = do
    blob_rel ← rd_be32 s.buffer.bytes (entry_off + 4)
    let blob_abs = g.sb_abs + blob_rel
    if ltb g.sig_size blob_rel || ltb (g.sb_abs + g.sig_size) (blob_abs + 8)
        then some (suspect s)
        else do
          magic ← rd_be32 s.buffer.bytes blob_abs
          if not (magic == cs_magic_code_directory)
              then some s
              else fixup_directory g blob_abs (record s { any_code_directory = true })

  -- The loop over the entries, `n` of them left.
  unfoldable pub fixup_entries : Region → ℕ → ℕ → Progress → Option Progress
  fixup_entries g zero bi s = some s
  fixup_entries g (suc n) bi s =
      let entry_off = g.sb_abs + super_blob_header_size + bi * blob_index_size in
      if ltb (g.sb_abs + g.sig_size) (entry_off + blob_index_size)
      then some (suspect s)
      else do s' ← fixup_entry g entry_off s; fixup_entries g n (bi + 1) s'

  -- `fixupSlice` from the SuperBlob on.
  unfoldable pub fixup_signature : Region → String → Buffer → Option Fixed
  fixup_signature g path buf = do
    count ← super_blob_count buf.bytes g.sb_abs g.sig_size
    elim count [
      | none ↦ some (record { buffer = buf; modified = not g.write; failed = none })
      | some sb_count ↦ do
        carries ←
            if g.write then has_non_empty_cms buf.bytes g.sb_abs g.sig_size sb_count else some false
        if carries
            then some (record { buffer = buf; modified = false; failed = some (cms_repair path) })
            else do s ← fixup_entries g sb_count 0 (start buf); some (conclude g.write s)
    ]

  -- `fixupSlice`
  unfoldable pub fixup_slice : ℕ → ℕ → String → Bool → Buffer → Option Fixed
  fixup_slice slice_base slice_end path write buf = do
    found ← find_signature buf.bytes slice_base
    elim found [
      | none ↦ some (record { buffer = buf; modified = false; failed = none })
      | some (sig_off, sig_size) ↦
          fixup_signature
            (record {
              slice_base = slice_base;
              slice_end = slice_end;
              sb_abs = slice_base + sig_off;
              sig_size = sig_size;
              write = write;
            })
            path buf
    ]
