-- ===== src/Engine/Container/Slices.antt =====
-- The slices of a container, independently of the walk.
use machokeeper.Base.{
  ℕ, ◌+◌, ◌*◌, ◌≤◌, ◌<◌, ◌≡◌, Bool, true, false, List, arith, length, u64, ltb, ◌||◌, ◌==◌,
  if◌then◌else◌,
}
use machokeeper.Engine.Read.{be32, le32}
use machokeeper.Engine.Container.{thin, fat32, fat64, other, format, arch_size_of}
use machokeeper.Engine.Container.Rules.{arch_at}

-- Entry `i` of the fat_arch array describes the slice from `base` to `stop`: it is not empty, and
-- lies behind the array and within the file.
pub record IsMember (b : List ℕ) (is64 : Bool) (i base stop : ℕ) : Type 0 where
  pub slice_size : ℕ
  pub placed : arch_at b is64 (8 + i * arch_size_of is64) ≡ (base, slice_size)
  pub ends : stop ≡ base + slice_size
  pub not_empty : 0 < slice_size
  pub behind : 8 + be32 b 4 * arch_size_of is64 ≤ base
  pub in_file : base + slice_size ≤ length b

-- The container is fat, with a fat_arch array of 1 to 128 entries within the file.
pub record IsFat (b : List ℕ) (is64 : Bool) : Type 0 where
  pub header : 28 ≤ length b
  pub announced : format (le32 b 0) (be32 b 0) ≡ (if is64 then fat64 else fat32)
  pub some_arch : 0 < be32 b 4
  pub few_archs : be32 b 4 ≤ 128
  pub array_fits : 8 + be32 b 4 * arch_size_of is64 ≤ length b

pub data IsSlice (b : List ℕ) (base stop : ℕ) : Type 0 where
  whole :
      28 ≤ length b
      → format (le32 b 0) (be32 b 0) ≡ thin
      → base ≡ 0
      → stop ≡ length b
      → IsSlice b base stop
  member :
      (is64 : Bool) (i : ℕ)
      → IsFat b is64
      → i < be32 b 4
      → IsMember b is64 i base stop
      → IsSlice b base stop

pub exact_ends :
    (is64 : Bool) (nfat : ℕ)
    → nfat ≤ 128
    → u64 (8 + u64 (nfat * arch_size_of is64)) ≡ 8 + nfat * arch_size_of is64
exact_ends true nfat h = omega arith
exact_ends false nfat h = omega arith

-- A container that the tests on the fat_arch array refuse is not fat.
pub archs_refused :
    (b : List ℕ) (is64 : Bool)
    → IsFat b is64
    → (be32 b 4 == 0
        || ltb 128 (be32 b 4)
        || ltb (length b) (u64 (8 + u64 (be32 b 4 * arch_size_of is64))))
      ≡ true
    → ⊥
archs_refused b is64 f e =
    ground (arith, exact_ends is64 (be32 b 4) f.few_archs, f.some_arch, f.few_archs, f.array_fits)

pub IsSlice-header :
    (b : List ℕ) (base stop : ℕ) → IsSlice b base stop → ltb (length b) 28 ≡ true → ⊥
IsSlice-header b base stop (whole long t e f) short = ground arith
IsSlice-header b base stop (member is64 i f h m) short = ground (arith, f.header)

pub thin_only :
    {b : List ℕ}
    → format (le32 b 0) (be32 b 0) ≡ thin
    → (base stop : ℕ) → IsSlice b base stop
    → (base ≡ 0) × (stop ≡ length b)
thin_only f base stop (whole long t h k) = (h, k)
thin_only f base stop (member true i fat h m) = absurd (cc (fat.announced))
thin_only f base stop (member false i fat h m) = absurd (cc (fat.announced))

pub other_none :
    {b : List ℕ} → format (le32 b 0) (be32 b 0) ≡ other → (base stop : ℕ) → IsSlice b base stop → ⊥
other_none f base stop (whole long t h k) = cc
other_none f base stop (member true i fat h m) = cc (fat.announced)
other_none f base stop (member false i fat h m) = cc (fat.announced)

pub IsFat-only :
    {b : List ℕ} (is64 : Bool)
    → format (le32 b 0) (be32 b 0) ≡ (if is64 then fat64 else fat32)
    → (base stop : ℕ) → IsSlice b base stop
    → (i : ℕ) × IsFat b is64 × (i < be32 b 4) × IsMember b is64 i base stop
IsFat-only true f base stop (whole long t h k) = absurd (cc)
IsFat-only false f base stop (whole long t h k) = absurd (cc)
IsFat-only true f base stop (member true i fat h m) = (i, fat, h, m)
IsFat-only true f base stop (member false i fat h m) = absurd (cc (fat.announced))
IsFat-only false f base stop (member true i fat h m) = absurd (cc (fat.announced))
IsFat-only false f base stop (member false i fat h m) = (i, fat, h, m)
