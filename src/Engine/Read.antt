-- ===== src/Engine/Read.antt =====
-- engine/engine.go: `rdLE32`, `rdBE32`, `rdBE64`, single bytes and slice expressions, with the panic
-- of an index out of range, and `HasMachOMagic`.
-- A slice expression may in Go reach up to the capacity; here it panics beyond the length.
use machokeeper.Base.{
  ℕ, ◌+◌, ◌-◌, ◌*◌, ◌^◌, ◌≤◌, ◌<◌, ◌≡◌, Bool, false, ◌&&◌, ◌||◌, Option, none, some, List, arith,
  ltb, leb, ◌==◌, ◌>>=◌, ap, ◌∙◌, if◌then◌else◌, length, get_or, window, u32, u64,
}
use machokeeper.Engine.Defs.{mach_magic32, mach_magic64, fat_magic32, fat_magic64}

abbrev pub byte : List ℕ → ℕ → ℕ
byte b i = get_or b i 0

-- The values that `encoding/binary` gives to the bytes from `off` on.
unfoldable pub le32 : List ℕ → ℕ → ℕ
le32 b off =
    u32 (
      byte b off + byte b (off + 1) * 2 ^ 8 + byte b (off + 2) * 2 ^ 16 + byte b (off + 3) * 2 ^ 24)

unfoldable pub be32 : List ℕ → ℕ → ℕ
be32 b off =
    u32 (
      byte b (off + 3) + byte b (off + 2) * 2 ^ 8 + byte b (off + 1) * 2 ^ 16 + byte b off * 2 ^ 24)

unfoldable pub be64 : List ℕ → ℕ → ℕ
unfolding be32
be64 b off = u64 (be32 b (off + 4) + be32 b off * 2 ^ 32)

pub le32-lt : (b : List ℕ) (off : ℕ) → le32 b off < 2 ^ 32
unfolding le32
le32-lt b off = omega arith

pub be32-lt : (b : List ℕ) (off : ℕ) → be32 b off < 2 ^ 32
unfolding be32
be32-lt b off = omega arith

pub be64-lt : (b : List ℕ) (off : ℕ) → be64 b off < 2 ^ 64
unfolding be64
be64-lt b off = omega arith

-- A read of `n` bytes from `off` on.
abbrev pub guarded {ℓ} : {A : Type ℓ} → List ℕ → ℕ → ℕ → A → Option A
guarded b off n a = if leb (off + n) (length b) then some a else none

unfoldable pub rd_le32 : List ℕ → ℕ → Option ℕ
rd_le32 b off = guarded b off 4 (le32 b off)

unfoldable pub rd_be32 : List ℕ → ℕ → Option ℕ
rd_be32 b off = guarded b off 4 (be32 b off)

unfoldable pub rd_be64 : List ℕ → ℕ → Option ℕ
rd_be64 b off = guarded b off 8 (be64 b off)

-- `b[i]`
unfoldable pub rd_byte : List ℕ → ℕ → Option ℕ
rd_byte b i = guarded b i 1 (byte b i)

-- `b[lo:hi]`
unfoldable pub rd_slice : List ℕ → ℕ → ℕ → Option (List ℕ)
rd_slice b lo hi = if leb lo hi && leb hi (length b) then some (window b lo (hi - lo)) else none

-- Reads within the bounds do not panic.
module _ (b : List ℕ) (off : ℕ) where
  pub rd_le32_within : off + 4 ≤ length b → rd_le32 b off ≡ some (le32 b off)
  unfolding rd_le32
  rd_le32_within h = ground arith

  pub rd_be32_within : off + 4 ≤ length b → rd_be32 b off ≡ some (be32 b off)
  unfolding rd_be32
  rd_be32_within h = ground arith

  pub rd_be64_within : off + 8 ≤ length b → rd_be64 b off ≡ some (be64 b off)
  unfolding rd_be64
  rd_be64_within h = ground arith

  pub rd_byte_within : off + 1 ≤ length b → rd_byte b off ≡ some (byte b off)
  unfolding rd_byte
  rd_byte_within h = ground arith

pub rd_slice_within :
    (b : List ℕ) (lo hi : ℕ)
    → lo ≤ hi
    → hi ≤ length b
    → rd_slice b lo hi ≡ some (window b lo (hi - lo))
unfolding rd_slice
rd_slice_within b lo hi h k = ground arith

-- `HasMachOMagic`
unfoldable pub has_macho_magic : List ℕ → Option Bool
unfolding rd_le32 rd_be32 le32 be32
has_macho_magic p = if ltb (length p) 4 then some false else do
  le ← rd_le32 p 0
  be ← rd_be32 p 0
  some (le == mach_magic32 || le == mach_magic64 || be == fat_magic32 || be == fat_magic64)

pub rd_slice-window :
    (b : List ℕ) (off n : ℕ) → off + n ≤ length b → rd_slice b off (off + n) ≡ some (window b off n)
rd_slice-window b off n h =
    rd_slice_within b off (off + n) (omega arith) h
    ∙ ap (λ (k : ℕ). some (window b off k)) (omega arith)
