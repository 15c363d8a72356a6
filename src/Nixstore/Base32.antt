-- ===== src/Nixstore/Base32.antt =====
-- internal/nixstore/narhash.go: `nixBase32` and `NarHash`.
pub mod Digits
pub mod Value
use Prim.Native.Nat.{bit_or}
use machokeeper.Base.{
  ℕ, zero, suc, ◌+◌, ◌-◌, ◌*◌, ◌/◌, ◌%◌, ◌^◌, Option, none, some, List, [], ◌∷◌, ◌++◌, ◌>>=◌,
  length, get_elem?, codes, ltb, if◌then◌else◌,
}

-- `nixBase32Alphabet`
abbrev pub nix_base32_alphabet : List ℕ
nix_base32_alphabet = codes "0123456789abcdfghijklmnpqrsvwxyz"

-- `c |= data[i+1] << uint(8-j)`, in a byte, if there is a `data[i+1]`.
unfoldable pub or_next : ℕ → ℕ → Option ℕ → ℕ
or_next j c none = c
or_next j c (some y) = bit_or c (y * 2 ^ (8 - j) % 2 ^ 8)

-- One round of the loop: the character for `n`.
unfoldable pub character : List ℕ → ℕ → Option ℕ
character bytes n = do
  let b = n * 5
  let i = b / 8
  let j = b % 8
  x ← get_elem? bytes i
  get_elem? nix_base32_alphabet (or_next j (x / 2 ^ j) (get_elem? bytes (i + 1)) % 2 ^ 5)

-- The loop for the `n` lowest characters: each stands before those of the rounds before it.
unfoldable pub characters : List ℕ → ℕ → Option (List ℕ)
characters bytes zero = some []
characters bytes (suc n) = do c ← character bytes n; cs ← characters bytes n; some (c ∷ cs)

-- `(len(data)*8-1)/5 + 1`: the division of -1 by 5 gives 0 in Go.
unfoldable pub base32_length : List ℕ → ℕ
base32_length bytes = (length bytes * 8 - 1) / 5 + 1

-- `nixBase32`
unfoldable pub nix_base32 : List ℕ → Option (List ℕ)
nix_base32 bytes = characters bytes (base32_length bytes)

-- `NarHash`, with the hash function a parameter.
unfoldable pub nar_hash : (List ℕ → List ℕ) → List ℕ → Option (List ℕ)
nar_hash sha256 nar = do s ← nix_base32 (sha256 nar); some (codes "sha256:" ++ s)
