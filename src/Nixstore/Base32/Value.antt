-- ===== src/Nixstore/Base32/Value.antt =====
-- internal/nixstore/narhash.go: what the text of `nixBase32` spells.
use machokeeper.Base.{
  ℕ, zero, suc, ◌+◌, ◌-◌, ◌*◌, ◌/◌, ◌%◌, ◌^◌, ◌<◌, ◌≤◌, ◌≡◌, refl, sym, ◌∙◌, ap, Bool, true, false,
  none, some, List, [], ◌∷◌, length, get_elem?, get_or, drop, ltb, ◌==◌, if◌then◌else◌, arith,
  Returns, inl, inr, Bool-cases, Option-cases,
}
use mathlib.Core.Path.{ap₂}
use machokeeper.Nixstore.Base32.{
  nix_base32_alphabet, character, characters, base32_length, nix_base32,
}
use machokeeper.Nixstore.Base32.Digits.{
  all_below→true, below_eight, joined, IsBytes, get_or-byte, group, character-group,
}

-- The number whose bytes these are, the lowest first.
abbrev pub le_value : List ℕ → ℕ
le_value [] = 0
le_value (x ∷ xs) = x + 256 * le_value xs

le_value-drop :
    (xs : List ℕ) (i : ℕ) → le_value (drop i xs) ≡ get_or xs i 0 + 256 * le_value (drop (suc i) xs)
le_value-drop [] zero = refl
le_value-drop [] (suc i) = refl
le_value-drop (x ∷ xs) zero = refl
le_value-drop (x ∷ xs) (suc i) = le_value-drop xs i

-- What is left of that number above bit `n * 5`.
abbrev pub above : List ℕ → ℕ → ℕ
above xs n = le_value (drop (n * 5 / 8) xs) / 2 ^ (n * 5 % 8)

abbrev Split : ℕ → Type 0
Split j =
    (x y rest : ℕ)
    → x < 256
    → y < 256
    → (x + 256 * (y + 256 * rest)) / 2 ^ j
      ≡ joined j x y % 32
        + 32
          * ((if ltb j 3 then x + 256 * (y + 256 * rest) else y + 256 * rest) / 2 ^ ((j + 5) % 8))

split : (j : ℕ) → j < 8 → Split j
split =
    below_eight Split (λ x y r h k. omega arith) (λ x y r h k. omega arith)
      (λ x y r h k. omega arith) (λ x y r h k. omega arith) (λ x y r h k. omega arith)
      (λ x y r h k. omega arith) (λ x y r h k. omega arith) (λ x y r h k. omega arith)

above-group : (xs : List ℕ) (n : ℕ) → IsBytes xs → above xs n ≡ group xs n + 32 * above xs (suc n)
above-group xs n all =
    let i = n * 5 / 8 in
    let j = n * 5 % 8 in
    let x = get_or xs i 0 in
    let y = get_or xs (suc i) 0 in
    let rest = le_value (drop (suc (suc i)) xs) in
    let low : le_value (drop (suc i) xs) ≡ y + 256 * rest = le_value-drop xs (suc i) in
    let all_bits : le_value (drop i xs) ≡ x + 256 * (y + 256 * rest) =
      omega (arith, low, le_value-drop xs i) in
    let next : (if ltb j 3 then x + 256 * (y + 256 * rest) else y + 256 * rest)
        ≡ le_value (drop (suc n * 5 / 8) xs) =
      elim (Bool-cases (ltb j 3)) [
        | inl stays ↦
            let same : i ≡ suc n * 5 / 8 = ground (arith, stays) in
            rw stays (sym all_bits ∙ ap (λ k. le_value (drop k xs)) same)
        | inr moves ↦
            let same : suc i ≡ suc n * 5 / 8 = ground (arith, moves) in
            rw moves (sym low ∙ ap (λ k. le_value (drop k xs)) same)
      ] in
    let shift : (j + 5) % 8 ≡ suc n * 5 % 8 = omega arith in
    ap (λ (v : ℕ). v / 2 ^ j) all_bits
    ∙ split j (omega arith) x y rest (get_or-byte xs i all) (get_or-byte xs (suc i) all)
    ∙ ap (λ (v : ℕ). group xs n + 32 * v) (ap₂ (λ (v k : ℕ). v / 2 ^ k) next shift)

drop-length : (xs : List ℕ) (i : ℕ) → length xs ≤ i → le_value (drop i xs) ≡ 0
drop-length [] zero h = refl
drop-length [] (suc i) h = refl
drop-length (x ∷ xs) zero h = absurd (omega arith)
drop-length (x ∷ xs) (suc i) h = drop-length xs i (omega arith)

above-length : (xs : List ℕ) → above xs (base32_length xs) ≡ 0
unfolding base32_length
above-length xs =
    let m = (length xs * 8 - 1) / 5 + 1 in
    ap (λ (v : ℕ). v / 2 ^ (m * 5 % 8)) (drop-length xs (m * 5 / 8) (omega arith))
    ∙ below_eight (λ j. 0 / 2 ^ j ≡ 0) refl refl refl refl refl refl refl refl (m * 5 % 8)
        (omega arith)

-- Where a character stands in the alphabet.
abbrev position : List ℕ → ℕ → ℕ
position [] c = 0
position (a ∷ rest) c = if a == c then 0 else suc (position rest c)

-- The number that characters spell behind `n`, in base 32.
abbrev pub spelled : List ℕ → ℕ → ℕ
spelled [] n = n
spelled (c ∷ cs) n = spelled cs (n * 32 + position nix_base32_alphabet c)

abbrev is_listed : ℕ → Bool
is_listed d = elim (get_elem? nix_base32_alphabet d) [
  | none ↦ false
  | some c ↦ position nix_base32_alphabet c == d
]

is_listed→position :
    (d : ℕ)
    → is_listed d ≡ true
    → Returns (λ c. position nix_base32_alphabet c ≡ d) (get_elem? nix_base32_alphabet d)
is_listed→position d h = elim (Option-cases (get_elem? nix_base32_alphabet d)) [
  | inl e ↦ absurd (ground (arith, h))
  | inr (c, e) ↦ (c, e, ground (arith, h))
]

position-alphabet :
    (d : ℕ)
    → d < 32
    → Returns (λ c. position nix_base32_alphabet c ≡ d) (get_elem? nix_base32_alphabet d)
position-alphabet d h = is_listed→position d (all_below→true is_listed 32 refl d h)

base32_length-fits :
    (xs : List ℕ) (n : ℕ) → suc n ≤ base32_length xs → 0 < length xs → n * 5 / 8 < length xs
unfolding base32_length
base32_length-fits xs n h some_bytes = omega arith

characters-spelled :
    (xs : List ℕ) (n : ℕ)
    → IsBytes xs
    → n ≤ base32_length xs
    → 0 < length xs
    → Returns (λ s. (length s ≡ n) × (spelled s (above xs n) ≡ above xs 0)) (characters xs n)
unfolding characters
characters-spelled xs zero all h some_bytes = ([], refl, (refl, refl))
characters-spelled xs (suc n) all h some_bytes =
    let (c, found, at) = position-alphabet (group xs n) (omega arith) in
    let (s, e, (same_length, spells)) = characters-spelled xs n all (omega arith) some_bytes in
    let read : character xs n ≡ some c =
      character-group xs n all (base32_length-fits xs n h some_bytes) ∙ found in
    let value : above xs (suc n) * 32 + position nix_base32_alphabet c ≡ above xs n =
      omega (arith, above-group xs n all, at) in
    (c ∷ s, rw (read, e) refl, (ap suc same_length, rw value spells))

-- `nixBase32` does not panic on bytes, if there are any, and its text spells, in base 32 with the
-- alphabet of Nix, the number whose bytes these are, the lowest first.
pub nix_base32-le_value :
    (xs : List ℕ)
    → IsBytes xs
    → 0 < length xs
    → Returns (λ s. (length s ≡ base32_length xs) × (spelled s 0 ≡ le_value xs)) (nix_base32 xs)
unfolding nix_base32
nix_base32-le_value xs all some_bytes =
    let (s, e, (same_length, spells)) =
      characters-spelled xs (base32_length xs) all (omega arith) some_bytes in
    let whole : above xs 0 ≡ le_value xs = omega arith in
    (s, e, (same_length, (rw (above-length xs) at spells) ∙ whole))
