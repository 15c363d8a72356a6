-- ===== src/Nixstore/Base32/Digits.antt =====
-- internal/nixstore/narhash.go: the five bits that a round of `nixBase32` takes, as arithmetic.
use Prim.Native.Nat.{bit_or}
use machokeeper.Base.{
  ℕ, zero, suc, ◌+◌, ◌-◌, ◌*◌, ◌/◌, ◌%◌, ◌^◌, ◌<◌, ◌≡◌, refl, sym, ◌∙◌, ap, ◌>>=◌, ==_iff, Bool,
  true, false, Option, some, List, [], ◌∷◌, length, get_elem?, get_or, ◌==◌, if◌then◌else◌, arith,
}
use mathlib.Core.Path.{ap₂}
use native.Mathlib.Decide.{dec_lt}
use machokeeper.Nixstore.Base32.{nix_base32_alphabet, or_next, character}

-- A test of all numbers below a bound.
abbrev pub all_below : (ℕ → Bool) → ℕ → Bool
all_below f zero = true
all_below f (suc n) = let rest = all_below f n in if f n then rest else false

pub all_below→true : (f : ℕ → Bool) (n : ℕ) → all_below f n ≡ true → (i : ℕ) → i < n → f i ≡ true
all_below→true f zero e i h = absurd (omega arith)
all_below→true f (suc n) e i h = elim (dec_lt i n) [
  | yes l ↦ all_below→true f n (ground arith) i l
  | no l ↦ let same : i ≡ n = omega arith in rw same (ground (arith, e))
]

-- A case for each shift within a byte.
pub below_eight :
    (P : ℕ → Type 0) → P 0 → P 1 → P 2 → P 3 → P 4 → P 5 → P 6 → P 7 → (j : ℕ) → j < 8 → P j
below_eight P p0 p1 p2 p3 p4 p5 p6 p7 zero h = p0
below_eight P p0 p1 p2 p3 p4 p5 p6 p7 (suc zero) h = p1
below_eight P p0 p1 p2 p3 p4 p5 p6 p7 (suc (suc zero)) h = p2
below_eight P p0 p1 p2 p3 p4 p5 p6 p7 (suc (suc (suc zero))) h = p3
below_eight P p0 p1 p2 p3 p4 p5 p6 p7 (suc (suc (suc (suc zero)))) h = p4
below_eight P p0 p1 p2 p3 p4 p5 p6 p7 (suc (suc (suc (suc (suc zero))))) h = p5
below_eight P p0 p1 p2 p3 p4 p5 p6 p7 (suc (suc (suc (suc (suc (suc zero)))))) h = p6
below_eight P p0 p1 p2 p3 p4 p5 p6 p7 (suc (suc (suc (suc (suc (suc (suc zero))))))) h = p7
below_eight P p0 p1 p2 p3 p4 p5 p6 p7 (suc (suc (suc (suc (suc (suc (suc (suc j)))))))) h =
    absurd (omega arith)

-- The byte that has its lower `8 - j` bits from one number, and the others from another.
abbrev joins : ℕ → ℕ → Bool
joins j t = bit_or (t % 2 ^ (8 - j)) (t / 2 ^ (8 - j) * 2 ^ (8 - j)) == t

all_joined : (j : ℕ) → j < 8 → all_below (joins j) 256 ≡ true
all_joined =
    below_eight (λ j. all_below (joins j) 256 ≡ true) refl refl refl refl refl refl refl refl

bit_or-joins :
    (j t : ℕ) → j < 8 → t < 256 → bit_or (t % 2 ^ (8 - j)) (t / 2 ^ (8 - j) * 2 ^ (8 - j)) ≡ t
bit_or-joins j t h k = (==_iff _ t).0 (all_below→true (joins j) 256 (all_joined j h) t k)

-- The bits of two bytes from bit `j` on, as far as they go into one byte.
abbrev pub joined : ℕ → ℕ → ℕ → ℕ
joined j x y = x / 2 ^ j + y % 2 ^ j * 2 ^ (8 - j)

abbrev Parts : ℕ → Type 0
Parts j =
    (x y : ℕ)
    → x < 256
    → y < 256
    → (joined j x y < 256)
      × (joined j x y % 2 ^ (8 - j) ≡ x / 2 ^ j)
      × (joined j x y / 2 ^ (8 - j) * 2 ^ (8 - j) ≡ y * 2 ^ (8 - j) % 2 ^ 8)

joined-Parts : (j : ℕ) → j < 8 → Parts j
joined-Parts =
    below_eight Parts (λ x y h k. (omega arith, omega arith, omega arith))
      (λ x y h k. (omega arith, omega arith, omega arith))
      (λ x y h k. (omega arith, omega arith, omega arith))
      (λ x y h k. (omega arith, omega arith, omega arith))
      (λ x y h k. (omega arith, omega arith, omega arith))
      (λ x y h k. (omega arith, omega arith, omega arith))
      (λ x y h k. (omega arith, omega arith, omega arith))
      (λ x y h k. (omega arith, omega arith, omega arith))

bit_or-joined :
    (j x y : ℕ)
    → j < 8
    → x < 256
    → y < 256
    → bit_or (x / 2 ^ j) (y * 2 ^ (8 - j) % 2 ^ 8) ≡ joined j x y
bit_or-joined j x y h hx hy =
    let (small, low, high) = joined-Parts j h x y hx hy in
    sym (ap₂ bit_or low high) ∙ bit_or-joins j (joined j x y) h small

joined-zero : (j : ℕ) → j < 8 → (x : ℕ) → joined j x 0 ≡ x / 2 ^ j
joined-zero =
    below_eight (λ j. (x : ℕ) → joined j x 0 ≡ x / 2 ^ j) (λ x. omega arith) (λ x. omega arith)
      (λ x. omega arith) (λ x. omega arith) (λ x. omega arith) (λ x. omega arith) (λ x. omega arith)
      (λ x. omega arith)

abbrev pub IsBytes : List ℕ → Type 0
IsBytes [] = Unit
IsBytes (x ∷ xs) = (x < 256) × IsBytes xs

pub get_or-byte : (xs : List ℕ) (i : ℕ) → IsBytes xs → get_or xs i 0 < 256
get_or-byte [] i h = omega arith
get_or-byte (x ∷ xs) zero h = h.0
get_or-byte (x ∷ xs) (suc i) h = get_or-byte xs i h.1

get_elem?-get_or : (xs : List ℕ) (i : ℕ) → i < length xs → get_elem? xs i ≡ some (get_or xs i 0)
get_elem?-get_or [] i h = absurd (omega arith)
get_elem?-get_or (x ∷ xs) zero h = refl
get_elem?-get_or (x ∷ xs) (suc i) h = get_elem?-get_or xs i (omega arith)

or_next-joined :
    (j x i : ℕ) (xs : List ℕ)
    → j < 8
    → x < 256
    → IsBytes xs
    → or_next j (x / 2 ^ j) (get_elem? xs i) ≡ joined j x (get_or xs i 0)
unfolding or_next
or_next-joined j x i [] h hx all = sym (joined-zero j h x)
or_next-joined j x zero (y ∷ ys) h hx all = bit_or-joined j x y h hx all.0
or_next-joined j x (suc i) (y ∷ ys) h hx all = or_next-joined j x i ys h hx all.1

-- The five bits from bit `n * 5` on.
abbrev pub group : List ℕ → ℕ → ℕ
group xs n = joined (n * 5 % 8) (get_or xs (n * 5 / 8) 0) (get_or xs (suc (n * 5 / 8)) 0) % 32

pub character-group :
    (xs : List ℕ) (n : ℕ)
    → IsBytes xs
    → n * 5 / 8 < length xs
    → character xs n ≡ get_elem? nix_base32_alphabet (group xs n)
unfolding character
character-group xs n all h =
    let x = get_or xs (n * 5 / 8) 0 in
    ap
      (λ (o : Option ℕ). o >>= (λ y.
        get_elem? nix_base32_alphabet
          (or_next (n * 5 % 8) (y / 2 ^ (n * 5 % 8)) (get_elem? xs (n * 5 / 8 + 1)) % 32)))
      (get_elem?-get_or xs (n * 5 / 8) h)
    ∙ ap (λ (c : ℕ). get_elem? nix_base32_alphabet (c % 32))
        (or_next-joined (n * 5 % 8) x (n * 5 / 8 + 1) xs (omega arith)
            (get_or-byte xs (n * 5 / 8) all) all
          ∙ ap (λ (k : ℕ). joined (n * 5 % 8) x (get_or xs k 0)) (omega arith))
