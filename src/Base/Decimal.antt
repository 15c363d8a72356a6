-- ===== src/Base/Decimal.antt =====
-- Numbers in decimal, as Go's package `fmt` prints them.
use Prim.Native.Nat.{ℕ, zero, suc, ◌+◌, ◌/◌, ◌%◌, ◌<◌}
use mathlib.Core.Bool.{false}
use mathlib.Core.Option.{some}
use mathlib.Core.Path.{◌≡◌, refl, ◌∙◌}
use mathlib.Core.Logic.{inl, inr}
use mathlib.Core.List.{List, [], ◌∷◌, ◌++◌}
use native.Mathlib.Omega.{arith}
use machokeeper.Base.Tests.{◌==◌, ltb, if◌then◌else◌, Bool-cases}
use machokeeper.Base.Lists.{get_elem?}
use machokeeper.Base.Panic.{OnSome}
use machokeeper.Base.Bytes.{is_digit, digits_value, magnitude}

-- The digits of a number before `out`. A number has no more digits than its value plus one.
decimal_before : ℕ → ℕ → List ℕ → List ℕ
decimal_before zero n out = out
decimal_before (suc fuel) n out =
    let digit = b'0' + n % 10 in
    let rest = decimal_before fuel (n / 10) (digit ∷ out) in if ltb n 10 then digit ∷ out else rest

unfoldable pub decimal : ℕ → List ℕ
unfolding decimal_before
decimal n = decimal_before (suc n) n []

digits_value-decimal_before :
    (fuel n : ℕ) (out : List ℕ)
    → n < fuel
    → digits_value (decimal_before fuel n out) 0 ≡ digits_value out n
unfolding decimal_before digits_value is_digit
digits_value-decimal_before zero n out h = absurd (omega arith)
digits_value-decimal_before (suc fuel) n out h =
    ground (arith, digits_value-decimal_before fuel (n / 10) ((b'0' + n % 10) ∷ out))

decimal_before-cons :
    (fuel n c : ℕ) (out : List ℕ)
    → (d : ℕ) × (ds : List ℕ) × (decimal_before fuel n (c ∷ out) ≡ d ∷ ds)
unfolding decimal_before
decimal_before-cons zero n c out = (c, out, refl)
decimal_before-cons (suc fuel) n c out =
    let digit = b'0' + n % 10 in
    elim (Bool-cases (ltb n 10)) [
      | inl e ↦ (digit, c ∷ out, rw e refl)
      | inr e ↦ rw e (decimal_before-cons fuel (n / 10) digit (c ∷ out))
    ]

magnitude-value : (s : List ℕ) (d : ℕ) (ds : List ℕ) → s ≡ d ∷ ds → magnitude s ≡ digits_value s 0
unfolding magnitude
magnitude-value [] d ds e = absurd (cc)
magnitude-value (c ∷ cs) d ds e = refl

decimal-cons : (n : ℕ) → (d : ℕ) × (ds : List ℕ) × (decimal n ≡ d ∷ ds)
unfolding decimal decimal_before
decimal-cons n =
    let digit = b'0' + n % 10 in
    elim (Bool-cases (ltb n 10)) [
      | inl e ↦ (digit, [], rw e refl)
      | inr e ↦ rw e (decimal_before-cons n (n / 10) digit [])
    ]

-- What is printed can be read.
pub magnitude-decimal : (n : ℕ) → magnitude (decimal n) ≡ some n
unfolding decimal digits_value
magnitude-decimal n =
    let (d, ds, e) = decimal-cons n in
    magnitude-value (decimal n) d ds e ∙ digits_value-decimal_before (suc n) n [] (omega arith)

-- The byte is not in the text.
abbrev pub Lacks : ℕ → List ℕ → Type 0
Lacks sep [] = Unit
Lacks sep (c ∷ cs) = ((c == sep) ≡ false) × Lacks sep cs

Lacks-decimal_before :
    (sep fuel n : ℕ) (out : List ℕ)
    → sep < b'0'
    → Lacks sep out
    → Lacks sep (decimal_before fuel n out)
unfolding decimal_before
Lacks-decimal_before sep zero n out h k = k
Lacks-decimal_before sep (suc fuel) n out h k =
    let here : ((b'0' + n % 10) == sep) ≡ false = ground arith in
    elim (Bool-cases (ltb n 10)) [
      | inl e ↦ rw e (here, k)
      | inr e ↦ rw e (Lacks-decimal_before sep fuel (n / 10) ((b'0' + n % 10) ∷ out) h (here, k))
    ]

pub Lacks-decimal : (sep n : ℕ) → sep < b'0' → Lacks sep (decimal n)
unfolding decimal
Lacks-decimal sep n h = Lacks-decimal_before sep (suc n) n [] h tt

pub Lacks-append : (sep : ℕ) (s t : List ℕ) → Lacks sep s → Lacks sep t → Lacks sep (s ++ t)
Lacks-append sep [] t h k = k
Lacks-append sep (c ∷ s) t (hc, h) k = (hc, Lacks-append sep s t h k)

pub get_elem?-Lacks :
    (sep : ℕ) (s : List ℕ) (i : ℕ) → Lacks sep s → OnSome (λ c. (c == sep) ≡ false) (get_elem? s i)
get_elem?-Lacks sep [] i h = tt
get_elem?-Lacks sep (c ∷ s) zero h = h.0
get_elem?-Lacks sep (c ∷ s) (suc i) h = get_elem?-Lacks sep s i h.1
