-- ===== src/Base/Bytes.antt =====
-- Texts as lists of bytes, and what Go's packages `strings` and `strconv` do with them.
use Prim.Native.Nat.{ℕ, zero, suc, ◌+◌, ◌-◌, ◌*◌, ◌^◌, ◌<◌}
use Prim.Native.Char.{code}
use Prim.Native.String.{String}
use mathlib.Core.Bool.{Bool, true, false, ◌&&◌}
use mathlib.Core.Option.{Option, none, some}
use mathlib.Core.List.{List, [], ◌∷◌}
use mathlib.Core.Path.{◌≡◌, refl}
use mathlib.Core.Logic.{◌↔◌}
use native.Mathlib.Omega.{arith}
use machokeeper.Base.Int.{ℤ, pos, negsuc, pos_part}
use machokeeper.Base.Panic.{OnSome, OnSome-if}
use machokeeper.Base.Tests.{leb, ltb, ◌==◌, if◌then◌else◌}

-- The bytes of a literal, which is ASCII.
abbrev pub codes : String → List ℕ
codes String.[] = []
codes (String.◌∷◌ c s) = code c ∷ codes s

-- `strings.CutPrefix`, and with it `HasPrefix` and `TrimPrefix`.
unfoldable pub cut_prefix : List ℕ → List ℕ → Option (List ℕ)
cut_prefix [] s = some s
cut_prefix (c ∷ cs) [] = none
cut_prefix (c ∷ cs) (d ∷ s) = let rest = cut_prefix cs s in if c == d then rest else none

unfoldable pub is_digit : ℕ → Bool
is_digit c = leb b'0' c && leb c b'9'

-- The number that digits spell behind `n`.
unfoldable pub digits_value : List ℕ → ℕ → Option ℕ
digits_value [] n = some n
digits_value (c ∷ cs) n =
    let rest = digits_value cs (n * 10 + (c - b'0')) in if is_digit c then rest else none

unfoldable pub magnitude : List ℕ → Option ℕ
magnitude [] = none
magnitude (c ∷ cs) = digits_value (c ∷ cs) 0

-- The range of an int64.
unfoldable pub signed : Bool → Option ℕ → Option ℤ
signed negative none = none
signed false (some n) = if ltb n (2 ^ 63) then some (pos n) else none
signed true (some zero) = some (pos 0)
signed true (some (suc n)) = if ltb n (2 ^ 63) then some (negsuc n) else none

-- `strconv.ParseInt(s, 10, 64)`, and `strconv.Atoi`.
unfoldable pub parse_int : List ℕ → Option ℤ
parse_int [] = none
parse_int (c ∷ cs) =
    if c == b'+'
    then signed false (magnitude cs)
    else if c == b'-'
    then signed true (magnitude cs)
    else signed false (magnitude (c ∷ cs))

signed-bound :
    (negative : Bool) (o : Option ℕ) → OnSome (λ z. pos_part z < 2 ^ 63) (signed negative o)
unfolding signed
signed-bound negative none = tt
signed-bound false (some n) = ground arith
signed-bound true (some zero) = omega arith
signed-bound true (some (suc n)) = ground arith

-- What is read is at most the greatest int64.
pub parse_int-bound : (s : List ℕ) → OnSome (λ z. pos_part z < 2 ^ 63) (parse_int s)
unfolding parse_int
parse_int-bound [] = tt
parse_int-bound (c ∷ cs) =
    OnSome-if _ (c == b'+') _ _ (λ _. signed-bound false (magnitude cs))
      (λ _.
        OnSome-if _ (c == b'-') _ _ (λ _. signed-bound true (magnitude cs))
          (λ _. signed-bound false (magnitude (c ∷ cs))))

-- Go's `==` on texts that are lists of bytes.
unfoldable pub text_equal : List ℕ → List ℕ → Bool
text_equal [] [] = true
text_equal [] (d ∷ t) = false
text_equal (c ∷ s) [] = false
text_equal (c ∷ s) (d ∷ t) = let rest = text_equal s t in if c == d then rest else false

pub text_equal_iff : (s t : List ℕ) → (text_equal s t ≡ true) ↔ (s ≡ t)
unfolding text_equal
text_equal_iff [] [] = (λ _. refl, λ _. refl)
text_equal_iff [] (d ∷ t) = (λ h. absurd (ground arith), λ h. absurd (cc))
text_equal_iff (c ∷ s) [] = (λ h. absurd (ground arith), λ h. absurd (cc))
text_equal_iff (c ∷ s) (d ∷ t) = ground (arith, text_equal_iff s t)
