-- ===== src/Base/Range.antt =====
-- Statements about all, or one, of `n` indices from `i` on.
use Prim.Native.Nat.{ℕ, suc, ◌+◌, ◌≤◌, ◌<◌}
use mathlib.Core.Path.{◌≡◌}
use mathlib.Core.Logic.{◌↔◌}
use native.Mathlib.Decide.{dec_lt}
use native.Mathlib.Omega.{arith}

abbrev pub ForRange : (ℕ → Type 0) → ℕ → ℕ → Type 0
ForRange V n i = (j : ℕ) → i ≤ j → j < i + n → V j

pub ForRange-zero : (V : ℕ → Type 0) (i : ℕ) → ForRange V 0 i
ForRange-zero V i j h k = absurd (omega arith)

pub ForRange-suc : (V : ℕ → Type 0) (n i : ℕ) → (V i × ForRange V n (i + 1)) ↔ ForRange V (suc n) i
ForRange-suc V n i = (
  λ (v, w) j h k. elim (dec_lt i j) [
    | yes l ↦ w j (omega arith) (omega arith)
    | no l ↦ let e : i ≡ j = omega arith in rw e at v
  ],
  λ v. (v i (omega arith) (omega arith), λ j h k. v j (omega arith) (omega arith)),
)
