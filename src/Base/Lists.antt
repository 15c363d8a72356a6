-- ===== src/Base/Lists.antt =====
-- Lists measured and indexed by native numbers, under the library's names, and Go's slice
-- expressions on them.
use Prim.Native.Nat.{ℕ, zero, suc, ◌+◌, ◌≤◌}
use mathlib.Core.Path.{◌≡◌, refl, ap}
use mathlib.Core.List.{List, [], ◌∷◌, ◌++◌}
use mathlib.Core.Option.{Option, none, some}
use native.Mathlib.Omega.{arith}

module _ {ℓ} {A : Type ℓ} where
  abbrev pub length : List A → ℕ
  length [] = 0
  length (x ∷ xs) = suc (length xs)

  abbrev pub get_or : List A → ℕ → A → A
  get_or [] i d = d
  get_or (x ∷ xs) zero d = x
  get_or (x ∷ xs) (suc i) d = get_or xs i d

  abbrev pub take : ℕ → List A → List A
  take zero xs = []
  take (suc n) [] = []
  take (suc n) (x ∷ xs) = x ∷ take n xs

  abbrev pub drop : ℕ → List A → List A
  drop zero xs = xs
  drop (suc n) [] = []
  drop (suc n) (x ∷ xs) = drop n xs

  abbrev pub get_elem? : List A → ℕ → Option A
  get_elem? [] i = none
  get_elem? (x ∷ xs) zero = some x
  get_elem? (x ∷ xs) (suc i) = get_elem? xs i

  abbrev pub set : ℕ → A → List A → List A
  set i a [] = []
  set zero a (x ∷ xs) = a ∷ xs
  set (suc i) a (x ∷ xs) = x ∷ set i a xs

  abbrev pub replicate : ℕ → A → List A
  replicate zero a = []
  replicate (suc n) a = a ∷ replicate n a

  -- `copy(dst, src)`: the shorter of the two lengths is copied.
  unfoldable pub copy : List A → List A → List A
  copy [] src = []
  copy (x ∷ dst) [] = x ∷ dst
  copy (x ∷ dst) (y ∷ src) = y ∷ copy dst src

  -- `copy(dst[off:], src)` for an `off` within `dst`.
  unfoldable pub copy_at : List A → ℕ → List A → List A
  copy_at dst zero src = copy dst src
  copy_at [] (suc off) src = []
  copy_at (x ∷ dst) (suc off) src = x ∷ copy_at dst off src

  pub length-append : (xs ys : List A) → length (xs ++ ys) ≡ length xs + length ys
  length-append [] ys = omega arith
  length-append (x ∷ xs) ys = omega (arith, length-append xs ys)

module _ {ℓ} {A : Type ℓ} where
  -- `n` elements from `off` on, `s[off:off+n]`.
  abbrev pub window : List A → ℕ → ℕ → List A
  window xs off n = take n (drop off xs)

  pub length-take : (n : ℕ) (xs : List A) → n ≤ length xs → length (take n xs) ≡ n
  length-take zero xs h = refl
  length-take (suc n) [] h = absurd (omega arith)
  length-take (suc n) (x ∷ xs) h = ap suc (length-take n xs (omega arith))

  pub length-window : (xs : List A) (off n : ℕ) → off + n ≤ length xs → length (window xs off n) ≡ n
  length-window xs zero n h = length-take n xs (omega arith)
  length-window [] (suc off) n h = absurd (omega arith)
  length-window (x ∷ xs) (suc off) n h = length-window xs off n (omega arith)

  pub length-copy : (dst src : List A) → length (copy dst src) ≡ length dst
  unfolding copy
  length-copy [] src = refl
  length-copy (x ∷ dst) [] = refl
  length-copy (x ∷ dst) (y ∷ src) = ap suc (length-copy dst src)

  pub length-copy_at :
      (dst : List A) (off : ℕ) (src : List A) → length (copy_at dst off src) ≡ length dst
  unfolding copy_at
  length-copy_at dst zero src = length-copy dst src
  length-copy_at [] (suc off) src = refl
  length-copy_at (x ∷ dst) (suc off) src = ap suc (length-copy_at dst off src)

  take-copy : (dst src : List A) → length src ≤ length dst → take (length src) (copy dst src) ≡ src
  unfolding copy
  take-copy [] [] h = refl
  take-copy [] (y ∷ src) h = absurd (omega arith)
  take-copy (x ∷ dst) [] h = refl
  take-copy (x ∷ dst) (y ∷ src) h = ap (λ l. y ∷ l) (take-copy dst src (omega arith))

  -- What has been copied can be read back.
  pub window-copy_at :
      (dst : List A) (off : ℕ) (src : List A)
      → off + length src ≤ length dst
      → window (copy_at dst off src) off (length src) ≡ src
  unfolding copy_at
  window-copy_at dst zero src h = take-copy dst src (omega arith)
  window-copy_at [] (suc off) src h = absurd (omega arith)
  window-copy_at (x ∷ dst) (suc off) src h = window-copy_at dst off src (omega arith)

  copy_undo : (dst src : List A) → copy (copy dst src) (take (length src) dst) ≡ dst
  unfolding copy
  copy_undo [] src = refl
  copy_undo (x ∷ dst) [] = refl
  copy_undo (x ∷ dst) (y ∷ src) = ap (λ l. x ∷ l) (copy_undo dst src)

  -- Copying back what was there restores the list.
  pub copy_at_undo :
      (dst : List A) (off : ℕ) (src : List A)
      → copy_at (copy_at dst off src) off (window dst off (length src)) ≡ dst
  unfolding copy_at
  copy_at_undo dst zero src = copy_undo dst src
  copy_at_undo [] (suc off) src = refl
  copy_at_undo (x ∷ dst) (suc off) src = ap (λ l. x ∷ l) (copy_at_undo dst off src)

pub length-replicate {ℓ} : {A : Type ℓ} (n : ℕ) (a : A) → length (replicate n a) ≡ n
length-replicate zero a = refl
length-replicate (suc n) a = omega (arith, length-replicate n a)
