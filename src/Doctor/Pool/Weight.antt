-- ===== src/Doctor/Pool/Weight.antt =====
-- internal/doctor/doctor.go: sums over the findings and the workers of `walkParallel`.
use machokeeper.Base.{
  ℕ, zero, suc, ◌+◌, ◌*◌, ◌≡◌, refl, Option, none, some, List, [], ◌∷◌, ◌++◌, get_elem?, set,
  length, replicate, arith, String,
}
use machokeeper.Doctor.Scan.{Finding}
use machokeeper.Doctor.Pool.{Worker, receiving, scanning, sending, stopped, scan_all}

-- The sum of a number over a list.
abbrev pub total {ℓ} : {A : Type ℓ} → (A → ℕ) → List A → ℕ
total m [] = 0
total m (x ∷ xs) = m x + total m xs

module _ {ℓ} {A : Type ℓ} (m : A → ℕ) where
  pub total-append : (xs ys : List A) → total m (xs ++ ys) ≡ total m xs + total m ys
  total-append [] ys = omega arith
  total-append (x ∷ xs) ys = omega (arith, total-append xs ys)

  pub total-empty : (xs : List A) → length xs ≡ 0 → total m xs ≡ 0
  total-empty [] h = refl
  total-empty (x ∷ xs) h = absurd (omega arith)

  pub total-set :
      (i : ℕ) (a b : A) (xs : List A)
      → get_elem? xs i ≡ some a
      → total m (set i b xs) + m a ≡ total m xs + m b
  total-set i a b [] h = absurd (ground arith)
  total-set zero a b (x ∷ xs) h = ground arith
  total-set (suc i) a b (x ∷ xs) h = omega (arith, total-set i a b xs h)

  pub total-replicate : (n : ℕ) (a : A) → total m (replicate n a) ≡ n * m a
  total-replicate zero a = omega arith
  total-replicate (suc n) a = grind (arith, total-replicate n a)

pub length-set {ℓ} : {A : Type ℓ} (i : ℕ) (b : A) (xs : List A) → length (set i b xs) ≡ length xs
length-set i b [] = refl
length-set zero b (x ∷ xs) = refl
length-set (suc i) b (x ∷ xs) = omega (arith, length-set i b xs)

-- A worker that has not called `wg.Done`.
abbrev pub is_live : Worker → ℕ
is_live stopped = 0
is_live _ = 1

module _ (scan : String → Option Finding) (m : Finding → ℕ) where
  -- The sum over a file's finding, if it has one.
  abbrev pub found : Option Finding → ℕ
  found none = 0
  found (some f) = m f

  -- The sum over what a worker will send.
  abbrev pub carried : Worker → ℕ
  carried receiving = 0
  carried (scanning p) = found (scan p)
  carried (sending f) = m f
  carried stopped = 0

  pub total-scan_all :
      (ps : List String) → total m (scan_all scan ps) ≡ total (λ p. found (scan p)) ps
  unfolding scan_all
  total-scan_all [] = refl
  total-scan_all (p ∷ ps) = ground (arith, total-scan_all ps)
