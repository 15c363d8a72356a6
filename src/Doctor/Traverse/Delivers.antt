-- ===== src/Doctor/Traverse/Delivers.antt =====
-- internal/doctor/doctor.go: what `walkParallel` delivers, and what `Check` makes of it.
use machokeeper.Base.{
  ℕ, ◌+◌, ◌≡◌, refl, ◌<◌, ◌^◌, String, Option, none, some, List, [], ◌∷◌, length, arith, sym, ap,
  ◌∙◌, Option-cases, inl, inr, if◌then◌else◌,
}
use machokeeper.Doctor.Scan.{Finding}
use machokeeper.Doctor.Pool.{begin, makes_channels}
use machokeeper.Doctor.Pool.Weight.{total}
use machokeeper.Doctor.Pool.Visited.{Reach-visited}
use machokeeper.Doctor.Pool.Moves.{Reach-finish}
use machokeeper.Doctor.Traverse.{Tree, Info, Walked, lstat_failed, walked, scan_walk}
use machokeeper.Doctor.Command.{count_stale, check_code, check_paths, is_empty}

-- The same error, or the same findings, each as often, in any order: a number has the same sum over
-- both lists.
abbrev pub SameOutcome : Option (List Finding) → Option (List Finding) → Type 0
SameOutcome none none = Unit
SameOutcome none (some gs) = ⊥
SameOutcome (some fs) none = ⊥
SameOutcome (some fs) (some gs) = (m : Finding → ℕ) → total m fs ≡ total m gs

module _ (scan : String → Option Finding) (n : ℕ) where
  -- `walkParallel` returns, and delivers, what a scan of one file after the other does, but for the
  -- order, however its goroutines are scheduled, with at least one worker.
  pub Walked-scan_walk :
      {root : String} {tree : Tree} {info : Option Info} {result : Option (List Finding)}
      → 0 < n
      → Walked scan n root tree info result
      → SameOutcome result (scan_walk scan root tree info)
  unfolding scan_walk
  Walked-scan_walk h (lstat_failed r done) = tt
  Walked-scan_walk h (walked r done) = Reach-visited scan n h r done

  -- `walkParallel` can return, with at least one worker and fewer than 2^61.
  pub Walked-result :
      (root : String) (tree : Tree) (info : Option Info)
      → 0 < n
      → n < 2 ^ 61
      → (result : Option (List Finding)) × Walked scan n root tree info result
  unfolding makes_channels
  Walked-result root tree none some_workers fits =
      let (k, t, r, done) = Reach-finish scan n some_workers fits (begin (ground arith)) in
      (none, lstat_failed r done)
  Walked-result root tree (some info) some_workers fits =
      let (k, t, r, done) = Reach-finish scan n some_workers fits (begin (ground arith)) in
      (some t.visited, walked r done)

length-total : (fs : List Finding) → total (λ _. 1) fs ≡ length fs
length-total [] = refl
length-total (f ∷ fs) = omega (arith, length-total fs)

count_stale-same :
    (walk walk' : String → Option (List Finding))
    → ((p : String) → SameOutcome (walk p) (walk' p))
    → (ps : List String) (stale : ℕ) → count_stale walk ps stale ≡ count_stale walk' ps stale
unfolding count_stale
count_stale-same walk walk' same [] stale = refl
count_stale-same walk walk' same (p ∷ ps) stale =
    let h = same p in
    elim (Option-cases (walk p)) [
      | inl e ↦ elim (Option-cases (walk' p)) [
        | inl e' ↦ ground arith
        | inr (gs, e') ↦ absurd (rw (e, e') at h)
      ]
      | inr (fs, e) ↦ elim (Option-cases (walk' p)) [
        | inl e' ↦ absurd (rw (e, e') at h)
        | inr (gs, e') ↦
            let sums : (m : Finding → ℕ) → total m fs ≡ total m gs = rw (e, e') at h in
            let k : length fs ≡ length gs =
              sym (length-total fs) ∙ sums (λ _. 1) ∙ length-total gs in
            ground (arith, k, count_stale-same walk walk' same ps (stale + length gs))
      ]
    ]

-- The exit code of `Check` does not depend on how the goroutines are scheduled: it is the code for a
-- scan of one file after the other, if every path is walked with at least one worker.
pub check_paths-Walked :
    (scan : String → Option Finding) (n : ℕ) (tree : String → Tree) (lstat : String → Option Info)
    (walk : String → Option (List Finding))
    → 0 < n
    → ((p : String) → Walked scan n p (tree p) (lstat p) (walk p))
    → (paths : List String)
    → check_paths walk paths ≡ check_paths (λ p. scan_walk scan p (tree p) (lstat p)) paths
unfolding check_paths
check_paths-Walked scan n tree lstat walk h w paths =
    ap (λ (stale : Option ℕ). if is_empty paths then 1 else check_code stale)
      (count_stale-same walk _ (λ p. Walked-scan_walk scan n h (w p)) paths 0)
