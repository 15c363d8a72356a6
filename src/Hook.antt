-- ===== src/Hook.antt =====
-- internal/hook/hook.go: the entry points for builds and activations.
pub mod Closure
pub mod Exit
use machokeeper.Base.{
  ℕ, String, Bool, true, false, Option, none, some, List, [], ◌∷◌, ◌++◌, if◌then◌else◌, eq_string,
  ◌==◌,
}

-- Whether a path stands in a closure: the look-up in the map `old`.
unfoldable pub seen : List String → String → Bool
seen [] p = false
seen (q ∷ qs) p = if eq_string q p then true else seen qs p

-- The loop that collects the delta.
unfoldable pub not_seen : List String → List String → List String
not_seen old [] = []
not_seen old (p ∷ ps) = let rest = not_seen old ps in if seen old p then rest else p ∷ rest

-- `closureDelta` behind the first query. A query that fails is `none`.
unfoldable pub without : List String → Option (List String) → List String
without new_closure none = new_closure
without new_closure (some old_closure) = not_seen old_closure new_closure

-- `closureDelta`, with `requisitesFn` a parameter.
unfoldable pub closure_delta :
    (String → Option (List String)) → String → String → Option (List String)
closure_delta requisites new_path old_path = elim (requisites new_path) [
  | none ↦ none
  | some new_closure ↦
      if eq_string old_path ""
      then some new_closure
      else some (without new_closure (requisites old_path))
]

-- `doctor.Run` and `doctor.Check` on their arguments: the state after, and the exit code.
pub record DoctorCalls (D : Type 0) : Type 0 where
  pub run : List String → D → D × ℕ
  pub check : List String → D → D × ℕ

module _ {D : Type 0} (doctor : DoctorCalls D) where
  -- `PostBuild`, on the fields of OUT_PATHS.
  unfoldable pub post_build : List String → D → D × ℕ
  post_build [] d = (d, 0)
  post_build (p ∷ ps) d = ((doctor.run ("--fix" ∷ "--quiet" ∷ "--background" ∷ p ∷ ps) d).0, 0)

  -- The refusal of `ScanGeneration`.
  unfoldable pub refuse : D × ℕ → D × ℕ
  refuse (d, code) = if code == 2 then (d, 1) else (d, 0)

  -- `ScanGeneration` on a delta.
  unfoldable pub scan_delta : List String → String → D → D × ℕ
  scan_delta [] mode d = (d, 0)
  scan_delta (p ∷ ps) mode d =
      if eq_string mode "refuse"
      then refuse (doctor.check ("--background" ∷ p ∷ ps) d)
      else ((doctor.run ("--fix" ∷ "--background" ∷ p ∷ ps) d).0, 0)

  -- `ScanGeneration`
  unfoldable pub scan_generation :
      (String → Option (List String)) → String → String → String → D → D × ℕ
  scan_generation requisites new_path old_path mode d =
      elim (closure_delta requisites new_path old_path) [
        | none ↦ (d, 0)
        | some delta ↦ scan_delta delta mode d
      ]

  -- `Sweep`
  unfoldable pub sweep : D → D × ℕ
  sweep d = ((doctor.run ("--scan" ∷ "--fix" ∷ "--background" ∷ []) d).0, 0)
