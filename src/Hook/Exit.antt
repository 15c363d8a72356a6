-- ===== src/Hook/Exit.antt =====
-- internal/hook/hook.go: the exit codes of `ScanGeneration`.
use machokeeper.Base.{
  ℕ, ◌≡◌, ◌⊎◌, ◌==◌, refl, String, Option, some, List, [], ◌∷◌, arith, inl, inr, Bool-cases,
  Option-cases, eq_string, eq_string_iff,
}
use machokeeper.Hook.{closure_delta, DoctorCalls, refuse, scan_delta, scan_generation}

module _ {D : Type 0} (doctor : DoctorCalls D) where
  -- The scan refuses: in the mode "refuse", a check of the delta, which is not empty, exits with 2.
  pub record IsRefusal (delta : Option (List String)) (mode : String) (d : D) : Type 0 where
    pub first : String
    pub others : List String
    pub delta_is : delta ≡ some (first ∷ others)
    pub refusing : mode ≡ "refuse"
    pub stale : (doctor.check ("--background" ∷ first ∷ others) d).1 ≡ 2

  refuse-code : (r : D × ℕ) → ((refuse doctor r).1 ≡ 0) ⊎ (((refuse doctor r).1 ≡ 1) × (r.1 ≡ 2))
  unfolding refuse
  refuse-code (d, code) = elim (Bool-cases (code == 2)) [
    | inl e ↦ inr (ground arith, ground arith)
    | inr e ↦ inl (ground arith)
  ]

  scan_delta-code :
      (delta : List String) (mode : String) (d : D)
      → ((scan_delta doctor delta mode d).1 ≡ 0)
        ⊎ (((scan_delta doctor delta mode d).1 ≡ 1) × IsRefusal (some delta) mode d)
  unfolding scan_delta
  scan_delta-code [] mode d = inl refl
  scan_delta-code (p ∷ ps) mode d = elim (Bool-cases (eq_string mode "refuse")) [
    | inl e ↦ elim (refuse-code (doctor.check ("--background" ∷ p ∷ ps) d)) [
      | inl z ↦ inl (rw e z)
      | inr (o, s) ↦ inr (
        rw e o,
        record {
          first = p;
          others = ps;
          delta_is = refl;
          refusing = (eq_string_iff mode "refuse").0 e;
          stale = s;
        },
      )
    ]
    | inr e ↦ inl (rw e refl)
  ]

  -- `ScanGeneration` fails open: it exits with 0, or with 1 and then it is a refusal: the mode is
  -- "refuse", the delta is not empty, and its check exits with 2.
  pub scan_generation-IsRefusal :
      (requisites : String → Option (List String)) (new_path old_path mode : String) (d : D)
      → ((scan_generation doctor requisites new_path old_path mode d).1 ≡ 0)
        ⊎ (((scan_generation doctor requisites new_path old_path mode d).1 ≡ 1)
            × IsRefusal (closure_delta requisites new_path old_path) mode d)
  unfolding scan_generation
  scan_generation-IsRefusal requisites new_path old_path mode d =
      elim (Option-cases (closure_delta requisites new_path old_path)) [
        | inl e ↦ rw (scan_generation, e) (inl refl)
        | inr (delta, e) ↦ rw (scan_generation, e) (scan_delta-code delta mode d)
      ]
