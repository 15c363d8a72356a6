-- ===== src/Doctor/Command/Exit.antt =====
-- internal/doctor/doctor.go: the exit code of `Check`.
use machokeeper.Base.{
  ℕ, ◌+◌, ◌≡◌, ◌↔◌, refl, sym, ap, ◌∙◌, String, false, Option, some, List, [], ◌∷◌, arith, inl, inr,
  Option-cases, length, At, here, there, At-nil, At-cons,
}
use mathlib.Core.Option.{some-injective, none-ne-some}
use machokeeper.Doctor.Scan.{Finding}
use machokeeper.Doctor.Command.{count_stale, check_code, check_paths, is_empty}

empty_findings : (fs : List Finding) → length fs ≡ 0 → fs ≡ []
empty_findings [] e = refl
empty_findings (f ∷ fs) e = absurd (omega arith)

module _ (walk : String → Option (List Finding)) where
  -- Every path can be walked, and nothing is found.
  abbrev pub IsClean : List String → Type 0
  IsClean paths = (p : String) → At p paths → walk p ≡ some []

  IsClean-cons : (p : String) (ps : List String) → walk p ≡ some [] → IsClean ps → IsClean (p ∷ ps)
  IsClean-cons p ps e clean q a = elim (At-cons q p ps a) [
    | inl s ↦ ap walk s ∙ e
    | inr b ↦ clean q b
  ]

  count_stale-IsClean :
      (ps : List String) (n : ℕ) → (count_stale walk ps n ≡ some 0) ↔ ((n ≡ 0) × IsClean ps)
  unfolding count_stale
  count_stale-IsClean [] n =
      (λ e. (ground arith, λ p a. absurd (At-nil p a)), λ (e, clean). ground arith)
  count_stale-IsClean (p ∷ ps) n = elim (Option-cases (walk p)) [
    | inl e ↦ (
      λ h. absurd (ground arith),
      λ (z, clean). absurd (none-ne-some [] (sym e ∙ clean p (here refl))),
    )
    | inr (fs, e) ↦
        let rest = count_stale-IsClean ps (n + length fs) in
        (
          λ h.
              let (z, clean) = rest.0 (ground arith) in
              let none_found : fs ≡ [] = empty_findings fs (omega arith) in
              (omega arith, IsClean-cons p ps (e ∙ ap some none_found) clean),
          λ (z, clean).
              let none_found : fs ≡ [] = some-injective _ _ (sym e ∙ clean p (here refl)) in
              let back = rest.1 (
                omega (arith, ap (λ (l : List Finding). length l) none_found),
                λ q a. clean q (there a),
              ) in
              ground (arith, back),
        )
  ]

  -- `Check` exits with 0 exactly if it is given a path, can walk every path, and finds nothing.
  pub check_paths-IsClean :
      (paths : List String)
      → (check_paths walk paths ≡ 0) ↔ ((is_empty paths ≡ false) × IsClean paths)
  unfolding check_paths check_code
  check_paths-IsClean paths =
      let c = count_stale-IsClean paths 0 in
      elim (Option-cases (count_stale walk paths 0)) [
        | inl e ↦
            (λ h. absurd (ground arith), λ (n, clean). absurd (ground (arith, c.1 (refl, clean))))
        | inr (stale, e) ↦ (
          λ h. (ground arith, (c.0 (ground arith)).1),
          λ (n, clean). ground (arith, c.1 (refl, clean)),
        )
      ]
