-- ===== src/Doctor/Scan/Trial.antt =====
-- internal/doctor/doctor.go: the trial repair of `scanFile`, beside `planFileRepair`.
use machokeeper.Base.{
  ℕ, ◌≡◌, ◌↔◌, refl, String, true, false, Option, none, some, List, arith, inl, inr, Option-cases,
  ◌^◌, ◌<◌, length, Returns, Returns-if, Returns-bind, ◌∙◌, ap, sym, not,
}
use mathlib.Core.Option.{some-injective}
use machokeeper.Engine.Walk.Journal.{JournaledWalk, IsJournaled, repair-IsJournaled}
use machokeeper.Engine.Verify.Check.{check-IsFileValid}
use machokeeper.Engine.Defs.{Error, Hashes}
use machokeeper.Engine.Walk.{Walked, check, repair}
use machokeeper.Doctor.Plan.{
  VerifiedRepair, verified, judge, changes_of, plan_repair, plan_file_repair, passes, trial_repair,
}

-- A verified repair of the file exists.
abbrev pub HasRepair : Hashes → List ℕ → String → Type 0
HasRepair hashes contents path =
    (v : VerifiedRepair) × (plan_file_repair hashes (some contents) path ≡ some (verified v))

module _ (hashes : Hashes) (contents : List ℕ) (path : String) where
  passes-judge :
      (w : Walked) (failed : Option Error)
      → (passes hashes path w failed ≡ some true)
        ↔ ((v : VerifiedRepair) × (judge hashes path w failed ≡ some (verified v)))
  unfolding passes judge
  passes-judge w (some e) = (λ h. absurd (ground arith), λ (v, h). absurd (ground arith))
  passes-judge w none = elim (Option-cases (check hashes w.buffer.bytes path)) [
    | inl e ↦ (λ h. absurd (ground arith), λ (v, h). absurd (ground arith))
    | inr (true, e) ↦ (λ h. absurd (ground arith), λ (v, h). absurd (ground arith))
    | inr (false, e) ↦ (
      λ h. (
        record { path = path; bytes = w.buffer.bytes; changes = changes_of w.buffer.changed },
        ground arith,
      ),
      λ (v, h). ground arith,
    )
  ]

  -- The trial repair of `scanFile` succeeds exactly if `planFileRepair` yields a verified repair of
  -- the same bytes.
  pub trial_repair_iff :
      (trial_repair hashes contents path ≡ some true) ↔ HasRepair hashes contents path
  unfolding trial_repair plan_file_repair plan_repair
  trial_repair_iff = elim (Option-cases (repair hashes contents path)) [
    | inl e ↦ rw e (λ h. absurd (ground arith), λ (v, h). absurd (ground arith))
    | inr ((w, failed), e) ↦ rw e (passes-judge w failed)
  ]

  module _ (small : length contents < 2 ^ 62) where
    passes-Returns :
        (w : Walked) (failed : Option Error)
        → IsJournaled contents w.buffer
        → Returns (λ _. Unit {0}) (passes hashes path w failed)
    unfolding passes
    passes-Returns w (some e) j = (_, refl, tt)
    passes-Returns w none j =
        let (stale, e, valid) =
          check-IsFileValid hashes w.buffer.bytes (omega (arith, j.same_length)) path in
        Returns-if (λ _. Unit {0}) (not w.modified) _ _ (λ _. (_, refl, tt)) λ _. rw e (_, refl, tt)

    pub trial_repair-HasRepair :
        Returns
          (λ ok. (ok ≡ true) ↔ HasRepair hashes contents path)
          (trial_repair hashes contents path)
    trial_repair-HasRepair =
        let (ok, e, _) : Returns (λ _. Unit {0}) (trial_repair hashes contents path) =
          unfold trial_repair in
          Returns-bind (JournaledWalk contents) (λ _. Unit {0}) _ _
            (repair-IsJournaled hashes contents path small)
            λ (w, failed) j. passes-Returns w failed j in
        (
          ok,
          e,
          (
            λ h. trial_repair_iff.0 (e ∙ ap some h),
            λ has. some-injective _ _ (sym e ∙ trial_repair_iff.1 has),
          ),
        )
