-- ===== src/Engine/Walk/Strongest.antt =====
-- engine/engine.go: `Detect`, and the kinds of the slices.
use machokeeper.Base.{
  ℕ, ◌^◌, ◌<◌, ◌≤◌, ◌≡◌, ◌↔◌, refl, false, Option, some, List, arith, length, inl, inr,
  Option-cases, Returns, Returns-bind, if◌then◌else◌,
}
use machokeeper.Engine.Defs.{Kind, unsigned, ad_hoc, cms, stronger, Error}
use machokeeper.Engine.Signature.{detect_slice}
use machokeeper.Engine.Signature.Kinds.{detect_slice-ne-none}
use machokeeper.Engine.Container.Slices.{IsSlice}
use machokeeper.Engine.Container.Visits.{Outcome, walk_container-Outcome}
use machokeeper.Engine.Walk.{detect_visit, detect}

stronger_max :
    (k j t : Kind)
    → (stronger (if stronger k j then k else j) t ≡ false)
      ↔ ((stronger j t ≡ false) × (stronger k t ≡ false))
stronger_max unsigned unsigned t = ground arith
stronger_max unsigned ad_hoc t = ground arith
stronger_max unsigned cms t = ground arith
stronger_max ad_hoc unsigned unsigned = ground arith
stronger_max ad_hoc unsigned ad_hoc = ground arith
stronger_max ad_hoc unsigned cms = ground arith
stronger_max ad_hoc ad_hoc t = ground arith
stronger_max ad_hoc cms unsigned = ground arith
stronger_max ad_hoc cms ad_hoc = ground arith
stronger_max ad_hoc cms cms = ground arith
stronger_max cms unsigned unsigned = ground arith
stronger_max cms unsigned ad_hoc = ground arith
stronger_max cms unsigned cms = ground arith
stronger_max cms ad_hoc unsigned = ground arith
stronger_max cms ad_hoc ad_hoc = ground arith
stronger_max cms ad_hoc cms = ground arith
stronger_max cms cms t = ground arith

-- The slice at `base` is detected as no stronger kind than `t`.
abbrev pub IsAtMost : List ℕ → Kind → ℕ → ℕ → Type 0
IsAtMost b t base stop = (k : Kind) → detect_slice b base ≡ some k → stronger k t ≡ false

module _ (b : List ℕ) (small : length b < 2 ^ 62) (t : Kind) where
  abbrev Weighs : Kind → Type 0 → Kind × Option Error → Type 0
  Weighs =
      Outcome (λ _. b) (detect_visit b) b small (λ _. Unit {0}) (λ _ _. refl) (λ j. stronger j t)
        (IsAtMost b t)

  detect_visit-Weighs :
      (base stop : ℕ) (j : Kind)
      → base ≤ stop
      → stop ≤ length b
      → Unit {0}
      → Returns (Weighs j (IsAtMost b t base stop)) (detect_visit b base stop j)
  unfolding detect_visit
  detect_visit-Weighs base stop j h l u = elim (Option-cases (detect_slice b base)) [
    | inl n ↦ absurd (detect_slice-ne-none b base n)
    | inr (k, d) ↦ rw d (
      _,
      refl,
      record {
        no_error = refl;
        keeps = tt;
        sound = λ c. let (e, f) = (stronger_max k j t).0 c in (e, λ k' d'. ground (arith));
        complete = λ c v. (stronger_max k j t).1 (c, v k refl);
      },
    )
  ]

  -- On a file of less than 2^62 bytes `Detect` returns, with no panic, and for each kind t what it
  -- returns is at most t exactly if every slice of the container is of a kind at most t: it returns
  -- the strongest kind over the slices, and `unsigned` where there is none.
  pub detect-IsSlice :
      Returns
        (λ k.
          (stronger k t ≡ false) ↔ ((base stop : ℕ) → IsSlice b base stop → IsAtMost b t base stop))
        (detect b)
  unfolding detect
  detect-IsSlice =
      Returns-bind
        (Weighs unsigned ((base stop : ℕ) → IsSlice b base stop → IsAtMost b t base stop)) _ _ _
        (walk_container-Outcome (λ _. b) (detect_visit b) b small (λ _. Unit {0}) (λ _ _. refl)
          (λ j. stronger j t) (IsAtMost b t) detect_visit-Weighs unsigned tt)
        λ r o. (_, refl, (λ c. (o.sound c).1, λ v. o.complete refl v))
