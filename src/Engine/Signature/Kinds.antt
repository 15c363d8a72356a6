-- ===== src/Engine/Signature/Kinds.antt =====
-- engine/engine.go: `detectSlice` beside `sliceCarriesCMS`.
use machokeeper.Base.{
  ℕ, ◌+◌, ◌≡◌, ◌≢◌, Bool, true, false, none, some, List, arith, inl, inr, Option-cases,
}
use machokeeper.Engine.Defs.{Kind, cms}
use machokeeper.Engine.Signature.{find_signature, super_blob_count, detect_slice, slice_carries_cms}
use machokeeper.Engine.Signature.Bounds.{
  find_signature-ne-none, super_blob_count-ne-none, super_blob_count_within,
  has_non_empty_cms-ne-none,
}

abbrev pub is_cms : Kind → Bool
is_cms cms = true
is_cms _ = false

module _ (b : List ℕ) (base : ℕ) where
  pub detect_slice-ne-none : detect_slice b base ≢ none
  unfolding detect_slice
  detect_slice-ne-none = elim (Option-cases (find_signature b base)) [
    | inl e ↦ absurd (find_signature-ne-none b base e)
    | inr (none, e) ↦ ground arith
    | inr (some (off, size), e) ↦ elim (Option-cases (super_blob_count b (base + off) size)) [
      | inl f ↦ absurd (super_blob_count-ne-none b (base + off) size f)
      | inr (none, f) ↦ ground arith
      | inr (some count, f) ↦ ground (
        arith,
        has_non_empty_cms-ne-none b (base + off) size count
            (super_blob_count_within b (base + off) size count f),
      )
    ]
  ]

  -- The scan before a repair finds a CMS signature in exactly the slices that are detected as CMS.
  pub slice_carries_cms-detect_slice :
      (k : Kind) → detect_slice b base ≡ some k → slice_carries_cms b base ≡ some (is_cms k)
  unfolding detect_slice slice_carries_cms
  slice_carries_cms-detect_slice k e = ground arith
