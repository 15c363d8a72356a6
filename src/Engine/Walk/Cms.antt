-- ===== src/Engine/Walk/Cms.antt =====
-- engine/engine.go: `Repair`, and the files that `Detect` calls CMS.
use machokeeper.Base.{
  ℕ, ◌^◌, ◌<◌, ◌≡◌, ◌≤◌, ◌↔◌, ◌≢◌, String, true, false, Option, none, some, List, [], arith, length,
  inl, inr, Option-cases, Returns,
}
use machokeeper.Engine.Defs.{Kind, unsigned, cms, Error, cms_repair, Hashes}
use machokeeper.Engine.Signature.{detect_slice, slice_carries_cms}
use machokeeper.Engine.Signature.Kinds.{
  is_cms, detect_slice-ne-none, slice_carries_cms-detect_slice,
}
use machokeeper.Engine.Container.{walk_container, format, thin}
use machokeeper.Engine.Read.{le32, be32}
use machokeeper.Engine.Container.Rules.{walk_container_thin}
use machokeeper.Engine.Container.Maps.{walk_container-follows}
use machokeeper.Engine.Fixup.{Buffer, Fixed, conclude, fixup_signature, fixup_slice}
use machokeeper.Engine.Walk.{
  Walked, detect_visit, detect, cms_visit, any_cms, fixup_visit, walk_fixup, walk, repair,
}
use machokeeper.Engine.Walk.Journal.{repair-IsJournaled}

module _ (b : List ℕ) where
  cms_visit-follows :
      (base stop : ℕ) (k k' : Kind) (failed : Option Error)
      → detect_visit b base stop k ≡ some (k', failed)
      → cms_visit b base stop (is_cms k) ≡ some (is_cms k', failed)
  unfolding detect_visit cms_visit
  cms_visit-follows base stop k k' failed e = elim (Option-cases (detect_slice b base)) [
    | inl n ↦ absurd (detect_slice-ne-none b base n)
    | inr (j, d) ↦ ground (arith, slice_carries_cms-detect_slice b base j d)
  ]

  -- If `Detect` returns the kind k, then the scan that `walk` makes before a repair returns, and finds
  -- a CMS signature exactly if k is CMS.
  pub any_cms-detect : (k : Kind) → detect b ≡ some k → any_cms b ≡ some (is_cms k)
  unfolding detect any_cms
  any_cms-detect k e = elim (Option-cases (walk_container (λ _. b) (detect_visit b) unsigned)) [
    | inl n ↦ ground arith
    | inr ((j, failed), w) ↦ ground (
      arith,
      walk_container-follows b is_cms (detect_visit b) (cms_visit b) cms_visit-follows unsigned j
          failed w,
    )
  ]

module _ (hashes : Hashes) (path : String) where
  -- On a file that `Detect` calls CMS, `Repair` returns ErrCMSRepair with its path, reports no change
  -- and leaves the bytes and an empty journal.
  pub repair-cms :
      (contents : List ℕ)
      → detect contents ≡ some cms
      → repair hashes contents path
        ≡ some (
          record { buffer = record { bytes = contents; changed = some [] }; modified = false },
          some (cms_repair path),
        )
  unfolding repair walk
  repair-cms contents d = rw (any_cms-detect contents cms d)

  -- A slice without a CMS signature is repaired with no error.
  fixup_slice-failed :
      (base stop : ℕ) (buf : Buffer) (r : Fixed)
      → slice_carries_cms buf.bytes base ≡ some false
      → fixup_slice hashes base stop path true buf ≡ some r
      → r.failed ≡ none
  unfolding slice_carries_cms fixup_slice fixup_signature conclude
  fixup_slice-failed base stop buf r c e = ground arith

  module _ (contents : List ℕ) (long : 28 ≤ length contents)
      (t : format (le32 contents 0) (be32 contents 0) ≡ thin) where
    any_cms_thin : any_cms contents ≡ slice_carries_cms contents 0
    unfolding any_cms cms_visit
    any_cms_thin =
        rw (walk_container_thin (λ _. contents) (cms_visit contents) false long t) (ground arith)

    walk_fixup_thin :
        (w : Walked) (failed : Option Error)
        → slice_carries_cms contents 0 ≡ some false
        → walk_fixup hashes path true (record { bytes = contents; changed = some [] })
          ≡ some (w, failed)
        → failed ≡ none
    unfolding walk_fixup fixup_visit
    walk_fixup_thin w failed c e =
        let buf : Buffer = record { bytes = contents; changed = some [] } in
        let visit = fixup_visit hashes path true in
        let s : Walked = record { buffer = buf; modified = false } in
        let one = walk_container_thin (λ (v : Walked). v.buffer.bytes) visit s long t in
        elim (Option-cases (fixup_slice hashes 0 (length contents) path true buf)) [
          | inl n ↦ ground (arith, one)
          | inr (r, f) ↦ ground (arith, one, fixup_slice-failed 0 (length contents) buf r c f)
        ]

    thin_failed :
        (k : Kind) (w : Walked) (failed : Option Error)
        → detect contents ≡ some k
        → repair hashes contents path ≡ some (w, failed)
        → (failed ≡ none) ↔ (k ≢ cms)
    unfolding repair walk
    thin_failed k w failed d e = (
      λ ok is. ground (arith, any_cms-detect contents k d),
      λ other. ground (arith, any_cms-detect contents k d, any_cms_thin, walk_fixup_thin w failed),
    )

    -- On a thin file of at least 28 bytes, and below 2^62, that `Detect` calls k, `Repair` returns, with no panic, and it
    -- returns an error exactly if k is CMS.
    pub repair_thin-failed :
        (k : Kind)
        → length contents < 2 ^ 62
        → detect contents ≡ some k
        → Returns
            (λ (r : Walked × Option Error). (r.1 ≡ none) ↔ (k ≢ cms))
            (repair hashes contents path)
    repair_thin-failed k small d =
        let (r, e, j) = repair-IsJournaled hashes contents path small in
        (r, e, thin_failed k r.0 r.1 d e)
