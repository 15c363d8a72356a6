-- ===== src/Engine/Container/Rules.antt =====
-- engine/engine.go: rules for `validSliceBounds` and `walkContainer`.
use machokeeper.Base.{
  ℕ, zero, suc, ◌+◌, ◌*◌, ◌^◌, ◌≤◌, ◌<◌, ◌≡◌, refl, ◌↔◌, Bool, true, false, Option, none, some,
  List, arith, length, Returns, Returns-bind, Returns-if, Returns-read, u64, ltb, ◌||◌, ◌==◌, not,
}
use machokeeper.Engine.Defs.{Error}
use machokeeper.Engine.Read.{be32, le32, be64, rd_le32_within, rd_be32_within, rd_be64_within}
use machokeeper.Engine.Container.{
  valid_slice_bounds, Format, thin, fat32, fat64, other, format, arch_size_of, rd_arch, visit_arch,
  walk_archs, walk_fat, walk_container,
}

-- For a file of less than 2^63 bytes `validSliceBounds` accepts exactly the slices that, in exact
-- arithmetic, are not empty, start behind the fat_arch array and end within the file.
pub valid_slice_bounds_iff :
    (slice_off slice_size arch_array_end file_size : ℕ)
    → file_size < 2 ^ 63
    → (valid_slice_bounds slice_off slice_size arch_array_end file_size ≡ true)
      ↔ ((0 < slice_size) × (arch_array_end ≤ slice_off) × (slice_off + slice_size ≤ file_size))
unfolding valid_slice_bounds
valid_slice_bounds_iff off size ends file h = ground arith

-- The slice that an entry of the fat_arch array describes.
unfoldable pub arch_at : List ℕ → Bool → ℕ → ℕ × ℕ
arch_at b true arch_off = (be64 b (arch_off + 8), be64 b (arch_off + 16))
arch_at b false arch_off = (be32 b (arch_off + 8), be32 b (arch_off + 12))

pub rd_arch_within :
    (b : List ℕ) (is64 : Bool) (arch_off : ℕ)
    → arch_off + arch_size_of is64 ≤ length b
    → rd_arch b is64 arch_off ≡ some (arch_at b is64 arch_off)
unfolding rd_arch arch_at
rd_arch_within b true off h =
    rw (rd_be64_within b (off + 8) (omega arith), rd_be64_within b (off + 16) (omega arith))
rd_arch_within b false off h =
    rw (rd_be32_within b (off + 8) (omega arith), rd_be32_within b (off + 12) (omega arith))

-- The whole fat_arch array lies within a file that passes the test on its size.
pub archs_fit :
    (is64 : Bool) (nfat len size : ℕ)
    → len ≡ size
    → (nfat == 0 || ltb 128 nfat || ltb len (u64 (8 + u64 (nfat * arch_size_of is64)))) ≡ false
    → 8 + (0 + nfat) * arch_size_of is64 ≤ size
archs_fit true nfat len size e h = ground arith
archs_fit false nfat len size e h = ground arith

module _ {S : Type 0} (contents : S → List ℕ) (visit : ℕ → ℕ → S → Option (S × Option Error))
    (size : ℕ) (P : S → Type 0) (small : size < 2 ^ 62)
    (sized : (s : S) → P s → length (contents s) ≡ size)
    (keep : (slice_base slice_end : ℕ) (s : S)
      → slice_base ≤ slice_end
      → slice_end ≤ size
      → P s
      → Returns (λ (r : S × Option Error). P r.0) (visit slice_base slice_end s)) where
  abbrev Kept : S × Option Error → Type 0
  Kept r = P r.0

  visit_arch-Kept :
      (is64 : Bool) (arch_array_end i : ℕ) (s : S)
      → 8 + i * arch_size_of is64 + arch_size_of is64 ≤ size
      → P s
      → Returns Kept (visit_arch contents visit is64 arch_array_end i s)
  unfolding visit_arch
  visit_arch-Kept is64 ends i s h p =
      let (off, n) = arch_at (contents s) is64 (8 + i * arch_size_of is64) in
      let valid = valid_slice_bounds off n ends (length (contents s)) in
      let e = sized s p in
      Returns-read Kept _ _ _
        (rd_arch_within (contents s) is64 (8 + i * arch_size_of is64) (omega arith))
        (Returns-if Kept (not valid) _ _ (λ _. (_, refl, p))
          λ good.
            let v =
              (valid_slice_bounds_iff off n ends (length (contents s)) (omega arith)).0
                (ground arith) in
            keep off (u64 (off + n)) s (omega arith) (omega arith) p)

  -- An error ends the loop.
  stop :
      (failed : Option Error) (s : S) (rest : Option (S × Option Error))
      → P s
      → Returns Kept rest
      → Returns Kept (elim failed [ none ↦ rest | some e ↦ some (s, some e) ])
  stop none s rest p r = r
  stop (some e) s rest p r = (_, refl, p)

  walk_archs-Kept :
      (is64 : Bool) (arch_array_end n i : ℕ) (s : S)
      → 8 + (i + n) * arch_size_of is64 ≤ size
      → P s
      → Returns Kept (walk_archs contents visit is64 arch_array_end n i s)
  unfolding walk_archs
  walk_archs-Kept is64 ends zero i s h p = (_, refl, p)
  walk_archs-Kept is64 ends (suc n) i s h p =
      Returns-bind Kept Kept _ _ (visit_arch-Kept is64 ends i s (grind arith) p) λ (s', failed) q.
        stop failed s' _ q (walk_archs-Kept is64 ends n (i + 1) s' (grind arith) q)

  walk_fat-Kept :
      (is64 : Bool) (s : S) → 28 ≤ size → P s → Returns Kept (walk_fat contents visit is64 s)
  unfolding walk_fat
  walk_fat-Kept is64 s h p =
      let nfat = be32 (contents s) 4 in
      let ends = u64 (8 + u64 (nfat * arch_size_of is64)) in
      let e = sized s p in
      Returns-read Kept _ _ _ (rd_be32_within (contents s) 4 (omega arith)) (
        Returns-if Kept (nfat == 0 || ltb 128 nfat || ltb (length (contents s)) ends) _ _
          (λ _. (_, refl, p))
          λ good. walk_archs-Kept is64 ends nfat 0 s (archs_fit is64 nfat _ size e good) p)

  pub walk_container-Kept : (s : S) → P s → Returns Kept (walk_container contents visit s)
  unfolding walk_container
  walk_container-Kept s p =
      let b = contents s in
      let e = sized s p in
      Returns-if Kept (ltb (length b) 28) _ _ (λ _. (_, refl, p))
        λ long. Returns-read Kept _ _ _ (rd_le32_within b 0 (ground arith)) (
          Returns-read Kept _ _ _ (rd_be32_within b 0 (ground arith))
            (dispatch (format (le32 b 0) (be32 b 0)) (ground arith)))
    where
      dispatch :
          (f : Format)
          → 28 ≤ size
          → Returns Kept (elim f as (λ _. Option (S × Option Error)) [
            | thin ↦ visit 0 (length (contents s)) s
            | fat32 ↦ walk_fat contents visit false s
            | fat64 ↦ walk_fat contents visit true s
            | other ↦ some (s, none)
          ])
      dispatch thin h = keep 0 (length (contents s)) s (omega arith) (omega (arith, sized s p)) p
      dispatch fat32 h = walk_fat-Kept false s h p
      dispatch fat64 h = walk_fat-Kept true s h p
      dispatch other h = (_, refl, p)

-- A thin file is one slice.
pub walk_container_thin :
    {S : Type 0} (contents : S → List ℕ) (visit : ℕ → ℕ → S → Option (S × Option Error)) (s : S)
    → 28 ≤ length (contents s)
    → format (le32 (contents s) 0) (be32 (contents s) 0) ≡ thin
    → walk_container contents visit s ≡ visit 0 (length (contents s)) s
unfolding walk_container
walk_container_thin contents visit s long t = ground (
  arith,
  rd_le32_within (contents s) 0 (omega arith),
  rd_be32_within (contents s) 0 (omega arith),
)
