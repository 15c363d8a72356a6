-- ===== src/Engine/Container/Only.antt =====
-- engine/engine.go: `walkContainer` with visits that are known only on the slices of the container.
use machokeeper.Base.{
  ℕ, zero, suc, ◌+◌, ◌*◌, ◌^◌, ◌≤◌, ◌<◌, ◌≡◌, refl, ap, ◌∙◌, Bool, true, false, Option, none, some,
  List, arith, length, Returns, Returns-if, Returns-bind, u64, ltb, ◌||◌, ◌==◌, not, if◌then◌else◌,
}
use native.Mathlib.Nat.{zero-add}
use machokeeper.Engine.Defs.{Error}
use machokeeper.Engine.Read.{be32, le32, rd_le32_within, rd_be32_within}
use machokeeper.Engine.Container.{
  valid_slice_bounds, Format, thin, fat32, fat64, other, format, arch_size_of, visit_arch,
  walk_archs, walk_fat, walk_container,
}
use machokeeper.Engine.Container.Rules.{archs_fit, arch_at, rd_arch_within, valid_slice_bounds_iff}
use machokeeper.Engine.Container.Slices.{IsFat, IsSlice, whole, member, exact_ends}

module _ {S : Type 0} (contents : S → List ℕ) (visit : ℕ → ℕ → S → Option (S × Option Error))
    (b : List ℕ) (small : length b < 2 ^ 62) (P : S → Type 0)
    (same : (s : S) → P s → contents s ≡ b)
    (keep : (base stop : ℕ) (s : S)
      → IsSlice b base stop
      → P s
      → Returns (λ (r : S × Option Error). P r.0) (visit base stop s)) where
  abbrev Kept : S × Option Error → Type 0
  Kept r = P r.0

  visit_arch-Only :
      (is64 : Bool) (i : ℕ) (s : S)
      → IsFat b is64
      → i < be32 b 4
      → 8 + i * arch_size_of is64 + arch_size_of is64 ≤ length b
      → P s
      → Returns Kept (visit_arch contents visit is64 (8 + be32 b 4 * arch_size_of is64) i s)
  unfolding visit_arch
  visit_arch-Only is64 i s fat h k p =
      let off = 8 + i * arch_size_of is64 in
      let ends = 8 + be32 b 4 * arch_size_of is64 in
      let base = (arch_at b is64 off).0 in
      let n = (arch_at b is64 off).1 in
      let bounds = valid_slice_bounds_iff base n ends (length b) (omega arith) in
      rw (same s p, visit_arch, rd_arch_within b is64 off k)
        (Returns-if Kept (not (valid_slice_bounds base n ends (length b))) _ _ (λ bad. (_, refl, p))
          λ good.
            let (some_size, behind, in_file) = bounds.0 (ground arith) in
            let exact : u64 (base + n) ≡ base + n = omega arith in
            let sl : IsSlice b base (base + n) = member is64 i fat h (record {
              slice_size = n;
              placed = refl;
              ends = refl;
              not_empty = some_size;
              behind = behind;
              in_file = in_file;
            }) in
            let (r, e, q) = keep base (base + n) s sl p in
            (r, ap (λ (stop : ℕ). visit base stop s) exact ∙ e, q))

  -- An error ends the loop.
  stop_or_go :
      (failed : Option Error) (s : S) (rest : Option (S × Option Error))
      → P s
      → Returns Kept rest
      → Returns Kept (elim failed [ none ↦ rest | some e ↦ some (s, some e) ])
  stop_or_go none s rest p r = r
  stop_or_go (some e) s rest p r = (_, refl, p)

  walk_archs-Only :
      (is64 : Bool) (n i : ℕ) (s : S)
      → IsFat b is64
      → i + n ≤ be32 b 4
      → 8 + (i + n) * arch_size_of is64 ≤ length b
      → P s
      → Returns Kept (walk_archs contents visit is64 (8 + be32 b 4 * arch_size_of is64) n i s)
  unfolding walk_archs
  walk_archs-Only is64 zero i s fat h k p = (_, refl, p)
  walk_archs-Only is64 (suc n) i s fat h k p =
      Returns-bind Kept Kept _ _ (visit_arch-Only is64 i s fat (omega arith) (grind arith) p)
        λ (s', failed) q.
          stop_or_go failed s' _ q
            (walk_archs-Only is64 n (i + 1) s' fat (omega arith) (grind arith) q)

  walk_fat-Only :
      (is64 : Bool) (s : S)
      → 28 ≤ length b
      → format (le32 b 0) (be32 b 0) ≡ (if is64 then fat64 else fat32)
      → P s
      → Returns Kept (walk_fat contents visit is64 s)
  unfolding walk_fat
  walk_fat-Only is64 s long announced p =
      let nfat = be32 b 4 in
      let ends = u64 (8 + u64 (nfat * arch_size_of is64)) in
      rw (same s p, walk_fat, rd_be32_within b 4 (omega arith))
        (Returns-if Kept (nfat == 0 || ltb 128 nfat || ltb (length b) ends) _ _
          (λ bad. (_, refl, p))
          λ good.
            let fits = archs_fit is64 nfat (length b) (length b) refl good in
            let fat : IsFat b is64 = record {
              header = long;
              announced = announced;
              some_arch = ground arith;
              few_archs = ground arith;
              array_fits = rw zero-add at fits;
            } in
            let (r, e, q) = walk_archs-Only is64 nfat 0 s fat (omega arith) fits p in
            (
              r,
              ap (λ (k : ℕ). walk_archs contents visit is64 k nfat 0 s)
                    (exact_ends is64 nfat fat.few_archs)
                  ∙ e,
              q,
            ))

  dispatch :
      (f : Format) (s : S)
      → format (le32 b 0) (be32 b 0) ≡ f
      → 28 ≤ length b
      → P s
      → Returns Kept (elim f [
        | thin ↦ visit 0 (length (contents s)) s
        | fat32 ↦ walk_fat contents visit false s
        | fat64 ↦ walk_fat contents visit true s
        | other ↦ some (s, none)
      ])
  dispatch thin s f long p =
      let (r, e, q) = keep 0 (length b) s (whole long f refl refl) p in
      (r, ap (λ (c : List ℕ). visit 0 (length c) s) (same s p) ∙ e, q)
  dispatch fat32 s f long p = walk_fat-Only false s long f p
  dispatch fat64 s f long p = walk_fat-Only true s long f p
  dispatch other s f long p = (_, refl, p)

  -- A state that fixes the bytes, and that every visit of a slice keeps, is kept by the walk.
  pub walk_container-Only : (s : S) → P s → Returns Kept (walk_container contents visit s)
  unfolding walk_container
  walk_container-Only s p =
      rw (same s p, walk_container)
        (Returns-if Kept (ltb (length b) 28) _ _ (λ short. (_, refl, p))
          λ long.
            rw (rd_le32_within b 0 (ground arith), rd_be32_within b 0 (ground arith))
              (dispatch (format (le32 b 0) (be32 b 0)) s refl (ground arith) p))
