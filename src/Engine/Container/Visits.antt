-- ===== src/Engine/Container/Visits.antt =====
-- engine/engine.go: `walkContainer`, and the slices of the container.
use machokeeper.Base.{
  ℕ, zero, suc, ◌+◌, ◌*◌, ◌^◌, ◌≤◌, ◌<◌, ◌≡◌, ◌↔◌, refl, sym, ap, ◌∙◌, Bool, true, false, Option,
  none, some, List, arith, length, ◌>>=◌, Returns, Returns-if, u64, ltb, ◌||◌, ◌==◌, not, ForRange,
  ForRange-zero, ForRange-suc, if◌then◌else◌,
}
use mathlib.Core.Path.{subst}
use native.Mathlib.Nat.{zero-add}
use machokeeper.Engine.Defs.{Error}
use machokeeper.Engine.Read.{be32, le32, rd_le32_within, rd_be32_within}
use machokeeper.Engine.Container.{
  valid_slice_bounds, Format, thin, fat32, fat64, other, format, arch_size_of, visit_arch,
  walk_archs, walk_fat, walk_container,
}
use machokeeper.Engine.Container.Rules.{archs_fit, arch_at, rd_arch_within, valid_slice_bounds_iff}
use machokeeper.Engine.Container.Slices.{
  IsMember, IsFat, IsSlice, whole, member, exact_ends, archs_refused, IsSlice-header, thin_only,
  other_none, IsFat-only,
}

-- A visit that returns no error, keeps `J` (and so the bytes), and leaves the flag clear exactly if
-- it was and `Q` holds.
module _ {S : Type 0} (contents : S → List ℕ) (visit : ℕ → ℕ → S → Option (S × Option Error))
    (b : List ℕ) (small : length b < 2 ^ 62) (J : S → Type 0)
    (same : (s : S) → J s → contents s ≡ b) (flag : S → Bool) (Q : ℕ → ℕ → Type 0) where
  pub record Outcome (s : S) (V : Type 0) (r : S × Option Error) : Type 0 where
    pub no_error : r.1 ≡ none
    pub keeps : J r.0
    pub sound : flag r.0 ≡ false → (flag s ≡ false) × V
    pub complete : flag s ≡ false → V → flag r.0 ≡ false

  unchanged : (s : S) (V : Type 0) → J s → V → Outcome s V (s, none)
  unchanged s V j v = record {
    no_error = refl;
    keeps = j;
    sound = λ c. (c, v);
    complete = λ c _. c;
  }

  Outcome-iff :
      (s : S) (V W : Type 0) (r : S × Option Error) → Outcome s V r → V ↔ W → Outcome s W r
  Outcome-iff s V W r o i = record {
    no_error = o.no_error;
    keeps = o.keeps;
    sound = λ c. let (d, v) = o.sound c in (d, i.0 v);
    complete = λ c w. o.complete c (i.1 w);
  }

  Outcome-then :
      (s t : S) (V W : Type 0) (r : S × Option Error)
      → Outcome s V (t, none)
      → Outcome t W r
      → Outcome s (V × W) r
  Outcome-then s t V W r o p = record {
    no_error = p.no_error;
    keeps = p.keeps;
    sound = λ c. let (d, w) = p.sound c in let (e, v) = o.sound d in (e, (v, w));
    complete = λ c (v, w). p.complete (o.complete c v) w;
  }

  -- The loop goes on after a visit.
  walk_on :
      (s : S) (V W X : Type 0) (m : Option (S × Option Error))
      (rest : S → Option (S × Option Error))
      → Returns (Outcome s V) m
      → ((t : S) → J t → Returns (Outcome t W) (rest t))
      → (V × W) ↔ X
      → Returns
          (Outcome s X)
          (m >>= λ (t, failed). elim failed [ none ↦ rest t | some e ↦ some (t, some e) ])
  walk_on s V W X m rest ((t, none), e, o) k i =
      let (r, e', p) = k t o.keeps in
      rw e (r, e', Outcome-iff s _ _ r (Outcome-then s t V W r o p) i)
  walk_on s V W X m rest ((t, some x), e, o) k i = absurd (ground (arith, o.no_error))

  module _
      (step : (base stop : ℕ) (s : S)
        → base ≤ stop
        → stop ≤ length b
        → J s
        → Returns (Outcome s (Q base stop)) (visit base stop s)) where
    abbrev AllMembers : Bool → ℕ → Type 0
    AllMembers is64 i = (base stop : ℕ) → IsMember b is64 i base stop → Q base stop

    one_member :
        (is64 : Bool) (i base n : ℕ)
        → arch_at b is64 (8 + i * arch_size_of is64) ≡ (base, n)
        → Q base (base + n)
        → AllMembers is64 i
    one_member is64 i base n e q base' stop' m =
        let e0 : base ≡ base' = ap (λ (a : ℕ × ℕ). a.0) (sym e ∙ m.placed) in
        let e1 : n ≡ m.slice_size = ap (λ (a : ℕ × ℕ). a.1) (sym e ∙ m.placed) in
        let e2 : base + n ≡ stop' = omega (arith, m.ends) in
        subst (λ x. Q x stop') e0 (subst (Q base) e2 q)

    visit_arch-Outcome :
        (is64 : Bool) (i : ℕ) (s : S)
        → 8 + i * arch_size_of is64 + arch_size_of is64 ≤ length b
        → J s
        → Returns
            (Outcome s (AllMembers is64 i))
            (visit_arch contents visit is64 (8 + be32 b 4 * arch_size_of is64) i s)
    unfolding visit_arch
    visit_arch-Outcome is64 i s h j =
        let off = 8 + i * arch_size_of is64 in
        let ends = 8 + be32 b 4 * arch_size_of is64 in
        let base = (arch_at b is64 off).0 in
        let n = (arch_at b is64 off).1 in
        let bounds = valid_slice_bounds_iff base n ends (length b) (omega arith) in
        rw (same s j, visit_arch, rd_arch_within b is64 off h)
          (Returns-if (Outcome s (AllMembers is64 i))
            (not (valid_slice_bounds base n ends (length b))) _ _
            (λ bad. (
              (s, none),
              refl,
              unchanged s _ j (λ base' stop' m.
                  let e = sym m.placed in
                  let f : base ≡ base' = ap (λ (a : ℕ × ℕ). a.0) m.placed in
                  let g : n ≡ m.slice_size = ap (λ (a : ℕ × ℕ). a.1) m.placed in
                  absurd (
                    ground (
                      arith,
                      bounds.1 (
                        omega (arith, m.not_empty),
                        omega (arith, m.behind),
                        omega (arith, m.in_file),
                      ),
                    ))),
            ))
            (λ good.
              let (some_size, behind, in_file) = bounds.0 (ground arith) in
              let exact : u64 (base + n) ≡ base + n = omega arith in
              let (r, e, o) = step base (base + n) s (omega arith) in_file j in
              (
                r,
                ap (λ (stop : ℕ). visit base stop s) exact ∙ e,
                Outcome-iff s _ _ r o (
                  one_member is64 i base n refl,
                  λ all. all base (base + n) (record {
                    slice_size = n;
                    placed = refl;
                    ends = refl;
                    not_empty = some_size;
                    behind = behind;
                    in_file = in_file;
                  }),
                ),
              )))

    walk_archs-Outcome :
        (is64 : Bool) (n i : ℕ) (s : S)
        → 8 + (i + n) * arch_size_of is64 ≤ length b
        → J s
        → Returns
            (Outcome s (ForRange (AllMembers is64) n i))
            (walk_archs contents visit is64 (8 + be32 b 4 * arch_size_of is64) n i s)
    unfolding walk_archs
    walk_archs-Outcome is64 zero i s h j = ((s, none), refl, unchanged s _ j (ForRange-zero _ i))
    walk_archs-Outcome is64 (suc n) i s h j =
        walk_on s _ _ _ _
          (walk_archs contents visit is64 (8 + be32 b 4 * arch_size_of is64) n (i + 1))
          (visit_arch-Outcome is64 i s (grind arith) j)
          (λ t k. walk_archs-Outcome is64 n (i + 1) t (grind arith) k)
          (ForRange-suc (AllMembers is64) n i)

    walk_fat-Outcome :
        (is64 : Bool) (s : S)
        → 28 ≤ length b
        → format (le32 b 0) (be32 b 0) ≡ (if is64 then fat64 else fat32)
        → J s
        → Returns
            (Outcome s (
              (i base stop : ℕ)
              → IsFat b is64
              → i < be32 b 4
              → IsMember b is64 i base stop
              → Q base stop))
            (walk_fat contents visit is64 s)
    unfolding walk_fat
    walk_fat-Outcome is64 s long announced j =
        let nfat = be32 b 4 in
        let ends = u64 (8 + u64 (nfat * arch_size_of is64)) in
        rw (same s j, walk_fat, rd_be32_within b 4 (omega arith))
          (Returns-if (Outcome s _) (nfat == 0 || ltb 128 nfat || ltb (length b) ends) _ _
            (λ bad. (
              (s, none),
              refl,
              unchanged s _ j (λ i base stop fat h m. absurd (archs_refused b is64 fat bad)),
            ))
            (λ good.
              let fits = archs_fit is64 nfat (length b) (length b) refl good in
              let fat : IsFat b is64 = record {
                header = long;
                announced = announced;
                some_arch = ground arith;
                few_archs = ground arith;
                array_fits = rw zero-add at fits;
              } in
              let (r, e, o) = walk_archs-Outcome is64 nfat 0 s fits j in
              (
                r,
                ap (λ (k : ℕ). walk_archs contents visit is64 k nfat 0 s)
                      (exact_ends is64 nfat fat.few_archs)
                    ∙ e,
                Outcome-iff s _ _ r o (
                  λ all i base stop _ h. all i (omega arith) (omega arith) base stop,
                  λ all i _ h base stop. all i base stop fat (omega arith),
                ),
              )))

    abbrev AllSlices : Type 0
    AllSlices = (base stop : ℕ) → IsSlice b base stop → Q base stop

    IsFat-slices :
        (is64 : Bool)
        → format (le32 b 0) (be32 b 0) ≡ (if is64 then fat64 else fat32)
        → ((i base stop : ℕ)
            → IsFat b is64
            → i < be32 b 4
            → IsMember b is64 i base stop
            → Q base stop)
          ↔ AllSlices
    IsFat-slices is64 f = (
      λ all base stop sl. only base stop sl (IsFat-only is64 f base stop sl) all,
      λ all i base stop fat h m. all base stop (member is64 i fat h m),
    )
      where
        only :
            (base stop : ℕ)
            → IsSlice b base stop
            → ((i : ℕ) × IsFat b is64 × (i < be32 b 4) × IsMember b is64 i base stop)
            → ((i base stop : ℕ)
                → IsFat b is64
                → i < be32 b 4
                → IsMember b is64 i base stop
                → Q base stop)
            → Q base stop
        only base stop sl (i, fat, h, m) all = all i base stop fat h m

    dispatch :
        (f : Format) (s : S)
        → format (le32 b 0) (be32 b 0) ≡ f
        → 28 ≤ length b
        → J s
        → Returns (Outcome s AllSlices) (elim f [
          | thin ↦ visit 0 (length (contents s)) s
          | fat32 ↦ walk_fat contents visit false s
          | fat64 ↦ walk_fat contents visit true s
          | other ↦ some (s, none)
        ])
    dispatch thin s f long j =
        let (r, e, o) = step 0 (length b) s (omega arith) (omega arith) j in
        (
          r,
          ap (λ (c : List ℕ). visit 0 (length c) s) (same s j) ∙ e,
          Outcome-iff s _ _ r o (
            λ q base stop sl.
                let (h, k) = thin_only f base stop sl in
                subst (λ x. Q x stop) (sym h) (subst (Q 0) (sym k) q),
            λ all. all 0 (length b) (whole long f refl refl),
          ),
        )
    dispatch fat32 s f long j =
        let (r, e, o) = walk_fat-Outcome false s long f j in
        (r, e, Outcome-iff s _ _ r o (IsFat-slices false f))
    dispatch fat64 s f long j =
        let (r, e, o) = walk_fat-Outcome true s long f j in
        (r, e, Outcome-iff s _ _ r o (IsFat-slices true f))
    dispatch other s f long j =
        ((s, none), refl, unchanged s _ j λ base stop sl. absurd (other_none f base stop sl))

    -- The walk visits every slice: no visit fails, and the flag stays clear exactly if it was and `Q`
    -- holds of each slice.
    pub walk_container-Outcome :
        (s : S)
        → J s
        → Returns
            (Outcome s ((base stop : ℕ) → IsSlice b base stop → Q base stop))
            (walk_container contents visit s)
    unfolding walk_container
    walk_container-Outcome s j =
        rw (same s j, walk_container)
          (Returns-if (Outcome s _) (ltb (length b) 28) _ _
            (λ short. (
              (s, none),
              refl,
              unchanged s _ j λ base stop sl. absurd (IsSlice-header b base stop sl short),
            ))
            (λ long.
              rw (rd_le32_within b 0 (ground arith), rd_be32_within b 0 (ground arith))
                (dispatch (format (le32 b 0) (be32 b 0)) s refl (ground arith) j)))
