-- ===== src/Engine/Verify/Slice.antt =====
-- engine/engine.go: `fixupSlice` in check mode, on one slice.
use mathlib.Core.Path.{subst}
use native.Mathlib.Decide.{dec_lt}
use machokeeper.Base.{
  ℕ, zero, suc, ◌+◌, ◌^◌, ◌≤◌, ◌<◌, ◌≡◌, ◌↔◌, refl, sym, ◌∙◌, String, true, false, Option, none,
  some, List, arith, length, inl, inr, Bool-cases, Option-cases,
}
use machokeeper.Engine.Defs.{Hashes}
use machokeeper.Engine.Signature.{Location, find_signature, super_blob_count}
use machokeeper.Engine.Signature.Bounds.{
  super_blob_count_within, super_blob_count-ne-none, find_signature-ne-none,
}
use machokeeper.Engine.Fixup.{
  Buffer, Progress, Region, fixup_entries, Fixed, start, conclude, fixup_signature, fixup_slice,
}
use machokeeper.Engine.Verify.Spec.{IsSignatureValid, IsSliceValid, region}
use machokeeper.Engine.Verify.Directory.{IsInFile}
use machokeeper.Engine.Verify.Signature.{is_directory, any_directory, fixup_entries-Visits}

any_directory_found :
    (b : List ℕ) (g : Region) (n bi : ℕ)
    → any_directory b g n bi ≡ true
    → (j : ℕ) × (bi ≤ j) × (j < bi + n) × (is_directory b g j ≡ true)
unfolding any_directory
any_directory_found b g zero bi e = absurd (ground arith)
any_directory_found b g (suc n) bi e = elim (Bool-cases (is_directory b g bi)) [
  | inl here ↦ (bi, omega arith, omega arith, here)
  | inr another ↦
      let (j, h, k, d) = any_directory_found b g n (bi + 1) (ground arith) in
      (j, omega arith, omega arith, d)
]

any_directory_there :
    (b : List ℕ) (g : Region) (n bi j : ℕ)
    → bi ≤ j
    → j < bi + n
    → is_directory b g j ≡ true
    → any_directory b g n bi ≡ true
unfolding any_directory
any_directory_there b g zero bi j h k d = absurd (omega arith)
any_directory_there b g (suc n) bi j h k d = elim (dec_lt bi j) [
  | yes l ↦ ground (arith, any_directory_there b g n (bi + 1) j (omega arith) (omega arith) d)
  | no l ↦ let e : bi ≡ j = omega arith in ground (arith, rw (← e) at d)
]

some-some :
    {A : Type 0} {m n : A} → ◌≡◌ {A = Option (Option A)} (some (some m)) (some (some n)) → m ≡ n
some-some e = cc

some-none : {A : Type 0} {m : A} → ◌≡◌ {A = Option (Option A)} (some none) (some (some m)) → ⊥
some-none e = cc

module _ (hashes : Hashes) (b : List ℕ) (g : Region) (f : IsInFile b g) (path : String) where
  abbrev checked : Buffer
  checked = record { bytes = b; changed = none }

  fixup_signature-IsSignatureValid :
      (count : ℕ) (s : Progress)
      → super_blob_count b g.sb_abs g.sig_size ≡ some (some count)
      → fixup_entries hashes g count 0 (start checked) ≡ some s
      → ((conclude g.write s).modified ≡ false) ↔ IsSignatureValid hashes b g
  unfolding conclude
  fixup_signature-IsSignatureValid count s c e =
      let v = fixup_entries-Visits hashes b g f count 0 (start checked) s refl e in
      (
        λ ok.
            let (_, entries, any) =
              v.sound (ground (arith, f.checking), ground (arith, f.checking)) in
            let (j, _, h, d) = any_directory_found b g count 0 (ground (arith, f.checking)) in
            record {
              count = count;
              parses = c;
              entries = λ i k. entries i (omega arith) (omega arith);
              directory_entry = j;
              directory_in_range = omega arith;
              directory_there = ground arith;
            },
        λ valid.
            let same : valid.count ≡ count = some-some (sym valid.parses ∙ c) in
            let there =
              any_directory_there b g count 0 valid.directory_entry (omega arith)
                (omega (arith, valid.directory_in_range)) (ground (arith, valid.directory_there)) in
            let (clean, any) = v.complete (refl, refl) (λ j _ h. valid.entries j (omega arith)) in
            ground (arith, f.checking),
      )

-- `fixupSlice` in check mode, on a slice of the file `b`.
module _ (hashes : Hashes) (b : List ℕ) (small : length b < 2 ^ 62) (base stop : ℕ)
    (base_fits : base ≤ length b) (stop_fits : stop ≤ length b) (path : String) where
  fixup_signature-check :
      (l : Location) (r : Fixed)
      → fixup_signature hashes (region base stop l) path (record { bytes = b; changed = none })
        ≡ some r
      → (r.modified ≡ false) ↔ IsSignatureValid hashes b (region base stop l)
  unfolding fixup_signature
  fixup_signature-check l r e =
      let g = region base stop l in
      elim (Option-cases (super_blob_count b g.sb_abs g.sig_size)) [
        | inl stuck ↦ absurd (super_blob_count-ne-none b g.sb_abs g.sig_size stuck)
        | inr (none, c) ↦
            (λ ok. absurd (ground arith), λ valid. absurd (some-none (sym c ∙ valid.parses)))
        | inr (some count, c) ↦
            elim (Option-cases
              (fixup_entries hashes g count 0 (start (record { bytes = b; changed = none })))) [
                | inl stuck ↦ absurd (ground arith)
                | inr (s, en) ↦
                    let inside : IsInFile b g = record {
                      small = small;
                      base_fits = base_fits;
                      end_fits = stop_fits;
                      sb_fits = super_blob_count_within b g.sb_abs g.sig_size count c;
                      checking = refl;
                    } in
                    let result : r ≡ conclude false s = ground arith in
                    rw result (fixup_signature-IsSignatureValid hashes b g inside path count s c en)
              ]
      ]

  -- It reports no change exactly if the slice's signature, if there is one, is valid.
  pub fixup_slice-check :
      (r : Fixed)
      → fixup_slice hashes base stop path false (record { bytes = b; changed = none }) ≡ some r
      → (r.modified ≡ false) ↔ IsSliceValid hashes b base stop
  unfolding fixup_slice
  fixup_slice-check r e = elim (Option-cases (find_signature b base)) [
    | inl stuck ↦ absurd (find_signature-ne-none b base stuck)
    | inr (none, c) ↦ (λ ok l h. absurd (some-none (sym c ∙ h)), λ valid. ground arith)
    | inr (some l, c) ↦
        let inner = fixup_signature-check l r (ground arith) in
        (
          λ ok m h.
              subst (λ k. IsSignatureValid hashes b (region base stop k)) (some-some (sym c ∙ h))
                (inner.0 ok),
          λ valid. inner.1 (valid l c),
        )
  ]
