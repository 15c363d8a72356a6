-- ===== src/Doctor/Scan/Finds.antt =====
-- internal/doctor/doctor.go: the findings of `scanFile`.
use machokeeper.Base.{
  ℕ, ◌^◌, ◌<◌, ◌≤◌, ◌≡◌, ◌≢◌, ◌↔◌, ◌⊎◌, refl, sym, ap, ◌∙◌, String, Bool, true, false, not, Option,
  none, some, List, [], ◌∷◌, arith, inl, inr, Option-cases, length, take, leb, ltb, Returns,
  Returns-if, Returns-bind, if◌then◌else◌,
}
use native.Mathlib.Decide.{dec_le}
use mathlib.Core.Option.{some-injective}
use machokeeper.Engine.Defs.{Kind, unsigned, ad_hoc, cms, stronger, Hashes}
use machokeeper.Engine.Read.{le32, be32, rd_le32, rd_be32, has_macho_magic}
use machokeeper.Engine.Signature.{Location, find_signature, detect_slice}
use machokeeper.Engine.Signature.Kinds.{detect_slice-ne-none}
use machokeeper.Engine.Container.{format, other}
use machokeeper.Engine.Container.Slices.{IsSlice, whole, member}
use machokeeper.Engine.Walk.{detect}
use machokeeper.Engine.Walk.Strongest.{detect-IsSlice}
use machokeeper.Engine.Walk.Cms.{repair-cms}
use machokeeper.Engine.Verify.Check.{IsFileValid, check-IsFileValid}
use machokeeper.Doctor.Plan.{judge, plan_repair, plan_file_repair}
use machokeeper.Doctor.Scan.{
  Finding, Opened, Bounds, loaded, heap_read, read_for_scan, is_ad_hoc, report, inspect_signed,
  inspect, scan_loaded, scan_sized, scan_file,
}
use machokeeper.Doctor.Scan.Trial.{HasRepair, trial_repair-HasRepair}

-- The system presents a file with these bytes: it opens and is not too large, and its bytes can be
-- mapped, or read into memory within the bound.
pub record IsPresented (bounds : Bounds) (f : Opened) (contents : List ℕ) : Type 0 where
  pub opens : f.opens ≡ true
  pub peek : f.peek ≡ (if leb 4 (length contents) then some (take 4 contents) else none)
  pub size : f.size ≡ some (length contents)
  pub in_bounds : length contents ≤ bounds.max_file_size
  pub loads :
      (f.mapped ≡ some contents)
      ⊎ ((f.mapped ≡ none)
          × (length contents ≤ bounds.max_in_memory_size)
          × (f.read ≡ some contents))

empty_list : (xs : List ℕ) → length xs ≡ 0 → xs ≡ []
empty_list [] e = refl
empty_list (x ∷ xs) e = absurd (omega arith)

-- A file without one of the four magics has no slice,
abbrev pub magic_of : List ℕ → Bool
magic_of b = not (elim (format (le32 b 0) (be32 b 0)) [ other ↦ true | _ ↦ false ])

peek-magic : (b : List ℕ) → 4 ≤ length b → has_macho_magic (take 4 b) ≡ some (magic_of b)
unfolding has_macho_magic le32 be32 format rd_le32 rd_be32
peek-magic [] h = absurd (omega arith)
peek-magic (x ∷ []) h = absurd (omega arith)
peek-magic (x ∷ y ∷ []) h = absurd (omega arith)
peek-magic (x ∷ y ∷ z ∷ []) h = absurd (omega arith)
peek-magic (x ∷ y ∷ z ∷ w ∷ b) h = ground arith

module _ (hashes : Hashes) (b : List ℕ) where
  no_slices : magic_of b ≡ false → (base stop : ℕ) → IsSlice b base stop → ⊥
  no_slices m base stop (whole long t first last) = ground arith
  no_slices m base stop (member true i fat h sl) = ground (arith, fat.announced)
  no_slices m base stop (member false i fat h sl) = ground (arith, fat.announced)

  no_magic-IsFileValid : magic_of b ≡ false → IsFileValid hashes b
  no_magic-IsFileValid m base stop sl l e = absurd (no_slices m base stop sl)

  short-IsFileValid : length b < 4 → IsFileValid hashes b
  short-IsFileValid short base stop (whole long t first last) l e = absurd (omega arith)
  short-IsFileValid short base stop (member is64 i fat h sl) l e =
      absurd (omega (arith, fat.header))

  -- nor has an unsigned one a slice with a signature.
  signed-detect_slice :
      (base : ℕ) (l : Location)
      → find_signature b base ≡ some (some l)
      → detect_slice b base ≢ some unsigned
  unfolding detect_slice
  signed-detect_slice base (off, size) e f = ground arith

  unsigned-IsFileValid : length b < 2 ^ 62 → detect b ≡ some unsigned → IsFileValid hashes b
  unsigned-IsFileValid small d base stop sl l e =
      let (k, d', at_most) = detect-IsSlice b small unsigned in
      let weakest : stronger k unsigned ≡ false =
        ap (λ j. stronger j unsigned) (some-injective _ _ (sym d' ∙ d)) in
      elim (Option-cases (detect_slice b base)) [
        | inl n ↦ absurd (detect_slice-ne-none b base n)
        | inr (unsigned, f) ↦ absurd (signed-detect_slice base l e f)
        | inr (ad_hoc, f) ↦ absurd (ground (arith, at_most.0 weakest base stop sl ad_hoc f))
        | inr (cms, f) ↦ absurd (ground (arith, at_most.0 weakest base stop sl cms f))
      ]

module _ (hashes : Hashes) (contents : List ℕ) (path : String)
    (small : length contents < 2 ^ 62) where
  -- What `scanFile` should answer.
  abbrev pub IsFound : Option Finding → Type 0
  IsFound none = IsFileValid hashes contents
  IsFound (some g) =
      (¬ IsFileValid hashes contents) × ((g.repairable ≡ true) ↔ HasRepair hashes contents path)

  nothing-IsFound : IsFileValid hashes contents → Returns IsFound (some none)
  nothing-IsFound valid = (_, refl, valid)

  cms_has_none : detect contents ≡ some cms → ¬ HasRepair hashes contents path
  unfolding plan_file_repair plan_repair judge
  cms_has_none d (v, p) = absurd (ground (arith, repair-cms hashes path contents d))

  report-HasRepair :
      (k : Kind)
      → k ≢ unsigned
      → detect contents ≡ some k
      → Returns
          (λ (g : Finding). (g.repairable ≡ true) ↔ HasRepair hashes contents path)
          (report hashes contents path k)
  unfolding report is_ad_hoc
  report-HasRepair unsigned signed d = absurd (signed refl)
  report-HasRepair ad_hoc signed d =
      Returns-bind (λ ok. (ok ≡ true) ↔ HasRepair hashes contents path) _ _ _
        (trial_repair-HasRepair hashes contents path small) λ ok has. (_, refl, has)
  report-HasRepair cms signed d =
      (_, refl, (λ h. absurd (ground arith), λ has. absurd (cms_has_none d has)))

  inspect_signed-IsFound :
      (k : Kind)
      → k ≢ unsigned
      → detect contents ≡ some k
      → Returns IsFound (inspect_signed hashes contents path k)
  unfolding inspect_signed
  inspect_signed-IsFound k signed d =
      Returns-bind (λ stale. (stale ≡ false) ↔ IsFileValid hashes contents) IsFound _ _
        (check-IsFileValid hashes contents small path)
        λ stale valid.
          Returns-if IsFound (not stale) _ _ (λ fresh. nothing-IsFound (valid.0 (ground arith)))
            λ old.
              Returns-bind _ IsFound _ _ (report-HasRepair k signed d)
                λ g has. (_, refl, (λ v. ground (arith, valid.1 v), has))

  inspect-IsFound : Returns IsFound (inspect hashes contents path)
  unfolding inspect
  inspect-IsFound = let (k, d, _) = detect-IsSlice contents small unsigned in rw d (by_kind k d)
    where
      by_kind :
          (k : Kind)
          → detect contents ≡ some k
          → Returns IsFound
              (elim k [ unsigned ↦ some none | j ↦ inspect_signed hashes contents path j ])
      by_kind unsigned d = nothing-IsFound (unsigned-IsFileValid hashes contents small d)
      by_kind ad_hoc d = inspect_signed-IsFound ad_hoc (λ p. ground arith) d
      by_kind cms d = inspect_signed-IsFound cms (λ p. ground arith) d

  module _ (bounds : Bounds) (f : Opened) (p : IsPresented bounds f contents) where
    read_for_scan-loaded : read_for_scan bounds f (length contents) ≡ loaded contents
    unfolding read_for_scan heap_read
    read_for_scan-loaded = ground (arith, p.loads, empty_list contents)

    scan_sized-IsFound : Returns IsFound (scan_sized hashes bounds f path)
    unfolding scan_sized scan_loaded read_for_scan heap_read
    scan_sized-IsFound =
        rw (scan_sized, p.size)
          (Returns-if IsFound (ltb bounds.max_file_size (length contents)) _ _
            (λ large. absurd (ground (arith, p.in_bounds)))
            λ _. rw (scan_loaded, read_for_scan-loaded) inspect-IsFound)

    peeked : 4 ≤ length contents → f.peek ≡ some (take 4 contents)
    peeked long = ground (arith, p.peek)

    unpeeked : length contents < 4 → f.peek ≡ none
    unpeeked short = ground (arith, p.peek)

    -- For a file of less than 2^62 bytes that the system presents within the bounds on its size,
    -- `scanFile` returns, with no panic; it reports a finding exactly if the file has a signature that
    -- is not valid, and calls it repairable exactly if `planFileRepair` yields a verified repair of
    -- the same bytes.
    pub scan_file-IsFound : Returns IsFound (scan_file hashes bounds f path)
    unfolding scan_file
    scan_file-IsFound = elim (dec_le 4 (length contents)) [
      | yes long ↦
          rw (scan_file, p.opens, peeked long, peek-magic contents long)
            (Returns-if IsFound (not (magic_of contents)) _ _
              (λ other. nothing-IsFound (no_magic-IsFileValid hashes contents (ground arith)))
              λ _. scan_sized-IsFound)
      | no short ↦
          rw (scan_file, p.opens, unpeeked (omega arith))
            (nothing-IsFound (short-IsFileValid hashes contents (omega arith)))
    ]
