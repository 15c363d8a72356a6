-- ===== src/Engine/Verify/Directory.antt =====
-- engine/engine.go: `fixupSlice` in check mode, on one CodeDirectory.
use mathlib.Core.Path.{subst}
use native.Mathlib.Nat.{zero-add, pow-le-pow_right}
use machokeeper.Base.{
  ℕ, ◌+◌, ◌^◌, ◌≤◌, ◌<◌, ◌≡◌, ◌↔◌, sym, ap, ◌∙◌, true, false, Option, some, List, arith, length,
  inl, inr, Bool-cases, Option-cases, ltb, ◌||◌,
}
use machokeeper.Engine.Defs.{Hashes}
use machokeeper.Engine.Read.{be32, be32-lt, rd_be32_within}
use machokeeper.Engine.Fixup.{
  Progress, CodeDirectory, Region, malformed, hash_of, pages_of, fixup_pages, fixup_directory,
}
use machokeeper.Engine.Fixup.Directory.{
  code_directory, rd_code_directory_within, IsUsable, IsDigestSize, malformed-hash_size,
  malformed-IsUsable, hash_of-IsDigestSize,
}
use machokeeper.Engine.Verify.Spec.{IsPageValid, IsDirectoryValid}
use machokeeper.Engine.Verify.Pages.{
  Checks, Checks-iff, IsBounded, ArePagesValid, fixup_slots-Checks, failing_unverifiable,
}

IsUsable-malformed :
    (g : Region) (size blob_abs cd_length : ℕ) (cd : CodeDirectory) (n : ℕ)
    → IsDigestSize n
    → size < 2 ^ 62
    → g.slice_end ≤ size
    → cd.hash_size ≡ n
    → cd.n_special_slots < 2 ^ 32
    → cd_length < 2 ^ 32
    → blob_abs ≤ size
    → IsUsable g size blob_abs cd_length cd
    → malformed g size blob_abs cd_length cd n ≡ false
unfolding malformed
IsUsable-malformed g size blob cd_length cd n (inl d) h1 h2 h3 h4 h5 h6 u = ground arith
IsUsable-malformed g size blob cd_length cd n (inr d) h1 h2 h3 h4 h5 h6 u = ground arith

code_limit-lt : (b : List ℕ) (blob : ℕ) → (code_directory b blob).code_limit < 2 ^ 32
unfolding code_directory
code_limit-lt b blob = be32-lt b (blob + 32)

n_code_slots-lt : (b : List ℕ) (blob : ℕ) → (code_directory b blob).n_code_slots < 2 ^ 32
unfolding code_directory
n_code_slots-lt b blob = be32-lt b (blob + 28)

n_special_slots-lt : (b : List ℕ) (blob : ℕ) → (code_directory b blob).n_special_slots < 2 ^ 32
unfolding code_directory
n_special_slots-lt b blob = be32-lt b (blob + 24)

pair_fields :
    {A B : Type 0} (a a' : A) (c c' : B)
    → ◌≡◌ {A = Option (A × B)} (some (a, c)) (some (a', c'))
    → (a ≡ a') × (c ≡ c')
pair_fields a a' c c' e = (cc, cc)

-- Where the slice and its signature lie, in a check of the bytes `b`.
pub record IsInFile (b : List ℕ) (g : Region) : Type 0 where
  pub small : length b < 2 ^ 62
  pub base_fits : g.slice_base ≤ length b
  pub end_fits : g.slice_end ≤ length b
  pub sb_fits : g.sb_abs + g.sig_size ≤ length b
  pub checking : g.write ≡ false

module _ (hashes : Hashes) (b : List ℕ) (g : Region) (f : IsInFile b g) where
  pages_of-IsBounded :
      (blob cd_length : ℕ) (digest : List ℕ → List ℕ)
      → IsUsable g (length b) blob cd_length (code_directory b blob)
      → IsBounded (pages_of g blob (code_directory b blob) digest)
  pages_of-IsBounded blob cd_length digest u = record {
    base_bound = omega (arith, f.base_fits, f.small);
    limit_bound = code_limit-lt b blob;
    page_size_bound = pow-le-pow_right (omega arith) u.page_size_bound;
  }

  -- The directory, but for its pages, is valid exactly if it passes the tests.
  module _ (blob n : ℕ) (digest : List ℕ → List ℕ) (h1 : blob + 44 ≤ g.sb_abs + g.sig_size)
      (h2 : 44 ≤ be32 b (blob + 4)) (h3 : blob + be32 b (blob + 4) ≤ g.sb_abs + g.sig_size)
      (h4 : be32 b (blob + 4) ≤ g.sig_size)
      (known : hash_of hashes (code_directory b blob).hash_type ≡ some (digest, n)) where
    abbrev cd : CodeDirectory
    cd = code_directory b blob

    tests-IsUsable :
        malformed g (length b) blob (be32 b (blob + 4)) cd n ≡ false
        → IsUsable g (length b) blob (be32 b (blob + 4)) cd
    tests-IsUsable e =
        malformed-IsUsable g (length b) blob (be32 b (blob + 4)) cd n e
          (hash_of-IsDigestSize hashes _ n digest known) f.small (omega (arith, f.sb_fits))
          f.base_fits (be32-lt b (blob + 4)) (n_code_slots-lt b blob) (n_special_slots-lt b blob)
          (code_limit-lt b blob)

    pages-IsDirectoryValid :
        malformed g (length b) blob (be32 b (blob + 4)) cd n ≡ false
        → ArePagesValid b (pages_of g blob cd digest) cd.n_code_slots 0
          ↔ IsDirectoryValid hashes b g blob
    pages-IsDirectoryValid e =
        let size_ok = malformed-hash_size g (length b) blob (be32 b (blob + 4)) cd n e in
        (
          λ pages. record {
            header_fits = h1;
            length_min = h2;
            length_fits = h3;
            length_max = h4;
            digest = digest;
            known = rw size_ok known;
            usable = tests-IsUsable e;
            pages = λ i h. pages i (omega arith) (omega arith);
          },
          λ v i _ h.
              subst (λ d. IsPageValid b (pages_of g blob cd d) i)
                (pair_fields v.digest digest cd.hash_size n (sym v.known ∙ known)).0
                (v.pages i (omega arith)),
        )

    malformed-not-IsDirectoryValid :
        malformed g (length b) blob (be32 b (blob + 4)) cd n ≡ true
        → ¬ IsDirectoryValid hashes b g blob
    malformed-not-IsDirectoryValid e v =
        let passes =
          IsUsable-malformed g (length b) blob (be32 b (blob + 4)) cd n
            (hash_of-IsDigestSize hashes _ n digest known) f.small f.end_fits
            (pair_fields v.digest digest cd.hash_size n (sym v.known ∙ known)).1
            (n_special_slots-lt b blob) (be32-lt b (blob + 4)) (omega (arith, f.sb_fits))
            v.usable in
        cc

    known_pages-Checks :
        (s s' : Progress)
        → s.buffer.bytes ≡ b
        → fixup_pages hashes g blob (be32 b (blob + 4)) cd s ≡ some s'
        → Checks s s' (IsDirectoryValid hashes b g blob)
    unfolding fixup_pages
    known_pages-Checks s s' eb e =
        elim (Bool-cases (malformed g (length b) blob (be32 b (blob + 4)) cd n)) [
          | inl bad ↦
              failing_unverifiable s s' _ (ground (arith, ap length eb))
                (malformed-not-IsDirectoryValid bad)
          | inr good ↦
              Checks-iff s s' _ _
                (fixup_slots-Checks b (pages_of g blob cd digest) cd.n_code_slots 0 s s'
                  (pages_of-IsBounded blob _ digest (tests-IsUsable good))
                  (omega (arith, n_code_slots-lt b blob)) eb
                  (rw zero-add (tests-IsUsable good).slots_fit)
                  (ground (arith, ap length eb, f.checking)))
                (pages-IsDirectoryValid good)
        ]

  fixup_pages-Checks :
      (blob : ℕ) (s s' : Progress)
      → s.buffer.bytes ≡ b
      → blob + 44 ≤ g.sb_abs + g.sig_size
      → 44 ≤ be32 b (blob + 4)
      → blob + be32 b (blob + 4) ≤ g.sb_abs + g.sig_size
      → be32 b (blob + 4) ≤ g.sig_size
      → fixup_pages hashes g blob (be32 b (blob + 4)) (code_directory b blob) s ≡ some s'
      → Checks s s' (IsDirectoryValid hashes b g blob)
  fixup_pages-Checks blob s s' eb h1 h2 h3 h4 e =
      elim (Option-cases (hash_of hashes (code_directory b blob).hash_type)) [
        | inl unknown ↦
            failing_unverifiable s s' _ (unfold fixup_pages in ground arith)
              λ v. cc (sym unknown ∙ v.known)
        | inr ((digest, n), known) ↦ known_pages-Checks blob n digest h1 h2 h3 h4 known s s' eb e
      ]

  pub fixup_directory-Checks :
      (blob : ℕ) (s s' : Progress)
      → s.buffer.bytes ≡ b
      → fixup_directory hashes g blob s ≡ some s'
      → Checks s s' (IsDirectoryValid hashes b g blob)
  unfolding fixup_directory
  fixup_directory-Checks blob s s' eb e =
      let sb_end = g.sb_abs + g.sig_size in
      let cd_length = be32 b (blob + 4) in
      elim (Bool-cases (ltb sb_end (blob + 44))) [
        | inl out ↦ failing_unverifiable s s' _ (ground arith) λ v. ground (arith, v.header_fits)
        | inr fits ↦
            let room : blob + 44 ≤ length s.buffer.bytes =
              ground (arith, f.sb_fits, ap length eb) in
            let read = rd_be32_within s.buffer.bytes (blob + 4) (omega arith) in
            elim (Bool-cases
              (ltb cd_length 44 || ltb g.sig_size cd_length || ltb sb_end (blob + cd_length))) [
                | inl bad ↦
                    failing_unverifiable s s' _ (ground (arith, read))
                      λ v. ground (arith, v.length_min, v.length_fits, v.length_max)
                | inr good ↦
                    fixup_pages-Checks blob s s' eb (ground arith) (ground arith) (ground arith)
                      (ground arith)
                      (ground (arith, read, rd_code_directory_within s.buffer.bytes blob room))
              ]
      ]
