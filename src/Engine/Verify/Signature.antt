-- ===== src/Engine/Verify/Signature.antt =====
-- engine/engine.go: `fixupSlice` in check mode, on one SuperBlob.
use machokeeper.Base.{
  ℕ, zero, suc, ◌+◌, ◌≤◌, ◌≡◌, ◌↔◌, ap, ◌∙◌, Bool, true, false, some, List, arith, length, inl, inr,
  Bool-cases, Option-cases, ltb, ◌||◌, ◌==◌, ForRange, ForRange-zero, ForRange-suc,
}
use machokeeper.Engine.Defs.{Hashes, cs_magic_code_directory}
use machokeeper.Engine.Read.{be32, rd_be32_within}
use machokeeper.Engine.Fixup.{Buffer, Progress, suspect, Region, fixup_entry, fixup_entries}
use machokeeper.Engine.Verify.Spec.{IsDirectoryValid, IsEntryValid, entry_at, blob_at}
use machokeeper.Engine.Verify.Pages.{IsClean, Checks}
use machokeeper.Engine.Verify.Directory.{IsInFile, fixup_directory-Checks}

abbrev pub is_directory : List ℕ → Region → ℕ → Bool
is_directory b g bi = be32 b (blob_at b g bi) == cs_magic_code_directory

-- Whether one of `n` entries from `bi` on is a CodeDirectory.
unfoldable pub any_directory : List ℕ → Region → ℕ → ℕ → Bool
any_directory b g zero bi = false
any_directory b g (suc n) bi = is_directory b g bi || any_directory b g n (bi + 1)

-- A step that may also meet a CodeDirectory: whether it does is `D`.
pub record Visits (s s' : Progress) (V : Type 0) (D : Bool) : Type 0 where
  pub same_buffer : s'.buffer ≡ s.buffer
  pub sound : IsClean s' → IsClean s × V × (s'.any_code_directory ≡ (s.any_code_directory || D))
  pub complete : IsClean s → V → IsClean s' × (s'.any_code_directory ≡ (s.any_code_directory || D))

fails : (s s' : Progress) (V : Type 0) (D : Bool) → s' ≡ suspect s → ¬ V → Visits s s' V D
fails s s' V D e n = record {
  same_buffer = ap (λ (t : Progress). t.buffer) e;
  sound = λ c. cc;
  complete = λ _ v. absurd (n v);
}

one_more :
    (s t u : Progress) (V W X : Type 0) (D E : Bool)
    → Visits s t V D
    → Visits t u W E
    → (V × W) ↔ X
    → Visits s u X (D || E)
one_more s t u V W X D E c d i = record {
  same_buffer = d.same_buffer ∙ c.same_buffer;
  sound =
      λ k. let (l, w, x) = d.sound k in let (m, v, y) = c.sound l in (m, i.0 (v, w), ground arith);
  complete = λ k xs.
      let (l, y) = c.complete k (i.1 xs).0 in
      let (m, x) = d.complete l (i.1 xs).1 in (m, ground arith);
}

module _ (hashes : Hashes) (b : List ℕ) (g : Region) (f : IsInFile b g) where
  met :
      (s s' : Progress) (bi : ℕ)
      → entry_at g bi + 8 ≤ g.sb_abs + g.sig_size
      → (ltb g.sig_size (be32 b (entry_at g bi + 4))
          || ltb (g.sb_abs + g.sig_size) (blob_at b g bi + 8))
        ≡ false
      → is_directory b g bi ≡ true
      → Checks
          (record s { any_code_directory = true })
          s'
          (IsDirectoryValid hashes b g (blob_at b g bi))
      → Visits s s' (IsEntryValid hashes b g bi) (is_directory b g bi)
  met s s' bi fits inside d c = record {
    same_buffer = c.same_buffer;
    sound = λ k.
        let (l, v) = c.sound k in
        (
          l,
          record {
            entry_fits = fits;
            blob_starts = ground arith;
            blob_fits = ground arith;
            directory = λ _. v;
          },
          any,
        );
    complete = λ k v. (c.complete k (v.directory (ground arith)), any);
  }
    where
      any : s'.any_code_directory ≡ (s.any_code_directory || is_directory b g bi)
      any = ground (arith, c.same_directory, d)

  skipped :
      (s s' : Progress) (bi : ℕ)
      → entry_at g bi + 8 ≤ g.sb_abs + g.sig_size
      → (ltb g.sig_size (be32 b (entry_at g bi + 4))
          || ltb (g.sb_abs + g.sig_size) (blob_at b g bi + 8))
        ≡ false
      → is_directory b g bi ≡ false
      → s' ≡ s
      → Visits s s' (IsEntryValid hashes b g bi) (is_directory b g bi)
  skipped s s' bi fits inside d e = record {
    same_buffer = ap (λ (t : Progress). t.buffer) e;
    sound = λ k. (
      rw e at k,
      record {
        entry_fits = fits;
        blob_starts = ground arith;
        blob_fits = ground arith;
        directory = λ m. absurd (ground arith);
      },
      any,
    );
    complete = λ k v. (rw e k, any);
  }
    where
      any : s'.any_code_directory ≡ (s.any_code_directory || is_directory b g bi)
      any = ground (arith, d, e)

  fixup_entry-Visits :
      (bi : ℕ) (s s' : Progress)
      → s.buffer.bytes ≡ b
      → entry_at g bi + 8 ≤ g.sb_abs + g.sig_size
      → fixup_entry hashes g (entry_at g bi) s ≡ some s'
      → Visits s s' (IsEntryValid hashes b g bi) (is_directory b g bi)
  unfolding fixup_entry
  fixup_entry-Visits bi s s' eb fits e =
      let read_entry =
        rd_be32_within s.buffer.bytes (entry_at g bi + 4)
          (omega (arith, f.sb_fits, ap length eb)) in
      let blob_rel = be32 b (entry_at g bi + 4) in
      let blob = blob_at b g bi in
      elim (Bool-cases (ltb g.sig_size blob_rel || ltb (g.sb_abs + g.sig_size) (blob + 8))) [
        | inl out ↦
            fails s s' _ _ (ground (arith, read_entry))
              λ v. ground (arith, v.blob_starts, v.blob_fits)
        | inr inside ↦
            let room : blob + 4 ≤ length s.buffer.bytes = ground (arith, f.sb_fits, ap length eb) in
            let read_magic = rd_be32_within s.buffer.bytes blob room in
            elim (Bool-cases (is_directory b g bi)) [
              | inl directory ↦ met s s' bi fits inside directory (
                  fixup_directory-Checks hashes b g f blob (record s { any_code_directory = true })
                    s' eb (ground (arith, read_entry, read_magic)))
              | inr another ↦
                  skipped s s' bi fits inside another (ground (arith, read_entry, read_magic))
            ]
      ]

  abbrev pub AreEntriesValid : ℕ → ℕ → Type 0
  AreEntriesValid = ForRange (IsEntryValid hashes b g)

  pub fixup_entries-Visits :
      (n bi : ℕ) (s s' : Progress)
      → s.buffer.bytes ≡ b
      → fixup_entries hashes g n bi s ≡ some s'
      → Visits s s' (AreEntriesValid n bi) (any_directory b g n bi)
  unfolding fixup_entries any_directory
  fixup_entries-Visits zero bi s s' eb e = record {
    same_buffer = ground arith;
    sound = λ k. (ground arith, ForRange-zero _ bi, ground arith);
    complete = λ k v. (ground arith, ground arith);
  }
  fixup_entries-Visits (suc n) bi s s' eb e =
      elim (Bool-cases (ltb (g.sb_abs + g.sig_size) (entry_at g bi + 8))) [
        | inl out ↦
            fails s s' _ _ (ground arith)
              λ v. ground (arith, (v bi (omega arith) (omega arith)).entry_fits)
        | inr inside ↦ elim (Option-cases (fixup_entry hashes g (entry_at g bi) s)) [
          | inl stuck ↦ absurd (ground arith)
          | inr (t, r) ↦
              let first = fixup_entry-Visits bi s t eb (ground arith) r in
              let rest =
                fixup_entries-Visits n (bi + 1) t s'
                  (ap (λ (c : Buffer). c.bytes) first.same_buffer ∙ eb) (ground arith) in
              one_more s t s' _ _ _ _ _ first rest (ForRange-suc (IsEntryValid hashes b g) n bi)
        ]
      ]
