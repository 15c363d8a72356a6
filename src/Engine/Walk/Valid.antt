-- ===== src/Engine/Walk/Valid.antt =====
-- engine/engine.go: `fixupSlice` in write mode, where it reports nothing in check mode.
use machokeeper.Base.{
  ℕ, zero, suc, ◌+◌, ◌*◌, ◌≡◌, refl, ◌∙◌, String, true, false, none, some, List, [], arith, inl,
  inr, Option-cases, Returns,
}
use machokeeper.Engine.Defs.{cms_repair, Hashes, super_blob_header_size, blob_index_size}
use machokeeper.Engine.Read.{rd_be32}
use machokeeper.Engine.Signature.{super_blob_count, has_non_empty_cms, find_signature}
use machokeeper.Engine.Signature.Bounds.{
  super_blob_count-ne-none, super_blob_count_within, has_non_empty_cms-ne-none,
  find_signature-ne-none,
}
use machokeeper.Engine.Fixup.{
  Progress, Pages, rewrite_slot, fixup_slot, fixup_slots, Region, CodeDirectory, pages_of, hash_of,
  malformed, fixup_pages, rd_code_directory, fixup_directory, fixup_entry, fixup_entries, Fixed,
  conclude, start, fixup_signature, fixup_slice,
}

-- A state of a check, and one of a repair of the same bytes that has changed nothing.
abbrev as_repair : Progress → Progress
as_repair s = record s { buffer = record { bytes = s.buffer.bytes; changed = some [] } }

fixup_slot-as_repair :
    (p : Pages) (i : ℕ) (s s' : Progress)
    → fixup_slot false p i s ≡ some s'
    → s'.modified ≡ false
    → (fixup_slot true p i (as_repair s) ≡ some (as_repair s'))
      × (s.modified ≡ false)
      × (s'.buffer ≡ s.buffer)
unfolding fixup_slot rewrite_slot
fixup_slot-as_repair p i s s' e m = ground arith

fixup_slots-as_repair :
    (p : Pages) (n i : ℕ) (s s' : Progress)
    → fixup_slots false p n i s ≡ some s'
    → s'.modified ≡ false
    → (fixup_slots true p n i (as_repair s) ≡ some (as_repair s'))
      × (s.modified ≡ false)
      × (s'.buffer ≡ s.buffer)
unfolding fixup_slots
fixup_slots-as_repair p zero i s s' e m = ground arith
fixup_slots-as_repair p (suc n) i s s' e m = elim (Option-cases (fixup_slot false p i s)) [
  | inl f ↦ absurd (ground arith)
  | inr (t, f) ↦
      let (g, k, b) = fixup_slots-as_repair p n (i + 1) t s' (ground arith) m in
      let (g', k', b') = fixup_slot-as_repair p i s t f k in (rw g' g, k', b ∙ b')
]

-- The same region in a repair.
abbrev writing : Region → Region
writing g = record g { write = true }

module _ (hashes : Hashes) (g : Region) (checks : g.write ≡ false) where
  fixup_pages-as_repair :
      (blob cd_length : ℕ) (cd : CodeDirectory) (s s' : Progress)
      → fixup_pages hashes g blob cd_length cd s ≡ some s'
      → s'.modified ≡ false
      → (fixup_pages hashes (writing g) blob cd_length cd (as_repair s) ≡ some (as_repair s'))
        × (s.modified ≡ false)
        × (s'.buffer ≡ s.buffer)
  unfolding fixup_pages malformed
  fixup_pages-as_repair blob cd_length cd s s' e m =
      elim (Option-cases (hash_of hashes cd.hash_type)) [
        | inl h ↦ ground arith
        | inr ((digest, size), h) ↦
            ground (arith, fixup_slots-as_repair (pages_of g blob cd digest) cd.n_code_slots 0 s s')
      ]

  fixup_directory-as_repair :
      (blob : ℕ) (s s' : Progress)
      → fixup_directory hashes g blob s ≡ some s'
      → s'.modified ≡ false
      → (fixup_directory hashes (writing g) blob (as_repair s) ≡ some (as_repair s'))
        × (s.modified ≡ false)
        × (s'.buffer ≡ s.buffer)
  unfolding fixup_directory
  fixup_directory-as_repair blob s s' e m =
      elim (Option-cases (rd_be32 s.buffer.bytes (blob + 4))) [
        | inl l ↦ ground arith
        | inr (cd_length, l) ↦ elim (Option-cases (rd_code_directory s.buffer.bytes blob)) [
          | inl d ↦ ground arith
          | inr (cd, d) ↦ ground (arith, fixup_pages-as_repair blob cd_length cd s s')
        ]
      ]

  fixup_entry-as_repair :
      (off : ℕ) (s s' : Progress)
      → fixup_entry hashes g off s ≡ some s'
      → s'.modified ≡ false
      → (fixup_entry hashes (writing g) off (as_repair s) ≡ some (as_repair s'))
        × (s.modified ≡ false)
        × (s'.buffer ≡ s.buffer)
  unfolding fixup_entry
  fixup_entry-as_repair off s s' e m = elim (Option-cases (rd_be32 s.buffer.bytes (off + 4))) [
    | inl r ↦ ground arith
    | inr (blob_rel, r) ↦ ground (
      arith,
      fixup_directory-as_repair (g.sb_abs + blob_rel) (record s { any_code_directory = true }) s',
    )
  ]

  fixup_entries-as_repair :
      (n bi : ℕ) (s s' : Progress)
      → fixup_entries hashes g n bi s ≡ some s'
      → s'.modified ≡ false
      → (fixup_entries hashes (writing g) n bi (as_repair s) ≡ some (as_repair s'))
        × (s.modified ≡ false)
        × (s'.buffer ≡ s.buffer)
  unfolding fixup_entries
  fixup_entries-as_repair zero bi s s' e m = ground arith
  fixup_entries-as_repair (suc n) bi s s' e m =
      let off = g.sb_abs + super_blob_header_size + bi * blob_index_size in
      elim (Option-cases (fixup_entry hashes g off s)) [
        | inl f ↦ ground arith
        | inr (t, f) ↦
            ground (arith, fixup_entries-as_repair n (bi + 1) t s', fixup_entry-as_repair off s t f)
      ]

  fixup_signature-as_repair :
      (path : String) (b : List ℕ) (r : Fixed)
      → fixup_signature hashes g path (record { bytes = b; changed = none }) ≡ some r
      → r.modified ≡ false
      → Returns
          (λ (q : Fixed).
            (q.buffer ≡ record { bytes = b; changed = some [] }) × (q.modified ≡ false))
          (fixup_signature hashes (writing g) path (record { bytes = b; changed = some [] }))
  unfolding fixup_signature conclude
  fixup_signature-as_repair path b r e m =
      elim (Option-cases (super_blob_count b g.sb_abs g.sig_size)) [
        | inl c ↦ absurd (super_blob_count-ne-none b g.sb_abs g.sig_size c)
        | inr (none, c) ↦ absurd (ground arith)
        | inr (some count, c) ↦
            elim (Option-cases (has_non_empty_cms b g.sb_abs g.sig_size count)) [
              | inl h ↦ absurd (
                  has_non_empty_cms-ne-none b g.sb_abs g.sig_size count
                    (super_blob_count_within b g.sb_abs g.sig_size count c) h)
              | inr (true, h) ↦ (
                record {
                  buffer = record { bytes = b; changed = some [] };
                  modified = false;
                  failed = some (cms_repair path);
                },
                ground arith,
                (refl, refl),
              )
              | inr (false, h) ↦
                  elim (Option-cases (
                    fixup_entries hashes g count 0
                      (start (record { bytes = b; changed = none })))) [
                        | inl f ↦ absurd (ground arith)
                        | inr (s, f) ↦ (
                          record {
                            buffer = record { bytes = b; changed = some [] };
                            modified = false;
                            failed = none;
                          },
                          ground (
                            arith,
                            fixup_entries-as_repair count 0
                                (start (record { bytes = b; changed = none })) s f,
                          ),
                          (refl, refl),
                        )
                      ]
            ]
      ]

-- A slice in which a check finds nothing is left alone by a repair.
pub fixup_slice-as_repair :
    (hashes : Hashes) (base stop : ℕ) (path : String) (b : List ℕ) (r : Fixed)
    → fixup_slice hashes base stop path false (record { bytes = b; changed = none }) ≡ some r
    → r.modified ≡ false
    → Returns
        (λ (q : Fixed). (q.buffer ≡ record { bytes = b; changed = some [] }) × (q.modified ≡ false))
        (fixup_slice hashes base stop path true (record { bytes = b; changed = some [] }))
unfolding fixup_slice
fixup_slice-as_repair hashes base stop path b r e m = elim (Option-cases (find_signature b base)) [
  | inl f ↦ absurd (find_signature-ne-none b base f)
  | inr (none, f) ↦ rw f (_, refl, (refl, refl))
  | inr ((some (sig_off, sig_size)), f) ↦ rw f (
      fixup_signature-as_repair hashes
        (record {
          slice_base = base;
          slice_end = stop;
          sb_abs = base + sig_off;
          sig_size = sig_size;
          write = false;
        })
        refl path b r (ground arith) m)
]
