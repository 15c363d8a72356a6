-- ===== src/Engine/Fixup/Frame.antt =====
-- engine/engine.go: `fixupSlice`, and assertions on the buffer that a rewrite of one slot keeps.
use machokeeper.Base.{
  ℕ, zero, suc, ◌+◌, ◌-◌, ◌*◌, ◌^◌, ◌≤◌, ◌<◌, ◌≡◌, refl, sym, ◌∙◌, String, Bool, true, false, none,
  some, List, arith, length, window, length-window, copy_at, pos, Returns, Returns-bind,
  Returns_of_ne, Returns-if, Returns-read, inl, inr, Bool-cases, Option-cases, if◌then◌else◌, ltb,
  ◌||◌, not, ◌==◌,
}
use native.Mathlib.Nat.{zero-add}
use machokeeper.Engine.Defs.{Hashes, cs_magic_code_directory}
use machokeeper.Engine.Read.{be32, be32-lt, rd_be32_within, rd_slice_within, rd_slice-window}
use machokeeper.Engine.Signature.{find_signature, super_blob_count, has_non_empty_cms}
use machokeeper.Engine.Signature.Bounds.{
  find_signature-ne-none, super_blob_count-ne-none, super_blob_count_within,
  has_non_empty_cms-ne-none,
}
use machokeeper.Engine.Fixup.Directory.{
  code_directory, IsUsable, rd_code_directory_within, malformed-hash_size, malformed-IsUsable,
  hash_of-IsDigestSize, length-hash_of,
}
use machokeeper.Engine.Fixup.{
  Buffer, Progress, suspect, log_change, Pages, page_end, page_start, rewrite_slot, fixup_slot,
  fixup_slots, bytes_equal, pages_of, Region, malformed, hash_of, fixup_pages, fixup_directory,
  fixup_entry, fixup_entries, Fixed, conclude, start, fixup_signature, fixup_slice,
}

-- The buffer after a stale slot has been rewritten.
abbrev pub rewritten : Buffer → ℕ → List ℕ → List ℕ → Buffer
rewritten buf slot old sum = record {
  bytes = copy_at buf.bytes slot sum;
  changed = log_change (record { offset = pos slot; old = old; new = sum }) buf.changed;
}

-- An assertion on the buffer that fixes the file's size and that a rewrite in write mode keeps.
pub record IsFrame (write : Bool) (size : ℕ) (P : Buffer → Type 0) : Type 0 where
  pub sized : (buf : Buffer) → P buf → length buf.bytes ≡ size
  pub kept :
      (buf : Buffer) (slot : ℕ) (old sum : List ℕ)
      → write ≡ true
      → slot + length old ≤ size
      → 0 < length old
      → old ≡ window buf.bytes slot (length old)
      → length sum ≡ length old
      → P buf
      → P (rewritten buf slot old sum)

-- The assertion on the state of the loops.
abbrev Kept : (Buffer → Type 0) → Progress → Type 0
Kept P s = P s.buffer

module _ (write : Bool) (size : ℕ) (P : Buffer → Type 0) (F : IsFrame write size P) where
  rewrite_slot-P :
      (slot n : ℕ) (sum : List ℕ) (s : Progress)
      → slot + n ≤ size
      → length sum ≡ n
      → 0 < n
      → P s.buffer
      → P (rewrite_slot write slot (window s.buffer.bytes slot n) sum s).buffer
  unfolding rewrite_slot
  rewrite_slot-P slot n sum s h k m p =
      let there : length (window s.buffer.bytes slot n) ≡ n =
        length-window s.buffer.bytes slot n (omega (arith, F.sized s.buffer p)) in
      elim (Bool-cases write) [
        | inl w ↦
            rw w (F.kept s.buffer slot _ sum w (rw there h) (rw there m) (rw there) (rw there k) p)
        | inr w ↦ rw w p
      ]

  -- One slot that lies in the file.
  fixup_slot-P :
      (p : Pages) (i : ℕ) (s : Progress)
      → p.slots_abs + i * p.hash_size + p.hash_size ≤ size
      → ((bytes : List ℕ) → length (p.digest bytes) ≡ p.hash_size)
      → 0 < p.hash_size
      → P s.buffer
      → Returns (Kept P) (fixup_slot write p i s)
  unfolding fixup_slot
  fixup_slot-P p i s h k m q =
      let bytes = s.buffer.bytes in
      let slot = p.slots_abs + i * p.hash_size in
      let sum = p.digest (window bytes (page_start p i) (page_end p i - page_start p i)) in
      let e = F.sized s.buffer q in
      Returns-if _ (ltb (length bytes) (page_end p i) || ltb (page_end p i) (page_start p i)) _ _
        (λ bad. (suspect s, refl, q))
        λ good.
          Returns-read _ _ _ _
            (rd_slice_within bytes (page_start p i) (page_end p i) (ground arith) (ground arith))
            (Returns-read _ _ _ _ (rd_slice-window bytes slot p.hash_size (omega arith)) (
              Returns-if _ (bytes_equal (window bytes slot p.hash_size) sum) _ _
                (λ same. (s, refl, q))
                (λ stale. (_, refl, rewrite_slot-P slot p.hash_size sum s h (k _) m q))))

  fixup_slots-P :
      (p : Pages) (n i : ℕ) (s : Progress)
      → p.slots_abs + (i + n) * p.hash_size ≤ size
      → ((bytes : List ℕ) → length (p.digest bytes) ≡ p.hash_size)
      → 0 < p.hash_size
      → P s.buffer
      → Returns (Kept P) (fixup_slots write p n i s)
  unfolding fixup_slots
  fixup_slots-P p zero i s h k m q = (s, refl, q)
  fixup_slots-P p (suc n) i s h k m q =
      Returns-bind (Kept P) _ _ _ (fixup_slot-P p i s (grind arith) k m q)
        λ s' q'. fixup_slots-P p n (i + 1) s' (grind arith) k m q'

module _ (hashes : Hashes) (size : ℕ) (P : Buffer → Type 0) (g : Region)
    (F : IsFrame g.write size P) (small : size < 2 ^ 62) (sb_fits : g.sb_abs + g.sig_size ≤ size)
    (base_fits : g.slice_base ≤ size) where
  IsUsable-pages :
      (blob_abs cd_length n : ℕ) (b : List ℕ) (digest : List ℕ → List ℕ)
      → length b ≡ size
      → blob_abs ≤ size
      → cd_length < 2 ^ 32
      → hash_of hashes (code_directory b blob_abs).hash_type ≡ some (digest, n)
      → malformed g (length b) blob_abs cd_length (code_directory b blob_abs) n ≡ false
      → IsUsable g size blob_abs cd_length (code_directory b blob_abs)
  unfolding code_directory
  IsUsable-pages blob cd_length n b digest l h k e good =
      malformed-IsUsable g size blob cd_length (code_directory b blob) n (rw l at good)
        (hash_of-IsDigestSize hashes _ n digest e) small h base_fits k (be32-lt b (blob + 28))
        (be32-lt b (blob + 24)) (be32-lt b (blob + 32))

  fixup_pages-P :
      (blob_abs cd_length : ℕ) (s : Progress)
      → blob_abs ≤ size
      → cd_length < 2 ^ 32
      → P s.buffer
      → Returns
          (Kept P)
          (fixup_pages hashes g blob_abs cd_length (code_directory s.buffer.bytes blob_abs) s)
  unfolding fixup_pages
  fixup_pages-P blob cd_length s h k q =
      let b = s.buffer.bytes in
      let cd = code_directory b blob in
      elim (Option-cases (hash_of hashes cd.hash_type)) [
        | inl e ↦ rw (e, fixup_pages) (suspect s, refl, q)
        | inr ((digest, n), e) ↦
            rw (e, fixup_pages)
              (Returns-if (Kept P) (malformed g (length b) blob cd_length cd n) _ _
                (λ bad. (suspect s, refl, q))
                λ good.
                  let u =
                    IsUsable-pages blob cd_length n b digest (F.sized s.buffer q) h k e good in
                  let size_ok = malformed-hash_size g (length b) blob cd_length cd n good in
                  fixup_slots-P g.write size P F (pages_of g blob cd digest) cd.n_code_slots 0 s
                    (rw zero-add u.slots_fit)
                    (λ bytes. length-hash_of hashes cd.hash_type n digest e bytes ∙ sym size_ok)
                    (omega (arith, hash_of-IsDigestSize hashes cd.hash_type n digest e)) q)
      ]

  fixup_directory-P :
      (blob_abs : ℕ) (s : Progress)
      → P s.buffer
      → Returns (Kept P) (fixup_directory hashes g blob_abs s)
  unfolding fixup_directory
  fixup_directory-P blob s q =
      let b = s.buffer.bytes in
      let e = F.sized s.buffer q in
      let sb_end = g.sb_abs + g.sig_size in
      let cd_length = be32 b (blob + 4) in
      Returns-if (Kept P) (ltb sb_end (blob + 44)) _ _ (λ bad. (suspect s, refl, q))
        λ fits. Returns-read (Kept P) _ _ _ (rd_be32_within b (blob + 4) (ground arith)) (
          Returns-if (Kept P)
            (ltb cd_length 44 || ltb g.sig_size cd_length || ltb sb_end (blob + cd_length)) _ _
            (λ bad. (suspect s, refl, q))
            λ good.
              Returns-read (Kept P) _ _ _ (rd_code_directory_within b blob (ground arith))
                (fixup_pages-P blob cd_length s (ground arith) (be32-lt b (blob + 4)) q))

  fixup_entry-P :
      (entry_off : ℕ) (s : Progress)
      → entry_off + 8 ≤ size
      → P s.buffer
      → Returns (Kept P) (fixup_entry hashes g entry_off s)
  unfolding fixup_entry
  fixup_entry-P entry s h q =
      let b = s.buffer.bytes in
      let e = F.sized s.buffer q in
      let blob_rel = be32 b (entry + 4) in
      let blob = g.sb_abs + blob_rel in
      Returns-read (Kept P) _ _ _ (rd_be32_within b (entry + 4) (omega arith)) (
        Returns-if (Kept P) (ltb g.sig_size blob_rel || ltb (g.sb_abs + g.sig_size) (blob + 8)) _ _
          (λ bad. (suspect s, refl, q))
          λ good. Returns-read (Kept P) _ _ _ (rd_be32_within b blob (ground arith)) (
            Returns-if (Kept P) (not (be32 b blob == cs_magic_code_directory)) _ _
              (λ other. (s, refl, q))
              λ found. fixup_directory-P blob (record s { any_code_directory = true }) q))

  fixup_entries-P :
      (n bi : ℕ) (s : Progress) → P s.buffer → Returns (Kept P) (fixup_entries hashes g n bi s)
  unfolding fixup_entries
  fixup_entries-P zero bi s q = (s, refl, q)
  fixup_entries-P (suc n) bi s q =
      let entry = g.sb_abs + 12 + bi * 8 in
      Returns-if (Kept P) (ltb (g.sb_abs + g.sig_size) (entry + 8)) _ _
        (λ bad. (suspect s, refl, q))
        λ good.
          Returns-bind (Kept P) (Kept P) _ _ (fixup_entry-P entry s (ground arith) q)
            λ s' q'. fixup_entries-P n (bi + 1) s' q'

module _ (hashes : Hashes) (size : ℕ) (P : Buffer → Type 0) (small : size < 2 ^ 62) where
  abbrev KeptFixed : Fixed → Type 0
  KeptFixed r = P r.buffer

  -- The CMS test before a repair.
  cms_test-Returns :
      (write : Bool) (b : List ℕ) (sb_abs sig_size count : ℕ)
      → sb_abs + sig_size ≤ length b
      → Returns
          (λ _. Unit {0})
          (if write then has_non_empty_cms b sb_abs sig_size count else some false)
  cms_test-Returns write b sb_abs sig_size count h =
      Returns-if _ write _ _
        (λ _. Returns_of_ne _ (has_non_empty_cms-ne-none b sb_abs sig_size count h))
        (λ _. (false, refl, tt))

  fixup_signature-P :
      (g : Region) (path : String) (buf : Buffer)
      → IsFrame g.write size P
      → g.slice_base ≤ size
      → P buf
      → Returns KeptFixed (fixup_signature hashes g path buf)
  unfolding fixup_signature conclude
  fixup_signature-P g path buf F h q =
      elim (Option-cases (super_blob_count buf.bytes g.sb_abs g.sig_size)) [
        | inl e ↦ absurd (super_blob_count-ne-none buf.bytes g.sb_abs g.sig_size e)
        | inr (none, e) ↦ rw (e, fixup_signature) (_, refl, q)
        | inr (some count, e) ↦
            let fits = super_blob_count_within buf.bytes g.sb_abs g.sig_size count e in
            rw (e, fixup_signature)
              (Returns-bind _ KeptFixed _ _
                (cms_test-Returns g.write buf.bytes g.sb_abs g.sig_size count fits)
                λ carries _.
                  Returns-if KeptFixed carries _ _ (λ _. (_, refl, q))
                    λ _.
                      Returns-bind (Kept P) KeptFixed _ _
                        (fixup_entries-P hashes size P g F small (sized fits) h count 0 (start buf)
                          q)
                        λ s q'. (_, refl, q'))
      ]
    where
      sized : g.sb_abs + g.sig_size ≤ length buf.bytes → g.sb_abs + g.sig_size ≤ size
      sized fits = omega (arith, F.sized buf q)

  -- `fixupSlice` returns, with no panic, and keeps the assertion.
  pub fixup_slice-P :
      (write : Bool) (slice_base slice_end : ℕ) (path : String) (buf : Buffer)
      → IsFrame write size P
      → slice_base ≤ size
      → P buf
      → Returns KeptFixed (fixup_slice hashes slice_base slice_end path write buf)
  unfolding fixup_slice
  fixup_slice-P write base stop path buf F h q =
      elim (Option-cases (find_signature buf.bytes base)) [
        | inl e ↦ absurd (find_signature-ne-none buf.bytes base e)
        | inr (none, e) ↦ rw (e, fixup_slice) (_, refl, q)
        | inr (some (off, sig_size), e) ↦ rw (e, fixup_slice) (fixup_signature-P _ path buf F h q)
      ]
