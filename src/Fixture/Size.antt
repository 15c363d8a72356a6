-- ===== src/Fixture/Size.antt =====
-- internal/machofixture/machofixture.go: that `build` returns a file, and its size.
use machokeeper.Base.{
  length-replicate, ℕ, ◌+◌, ◌≤◌, ◌≡◌, refl, ◌∙◌, true, List, [], ◌∷◌, ◌++◌, length, length-append,
  length-copy_at, replicate, copy_at, arith, Returns, le→leb, Bool-cases, inl, inr, ◌⊎◌,
}
use mathlib.Core.Path.{ap₂}
use machokeeper.Fixture.{
  Write, le32, be32, byte, write, write_all, Layout, layout, header_writes, blob_writes,
  entry_writes, directory_writes, cms_writes, build,
}

abbrev Fits : ℕ → List Write → Type 0
Fits n [] = Unit
Fits n (w ∷ ws) = (w.offset + length w.bytes ≤ n) × Fits n ws

Fits-append : (n : ℕ) (ws vs : List Write) → Fits n ws → Fits n vs → Fits n (ws ++ vs)
Fits-append n [] vs h k = k
Fits-append n (w ∷ ws) vs (hw, h) k = (hw, Fits-append n ws vs h k)

write_all-Fits :
    (ws : List Write) (s : List ℕ)
    → Fits (length s) ws
    → Returns (λ t. length t ≡ length s) (write_all ws s)
unfolding write_all write
write_all-Fits [] s h = (s, refl, refl)
write_all-Fits (w ∷ ws) s (hw, h) =
    let same = length-copy_at s w.offset w.bytes in
    let (t, e, k) = write_all-Fits ws (copy_at s w.offset w.bytes) (rw same h) in
    rw (le→leb (w.offset + length w.bytes) (length s) hw) (t, e, k ∙ same)

module _ (n : ℕ) (l : Layout) where
  header_writes-Fits : 48 ≤ n → Fits n (header_writes l)
  unfolding header_writes le32
  header_writes-Fits h = ground arith

  blob_writes-Fits : l.sig_off + 20 ≤ n → Fits n (blob_writes l)
  unfolding blob_writes be32
  blob_writes-Fits h = ground arith

  entry_writes-Fits : (l.have_cms ≡ true → l.sig_off + 28 ≤ n) → Fits n (entry_writes l)
  unfolding entry_writes be32
  entry_writes-Fits h = elim (Bool-cases l.have_cms) [
    | inl e ↦ let fits = h e in rw e (ground arith)
    | inr e ↦ rw e tt
  ]

  directory_writes-Fits : l.sig_off + l.sb_header + 40 ≤ n → Fits n (directory_writes l)
  unfolding directory_writes be32 byte
  directory_writes-Fits h = ground arith

  cms_writes-Fits :
      (l.have_cms ≡ true → l.sig_off + l.sb_header + l.cd_len + 8 ≤ n) → Fits n (cms_writes l)
  unfolding cms_writes be32
  cms_writes-Fits h = elim (Bool-cases l.have_cms) [
    | inl e ↦ let fits = h e in rw e (ground arith)
    | inr e ↦ rw e tt
  ]

-- `build` does not panic, for any number of pages, without a CMS blob or with one of 8 bytes at least;
-- its file has the size that the layout says.
pub build-length :
    (pages cms_len : ℕ)
    → (cms_len ≡ 0) ⊎ (8 ≤ cms_len)
    → Returns
        (λ s. length s ≡ (layout pages cms_len).sig_off + (layout pages cms_len).sig_size)
        (build pages cms_len)
unfolding build layout
build-length pages cms_len h =
    let l = layout pages cms_len in
    let empty_file = replicate l.sig_off b'A' ++ replicate l.sig_size 0 in
    let n = length empty_file in
    let size : n ≡ l.sig_off + l.sig_size =
      length-append (replicate l.sig_off b'A') (replicate l.sig_size 0)
      ∙ ap₂ ◌+◌ (length-replicate l.sig_off b'A') (length-replicate l.sig_size 0) in
    let fits =
      Fits-append n (header_writes l) _ (header_writes-Fits n l (ground (arith, size, h))) (
        Fits-append n (blob_writes l) _ (blob_writes-Fits n l (ground (arith, size, h))) (
          Fits-append n (entry_writes l) _ (entry_writes-Fits n l (λ e. ground (arith, size, h))) (
            Fits-append n (directory_writes l) (cms_writes l)
              (directory_writes-Fits n l (ground (arith, size, h)))
              (cms_writes-Fits n l (λ e. ground (arith, size, h)))))) in
    let (s, e, k) = write_all-Fits _ empty_file fits in (s, e, k ∙ size)
