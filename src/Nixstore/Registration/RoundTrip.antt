-- ===== src/Nixstore/Registration/RoundTrip.antt =====
-- internal/nixstore/nixstore.go: what `registrationLines` prints, read as its comment describes it.
use machokeeper.Base.{
  ℕ, zero, suc, ◌≡◌, refl, ap, ◌∙◌, Option, none, some, List, [], ◌∷◌, ◌++◌, ◌>>=◌, length, decimal,
  magnitude, magnitude-decimal, arith, Lacks, Lacks-decimal,
}
use mathlib.Core.List.{append_assoc}
use machokeeper.Nixstore.Lines.{split_at}
use machokeeper.Nixstore.Lines.RoundTrip.{split_at-append}
use machokeeper.Nixstore.Registration.{fprintln, reference_lines, registration_lines}

-- One entry.
pub record Registration : Type 0 where
  pub store_path : List ℕ
  pub nar_hash : List ℕ
  pub nar_size : ℕ
  pub deriver : List ℕ
  pub references : List (List ℕ)

-- `k` lines, behind which the text ends.
abbrev last_lines : ℕ → List (List ℕ) → Option (List (List ℕ))
last_lines zero ([] ∷ []) = some []
last_lines (suc k) (l ∷ ls) = do rest ← last_lines k ls; some (l ∷ rest)
last_lines _ _ = none

abbrev read_fields : List (List ℕ) → Option Registration
read_fields (path ∷ hash ∷ size ∷ deriver ∷ count ∷ rest) = do
  n ← magnitude size
  k ← magnitude count
  references ← last_lines k rest
  some (record {
    store_path = path;
    nar_hash = hash;
    nar_size = n;
    deriver = deriver;
    references = references;
  })
read_fields _ = none

-- A reader of the format: the path, the hash, the size, the deriver, the number of references, and
-- the references, each on a line.
abbrev pub read_registration : List ℕ → Option Registration
read_registration text = read_fields (split_at b'\n' text)

abbrev pub AllLack : List (List ℕ) → Type 0
AllLack [] = Unit
AllLack (l ∷ ls) = Lacks b'\n' l × AllLack ls

split_at-fprintln :
    (s rest : List ℕ)
    → Lacks b'\n' s
    → split_at b'\n' (fprintln s ++ rest) ≡ s ∷ split_at b'\n' rest
unfolding fprintln
split_at-fprintln s rest h =
    ap (λ (t : List ℕ). split_at b'\n' t) (append_assoc s (b'\n' ∷ []) rest)
    ∙ split_at-append b'\n' s rest h

last_lines-reference_lines :
    (rs : List (List ℕ))
    → AllLack rs
    → last_lines (length rs) (split_at b'\n' (reference_lines rs)) ≡ some rs
unfolding reference_lines split_at
last_lines-reference_lines [] h = refl
last_lines-reference_lines (r ∷ rs) h =
    rw (split_at-fprintln r (reference_lines rs) h.0, last_lines-reference_lines rs h.1) refl

-- The entry that is printed is read back, if neither a path, nor the hash, nor the deriver has a
-- line's end in it.
pub read_registration-registration_lines :
    (store_path deriver nar_hash : List ℕ) (nar_size : ℕ) (references : List (List ℕ))
    → Lacks b'\n' store_path
    → Lacks b'\n' deriver
    → Lacks b'\n' nar_hash
    → AllLack references
    → read_registration (registration_lines store_path deriver nar_hash nar_size references)
      ≡ some (record {
        store_path = store_path;
        nar_hash = nar_hash;
        nar_size = nar_size;
        deriver = deriver;
        references = references;
      })
unfolding registration_lines
read_registration-registration_lines store_path deriver nar_hash nar_size references hp hd hh hr =
    let count = length references in
    let size = decimal nar_size in
    rw
      (
        split_at-fprintln store_path _ hp,
        split_at-fprintln nar_hash _ hh,
        split_at-fprintln size _ (Lacks-decimal b'\n' nar_size (omega arith)),
        split_at-fprintln deriver _ hd,
        split_at-fprintln (decimal count) _ (Lacks-decimal b'\n' count (omega arith)),
        magnitude-decimal nar_size,
        magnitude-decimal count,
        last_lines-reference_lines references hr,
      )
      refl
