-- ===== src/Nixstore/Registration.antt =====
-- internal/nixstore/nixstore.go: `registrationLines`, on texts that are lists of bytes.
pub mod RoundTrip
use machokeeper.Base.{ℕ, List, [], ◌∷◌, ◌++◌, length, decimal}

-- `fmt.Fprintln` of a text.
unfoldable pub fprintln : List ℕ → List ℕ
fprintln s = s ++ (b'\n' ∷ [])

-- The loop over the references.
unfoldable pub reference_lines : List (List ℕ) → List ℕ
reference_lines [] = []
reference_lines (r ∷ rs) = fprintln r ++ reference_lines rs

-- `registrationLines`. The size is the length of a text, so it is not negative.
unfoldable pub registration_lines : List ℕ → List ℕ → List ℕ → ℕ → List (List ℕ) → List ℕ
registration_lines store_path deriver nar_hash nar_size references =
    fprintln store_path
    ++ (fprintln nar_hash
        ++ (fprintln (decimal nar_size)
            ++ (fprintln deriver
                ++ (fprintln (decimal (length references)) ++ reference_lines references))))
