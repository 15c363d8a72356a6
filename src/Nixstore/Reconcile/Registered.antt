-- ===== src/Nixstore/Reconcile/Registered.antt =====
-- internal/doctor/doctor.go: what `reconcileHash` registers.
use machokeeper.Base.{
  ℕ, ◌≡◌, refl, false, some, List, [], ◌∷◌, length, Lacks, Returns, ◌<◌, text_equal, codes,
}
use machokeeper.Nixstore.Base32.{nar_hash}
use machokeeper.Nixstore.Base32.Digits.{IsBytes}
use machokeeper.Nixstore.Lines.{path_info, deriver_of, query_lines}
use machokeeper.Nixstore.Lines.RoundTrip.{
  unlines, IsLine, AreLines, lines_of-unlines, trim_space-line,
}
use machokeeper.Nixstore.Registration.{registration_lines}
use machokeeper.Nixstore.Registration.RoundTrip.{
  read_registration, AllLack, read_registration-registration_lines,
}
use machokeeper.Nixstore.Reconcile.{
  Reconciled, query_failed, registers, register_validity, reconcile_hash,
}
use machokeeper.Nixstore.Reconcile.HashText.{nar_hash-Lacks}

AreLines-AllLack : (ls : List (List ℕ)) → AreLines ls → AllLack ls
AreLines-AllLack [] h = tt
AreLines-AllLack (l ∷ ls) (h, hs) = (h.0, AreLines-AllLack ls hs)

-- The text registers, for the store path, the hash and the size of the archive, with the deriver and
-- the references.
abbrev pub IsRegistered :
    (List ℕ → List ℕ) → List ℕ → List ℕ → List ℕ → List (List ℕ) → Reconciled → Type 0
IsRegistered sha256 store_path nar deriver refs query_failed = ⊥
IsRegistered sha256 store_path nar deriver refs (registers text) =
    (hash : List ℕ) × (nar_hash sha256 nar ≡ some hash)
    × (read_registration text
        ≡ some (record {
          store_path = store_path;
          nar_hash = hash;
          nar_size = length nar;
          deriver = deriver;
          references = refs;
        }))

path_info-unlines :
    (deriver : List ℕ) (refs : List (List ℕ))
    → IsLine deriver
    → text_equal deriver (codes "unknown-deriver") ≡ false
    → AreLines refs
    → path_info (some (unlines (deriver ∷ []))) (some (unlines refs)) ≡ some (deriver, refs)
unfolding path_info query_lines deriver_of
path_info-unlines deriver refs h known hs =
    rw (trim_space-line deriver h, known, lines_of-unlines refs hs) refl

-- When the dump and the queries of a store path's deriver and references succeed, `reconcileHash`
-- registers the path with the hash and the size of the archive dumped, and keeps the deriver and the
-- references that the queries printed: neither path has a line's end in it or, but for the store
-- path, white space around it, the deriver is known, and a digest is a list of bytes, not empty.
pub reconcile_hash-IsRegistered :
    (sha256 : List ℕ → List ℕ) (store_path nar deriver : List ℕ) (refs : List (List ℕ))
    → IsBytes (sha256 nar)
    → 0 < length (sha256 nar)
    → Lacks b'\n' store_path
    → IsLine deriver
    → text_equal deriver (codes "unknown-deriver") ≡ false
    → AreLines refs
    → Returns (IsRegistered sha256 store_path nar deriver refs) (
        reconcile_hash sha256 store_path
          (some nar)
          (some (unlines (deriver ∷ [])))
          (some (unlines refs)))
unfolding reconcile_hash register_validity
reconcile_hash-IsRegistered sha256 store_path nar deriver refs all some_bytes hp hd known hr =
    let (hash, e, lacks) = nar_hash-Lacks sha256 nar all some_bytes in
    let reads =
      read_registration-registration_lines store_path deriver hash (length nar) refs hp hd.0 lacks
        (AreLines-AllLack refs hr) in
    rw (path_info-unlines deriver refs hd known hr, e)
      (
        registers (registration_lines store_path deriver hash (length nar) refs),
        refl,
        (hash, e, reads),
      )
