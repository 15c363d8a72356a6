-- ===== src/Nixstore/Reconcile.antt =====
-- internal/doctor/doctor.go: `reconcileHash`; internal/nixstore/nixstore.go: `DumpNAR` and
-- `RegisterValidity`, as far as they make the input of a command or of an error.
mod HashText
pub mod Registered
use machokeeper.Base.{ℕ, Option, none, some, List, ◌>>=◌, length}
use machokeeper.Nixstore.Base32.{nar_hash}
use machokeeper.Nixstore.Lines.{path_info}
use machokeeper.Nixstore.Registration.{registration_lines}

-- What `reconcileHash` comes to: an error of one of its queries, or the text on the standard input of
-- `nix-store --register-validity`.
pub data Reconciled : Type 0 where
  query_failed : Reconciled
  registers : List ℕ → Reconciled

-- `RegisterValidity` on what `PathInfo` returned.
unfoldable pub register_validity :
    (List ℕ → List ℕ) → List ℕ → List ℕ → Option (List ℕ × List (List ℕ)) → Option Reconciled
register_validity sha256 store_path nar none = some query_failed
register_validity sha256 store_path nar (some (deriver, refs)) = do
  hash ← nar_hash sha256 nar
  some (registers (registration_lines store_path deriver hash (length nar) refs))

-- `reconcileHash`, on what the dump and the two queries of `PathInfo` print, `none` where a command
-- fails. The result `none` is a panic.
unfoldable pub reconcile_hash :
    (List ℕ → List ℕ)
    → List ℕ
    → Option (List ℕ)
    → Option (List ℕ)
    → Option (List ℕ)
    → Option Reconciled
reconcile_hash sha256 store_path none deriver_out references_out = some query_failed
reconcile_hash sha256 store_path (some nar) deriver_out references_out =
    register_validity sha256 store_path nar (path_info deriver_out references_out)
