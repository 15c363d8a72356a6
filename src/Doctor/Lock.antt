-- ===== src/Doctor/Lock.antt =====
-- internal/doctor/gclock.go and gclock_unix.go: `withGCLock` and `gcLockShared`; and the place in
-- internal/doctor/doctor.go where `Run` calls it.
pub mod Balanced
use machokeeper.Base.{
  ℕ, String, Bool, true, false, Option, none, some, List, [], ◌∷◌, ◌++◌, if◌then◌else◌, eq_string,
}
use machokeeper.Doctor.Run.{Group}

-- The system calls on the lock's file, which say whether they succeeded. `S` is the state of the
-- world.
pub record LockCalls (S : Type 0) : Type 0 where
  pub open_file : String → S → S × Bool
  pub lock_shared : S → S × Bool
  pub unlock : S → S
  pub close : S → S

module _ {S : Type 0} (calls : LockCalls S) where
  unfoldable pub lock_opened : S × Bool → S × Bool
  lock_opened (s, false) = (calls.close s, false)
  lock_opened (s, true) = (s, true)

  unfoldable pub lock_file : S × Bool → S × Bool
  lock_file (s, false) = (s, false)
  lock_file (s, true) = lock_opened (calls.lock_shared s)

  -- `gcLockShared`: whether it returned no error.
  unfoldable pub gc_lock_shared : String → S → S × Bool
  gc_lock_shared path s = lock_file (calls.open_file path s)

  -- The function that `gcLockShared` returns.
  unfoldable pub release : S → S
  release s = calls.close (calls.unlock s)

  -- `withGCLock` behind the call of `gcLockShared`.
  unfoldable pub run_locked : (S → S) → S × Bool → S
  run_locked fn (s, false) = fn s
  run_locked fn (s, true) = release (fn s)

  -- `withGCLock`. The error of `fn`, which the only caller drops, is left out.
  unfoldable pub with_gc_lock : String → (S → S) → S → S
  with_gc_lock path fn s = if eq_string path "" then fn s else run_locked fn (gc_lock_shared path s)

  -- The choice of `Run`, `fn` its `runRepairs`.
  unfoldable pub repair_locked : String → Bool → (S → S) → S → S
  repair_locked path any_store_path fn s = if any_store_path then with_gc_lock path fn s else fn s

-- `anyStorePath`
unfoldable pub any_store_path : List (String × Group) → Bool
any_store_path [] = false
any_store_path ((key, g) ∷ groups) = elim g.store_path [
  | none ↦ any_store_path groups
  | some path ↦ true
]
