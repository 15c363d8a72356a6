-- ===== src/Doctor/Lock/Balanced.antt =====
-- internal/doctor/gclock.go: that `withGCLock` runs its function once, and leaves no lock and no file
-- open.
use machokeeper.Base.{
  ℕ, suc, ◌-◌, ◌≡◌, ap, ◌∙◌, String, Bool, true, false, inl, inr, Bool-cases, arith, eq_string,
}
use mathlib.Core.Path.{ap₂}
use machokeeper.Doctor.Lock.{
  LockCalls, lock_opened, lock_file, gc_lock_shared, release, run_locked, with_gc_lock,
  repair_locked,
}

-- How many files are open, how many locks are held, and how often the function has run.
pub record Counts : Type 0 where
  pub opened : ℕ
  pub held : ℕ
  pub runs : ℕ

-- What a call that may fail does to the counts.
abbrev after_call : Bool → Counts → Counts → Counts
after_call true succeeds fails = succeeds
after_call false succeeds fails = fails

-- The system calls and the function, as the counts see them.
pub record IsCounted {S : Type 0} (calls : LockCalls S) (fn : S → S) (c : S → Counts) : Type 0 where
  pub opens :
      (path : String) (s : S)
      → c (calls.open_file path s).0
        ≡ after_call (calls.open_file path s).1 (record (c s) { opened = suc (c s).opened }) (c s)
  pub locks :
      (s : S)
      → c (calls.lock_shared s).0
        ≡ after_call (calls.lock_shared s).1 (record (c s) { held = suc (c s).held }) (c s)
  pub unlocks : (s : S) → c (calls.unlock s) ≡ record (c s) { held = (c s).held - 1 }
  pub closes : (s : S) → c (calls.close s) ≡ record (c s) { opened = (c s).opened - 1 }
  pub function_runs : (s : S) → c (fn s) ≡ record (c s) { runs = suc (c s).runs }

one_less : (k : Counts) → record k { opened = suc k.opened - 1 } ≡ k
one_less k = ap (λ (n : ℕ). record k { opened = n }) (omega arith)

both_less :
    (k : Counts)
    → record k { opened = suc k.opened - 1; held = suc k.held - 1; runs = suc k.runs }
      ≡ record k { runs = suc k.runs }
both_less k =
    ap₂ (λ (n m : ℕ). record k { opened = n; held = m; runs = suc k.runs }) (omega arith)
      (omega arith)

module _ {S : Type 0} (calls : LockCalls S) (fn : S → S) (c : S → Counts)
    (counted : IsCounted calls fn c) where
  -- The counts of a lock that is held, or could not be had.
  abbrev Locked : S → S × Bool → Type 0
  Locked s (t, ok) =
      c t ≡ after_call ok (record (c s) { opened = suc (c s).opened; held = suc (c s).held }) (c s)

  lock_opened-Locked :
      (s t : S) (r : S × Bool)
      → c t ≡ record (c s) { opened = suc (c s).opened }
      → c r.0 ≡ after_call r.1 (record (c t) { held = suc (c t).held }) (c t)
      → Locked s (lock_opened calls r)
  unfolding lock_opened
  lock_opened-Locked s t (u, false) e h =
      counted.closes u
      ∙ ap (λ (k : Counts). record k { opened = k.opened - 1 }) (h ∙ e)
      ∙ one_less (c s)
  lock_opened-Locked s t (u, true) e h = h ∙ ap (λ (k : Counts). record k { held = suc k.held }) e

  lock_file-Locked :
      (s : S) (r : S × Bool)
      → c r.0 ≡ after_call r.1 (record (c s) { opened = suc (c s).opened }) (c s)
      → Locked s (lock_file calls r)
  unfolding lock_file
  lock_file-Locked s (t, false) e = e
  lock_file-Locked s (t, true) e = lock_opened-Locked s t (calls.lock_shared t) e (counted.locks t)

  run_locked-runs :
      (s : S) (r : S × Bool)
      → Locked s r
      → c (run_locked calls fn r) ≡ record (c s) { runs = suc (c s).runs }
  unfolding run_locked release
  run_locked-runs s (t, false) e =
      counted.function_runs t ∙ ap (λ (k : Counts). record k { runs = suc k.runs }) e
  run_locked-runs s (t, true) e =
      counted.closes (calls.unlock (fn t))
      ∙ ap (λ (k : Counts). record k { opened = k.opened - 1 })
          (counted.unlocks (fn t)
            ∙ ap (λ (k : Counts). record k { held = k.held - 1 })
                (counted.function_runs t ∙ ap (λ (k : Counts). record k { runs = suc k.runs }) e))
      ∙ both_less (c s)

  -- Whatever fails, the choice of `Run` runs the repairs once, and leaves as many files open and locks
  -- held as before, if the system calls and the repairs are counted.
  pub repair_locked-IsCounted :
      (path : String) (any_store_path : Bool) (s : S)
      → c (repair_locked calls path any_store_path fn s) ≡ record (c s) { runs = suc (c s).runs }
  unfolding repair_locked with_gc_lock gc_lock_shared
  repair_locked-IsCounted path false s = counted.function_runs s
  repair_locked-IsCounted path true s = elim (Bool-cases (eq_string path "")) [
    | inl e ↦ rw e (counted.function_runs s)
    | inr e ↦ rw e (
        run_locked-runs s (lock_file calls (calls.open_file path s))
          (lock_file-Locked s (calls.open_file path s) (counted.opens path s)))
  ]
