-- ===== src/Doctor/Command/Locked.antt =====
-- internal/doctor/doctor.go: the repairs of `Run` under the garbage collector's lock.
use machokeeper.Base.{
  ◌≡◌, refl, ap, ◌∙◌, [], String, Bool, true, false, some, List, ◌>>=◌, inl, inr, Bool-cases,
  eq_string,
}
use machokeeper.Engine.Defs.{Hashes}
use machokeeper.Doctor.Disk.{Disk, System}
use machokeeper.Doctor.Scan.{Finding}
use machokeeper.Doctor.Lock.{
  LockCalls, lock_opened, lock_file, gc_lock_shared, release, run_locked, with_gc_lock,
  repair_locked,
}
use machokeeper.Doctor.Run.{Store, run_repairs, run_fix, group_findings}
use machokeeper.Doctor.Command.{Surroundings, beside, start_state, run_repairs_locked}

module _ {L R : Type 0} (calls : LockCalls L) (f : R → R) where
  -- The function beside the locks.
  abbrev Fn : L × R → L × R
  Fn s = (s.0, f s.1)

  run_locked-beside : (s : (L × R) × Bool) → (run_locked (beside calls) Fn s).1 ≡ f (s.0.1)
  unfolding run_locked release
  run_locked-beside (s, false) = refl
  run_locked-beside (s, true) = refl

  lock_opened-beside : (s : (L × R) × Bool) → (lock_opened (beside calls) s).0.1 ≡ s.0.1
  unfolding lock_opened
  lock_opened-beside (s, false) = refl
  lock_opened-beside (s, true) = refl

  lock_file-beside : (s : (L × R) × Bool) → (lock_file (beside calls) s).0.1 ≡ s.0.1
  unfolding lock_file
  lock_file-beside (s, false) = refl
  lock_file-beside (s, true) = lock_opened-beside _

  -- Whatever becomes of the lock, the function is run on its own part of the state.
  pub repair_locked-beside :
      (path : String) (any : Bool) (l : L) (r : R)
      → (repair_locked (beside calls) path any Fn (l, r)).1 ≡ f r
  unfolding repair_locked with_gc_lock gc_lock_shared
  repair_locked-beside path false l r = refl
  repair_locked-beside path true l r = elim (Bool-cases (eq_string path "")) [
    | inl e ↦ rw e refl
    | inr e ↦ rw e (
        run_locked-beside (lock_file (beside calls) ((beside calls).open_file path (l, r)))
        ∙ ap f (lock_file-beside ((beside calls).open_file path (l, r))))
  ]

module _ {S L : Type 0} (hashes : Hashes) (sys : System) (store : Store S)
    (around : Surroundings L) where
  pub run_repairs_locked-run_fix :
      (fix_live : Bool) (findings : List Finding) (d : Disk) (db : S) (l : L)
      → (run_repairs_locked hashes sys store around fix_live
          (group_findings store.store_path_of findings [])
          (start_state d db)
          l).1
        ≡ run_fix hashes sys store around.calls fix_live findings d db
  unfolding run_repairs_locked run_fix
  run_repairs_locked-run_fix fix_live findings d db l =
      repair_locked-beside around.lock_calls
        (λ r.
          r
          >>= run_repairs hashes sys store around.calls fix_live
              (group_findings store.store_path_of findings []))
        around.lock_path _ l (some (start_state d db))
