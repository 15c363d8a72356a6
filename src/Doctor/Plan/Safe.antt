-- ===== src/Doctor/Plan/Safe.antt =====
-- internal/doctor/doctor.go: the verified repairs that `planFileRepair` yields.
use machokeeper.Base.{
  ℕ, ◌^◌, ◌<◌, ◌≡◌, ◌↔◌, refl, String, false, Option, none, some, List, arith, length, Returns,
  Returns-if, Returns-bind, not,
}
use machokeeper.Engine.Defs.{Error, Hashes}
use machokeeper.Engine.Walk.{Walked}
use machokeeper.Engine.Walk.Journal.{JournaledWalk, IsJournaled, repair-IsJournaled}
use machokeeper.Engine.Verify.Check.{IsFileValid, check-IsFileValid}
use machokeeper.Doctor.Undo.{restored, restore}
use machokeeper.Doctor.Undo.Restores.{restore-IsJournaled}
use machokeeper.Doctor.Plan.{
  VerifiedRepair, Plan, verified, rejected, changes_of, judge, plan_repair, plan_file_repair,
}

-- The repaired bytes are valid, of the file's length, and its changes undo to the bytes before.
pub record IsSafe (hashes : Hashes) (contents : List ℕ) (path : String) (v : VerifiedRepair)
    : Type 0 where
  pub same_path : v.path ≡ path
  pub valid : IsFileValid hashes v.bytes
  pub same_length : length v.bytes ≡ length contents
  pub undone : restore v.changes v.bytes ≡ some (restored contents false)

-- What holds of a plan: a verified repair is safe.
abbrev pub IsSafePlan : Hashes → List ℕ → String → Plan → Type 0
IsSafePlan hashes contents path (verified v) = IsSafe hashes contents path v
IsSafePlan hashes contents path (rejected e) = Unit

module _ (hashes : Hashes) (contents : List ℕ) (path : String)
    (small : length contents < 2 ^ 62) where
  verified-IsSafe :
      (w : Walked)
      → IsJournaled contents w.buffer
      → IsFileValid hashes w.buffer.bytes
      → IsSafe hashes contents path
          (record { path = path; bytes = w.buffer.bytes; changes = changes_of w.buffer.changed })
  unfolding changes_of
  verified-IsSafe w j valid = record {
    same_path = refl;
    valid = valid;
    same_length = j.same_length;
    undone = rw j.written (restore-IsJournaled contents w.buffer j);
  }

  abbrev Guarantees : Plan → Type 0
  Guarantees = IsSafePlan hashes contents path

  judge-Guarantees :
      (w : Walked) (failed : Option Error)
      → IsJournaled contents w.buffer
      → Returns Guarantees (judge hashes path w failed)
  unfolding judge
  judge-Guarantees w (some e) j = (_, refl, tt)
  judge-Guarantees w none j =
      Returns-if Guarantees (not w.modified) _ _ (λ _. (_, refl, tt))
        λ _.
          Returns-bind (λ stale. (stale ≡ false) ↔ IsFileValid hashes w.buffer.bytes) Guarantees _ _
            (check-IsFileValid hashes w.buffer.bytes (omega (arith, j.same_length)) path)
            λ stale valid.
              Returns-if Guarantees stale _ _ (λ _. (_, refl, tt))
                λ fresh. (_, refl, verified-IsSafe w j (valid.0 fresh))

  -- For a file of less than 2^62 bytes `planFileRepair` returns, with no panic; and if it yields a
  -- verified repair, then the repaired bytes have only valid signatures and the file's length, and
  -- undoing the changes from them gives back the file.
  pub plan_file_repair-IsSafe :
      Returns (IsSafePlan hashes contents path) (plan_file_repair hashes (some contents) path)
  unfolding plan_file_repair plan_repair
  plan_file_repair-IsSafe =
      Returns-bind (JournaledWalk contents) Guarantees _ _
        (repair-IsJournaled hashes contents path small) λ (w, failed) j. judge-Guarantees w failed j
