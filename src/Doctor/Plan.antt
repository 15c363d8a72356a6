-- ===== src/Doctor/Plan.antt =====
-- internal/doctor/doctor.go: `planFileRepair`, on what the read of the file returned, and the trial
-- repair of `scanFile`.
pub mod Safe
use machokeeper.Base.{
  ℕ, String, Bool, true, false, not, Option, none, some, List, [], if◌then◌else◌, ◌>>=◌,
}
use machokeeper.Engine.Defs.{Change, Error, Hashes}
use machokeeper.Engine.Walk.{Walked, check, repair}

-- `verifiedRepair`
pub record VerifiedRepair : Type 0 where
  pub path : String
  pub bytes : List ℕ
  pub changes : List Change

pub data PlanError : Type 0 where
  unreadable nothing_to_repair still_stale : PlanError
  not_repaired : Error → PlanError

pub data Plan : Type 0 where
  verified : VerifiedRepair → Plan
  rejected : PlanError → Plan

-- The changes that `Repair` returns. Its slice is nil before the first one.
unfoldable pub changes_of : Option (List Change) → List Change
changes_of none = []
changes_of (some changes) = changes

module _ (hashes : Hashes) where
  -- The tests on what `Repair` returned.
  unfoldable pub judge : String → Walked → Option Error → Option Plan
  judge path w (some e) = some (rejected (not_repaired e))
  judge path w none = if not w.modified then some (rejected nothing_to_repair) else do
    stale ← check hashes w.buffer.bytes path
    if stale
        then some (rejected still_stale)
        else some (
            verified (record {
              path = path;
              bytes = w.buffer.bytes;
              changes = changes_of w.buffer.changed;
            }))

  -- `planFileRepair` behind the read.
  unfoldable pub plan_repair : List ℕ → String → Option Plan
  plan_repair contents path = do (w, failed) ← repair hashes contents path; judge path w failed

  -- `planFileRepair`
  unfoldable pub plan_file_repair : Option (List ℕ) → String → Option Plan
  plan_file_repair none path = some (rejected unreadable)
  plan_file_repair (some contents) path = plan_repair contents path

  -- Whether a trial repair leaves the file valid.
  unfoldable pub passes : String → Walked → Option Error → Option Bool
  passes path w (some e) = some false
  passes path w none =
      if not w.modified
      then some false
      else do stale ← check hashes w.buffer.bytes path; some (not stale)

  unfoldable pub trial_repair : List ℕ → String → Option Bool
  trial_repair contents path = do (w, failed) ← repair hashes contents path; passes path w failed
