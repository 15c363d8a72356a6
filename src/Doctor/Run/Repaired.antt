-- ===== src/Doctor/Run/Repaired.antt =====
-- internal/doctor/doctor.go: the exit code 0 of `Run` with `--fix`.
use machokeeper.Base.{
  ◌≤◌, ◌≡◌, sym, ◌∙◌, String, Bool, true, some, List, [], arith, inl, inr, length, Bool-cases,
}
use mathlib.Core.Path.{subst}
use mathlib.Core.Option.{some-injective}
use machokeeper.Engine.Defs.{Hashes}
use machokeeper.Engine.Verify.Check.{IsFileValid}
use machokeeper.Doctor.Scan.{Finding}
use machokeeper.Doctor.Disk.{Inode, Disk, System, Calls}
use machokeeper.Doctor.Disk.Keeps.{IsSmall}
use machokeeper.Doctor.Files.Repair.{IsFile}
use machokeeper.Doctor.Run.{Store, RunState, group_findings, run_fix, exit_status}
use machokeeper.Doctor.Run.Rule.{AllFiles, AllFiles-map}
use machokeeper.Doctor.Run.Entries.{named, AllEntries-named}
use machokeeper.Doctor.Run.Groups.{
  count, count-group_findings, group_findings_back, AreGroups-group_findings,
}
use machokeeper.Doctor.Run.Journaled.{IsJournaled, run_fix-IsJournaled}
use machokeeper.Doctor.Run.Tracked.{IsTracking}
use machokeeper.Doctor.Run.Counted.{run_repairs-Counted}

-- A regular file whose signatures are valid.
abbrev pub IsSound : Hashes → Disk → String → Type 0
IsSound hashes d file = (node : Inode) × IsFile d file node × IsFileValid hashes node.bytes

-- A file that a run's journal names, and one that was valid before.
module _ {S : Type 0} (hashes : Hashes) (d : Disk) (st : RunState S)
    (v : IsJournaled hashes d st) where
  named-IsSound : (file : String) → named st.journal file ≡ true → IsSound hashes st.disk file
  named-IsSound file n =
      let (e, names_it, h) = AllEntries-named hashes d st.disk st.journal file n v.entries in
      subst (IsSound hashes st.disk) names_it
        (record { bytes = h.bytes; mode = h.node.mode }, h.there, h.valid)

  pub IsSound-IsJournaled : (file : String) → IsSound hashes d file → IsSound hashes st.disk file
  IsSound-IsJournaled file (node, f, valid) = elim (Bool-cases (named st.journal file)) [
    | inl n ↦ named-IsSound file n
    | inr n ↦ (node, v.untouched file node f n, valid)
  ]

module _ {S : Type 0} (hashes : Hashes) (sys : System) (store : Store S)
    (calls : String → Disk → Calls) (Matches : S → Disk → String → Type 0)
    (tracking : IsTracking hashes sys store calls Matches) where
  exit_zero :
      (findings : List Finding) (st : RunState S)
      → exit_status findings st ≡ 0
      → length findings ≤ st.fixed
  unfolding exit_status
  exit_zero findings st e = ground arith

  -- A run with `--fix` on findings in regular files, on a disk whose files are of less than 2^62 bytes,
  -- exits with 0 only if nothing broken remains: every file that was found is then a regular file with
  -- only valid signatures, and the database still has the right hash of each store path of which it
  -- had it. The store is one where registering a path gives it the right hash, and neither that nor
  -- the repair of another path's file spoils a right hash.
  pub run_fix-IsSound :
      (fix_live : Bool) (findings : List Finding) (d : Disk) (db : S) (st : RunState S)
      → IsSmall d
      → AllFiles (λ file. (node : Inode) × IsFile d file node) findings
      → run_fix hashes sys store calls fix_live findings d db ≡ some st
      → exit_status findings st ≡ 0
      → AllFiles (IsSound hashes st.disk) findings
        × ((path : String) → Matches db d path → Matches st.db st.disk path)
  unfolding run_fix
  run_fix-IsSound fix_live findings d db st small regular_files ran e =
      let groups = group_findings store.store_path_of findings [] in
      let (st', ran', v') =
        run_fix-IsJournaled hashes d sys store calls fix_live findings db small regular_files in
      let v : IsJournaled hashes d st =
        subst (IsJournaled hashes d) (some-injective _ _ (sym ran' ∙ ran)) v' in
      let fixed = exit_zero findings st e in
      let most : count groups ≤ length findings =
        omega (arith, count-group_findings store.store_path_of findings []) in
      let c =
        run_repairs-Counted hashes sys store calls Matches tracking fix_live groups
          (record { disk = d; db = db; journal = []; fixed = 0 }) st
          (AreGroups-group_findings store.store_path_of tracking.own_path findings [] tt) ran in
      elim c.counted [
        | inl less ↦ absurd (omega (arith, less, fixed, most))
        | inr (n, listed, matches) ↦
            let (a, b) =
              group_findings_back (λ file. named st.journal file ≡ true) store.store_path_of
                findings [] (omega (arith, n, fixed, most)) listed in
            (AllFiles-map _ _ findings (named-IsSound hashes d st v) b, matches)
      ]
