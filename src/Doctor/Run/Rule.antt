-- ===== src/Doctor/Run/Rule.antt =====
-- internal/doctor/doctor.go: what `Run` with `--fix` keeps, if the repair of one file keeps it.
use machokeeper.Base.{
  ℕ, ◌+◌, ◌≡◌, refl, String, Bool, true, false, Option, none, some, List, [], ◌∷◌, ◌++◌, inl, inr,
  Bool-cases, Returns, Returns-bind, if◌then◌else◌, eq_string,
}
use machokeeper.Engine.Defs.{Hashes}
use machokeeper.Doctor.Scan.{Finding}
use machokeeper.Doctor.Disk.{Disk, System, Calls}
use machokeeper.Doctor.Files.{RepairResult, repaired, not_planned, not_written, repair_file}
use machokeeper.Doctor.Files.Others.{IsUntouched}
use machokeeper.Doctor.Run.{
  Group, Store, add_finding, key_of, group_findings, Decision, proceed, undetermined,
  content_addressed, unknown_blockers, in_use, RunState, decide, note_repair, repair_files,
  register, repair_decided, repair_group, run_repairs, run_fix,
}

-- Every finding's file meets `F`, and every file of every group.
abbrev pub AllFiles : (String → Type 0) → List Finding → Type 0
AllFiles F [] = Unit
AllFiles F (f ∷ fs) = F f.file × AllFiles F fs

abbrev pub AllGroups : (String → Type 0) → List (String × Group) → Type 0
AllGroups F [] = Unit
AllGroups F ((key, g) ∷ groups) = AllFiles F g.files × AllGroups F groups

pub AllFiles-map :
    (F G : String → Type 0) (fs : List Finding)
    → ((file : String) → F file → G file)
    → AllFiles F fs
    → AllFiles G fs
AllFiles-map F G [] h a = tt
AllFiles-map F G (f ∷ fs) h (a, b) = (h f.file a, AllFiles-map F G fs h b)

pub AllFiles-every :
    (F : String → Type 0) (fs : List Finding) → ((file : String) → F file) → AllFiles F fs
AllFiles-every F [] h = tt
AllFiles-every F (f ∷ fs) h = (h f.file, AllFiles-every F fs h)

module _ (F : String → Type 0) where
  pub AllFiles-append :
      (fs : List Finding) (f : Finding) → AllFiles F fs → F f.file → AllFiles F (fs ++ (f ∷ []))
  AllFiles-append [] f a h = (h, tt)
  AllFiles-append (g ∷ fs) f (b, a) h = (b, AllFiles-append fs f a h)

  AllGroups-add_finding :
      (key : String) (store_path : Option String) (f : Finding) (groups : List (String × Group))
      → F f.file
      → AllGroups F groups
      → AllGroups F (add_finding key store_path f groups)
  unfolding add_finding
  AllGroups-add_finding key store_path f [] h a = ((h, tt), tt)
  AllGroups-add_finding key store_path f ((k, g) ∷ groups) h (b, a) =
      elim (Bool-cases (eq_string k key)) [
        | inl e ↦ rw e (AllFiles-append g.files f b h, a)
        | inr e ↦ rw e (b, AllGroups-add_finding key store_path f groups h a)
      ]

  AllGroups-if :
      (repairable : Bool) (yes_groups no_groups : List (String × Group))
      → AllGroups F yes_groups
      → AllGroups F no_groups
      → AllGroups F (if repairable then yes_groups else no_groups)
  AllGroups-if true a b h k = h
  AllGroups-if false a b h k = k

  AllGroups-group_findings :
      (store_path_of : String → Option String) (fs : List Finding) (groups : List (String × Group))
      → AllFiles F fs
      → AllGroups F groups
      → AllGroups F (group_findings store_path_of fs groups)
  unfolding group_findings
  AllGroups-group_findings store_path_of [] groups h a = a
  AllGroups-group_findings store_path_of (f ∷ fs) groups (h, hs) a =
      let store_path = store_path_of f.file in
      AllGroups-group_findings store_path_of fs _ hs (
        AllGroups-if f.repairable _ _
          (AllGroups-add_finding (key_of f.file store_path) store_path f groups h a) a)

-- A repair that has changed nothing.
pub note_repair-IsUntouched :
    {S : Type 0}
    → (file : String) (st : RunState S) (r : Disk × RepairResult) → IsUntouched st.disk r
    → ((note_repair file r.1 r.0 st).0.disk ≡ st.disk)
      × ((note_repair file r.1 r.0 st).0.journal ≡ st.journal)
unfolding note_repair
note_repair-IsUntouched file st (d, repaired changes) u = absurd u
note_repair-IsUntouched file st (d, not_planned e) u = (u, refl)
note_repair-IsUntouched file st (d, not_written e) u = (u, refl)

-- `P` looks only at the disk and the journal, and the repair of a file that meets `F` keeps it.
pub record IsKept {S : Type 0} (hashes : Hashes) (sys : System) (calls : String → Disk → Calls)
    (F : String → Type 0) (P : RunState S → Type 0) : Type 0 where
  pub on_same : (st st' : RunState S) → st'.disk ≡ st.disk → st'.journal ≡ st.journal → P st → P st'
  pub on_repair :
      (file : String) (st : RunState S)
      → F file
      → P st
      → Returns
          (λ (r : Disk × RepairResult). P (note_repair file r.1 r.0 st).0)
          (repair_file hashes sys (calls file st.disk) file st.disk)

module _ {S : Type 0} (hashes : Hashes) (sys : System) (store : Store S)
    (calls : String → Disk → Calls) (F : String → Type 0) (P : RunState S → Type 0)
    (kept : IsKept hashes sys calls F P) where
  abbrev Runs : RunState S × Bool × ℕ → Type 0
  Runs r = P r.0

  go_on_or_stop :
      (go_on : Bool) (st : RunState S) (n : ℕ) (rest : Option (RunState S × Bool × ℕ))
      → P st
      → Returns Runs rest
      → Returns Runs (if go_on then rest else some (st, false, n))
  go_on_or_stop true st n rest v r = r
  go_on_or_stop false st n rest v r = (_, refl, v)

  repair_files-P :
      (fs : List Finding) (n : ℕ) (st : RunState S)
      → AllFiles F fs
      → P st
      → Returns Runs (repair_files hashes sys store calls fs n st)
  unfolding repair_files
  repair_files-P [] n st a v = (_, refl, v)
  repair_files-P (f ∷ fs) n st (h, a) v =
      Returns-bind (λ (r : Disk × RepairResult). P (note_repair f.file r.1 r.0 st).0) Runs _ _
        (kept.on_repair f.file st h v)
        λ (d, result) w.
          go_on_or_stop (note_repair f.file result d st).1 _ n _ w
            (repair_files-P fs (n + 1) (note_repair f.file result d st).0 a w)

  register-P :
      (store_path : Option String) (n : ℕ) (st : RunState S)
      → P st
      → P (register hashes sys store calls store_path n st)
  unfolding register
  register-P none n st v = kept.on_same st _ refl refl v
  register-P (some p) n st v = elim (Bool-cases (store.reconcile_hash p st.disk st.db).1) [
    | inl e ↦ rw e (kept.on_same st _ refl refl v)
    | inr e ↦ rw e (kept.on_same st _ refl refl v)
  ]

  registered :
      (ok : Bool) (store_path : Option String) (n : ℕ) (st : RunState S)
      → P st
      → P (if ok then register hashes sys store calls store_path n st else st)
  registered true p n st v = register-P p n st v
  registered false p n st v = v

  repair_decided-P :
      (decision : Decision) (g : Group) (st : RunState S)
      → AllFiles F g.files
      → P st
      → Returns P (repair_decided hashes sys store calls decision g st)
  unfolding repair_decided
  repair_decided-P proceed g st a v =
      Returns-bind Runs P _ _ (repair_files-P g.files 0 st a v)
        λ (st', ok, n) w. (_, refl, registered ok g.store_path n st' w)
  repair_decided-P undetermined g st a v = (_, refl, v)
  repair_decided-P content_addressed g st a v = (_, refl, v)
  repair_decided-P unknown_blockers g st a v = (_, refl, v)
  repair_decided-P in_use g st a v = (_, refl, v)

  run_repairs-P :
      (fix_live : Bool) (groups : List (String × Group)) (st : RunState S)
      → AllGroups F groups
      → P st
      → Returns P (run_repairs hashes sys store calls fix_live groups st)
  unfolding run_repairs repair_group
  run_repairs-P fix_live [] st a v = (_, refl, v)
  run_repairs-P fix_live ((key, g) ∷ groups) st (h, a) v =
      Returns-bind P P _ _
        (repair_decided-P (decide hashes sys store calls fix_live g.store_path st) g st h v)
        λ st' w. run_repairs-P fix_live groups st' a w

  -- A run keeps `P`.
  pub run_fix-P :
      (fix_live : Bool) (findings : List Finding) (d : Disk) (db : S)
      → AllFiles F findings
      → P (record { disk = d; db = db; journal = []; fixed = 0 })
      → Returns P (run_fix hashes sys store calls fix_live findings d db)
  unfolding run_fix
  run_fix-P fix_live findings d db a v =
      run_repairs-P fix_live (group_findings store.store_path_of findings [])
        (record { disk = d; db = db; journal = []; fixed = 0 })
        (AllGroups-group_findings F store.store_path_of findings [] a tt) v
