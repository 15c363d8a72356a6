-- ===== src/Tests/Exiting.antt =====
-- `Run` with `--fix` at the small disk, from its arguments to its exit code.
use machokeeper.Base.{
  ℕ, ◌≡◌, refl, sym, ◌∙◌, String, Bool, false, none, some, List, [], ◌∷◌, arith, inl, inr,
  eq_string, eq_string_iff, Bool-cases, Returns, cut_prefix, Option, true, if◌then◌else◌, At,
  At-cons, At-nil,
}
use mathlib.Core.Path.{subst}
use mathlib.Core.Option.{some-injective}
use mathlib.Core.List.Permᴰ
use machokeeper.Doctor.Scan.{
  Finding, scan_file, scan_sized, read_for_scan, scan_loaded, inspect, inspect_signed, report,
  is_ad_hoc, class_of,
}
use machokeeper.Doctor.Plan.{trial_repair, passes}
use machokeeper.Engine.Read.{has_macho_magic}
use machokeeper.Tests.Engine.{run_detect, run_repair}
use machokeeper.Doctor.Disk.{Disk}
use machokeeper.Engine.Defs.{ad_hoc, kind_string}
use machokeeper.Doctor.Pool.{
  workers, Worker, Pool, traversal, main, closer, worker, start, move, Reach, begin, next,
  is_finished, files_capacity, makes_channels, send_file, move_worker, work, receive, after_scan,
  visit_result, close_results,
}
use machokeeper.Doctor.Traverse.{Tree, leaf, Info, files_of, Walked, walked, lstat_failed}
use machokeeper.Doctor.Flags.{parse_scan_flags, read_args, read_arg, read_inline}
use machokeeper.Doctor.Run.{RunState}
use machokeeper.Doctor.Run.Repaired.{IsSound}
use machokeeper.Doctor.Command.{Outcome, doctor_run, set_flags, set_flag, paths_of, collect}
use machokeeper.Doctor.Command.Clean.{IsReadable, doctor_run-IsClean}
use machokeeper.Doctor.Files.Repair.{IsFile}
use machokeeper.Doctor.Command.Sound.{IsJournalNew, config_of, flags_of}
use machokeeper.Tests.Fixtures.{toy}
use machokeeper.Tests.Doctor.{
  linkless, the_file, disk, disk_has_file, disk-IsSmall, small_store, finding, opened, bounds,
  broken-IsPresented,
}
use machokeeper.Tests.Running.{around, journal_path, at_path, repairs, is_new, finds}

abbrev pub args : List String
args = "--fix" ∷ "f" ∷ []

only_fix : (flags_of args).fix_live ≡ false
unfolding parse_scan_flags read_args read_arg read_inline cut_prefix set_flags set_flag eq_string
only_fix = refl

found_there : collect (finds (config_of args) disk) (paths_of (flags_of args)) ≡ finding ∷ []
unfolding parse_scan_flags read_args read_arg read_inline cut_prefix set_flags set_flag eq_string
    paths_of collect
found_there = refl

journal-IsJournalNew :
    IsJournalNew toy linkless small_store around (λ file path e. e) false (finding ∷ []) disk 0
journal-IsJournalNew st ran =
    subst (λ (r : String × Disk). st.disk.names r.0 ≡ none) (sym at_path)
      (subst (λ (s : RunState ℕ). s.disk.names journal_path ≡ none)
        (some-injective _ _ (sym repairs ∙ ran)) is_new.0)

args-IsJournalNew :
    IsJournalNew toy linkless small_store around
      (λ file path e. e)
      (flags_of args).fix_live
      (collect (finds (config_of args) disk) (paths_of (flags_of args)))
      disk
      0
args-IsJournalNew =
    subst
      (λ (b : Bool).
        IsJournalNew toy linkless small_store around (λ file path e. e) b
          (collect (finds (config_of args) disk) (paths_of (flags_of args))) disk 0)
      (sym only_fix)
      (subst
        (λ (fs : List Finding).
          IsJournalNew toy linkless small_store around (λ file path e. e) false fs disk 0)
        (sym found_there) journal-IsJournalNew)

-- Every path is presented with the bytes of the one file.
abbrev pub scan : String → Option Finding
scan p = some (record { file = p; kind = ad_hoc; class = "ad-hoc"; repairable = true })

scan_broken : (p : String) → scan_file toy bounds opened p ≡ some (scan p)
unfolding scan_file has_macho_magic scan_sized read_for_scan scan_loaded inspect inspect_signed
    report is_ad_hoc class_of kind_string trial_repair passes run_detect run_repair
scan_broken p = refl

pub scans :
    (p : String) (result : Option Finding)
    → scan_file toy bounds opened p ≡ some result
    → scan p ≡ result
scans p result e = some-injective _ _ (sym (scan_broken p) ∙ e)

abbrev pub lstat : String → Option Info
lstat root =
    if eq_string root "f" then some (record { is_regular = true; is_dir = false }) else none

abbrev pub tree : String → Tree
tree root = leaf root true

-- One worker on the file or on nothing.
abbrev ended : List String → List Finding → Pool
ended files visited = record {
  to_send = [];
  files = [];
  files_closed = true;
  workers = Worker.stopped ∷ [];
  waiting = 0;
  results = [];
  results_closed = true;
  visited = visited;
}

one_file : Reach scan 1 ("f" ∷ []) 8 (ended [] (finding ∷ []))
unfolding makes_channels start move send_file files_capacity move_worker work receive after_scan
    visit_result close_results
one_file =
    next main
      (next closer
        (next (worker 0)
          (next traversal
            (next (worker 0)
              (next (worker 0) (next (worker 0) (next traversal (begin refl) refl) refl) refl) refl)
            refl)
          refl)
        refl)
      refl

no_file : Reach scan 1 [] 3 (ended [] [])
unfolding makes_channels start move send_file files_capacity move_worker work receive after_scan
    visit_result close_results
no_file = next closer (next (worker 0) (next traversal (begin refl) refl) refl) refl

abbrev Walks : String → Type 0
Walks root = Walked scan 1 root (tree root) (lstat root) (finds (config_of args) disk root)

the_walk : Walks "f"
unfolding files_of is_finished eq_string
the_walk = walked one_file refl

empty_walk : (root : String) → Walked scan 1 root (tree root) none none
unfolding files_of is_finished
empty_walk root = lstat_failed no_file refl

pub walks : (root : String) → Walks root
walks root = elim (Bool-cases (eq_string root "f")) [
  | inl e ↦ subst Walks (sym ((eq_string_iff root "f").0 e)) the_walk
  | inr e ↦ rw e (empty_walk root)
]

one_worker : workers (config_of args) 1 ≡ 1
unfolding workers parse_scan_flags read_args read_arg read_inline cut_prefix eq_string
one_worker = refl

abbrev pub Readable : String → Type 0
Readable = IsReadable bounds (λ path. opened) lstat tree disk

pub the_read : Readable "f"
unfolding files_of eq_string
the_read p at = elim (At-cons p "f" [] at) [
  | inl e ↦ (
    the_file,
    subst (λ (q : String). IsFile disk q the_file) (sym e) disk_has_file,
    broken-IsPresented,
  )
  | inr b ↦ absurd (At-nil p b)
]

only_path : paths_of (flags_of args) ≡ "f" ∷ []
unfolding parse_scan_flags read_args read_arg read_inline cut_prefix set_flags set_flag eq_string
    paths_of
only_path = refl

reads : (root : String) → At root (paths_of (flags_of args)) → Readable root
reads root at = elim (At-cons root "f" [] (subst (At root) only_path at)) [
  | inl e ↦ subst Readable (sym e) the_read
  | inr b ↦ absurd (At-nil root b)
]

doctor_run-IsClean_example :
    Returns
      (λ (r : Outcome ℕ ℕ).
        r.1 ≡ 0
        → (root p : String) → At root (paths_of (flags_of args))
        → At p (files_of root (lstat root) (tree root))
        → IsSound toy r.0.0.disk p)
      (doctor_run toy linkless small_store around (λ fs. fs) finds args disk 0 0)
doctor_run-IsClean_example =
    doctor_run-IsClean toy linkless small_store around (λ file path e. e) (λ fs. fs) finds
      (λ fs. Permᴰ.refl fs) bounds (λ path. opened) scan 1 (omega arith) lstat tree args disk 0 0
      disk-IsSmall scans reads
      (λ root.
        subst
          (λ (n : ℕ).
            Walked scan n root (tree root) (lstat root) (finds (config_of args) disk root))
          (sym one_worker) (walks root))
      args-IsJournalNew
