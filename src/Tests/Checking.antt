-- ===== src/Tests/Checking.antt =====
-- `Check` at the small disk, from its arguments to its exit code.
use machokeeper.Base.{
  ℕ, ◌≡◌, ◌↔◌, refl, sym, String, false, none, some, [], ◌∷◌, arith, inl, inr, eq_string,
  cut_prefix, At, At-cons, At-nil,
}
use mathlib.Core.Path.{subst}
use machokeeper.Doctor.Scan.{scan_file}
use machokeeper.Doctor.Pool.{workers}
use machokeeper.Doctor.Traverse.{Walked}
use machokeeper.Doctor.Flags.{parse_scan_flags, read_args, read_arg, read_inline}
use machokeeper.Doctor.Command.Checked.{IsIntact, doctor_check-IsIntact}
use machokeeper.Doctor.Command.{check_paths, count_stale, check_code, is_empty, doctor_check}
use machokeeper.Doctor.Command.Sound.{config_of}
use machokeeper.Tests.Fixtures.{toy}
use machokeeper.Tests.Doctor.{disk, disk-IsSmall, opened, bounds}
use machokeeper.Tests.Running.{finds}
use machokeeper.Tests.Exiting.{scan, scans, lstat, tree, Readable, args, walks, the_read}

check_worker : workers (parse_scan_flags ("f" ∷ [])).0 1 ≡ 1
unfolding workers parse_scan_flags read_args read_arg read_inline cut_prefix eq_string
check_worker = refl

check_path : (parse_scan_flags ("f" ∷ [])).1 ≡ "f" ∷ []
unfolding parse_scan_flags read_args read_arg read_inline cut_prefix eq_string
check_path = refl

check_reads : (root : String) → At root (parse_scan_flags ("f" ∷ [])).1 → Readable root
check_reads root at = elim (At-cons root "f" [] (subst (At root) check_path at)) [
  | inl e ↦ subst Readable (sym e) the_read
  | inr b ↦ absurd (At-nil root b)
]

doctor_check-IsIntact_example : (doctor_check (λ cfg. finds cfg disk) ("f" ∷ []) ≡ 0) ↔ (
    (is_empty (parse_scan_flags ("f" ∷ [])).1 ≡ false)
    × ((root : String)
        → At root (parse_scan_flags ("f" ∷ [])).1
        → IsIntact toy bounds (λ path. opened) scan scans lstat tree disk disk-IsSmall root))
doctor_check-IsIntact_example =
    doctor_check-IsIntact toy bounds (λ path. opened) scan scans lstat tree disk disk-IsSmall
      (λ cfg. finds cfg disk) ("f" ∷ []) 1 (omega arith) check_reads
      λ root.
        subst
          (λ (n : ℕ).
            Walked scan n root (tree root) (lstat root) (finds (config_of args) disk root))
          (sym check_worker) (walks root)

-- A file that cannot be opened gives no finding, so that a check of it alone passes.
unopened_scan : scan_file toy bounds (record opened { opens = false }) "f" ≡ some none
unfolding scan_file
unopened_scan = refl

nothing_counted : check_paths (λ root. some []) ("f" ∷ []) ≡ 0
unfolding check_paths count_stale check_code
nothing_counted = refl
