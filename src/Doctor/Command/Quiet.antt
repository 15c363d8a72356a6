-- ===== src/Doctor/Command/Quiet.antt =====
-- internal/doctor/doctor.go: `Run` where it only reports.
use machokeeper.Base.{
  ◌≡◌, ◌≢◌, refl, sym, ◌∙◌, String, not, ◌&&◌, Option, List, [], ◌∷◌, arith, Returns, Returns-if,
  eq_string_ne, At, here, there,
}
use machokeeper.Engine.Defs.{Hashes}
use machokeeper.Doctor.Scan.{Finding}
use machokeeper.Doctor.Disk.{Disk, System}
use machokeeper.Doctor.Pool.{ScanConfig}
use machokeeper.Doctor.Flags.{parse_scan_flags}
use machokeeper.Doctor.Flags.Keeps.{parse_scan_flags-only}
use machokeeper.Doctor.Run.{Store}
use machokeeper.Doctor.Command.{
  Flags, Surroundings, Outcome, start_state, doctor_run, set_flag, set_flags, no_flags, paths_of,
  collect, is_empty, run_found, run_doctor,
}

set_flag-fix :
    (a : String) (fl : Flags) → a ≢ "--fix" → a ≢ "--fix-live" → (set_flag a fl).fix ≡ fl.fix
unfolding set_flag
set_flag-fix a fl n m = ground (arith, eq_string_ne a "--fix" n, eq_string_ne a "--fix-live" m)

set_flags-fix :
    (rest : List String) (fl : Flags)
    → ¬ At "--fix" rest
    → ¬ At "--fix-live" rest
    → (set_flags rest fl).fix ≡ fl.fix
unfolding set_flags
set_flags-fix [] fl n m = refl
set_flags-fix (a ∷ rest) fl n m =
    set_flags-fix rest (set_flag a fl) (λ p. n (there p)) (λ p. m (there p))
    ∙ set_flag-fix a fl (λ e. n (here (sym e))) (λ e. m (here (sym e)))

module _ {S L : Type 0} (hashes : Hashes) (sys : System) (store : Store S) (around : Surroundings L)
    (walk : ScanConfig → Disk → String → Option (List Finding))
    (sort : List Finding → List Finding) where
  -- If neither `--fix` nor `--fix-live` is among the arguments, `Run` returns, and leaves the disk, the
  -- store's database and the locks as they are, with an empty journal.
  pub doctor_run-unfixed :
      (args : List String) (d : Disk) (db : S) (l : L)
      → ¬ At "--fix" args
      → ¬ At "--fix-live" args
      → Returns
          (λ (r : Outcome S L). r.0 ≡ (start_state d db, l))
          (doctor_run hashes sys store around sort walk args d db l)
  unfolding doctor_run run_doctor run_found
  doctor_run-unfixed args d db l n m =
      let (cfg, rest) = parse_scan_flags args in
      let fl = set_flags rest no_flags in
      let unfixed =
        set_flags-fix rest no_flags (λ p. n (parse_scan_flags-only "--fix" args p))
          (λ p. m (parse_scan_flags-only "--fix-live" args p)) in
      let found = sort (collect (walk cfg d) (paths_of fl)) in
      let Same : Outcome S L → Type 0 = λ r. r.0 ≡ (start_state d db, l) in
      Returns-if Same (is_empty (paths_of fl)) _ _ (λ _. (_, refl, refl))
        λ _.
          Returns-if Same (fl.json_out && not fl.fix) _ _ (λ _. (_, refl, refl))
            λ _.
              Returns-if Same (is_empty found) _ _ (λ _. (_, refl, refl))
                λ _.
                  Returns-if Same (not fl.fix) _ _ (λ _. (_, refl, refl))
                    λ fixes. absurd (ground (arith, unfixed))
