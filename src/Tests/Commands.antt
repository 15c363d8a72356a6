-- ===== src/Tests/Commands.antt =====
-- The theorems on the commands of internal/doctor/doctor.go, on internal/hook/hook.go and on
-- internal/wrap/wrap.go at concrete inputs.
use machokeeper.Base.{
  ℕ, ◌≡◌, ◌≢◌, ◌⊎◌, ◌↔◌, refl, String, true, false, Option, none, some, List, [], ◌∷◌, arith,
  if◌then◌else◌, eq_string, eq_string_iff,
}
use machokeeper.Doctor.Scan.{Finding}
use machokeeper.Doctor.Disk.{Disk}
use machokeeper.Doctor.Command.{is_empty, count_stale, check_code, check_paths}
use machokeeper.Doctor.Command.Exit.{IsClean, check_paths-IsClean}
use machokeeper.Tests.Doctor.{disk, finding}
use machokeeper.Hook.{closure_delta, DoctorCalls, scan_generation}
use machokeeper.Base.{At}
use machokeeper.Hook.Closure.{closure_delta-At}
use machokeeper.Hook.Exit.{IsRefusal, scan_generation-IsRefusal}
use machokeeper.Wrap.{
  Seams, run, prefetch, realise, fix_realised, retry, repair_substitutes, sweep_realised,
}
use machokeeper.Wrap.Runs.{IsLogged, run-IsLogged}

-- The closures of two generations, "n" and "o".
abbrev requisites : String → Option (List String)
requisites path =
    if eq_string path "n"
    then some ("a" ∷ "b" ∷ "c" ∷ [])
    else if eq_string path "o"
    then some ("b" ∷ [])
    else none

new_requisites : requisites "n" ≡ some ("a" ∷ "b" ∷ "c" ∷ [])
unfolding eq_string
new_requisites = refl

old_requisites : requisites "o" ≡ some ("b" ∷ [])
unfolding eq_string
old_requisites = refl

old_is_named : ◌≢◌ {A = String} "o" ""
unfolding eq_string
old_is_named p = ground (arith, (eq_string_iff "o" "").1 p)

closure_delta-At_example :
    (delta : List String) × (closure_delta requisites "n" "o" ≡ some delta)
    × ((p : String) → At p delta ↔ (At p ("a" ∷ "b" ∷ "c" ∷ []) × ¬ At p ("b" ∷ [])))
closure_delta-At_example =
    closure_delta-At requisites "n" "o" ("a" ∷ "b" ∷ "c" ∷ []) ("b" ∷ []) new_requisites
      old_requisites old_is_named

-- Every check finds something stale, and every run repairs it.
abbrev stale_doctor : DoctorCalls ℕ
stale_doctor = record { run = λ args d. (0, 0); check = λ args d. (d, 2) }

scan_generation-IsRefusal_example :
    ((scan_generation stale_doctor requisites "n" "o" "refuse" 1).1 ≡ 0)
    ⊎ (((scan_generation stale_doctor requisites "n" "o" "refuse" 1).1 ≡ 1)
        × IsRefusal stale_doctor (closure_delta requisites "n" "o") "refuse" 1)
scan_generation-IsRefusal_example =
    scan_generation-IsRefusal stale_doctor requisites "n" "o" "refuse" 1

-- The code of the command after these runs: it fails at first.
abbrev next_code : List ℕ → ℕ
next_code [] = 7
next_code (c ∷ cs) = 0

-- The world is the log.
abbrev seams : Seams (List ℕ)
seams = record {
  will_substitute = λ argv w. (w, "a" ∷ []);
  stat = λ p w. false;
  realise_path = λ p w. (w, true);
  fix = λ ps w. (w, 0);
  passthrough = λ argv w. (next_code w ∷ w, next_code w);
}

seams-IsLogged : IsLogged seams (λ w. w)
seams-IsLogged = record {
  asks = λ argv w. refl;
  realises = λ p w. refl;
  fixes = λ ps w. refl;
  runs = λ argv w. refl;
}

-- A command that fails at first is run again.
run_again : run seams ("nix" ∷ "build" ∷ []) [] ≡ (0 ∷ 7 ∷ [], 0)
unfolding run prefetch realise fix_realised retry repair_substitutes sweep_realised
run_again = refl

run-IsLogged_example :
    ((run seams ("nix" ∷ "build" ∷ []) []).0 ≡ (run seams ("nix" ∷ "build" ∷ []) []).1 ∷ [])
    ⊎ ((first : ℕ) × (first ≢ 0)
        × ((run seams ("nix" ∷ "build" ∷ []) []).0
            ≡ (run seams ("nix" ∷ "build" ∷ []) []).1 ∷ first ∷ []))
run-IsLogged_example = run-IsLogged seams (λ w. w) seams-IsLogged "nix" ("build" ∷ []) []

-- A walk that finds the one file.
abbrev finds : Disk → String → Option (List Finding)
finds d path = if eq_string path "f" then some (finding ∷ []) else none

-- A check of that file.
check_stale : check_paths (finds disk) ("f" ∷ []) ≡ 2
unfolding check_paths count_stale check_code eq_string
check_stale = refl

check_paths-IsClean_example :
    (check_paths (finds disk) ("f" ∷ []) ≡ 0)
    ↔ ((is_empty {A = String} ("f" ∷ []) ≡ false) × IsClean (finds disk) ("f" ∷ []))
check_paths-IsClean_example = check_paths-IsClean (finds disk) ("f" ∷ [])
