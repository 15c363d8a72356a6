-- ===== src/Tests/Scanning.antt =====
-- The worker pool and the traversal of `walkParallel`, and `parseScanFlags`, at concrete inputs.
use machokeeper.Base.{
  ◌+◌, ◌*◌, ◌≤◌, ◌≡◌, ◌⊎◌, refl, String, true, false, Option, none, some, List, [], ◌∷◌, arith,
  eq_string, if◌then◌else◌, length, cut_prefix, magnitude, digits_value, is_digit, signed, codes,
  parse_int, At, here, there,
}
use machokeeper.Engine.Defs.{ad_hoc}
use machokeeper.Doctor.Scan.{Finding}
use machokeeper.Doctor.Pool.{
  workers, Worker, Pool, Turn, traversal, main, closer, worker, start, move, Reach, begin, next,
  is_finished, scan_all, files_capacity, makes_channels, send_file, move_worker, work, receive,
  after_scan, visit_result, close_results,
}
use machokeeper.Doctor.Pool.Weight.{total}
use machokeeper.Doctor.Pool.Bound.{Reach-bound}
use machokeeper.Doctor.Pool.Moves.{Reach-is_finished}
use machokeeper.Doctor.Pool.Visited.{Reach-visited}
use machokeeper.Doctor.Traverse.{
  leaf, directory, Forest, empty, entry, Info, files_of, walk_calls, on_entries, on_entry,
  read_failure, Walked, walked, scan_walk,
}
use machokeeper.Doctor.Traverse.Sends.{regular_entries, files_of-directory}
use machokeeper.Doctor.Traverse.Delivers.{
  SameOutcome, Walked-scan_walk, Walked-result, check_paths-Walked,
}
use machokeeper.Doctor.Command.{check_paths}
use machokeeper.Doctor.Flags.{
  positive, read_args, read_arg, read_jobs, read_inline, next_number, parse_scan_flags, jobs_of,
  size_bound_from_env,
}
use machokeeper.Doctor.Flags.Keeps.{parse_scan_flags-keeps}
use machokeeper.Doctor.Flags.Workers.{
  IsPositive, workers-parse_scan_flags, size_bound_from_env-IsPositive,
}

-- The file "bad" is stale.
abbrev bad : Finding
bad = record { file = "bad"; kind = ad_hoc; class = "ad-hoc"; repairable = true }

abbrev scan_small : String → Option Finding
scan_small p = if eq_string p "bad" then some bad else none

-- Two workers on two files: the second file's scan ends first, and a worker stops before the
-- finding is sent.
abbrev last : Pool
last = record {
  to_send = [];
  files = [];
  files_closed = true;
  workers = Worker.stopped ∷ Worker.stopped ∷ [];
  waiting = 0;
  results = [];
  results_closed = true;
  visited = bad ∷ [];
}

reach : Reach scan_small 2 ("bad" ∷ "good" ∷ []) 12 last
unfolding makes_channels start move eq_string send_file files_capacity move_worker work receive
    after_scan visit_result close_results
reach =
    next closer
      (next (worker 0)
        (next main
          (next (worker 0)
            (next (worker 0)
              (next (worker 1)
                (next traversal
                  (next (worker 1)
                    (next (worker 1)
                      (next (worker 0) (next traversal (next traversal (begin refl) refl) refl)
                        refl)
                      refl)
                    refl)
                  refl)
                refl)
              refl)
            refl)
          refl)
        refl)
      refl

last-is_finished : is_finished last ≡ true
unfolding is_finished
last-is_finished = refl

Reach-visited_example :
    total (λ _. 1) (bad ∷ []) ≡ total (λ _. 1) (scan_all scan_small ("bad" ∷ "good" ∷ []))
Reach-visited_example = Reach-visited scan_small 2 (omega arith) reach last-is_finished (λ _. 1)

Reach-bound_example : 12 ≤ 5 * length {A = String} ("bad" ∷ "good" ∷ []) + 2 + 2
Reach-bound_example = Reach-bound scan_small 2 reach

Reach-is_finished_example :
    (is_finished last ≡ true)
    ⊎ ((turn : Turn) × (t : Pool) × (move scan_small 2 turn last ≡ some t))
Reach-is_finished_example = Reach-is_finished scan_small 2 (omega arith) (omega arith) reach

-- A directory that holds the two files, a symlink, and a directory that cannot be read.
abbrev small_tree : Forest
small_tree = entry (leaf "bad" true) (
    entry (directory "locked" false empty)
      (entry (leaf "link" false) (entry (leaf "good" true) empty)))

abbrev dir_info : Info
dir_info = record { is_regular = false; is_dir = true }

files_of-directory_example :
    files_of "d" (some dir_info) (directory "d" true small_tree) ≡ regular_entries small_tree
files_of-directory_example = files_of-directory "d" "d" true small_tree dir_info refl refl

small_files : files_of "d" (some dir_info) (directory "d" true small_tree) ≡ "bad" ∷ "good" ∷ []
unfolding files_of walk_calls on_entries on_entry read_failure
small_files = refl

small_walk :
    (root : String)
    → Walked scan_small 2 root (directory "d" true small_tree) (some dir_info) (some (bad ∷ []))
unfolding files_of walk_calls on_entries on_entry read_failure
small_walk root = walked reach last-is_finished

Walked-scan_walk_example :
    SameOutcome
      (some (bad ∷ []))
      (scan_walk scan_small "d" (directory "d" true small_tree) (some dir_info))
Walked-scan_walk_example = Walked-scan_walk scan_small 2 (omega arith) (small_walk "d")

Walked-result_example :
    (result : Option (List Finding)) × Walked scan_small 2 "d"
      (directory "d" true small_tree)
      (some dir_info)
      result
Walked-result_example =
    Walked-result scan_small 2 "d" (directory "d" true small_tree) (some dir_info) (omega arith)
      (omega arith)

check_paths-Walked_example :
    check_paths (λ _. some (bad ∷ [])) ("d" ∷ "d" ∷ [])
    ≡ check_paths
        (λ p. scan_walk scan_small p (directory "d" true small_tree) (some dir_info))
        ("d" ∷ "d" ∷ [])
unfolding files_of
check_paths-Walked_example =
    check_paths-Walked scan_small 2 (λ _. directory "d" true small_tree) (λ _. some dir_info)
      (λ _. some (bad ∷ [])) (omega arith) small_walk ("d" ∷ "d" ∷ [])

-- "/p" is no flag and no number.
path_is_no_number : jobs_of (codes "/p") ≡ none
unfolding jobs_of positive parse_int magnitude digits_value is_digit signed
path_is_no_number = refl

path_is_no_inline : cut_prefix (codes "--jobs=") (codes "/p") ≡ none
unfolding cut_prefix
path_is_no_inline = refl

path_is_no_flag : (eq_string "/p" "--background" ≡ false) × (eq_string "/p" "--jobs" ≡ false)
unfolding eq_string
path_is_no_flag = (refl, refl)

parse_scan_flags-keeps_example : At "/p" (parse_scan_flags ("--jobs" ∷ "/p" ∷ [])).1
parse_scan_flags-keeps_example =
    parse_scan_flags-keeps "/p" path_is_no_flag.0 path_is_no_flag.1 path_is_no_inline
      path_is_no_number ("--jobs" ∷ "/p" ∷ []) (there (here refl))

workers-parse_scan_flags_example :
    IsPositive (workers (parse_scan_flags ("--jobs" ∷ "3" ∷ "/p" ∷ [])).0 8)
workers-parse_scan_flags_example =
    workers-parse_scan_flags ("--jobs" ∷ "3" ∷ "/p" ∷ []) 8 (omega arith)

three_jobs :
    parse_scan_flags ("--jobs" ∷ "3" ∷ "/p" ∷ [])
    ≡ (record { jobs = 3; background = false }, "/p" ∷ [])
unfolding parse_scan_flags jobs_of eq_string read_args read_arg read_jobs next_number positive
    parse_int signed magnitude digits_value is_digit read_inline cut_prefix
three_jobs = refl

size_bound_from_env-IsPositive_example : IsPositive (size_bound_from_env (codes "4096") 10)
size_bound_from_env-IsPositive_example =
    size_bound_from_env-IsPositive (codes "4096") 10 (omega arith, omega arith)
