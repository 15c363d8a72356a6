-- ===== src/Doctor/Flags/Workers.antt =====
-- internal/doctor/doctor.go: the number of workers that `parseScanFlags` leads to, and the size bounds.
use machokeeper.Base.{
  ℕ, ◌<◌, ◌^◌, String, Bool, true, false, Option, none, some, List, [], ◌∷◌, ◌++◌, arith, OnSome,
  codes, cut_prefix, parse_int, parse_int-bound, ℤ, pos, negsuc, pos_part,
}
use machokeeper.Doctor.Pool.{ScanConfig, workers}
use machokeeper.Doctor.Flags.{
  positive, jobs_of, set_jobs, next_number, read_jobs, read_inline, read_arg, read_args,
  parse_scan_flags, or_default, size_bound_from_env,
}

-- A positive int64.
abbrev pub IsPositive : ℕ → Type 0
IsPositive n = (0 < n) × (n < 2 ^ 63)

positive-bound :
    (o : Option ℤ) → OnSome (λ z. pos_part z < 2 ^ 63) o → OnSome IsPositive (positive o)
unfolding positive
positive-bound none h = tt
positive-bound (some (pos n)) h = ground arith
positive-bound (some (negsuc n)) h = tt

jobs_of-bound : (s : List ℕ) → OnSome IsPositive (jobs_of s)
unfolding jobs_of
jobs_of-bound s = positive-bound (parse_int s) (parse_int-bound s)

next_number-bound : (args : List String) → OnSome IsPositive (next_number args)
unfolding next_number
next_number-bound [] = tt
next_number-bound (a ∷ args) = jobs_of-bound (codes a)

set_jobs-bound :
    (o : Option ℕ) (cfg : ScanConfig)
    → OnSome IsPositive o
    → cfg.jobs < 2 ^ 63
    → (set_jobs o cfg).jobs < 2 ^ 63
unfolding set_jobs
set_jobs-bound none cfg h k = k
set_jobs-bound (some n) cfg h k = h.1

read_jobs-bound :
    (o : Option ℕ) (cfg : ScanConfig)
    → OnSome IsPositive o
    → cfg.jobs < 2 ^ 63
    → (read_jobs o cfg).config.jobs < 2 ^ 63
unfolding read_jobs
read_jobs-bound none cfg h k = k
read_jobs-bound (some n) cfg h k = h.1

read_inline-bound :
    (a : String) (o : Option (List ℕ)) (cfg : ScanConfig)
    → cfg.jobs < 2 ^ 63
    → (read_inline a o cfg).config.jobs < 2 ^ 63
unfolding read_inline
read_inline-bound a none cfg k = k
read_inline-bound a (some v) cfg k = set_jobs-bound (jobs_of v) cfg (jobs_of-bound v) k

read_arg-bound :
    (a : String) (args : List String) (cfg : ScanConfig)
    → cfg.jobs < 2 ^ 63
    → (read_arg a args cfg).config.jobs < 2 ^ 63
unfolding read_arg
read_arg-bound a args cfg k = ground (
  arith,
  read_jobs-bound (next_number args) cfg (next_number-bound args) k,
  read_inline-bound a (cut_prefix (codes "--jobs=") (codes a)) cfg k,
)

read_args-bound :
    (skip : Bool) (args : List String) (cfg : ScanConfig) (rest : List String)
    → cfg.jobs < 2 ^ 63
    → (read_args skip args cfg rest).0.jobs < 2 ^ 63
unfolding read_args
read_args-bound skip [] cfg rest k = k
read_args-bound true (a ∷ args) cfg rest k = read_args-bound false args cfg rest k
read_args-bound false (a ∷ args) cfg rest k =
    let round = read_arg a args cfg in
    read_args-bound round.skip args round.config (rest ++ round.kept) (read_arg-bound a args cfg k)

workers-IsPositive :
    (cfg : ScanConfig) (cpus : ℕ)
    → cfg.jobs < 2 ^ 63
    → cpus < 2 ^ 63
    → IsPositive (workers cfg cpus)
unfolding workers
workers-IsPositive cfg cpus h k = ground arith

-- On a machine with fewer than 2^63 processors, the number of workers that any arguments lead to is a
-- positive int64: at least 1.
pub workers-parse_scan_flags :
    (args : List String) (cpus : ℕ)
    → cpus < 2 ^ 63
    → IsPositive (workers (parse_scan_flags args).0 cpus)
unfolding parse_scan_flags
workers-parse_scan_flags args cpus h =
    workers-IsPositive _ cpus (read_args-bound false args _ [] (omega arith)) h

or_default-IsPositive :
    (o : Option ℕ) (dflt : ℕ)
    → OnSome IsPositive o
    → IsPositive dflt
    → IsPositive (or_default o dflt)
unfolding or_default
or_default-IsPositive none dflt h k = k
or_default-IsPositive (some n) dflt h k = h

-- Whatever the variable holds, a size bound is a positive int64, if the default is.
pub size_bound_from_env-IsPositive :
    (value : List ℕ) (dflt : ℕ) → IsPositive dflt → IsPositive (size_bound_from_env value dflt)
unfolding size_bound_from_env
size_bound_from_env-IsPositive [] dflt k = k
size_bound_from_env-IsPositive (c ∷ cs) dflt k =
    or_default-IsPositive (jobs_of (c ∷ cs)) dflt (jobs_of-bound (c ∷ cs)) k
