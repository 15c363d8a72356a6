-- ===== src/Doctor/Flags.antt =====
-- internal/doctor/doctor.go: `parseScanFlags` and `sizeBoundFromEnv`.
pub mod Keeps
pub mod Workers
use machokeeper.Base.{
  ℕ, ◌*◌, ◌^◌, String, Bool, true, false, Option, none, some, List, [], ◌∷◌, ◌++◌, if◌then◌else◌,
  eq_string, ltb, codes, cut_prefix, parse_int, ℤ, pos, negsuc,
}
use machokeeper.Doctor.Pool.{ScanConfig}

-- The test behind both calls of `Atoi` and that of `ParseInt`: no error, and `n > 0`.
unfoldable pub positive : Option ℤ → Option ℕ
positive none = none
positive (some (pos n)) = if ltb 0 n then some n else none
positive (some (negsuc n)) = none

-- The number that an argument gives.
unfoldable pub jobs_of : List ℕ → Option ℕ
jobs_of s = positive (parse_int s)

unfoldable pub set_jobs : Option ℕ → ScanConfig → ScanConfig
set_jobs none cfg = cfg
set_jobs (some n) cfg = record cfg { jobs = n }

-- The argument behind `--jobs`, if it is a positive number.
unfoldable pub next_number : List String → Option ℕ
next_number [] = none
next_number (a ∷ args) = jobs_of (codes a)

-- What one round of the loop gives: whether the next argument is consumed, the configuration, and
-- what is added to `rest`.
pub record Round : Type 0 where
  pub skip : Bool
  pub config : ScanConfig
  pub kept : List String

unfoldable pub read_jobs : Option ℕ → ScanConfig → Round
read_jobs none cfg = record { skip = false; config = cfg; kept = [] }
read_jobs (some n) cfg = record { skip = true; config = record cfg { jobs = n }; kept = [] }

unfoldable pub read_inline : String → Option (List ℕ) → ScanConfig → Round
read_inline a none cfg = record { skip = false; config = cfg; kept = a ∷ [] }
read_inline a (some v) cfg = record { skip = false; config = set_jobs (jobs_of v) cfg; kept = [] }

-- The `switch`, with the arguments behind `a`.
unfoldable pub read_arg : String → List String → ScanConfig → Round
read_arg a args cfg =
    if eq_string a "--background"
    then record { skip = false; config = record cfg { background = true }; kept = [] }
    else if eq_string a "--jobs"
    then read_jobs (next_number args) cfg
    else read_inline a (cut_prefix (codes "--jobs=") (codes a)) cfg

-- The loop, with the variables `cfg` and `rest`, and whether `i` has been advanced.
unfoldable pub read_args : Bool → List String → ScanConfig → List String → ScanConfig × List String
read_args skip [] cfg rest = (cfg, rest)
read_args true (a ∷ args) cfg rest = read_args false args cfg rest
read_args false (a ∷ args) cfg rest =
    let round = read_arg a args cfg in read_args round.skip args round.config (rest ++ round.kept)

-- `parseScanFlags`
unfoldable pub parse_scan_flags : List String → ScanConfig × List String
parse_scan_flags args = read_args false args (record { jobs = 0; background = false }) []

unfoldable pub or_default : Option ℕ → ℕ → ℕ
or_default none dflt = dflt
or_default (some n) dflt = n

-- `sizeBoundFromEnv`, on the value of the variable, "" if it is not set.
unfoldable pub size_bound_from_env : List ℕ → ℕ → ℕ
size_bound_from_env [] dflt = dflt
size_bound_from_env (c ∷ cs) dflt = or_default (jobs_of (c ∷ cs)) dflt

-- `maxMachOFileSize`
unfoldable pub max_file_size : List ℕ → ℕ
max_file_size value = size_bound_from_env value (4 * 2 ^ 30)

-- `maxMachOInMemorySize`
unfoldable pub max_in_memory_size : List ℕ → ℕ
max_in_memory_size value = size_bound_from_env value (512 * 2 ^ 20)
