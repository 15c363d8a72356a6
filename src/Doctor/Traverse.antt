-- ===== src/Doctor/Traverse.antt =====
-- internal/doctor/doctor.go: the traversal in `walkParallel`, over what `os.Lstat` and
-- `filepath.WalkDir` see, and its return.
pub mod Sends
pub mod Delivers
pub mod Found
use machokeeper.Base.{
  ℕ, String, Bool, true, false, not, Option, none, some, List, [], ◌∷◌, ◌++◌, if◌then◌else◌, ◌≡◌,
}
use machokeeper.Doctor.Scan.{Finding}
use machokeeper.Doctor.Pool.{Pool, Reach, is_finished, scan_all}

-- An entry of the file system as `filepath.WalkDir` meets it: something that is no directory, regular
-- or not; or a directory, whether `ReadDir` succeeds on it, and the entries that it returns.
mutual
  pub data Tree : Type 0 where
    leaf : (path : String) (regular : Bool) → Tree
    directory : (path : String) (readable : Bool) (entries : Forest) → Tree

  pub data Forest : Type 0 where
    empty : Forest
    entry : Tree → Forest → Forest

-- A call of the function given to `WalkDir`: its path, whether its entry is a regular file, and
-- whether `err` is set.
pub record WalkCall : Type 0 where
  pub path : String
  pub regular : Bool
  pub failed : Bool

-- The second call for a directory that cannot be read.
unfoldable pub read_failure : String → Bool → List WalkCall
read_failure path true = []
read_failure path false = record { path = path; regular = false; failed = true } ∷ []

-- The calls that `WalkDir` makes for a function that returns nil.
unfoldable mutual
  pub walk_calls : Tree → List WalkCall
  walk_calls (leaf path regular) = record { path = path; regular = regular; failed = false } ∷ []
  walk_calls (directory path readable entries) =
      record { path = path; regular = false; failed = false }
      ∷ (read_failure path readable ++ walk_entries entries)

  pub walk_entries : Forest → List WalkCall
  walk_entries empty = []
  walk_entries (entry t ts) = walk_calls t ++ walk_entries ts

-- The function given to `WalkDir`: what it sends.
unfoldable pub on_entry : WalkCall → List String
on_entry call = if call.failed then [] else if call.regular then call.path ∷ [] else []

unfoldable pub on_entries : List WalkCall → List String
on_entries [] = []
on_entries (call ∷ calls) = on_entry call ++ on_entries calls

-- What `os.Lstat` returns.
pub record Info : Type 0 where
  pub is_regular : Bool
  pub is_dir : Bool

-- The files that the goroutine of the traversal sends.
unfoldable pub files_of : String → Option Info → Tree → List String
files_of root none tree = []
files_of root (some info) tree =
    if info.is_regular
    then root ∷ []
    else if not info.is_dir
    then []
    else on_entries (walk_calls tree)

-- What `walkParallel` returns and delivers, as a relation: an error of `os.Lstat`, or the findings
-- visited when the loop over `results` ends, after some interleaving of `n` workers.
pub data Walked (scan : String → Option Finding) (n : ℕ) (root : String) (tree : Tree)
    : Option Info → Option (List Finding) → Type 0 where
  lstat_failed :
      {k : ℕ} {s : Pool}
      → Reach scan n (files_of root none tree) k s
      → is_finished s ≡ true
      → Walked scan n root tree none none
  walked :
      {info : Info} {k : ℕ} {s : Pool}
      → Reach scan n (files_of root (some info) tree) k s
      → is_finished s ≡ true
      → Walked scan n root tree (some info) (some s.visited)

-- The same walk with one scan after the other.
unfoldable pub scan_walk :
    (String → Option Finding) → String → Tree → Option Info → Option (List Finding)
scan_walk scan root tree none = none
scan_walk scan root tree (some info) = some (scan_all scan (files_of root (some info) tree))
