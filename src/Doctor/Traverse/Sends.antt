-- ===== src/Doctor/Traverse/Sends.antt =====
-- internal/doctor/doctor.go: the files that the traversal in `walkParallel` sends.
use machokeeper.Base.{
  sym, String, Bool, true, false, List, [], ◌∷◌, ◌++◌, ◌≡◌, refl, ◌∙◌, arith, String, some,
}
use mathlib.Core.List.{append_assoc}
use machokeeper.Doctor.Traverse.{
  Tree, leaf, directory, Forest, empty, entry, WalkCall, read_failure, walk_calls, walk_entries,
  on_entry, on_entries, Info, files_of,
}

-- The regular files among the entries, in their order.
mutual
  pub regular_files : Tree → List String
  regular_files (leaf path true) = path ∷ []
  regular_files (leaf path false) = []
  regular_files (directory path readable entries) = regular_entries entries

  pub regular_entries : Forest → List String
  regular_entries empty = []
  regular_entries (entry t ts) = regular_files t ++ regular_entries ts

on_entries-append : (cs ds : List WalkCall) → on_entries (cs ++ ds) ≡ on_entries cs ++ on_entries ds
unfolding on_entries
on_entries-append [] ds = refl
on_entries-append (c ∷ cs) ds =
    rw (on_entries-append cs ds) (sym (append_assoc (on_entry c) (on_entries cs) (on_entries ds)))

read_failure-sends :
    (path : String) (readable : Bool) → on_entries (read_failure path readable) ≡ []
unfolding read_failure on_entries on_entry
read_failure-sends path true = refl
read_failure-sends path false = refl

mutual
  unfolding walk_calls on_entries on_entry regular_files

  walk_calls-sends : (t : Tree) → on_entries (walk_calls t) ≡ regular_files t
  walk_calls-sends (leaf path true) = refl
  walk_calls-sends (leaf path false) = refl
  walk_calls-sends (directory path readable entries) =
      on_entries-append (read_failure path readable) (walk_entries entries)
      ∙ rw (read_failure-sends path readable) (walk_entries-sends entries)

  walk_entries-sends : (ts : Forest) → on_entries (walk_entries ts) ≡ regular_entries ts
  walk_entries-sends empty = refl
  walk_entries-sends (entry t ts) =
      on_entries-append (walk_calls t) (walk_entries ts)
      ∙ rw (walk_calls-sends t, walk_entries-sends ts) refl

-- The traversal of a directory sends the regular files below it, each once and in the order of the
-- walk, those of a directory whose reading fails included as far as it was read.
pub files_of-directory :
    (root path : String) (readable : Bool) (entries : Forest) (info : Info)
    → info.is_regular ≡ false
    → info.is_dir ≡ true
    → files_of root (some info) (directory path readable entries) ≡ regular_entries entries
unfolding files_of regular_files
files_of-directory root path readable entries info r d =
    ground (arith, walk_calls-sends (directory path readable entries))
