-- ===== src/Doctor/Disk/Replace.antt =====
-- internal/doctor/doctor.go: `replaceFile` on a regular file.
use machokeeper.Base.{
  Option-cases, inl, inr, sym, ap, ◌∙◌, ℕ, ◌≤◌, ◌<◌, ◌≡◌, ◌≢◌, String, false, Option, none, some,
  List, arith, eq_string_refl, eq_string_ne,
}
use mathlib.Core.Option.{some-ne-none}
use machokeeper.Doctor.Disk.{
  Entry, regular, Disk, System, Calls, Failure, create_temp, write_inode, chmod_inode, rename_file,
  remove_temp, fill_temp, replace_file,
}

-- The state after a replacement: `old` is the inode of the file before.
pub record IsReplaced (calls : Calls) (path : String) (bytes : List ℕ) (old : ℕ) (d d' : Disk)
    (failed : Option Failure) : Type 0 where
  pub kept_inodes : (i : ℕ) → i < d.next → d'.inodes i ≡ d.inodes i
  pub kept_names : (q : String) → q ≢ path → q ≢ calls.temp → d'.names q ≡ d.names q
  pub unchanged : failed ≢ none → d'.names path ≡ d.names path
  pub fresh : failed ≡ none → d'.names path ≡ some (regular d.next)
  pub used : failed ≡ none → d.next < d'.next
  pub content :
      failed ≡ none → d'.inodes d.next ≡ record { bytes = bytes; mode = (d.inodes old).mode }
  pub no_leftover : calls.remove_fails ≡ false → d'.names calls.temp ≡ d.names calls.temp
  pub grows : d.next ≤ d'.next

module _ (sys : System) (calls : Calls) (path : String) (bytes : List ℕ) (old : ℕ) (d : Disk)
    (there : d.names path ≡ some (regular old)) (used : old < d.next) where
  abbrev Replaced : Type 0
  Replaced =
      IsReplaced calls path bytes old d (replace_file sys calls path bytes d).0
        (replace_file sys calls path bytes d).1

  -- There is no name for a temporary file.
  replaced_taken : (e : Entry) → d.names calls.temp ≡ some e → Replaced
  unfolding replace_file
  replaced_taken e taken = record {
    kept_inodes = λ i h. ground (arith, sys.follow-regular d path old there);
    kept_names = λ q n m. ground (arith, sys.follow-regular d path old there);
    unchanged = λ f. ground (arith, sys.follow-regular d path old there);
    fresh = λ f. ground (arith, sys.follow-regular d path old there);
    used = λ f. ground (arith, sys.follow-regular d path old there);
    content = λ f. ground (arith, sys.follow-regular d path old there);
    no_leftover = λ f. ground (arith, sys.follow-regular d path old there);
    grows = ground (arith, sys.follow-regular d path old there);
  }

  replaced_new : d.names calls.temp ≡ none → path ≢ calls.temp → Replaced
  unfolding replace_file fill_temp create_temp write_inode chmod_inode rename_file remove_temp
  replaced_new no_temp differ = record {
    kept_inodes = λ i h. ground (arith, sys.follow-regular d path old there);
    kept_names = λ q n m. ground (
      arith,
      sys.follow-regular d path old there,
      eq_string_ne q path n,
      eq_string_ne q calls.temp m,
    );
    unchanged = λ e.
        ground (arith, sys.follow-regular d path old there, eq_string_ne path calls.temp differ);
    fresh = λ e. ground (
      arith,
      sys.follow-regular d path old there,
      eq_string_refl path,
      eq_string_refl calls.temp,
      eq_string_ne path calls.temp differ,
      eq_string_ne calls.temp path,
    );
    used = λ e. ground (arith, sys.follow-regular d path old there);
    content = λ e. ground (arith, sys.follow-regular d path old there);
    no_leftover = λ e.
        ground (arith, sys.follow-regular d path old there, no_temp, eq_string_refl calls.temp);
    grows = ground (arith, sys.follow-regular d path old there);
  }

  -- On a regular file, whatever call fails, `replaceFile` writes to no inode that was there and changes
  -- no name but the file's and the temporary file's. If it reports an error, the file's name leads to
  -- the inode of before; else to a new one with the given bytes and the old mode. The temporary file
  -- is gone unless `os.Remove` fails.
  pub replace_file-IsReplaced : Replaced
  replace_file-IsReplaced = elim (Option-cases (d.names calls.temp)) [
    | inl none_there ↦
        replaced_new none_there λ p. absurd (some-ne-none _ (sym there ∙ ap d.names p ∙ none_there))
    | inr (e, taken) ↦ replaced_taken e taken
  ]
