-- ===== src/Doctor/Disk/Keeps.antt =====
-- internal/doctor/doctor.go: `replaceFile`, and the files other than its own.
use machokeeper.Base.{
  ℕ, zero, suc, ◌∷◌, ◌^◌, ◌≤◌, ◌<◌, ◌≡◌, ◌≢◌, sym, ap, ◌∙◌, String, none, some, List, [], arith,
  Option-cases, inl, inr, length, take, eq_string_ne,
}
use mathlib.Core.Option.{some-ne-none}
use machokeeper.Doctor.Disk.{
  Entry, Disk, System, Calls, create_temp, write_inode, chmod_inode, rename_file, remove_temp,
  fill_temp, replace_file,
}

-- Every file is of less than 2^62 bytes.
abbrev pub IsSmall : Disk → Type 0
IsSmall d = (i : ℕ) → length (d.inodes i).bytes < 2 ^ 62

pub record Keeps (path : String) (d d' : Disk) : Type 0 where
  pub kept_inodes : (i : ℕ) → i < d.next → d'.inodes i ≡ d.inodes i
  pub kept_entries : (q : String) (e : Entry) → q ≢ path → d.names q ≡ some e → d'.names q ≡ some e
  pub grows : d.next ≤ d'.next
  pub small : IsSmall d'

length-take-le : (n : ℕ) (xs : List ℕ) → length (take n xs) ≤ length xs
length-take-le zero xs = omega arith
length-take-le (suc n) [] = omega arith
length-take-le (suc n) (x ∷ xs) = omega (arith, length-take-le n xs)

module _ (sys : System) (calls : Calls) (path : String) (bytes : List ℕ) (d : Disk)
    (short : length bytes < 2 ^ 62) (small : IsSmall d) where
  Keeps-taken :
      (e : Entry)
      → d.names calls.temp ≡ some e
      → Keeps path d (replace_file sys calls path bytes d).0
  unfolding replace_file
  Keeps-taken e taken = record {
    kept_inodes = λ i h. ground arith;
    kept_entries = λ q f n h. ground arith;
    grows = ground arith;
    small = λ i. ground (arith, small i);
  }

  Keeps-new : d.names calls.temp ≡ none → Keeps path d (replace_file sys calls path bytes d).0
  unfolding replace_file fill_temp create_temp write_inode chmod_inode rename_file remove_temp
  Keeps-new no_temp = record {
    kept_inodes = λ i h. ground arith;
    kept_entries = λ q f n h.
        let m : q ≢ calls.temp = λ p. some-ne-none f (sym h ∙ ap d.names p ∙ no_temp) in
        ground (arith, eq_string_ne q path n, eq_string_ne q calls.temp m);
    grows = ground arith;
    small = λ i. ground (arith, small i, length-take-le calls.written bytes);
  }

  pub replace_file-Keeps : Keeps path d (replace_file sys calls path bytes d).0
  replace_file-Keeps = elim (Option-cases (d.names calls.temp)) [
    | inl no_temp ↦ Keeps-new no_temp
    | inr (e, taken) ↦ Keeps-taken e taken
  ]
