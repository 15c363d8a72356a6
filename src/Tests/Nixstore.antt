-- ===== src/Tests/Nixstore.antt =====
-- The theorems on internal/nixstore, and on its use in internal/doctor/doctor.go, at concrete inputs.
use machokeeper.Base.{
  ℕ, ◌≡◌, ◌≢◌, ◌↔◌, ◌⊎◌, refl, Bool, true, false, not, none, some, List, [], ◌∷◌, ◌++◌, arith,
  length, codes, At, Returns, eq_string, text_equal, cut_prefix,
}
use machokeeper.Nixstore.Base32.{nix_base32, characters, character, or_next, base32_length}
use machokeeper.Nixstore.Base32.Value.{le_value, spelled, nix_base32-le_value}
use machokeeper.Nixstore.Lines.{store_path_blockers, is_space, split_at, on_first}
use machokeeper.Nixstore.Lines.RoundTrip.{unlines, IsLine}
use machokeeper.Nixstore.Lines.Blockers.{store_path_blockers-At}
use machokeeper.Nixstore.PathInfo.{
  Info, parse_path_info_ca, find_in_array, has_ca, find_in_map, lookup, or_only, only_entry,
}
use machokeeper.Nixstore.PathInfo.Named.{Names, parse_path_info_ca-Names}
use machokeeper.Nixstore.Registration.{registration_lines}
use machokeeper.Nixstore.Registration.RoundTrip.{
  Registration, read_registration, read_registration-registration_lines,
}
use machokeeper.Nixstore.Reconcile.{reconcile_hash}
use machokeeper.Nixstore.Reconcile.Registered.{IsRegistered, reconcile_hash-IsRegistered}
use machokeeper.Nixstore.StorePath.{
  rel, is_below, rel_text, rel_elements, add_elements, add_element, drop_last, join_elements,
  named_by, before_slash, join, clean, absolute, path_text, store_path_of, store_dir_of, is_abs,
}
use machokeeper.Nixstore.StorePath.Below.{store_path_of-below, store_path_of-IsAbove, IsAbove}

-- Three bytes make five characters.
three_bytes : nix_base32 (1 ∷ 2 ∷ 255 ∷ []) ≡ some (codes "gy0h1")
unfolding nix_base32 characters base32_length character or_next
three_bytes = refl

-- The digest of the Go test.
abbrev digest : List ℕ
digest =
    0xc8 ∷ 0xa6 ∷ 0x06 ∷ 0x69 ∷ 0xe0 ∷ 0xbd ∷ 0x09 ∷ 0x09 ∷ 0xda ∷ 0xab ∷ 0x83 ∷ 0xe9 ∷ 0xe7 ∷ 0xa8
    ∷ 0x94 ∷ 0x1c ∷ 0x22 ∷ 0xa3 ∷ 0xe7 ∷ 0xbd ∷ 0xe7 ∷ 0xc8 ∷ 0x58 ∷ 0x96 ∷ 0xd0 ∷ 0x81 ∷ 0xff
    ∷ 0x21 ∷ 0x52 ∷ 0x69 ∷ 0x61 ∷ 0x04 ∷ []

pinned : nix_base32 digest ≡ some (codes "0131d5923zw1s2b5ij77ppks68hwjjlfgsc3mgd0j2dxw1lhd9n8")
unfolding nix_base32 characters base32_length character or_next
pinned = refl

nix_base32-le_value_example :
    Returns
      (λ s.
        (length s ≡ base32_length (1 ∷ 2 ∷ 255 ∷ [])) × (spelled s 0 ≡ le_value (1 ∷ 2 ∷ 255 ∷ [])))
      (nix_base32 (1 ∷ 2 ∷ 255 ∷ []))
nix_base32-le_value_example =
    nix_base32-le_value (1 ∷ 2 ∷ 255 ∷ []) (omega arith, (omega arith, (omega arith, tt)))
      (omega arith)

abbrev a_path : List ℕ
a_path = codes "/nix/store/a"

abbrev b_path : List ℕ
b_path = codes "/nix/store/b"

a_path-IsLine : IsLine a_path
unfolding is_space
a_path-IsLine = ground arith

b_path-IsLine : IsLine b_path
unfolding is_space
b_path-IsLine = ground arith

root-IsLine : IsLine (codes "/root")
unfolding is_space
root-IsLine = ground arith

store_path_blockers-At_example :
    Returns
      (λ blockers.
        (p : List ℕ)
        → At p blockers
          ↔ (At p (codes "/root" ∷ []) ⊎ (At p (a_path ∷ b_path ∷ []) × (p ≢ a_path))))
      (store_path_blockers a_path
        (some (unlines (codes "/root" ∷ [])))
        (some (unlines (a_path ∷ b_path ∷ []))))
store_path_blockers-At_example =
    store_path_blockers-At a_path (codes "/root" ∷ []) (a_path ∷ b_path ∷ []) (root-IsLine, tt)
      (a_path-IsLine, (b_path-IsLine, tt))

abbrev fixed_output : Info
fixed_output = record { path = "/nix/store/f"; ca = "fixed:sha256:0" }

fixed_is_ca : parse_path_info_ca (some (fixed_output ∷ [])) none "/nix/store/f" ≡ some true
unfolding parse_path_info_ca find_in_array eq_string has_ca
fixed_is_ca = refl

parse_path_info_ca-Names_example :
    ((ca : Bool)
      → parse_path_info_ca (some (fixed_output ∷ [])) none "/nix/store/f" ≡ some ca
      → (i : Info) × Names "/nix/store/f" i (some (fixed_output ∷ [])) none
        × (not (eq_string i.ca "") ≡ ca))
    × (parse_path_info_ca (some (fixed_output ∷ [])) none "/nix/store/f" ≡ none
        → (i : Info) → ¬ Names "/nix/store/f" i (some (fixed_output ∷ [])) none)
parse_path_info_ca-Names_example =
    parse_path_info_ca-Names (some (fixed_output ∷ [])) none "/nix/store/f"

-- A response that maps the path to `null` is answered by false.
null_is_not_ca :
    parse_path_info_ca none
      (some (("/nix/store/f", record { path = ""; ca = "" }) ∷ []))
      "/nix/store/f"
    ≡ some false
unfolding parse_path_info_ca find_in_map lookup or_only only_entry eq_string has_ca
null_is_not_ca = refl

abbrev toy_registration : Registration
toy_registration = record {
  store_path = a_path;
  nar_hash = codes "sha256:0";
  nar_size = 120;
  deriver = [];
  references = a_path ∷ b_path ∷ [];
}

read_registration-registration_lines_example :
    read_registration (registration_lines a_path [] (codes "sha256:0") 120 (a_path ∷ b_path ∷ []))
    ≡ some toy_registration
read_registration-registration_lines_example =
    read_registration-registration_lines a_path [] (codes "sha256:0") 120 (a_path ∷ b_path ∷ [])
      a_path-IsLine.0 tt (ground arith) (a_path-IsLine.0, (b_path-IsLine.0, tt))

abbrev toy_sha256 : List ℕ → List ℕ
toy_sha256 nar = 7 ∷ 8 ∷ []

reconcile_hash-IsRegistered_example :
    Returns (IsRegistered toy_sha256 a_path (1 ∷ 2 ∷ []) b_path (a_path ∷ [])) (
      reconcile_hash toy_sha256 a_path
        (some (1 ∷ 2 ∷ []))
        (some (unlines (b_path ∷ [])))
        (some (unlines (a_path ∷ []))))
unfolding text_equal
reconcile_hash-IsRegistered_example =
    reconcile_hash-IsRegistered toy_sha256 a_path (1 ∷ 2 ∷ []) b_path (a_path ∷ [])
      (omega arith, (omega arith, tt)) (omega arith) a_path-IsLine.0 b_path-IsLine refl
      (a_path-IsLine, tt)

-- A path with dots, below the store's directory.
abbrev dotted : List ℕ
dotted = codes "/nix/../nix/store/a/./bin/x"

dotted_elements :
    absolute none dotted
    ≡ some (clean (store_dir_of []) ++ (codes "a" ∷ codes "bin" ∷ codes "x" ∷ []))
unfolding absolute is_abs clean add_elements split_at store_dir_of on_first add_element text_equal
    drop_last
dotted_elements = refl

store_path_of-below_example :
    store_path_of [] none dotted ≡ some (path_text (clean (store_dir_of []) ++ (codes "a" ∷ [])))
unfolding is_abs store_dir_of cut_prefix
store_path_of-below_example =
    store_path_of-below [] none dotted (codes "a") (codes "bin" ∷ codes "x" ∷ []) refl
      dotted_elements refl

dotted_store_path : store_path_of [] none dotted ≡ some a_path
unfolding store_path_of absolute is_abs rel store_dir_of is_below cut_prefix rel_text rel_elements
    clean add_elements split_at on_first add_element text_equal drop_last join_elements named_by
    before_slash join path_text
dotted_store_path = refl

store_path_of-IsAbove_example :
    (target : List (List ℕ)) × (absolute none dotted ≡ some target)
    × IsAbove (store_dir_of []) target a_path
store_path_of-IsAbove_example = store_path_of-IsAbove [] none dotted a_path dotted_store_path
