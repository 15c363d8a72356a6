-- ===== src/Nixstore/PathInfo.antt =====
-- internal/nixstore/nixstore.go: `parsePathInfoCA`, on what `json.Unmarshal` makes of the response.
pub mod Named
use machokeeper.Base.{
  ℕ, String, Bool, true, false, not, ◌||◌, Option, none, some, List, [], ◌∷◌, if◌then◌else◌,
  eq_string, ◌==◌, length,
}

-- `info`. `json.Unmarshal` leaves a field empty that an entry does not have, and both if the entry is
-- `null`.
pub record Info : Type 0 where
  pub path : String
  pub ca : String

unfoldable pub has_ca : Info → Bool
has_ca info = not (eq_string info.ca "")

-- The loop over the array, `n` its length.
unfoldable pub find_in_array : String → ℕ → List Info → Option Bool
find_in_array store_path n [] = none
find_in_array store_path n (i ∷ is) =
    let rest = find_in_array store_path n is in
    if eq_string i.path store_path || n == 1 then some (has_ca i) else rest

-- The look-up in the map.
unfoldable pub lookup : String → List (String × Info) → Option Info
lookup key [] = none
lookup key ((k, i) ∷ entries) =
    let rest = lookup key entries in if eq_string k key then some i else rest

-- A map of one entry.
unfoldable pub only_entry : List (String × Info) → Option Bool
only_entry ((k, i) ∷ []) = some (has_ca i)
only_entry _ = none

unfoldable pub or_only : Option Info → List (String × Info) → Option Bool
or_only (some i) entries = some (has_ca i)
or_only none entries = only_entry entries

unfoldable pub find_in_map : String → Option (List (String × Info)) → Option Bool
find_in_map store_path none = none
find_in_map store_path (some entries) = or_only (lookup store_path entries) entries

-- `parsePathInfoCA`, on the response as an array of `info`, and as a map to `info`, where it can be
-- read so. An error is `none`.
unfoldable pub parse_path_info_ca :
    Option (List Info) → Option (List (String × Info)) → String → Option Bool
parse_path_info_ca (some arr) obj store_path = find_in_array store_path (length arr) arr
parse_path_info_ca none obj store_path = find_in_map store_path obj

-- `IsContentAddressed`, on what `nix path-info` prints, with the two readings of JSON parameters.
unfoldable pub is_content_addressed :
    (List ℕ → Option (List Info))
    → (List ℕ → Option (List (String × Info)))
    → Option (List ℕ)
    → String
    → Option Bool
is_content_addressed read_array read_map none store_path = none
is_content_addressed read_array read_map (some out) store_path =
    parse_path_info_ca (read_array out) (read_map out) store_path
