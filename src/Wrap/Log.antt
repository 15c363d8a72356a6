-- ===== src/Wrap/Log.antt =====
-- internal/wrap/wrap.go: `willSubstitute`, `parseSubstitutePaths`, `cleanPath` and `dedupe`, on texts
-- that are lists of bytes.
pub mod Trims
pub mod Paths
pub mod Extracted
use machokeeper.Base.{
  ℕ, String, Bool, true, false, not, ◌&&◌, ◌||◌, Option, none, some, List, [], ◌∷◌, ◌++◌,
  if◌then◌else◌, eq_string, text_equal, cut_prefix, codes, ℤ, pos, negsuc, ◌==◌, ◌>>=◌,
}
use machokeeper.Nixstore.Lines.{trim_space, split_at}
use machokeeper.Nixstore.StorePath.{before_slash}

-- `nixLogEvent`. Each of the fields is `none` where it is no string.
pub record LogEvent : Type 0 where
  pub action : String
  pub kind : ℤ
  pub msg : List ℕ
  pub fields : List (Option (List ℕ))

abbrev pub store_prefix : List ℕ
store_prefix = codes "/nix/store/"

-- `strings.TrimSuffix`
unfoldable pub trim_suffix : List ℕ → List ℕ → List ℕ
trim_suffix suffix [] = []
trim_suffix suffix (c ∷ cs) =
    let rest = trim_suffix suffix cs in if text_equal (c ∷ cs) suffix then [] else c ∷ rest

-- `cleanPath`, on what follows the prefix.
unfoldable pub clean_rest : List ℕ → List ℕ
clean_rest rest = store_prefix ++ trim_suffix (codes ".narinfo") (before_slash rest)

-- `strings.HasPrefix`
unfoldable pub is_cut : Option (List ℕ) → Bool
is_cut none = false
is_cut (some rest) = true

-- `strings.Contains`
unfoldable pub contains : List ℕ → List ℕ → Bool
contains [] part = is_cut (cut_prefix part [])
contains (c ∷ cs) part =
    let later = contains cs part in if is_cut (cut_prefix part (c ∷ cs)) then true else later

unfoldable pub drop_byte : ℕ → ℕ → List ℕ → List ℕ
drop_byte b c [] = if c == b then [] else c ∷ []
drop_byte b c (d ∷ ds) = c ∷ d ∷ ds

-- `strings.TrimRight` of one byte.
unfoldable pub trim_byte : ℕ → List ℕ → List ℕ
trim_byte b [] = []
trim_byte b (c ∷ cs) = drop_byte b c (trim_byte b cs)

-- The variables of `parseSubstitutePaths`.
pub record LogState : Type 0 where
  pub subs : List (List ℕ)
  pub in_fetch_list : Bool

unfoldable pub add_path : List ℕ → LogState → LogState
add_path rest st = record st { subs = st.subs ++ (clean_rest rest ∷ []) }

-- The case "msg" behind the test for the list's heading, with the message trimmed, and what follows
-- the prefix of the store in it.
unfoldable pub read_listed : List ℕ → Option (List ℕ) → LogState → LogState
read_listed trimmed (some rest) st = if st.in_fetch_list then add_path rest st else st
read_listed trimmed none st =
    if not (text_equal trimmed []) then record st { in_fetch_list = false } else st

unfoldable pub read_msg : List ℕ → LogState → LogState
read_msg msg st =
    if contains (trim_byte b':' msg) (codes "will be fetched")
    then record st { in_fetch_list = true }
    else let trimmed = trim_space msg in read_listed trimmed (cut_prefix store_prefix trimmed) st

-- `actCopyPath` and `actSubstitute`
unfoldable pub is_transfer : ℤ → Bool
is_transfer (pos n) = n == 100 || n == 109
is_transfer (negsuc n) = false

unfoldable pub add_cut : Option (List ℕ) → LogState → LogState
add_cut none st = st
add_cut (some rest) st = add_path rest st

unfoldable pub read_first : List (Option (List ℕ)) → LogState → LogState
read_first [] st = st
read_first (none ∷ fields) st = st
read_first (some p ∷ fields) st = add_cut (cut_prefix store_prefix p) st

-- The case "start".
unfoldable pub read_start : LogEvent → LogState → LogState
read_start ev st = if is_transfer ev.kind then read_first ev.fields st else st

-- The `switch`.
unfoldable pub read_event : LogEvent → LogState → LogState
read_event ev st =
    if eq_string ev.action "msg"
    then read_msg ev.msg st
    else if eq_string ev.action "start"
    then read_start ev st
    else st

-- The look-up in the map of `dedupe`.
unfoldable pub known : List (List ℕ) → List ℕ → Bool
known [] s = false
known (t ∷ ts) s = if text_equal t s then true else known ts s

-- Its loop, with the strings seen so far.
unfoldable pub dedupe_from : List (List ℕ) → List (List ℕ) → List (List ℕ)
dedupe_from seen [] = []
dedupe_from seen (s ∷ ss) =
    let rest = dedupe_from (s ∷ seen) ss in
    let skip = dedupe_from seen ss in if known seen s then skip else s ∷ rest

-- `dedupe`
unfoldable pub dedupe : List (List ℕ) → List (List ℕ)
dedupe ss = dedupe_from [] ss

module _ (unmarshal : List ℕ → Option LogEvent) where
  -- A line of the log, as an event.
  unfoldable pub event_of : List ℕ → Option LogEvent
  event_of line = do raw ← cut_prefix (codes "@nix ") line; unmarshal raw

  unfoldable pub read_line : Option LogEvent → LogState → LogState
  read_line none st = st
  read_line (some ev) st = read_event ev st

  -- The loop over the lines.
  unfoldable pub read_lines : List (List ℕ) → LogState → LogState
  read_lines [] st = st
  read_lines (line ∷ lines) st = read_lines lines (read_line (event_of line) st)

  -- `parseSubstitutePaths`, with the reading of JSON a parameter.
  unfoldable pub parse_substitute_paths : List ℕ → List (List ℕ)
  parse_substitute_paths log =
      dedupe (read_lines (split_at b'\n' log) (record { subs = []; in_fetch_list = false })).subs

  -- `willSubstitute`, with what the dry run prints a parameter.
  unfoldable pub will_substitute : (List String → List ℕ) → List String → List (List ℕ)
  will_substitute output argv =
      parse_substitute_paths
        (output (argv ++ ("--dry-run" ∷ "--log-format" ∷ "internal-json" ∷ [])))
