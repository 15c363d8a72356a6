-- ===== src/Nixstore/Lines.antt =====
-- internal/nixstore/nixstore.go: the lines that a query of nix-store prints: `Roots`, `Referrers` and
-- `PathInfo`; internal/hook/hook.go: `requisites`; internal/doctor/doctor.go: `storePathBlockers`.
-- A text is a list of bytes. The output of a command that fails is `none`.
pub mod RoundTrip
pub mod Blockers
use machokeeper.Base.{
  ℕ, Bool, true, false, ◌&&◌, ◌||◌, Option, none, some, List, [], ◌∷◌, ◌++◌, ◌>>=◌, if◌then◌else◌,
  ◌==◌, ltb, leb, codes, text_equal,
}

-- White space, as far as it is ASCII.
unfoldable pub is_space : ℕ → Bool
is_space c = (leb 9 c && leb c 13) || c == 32

unfoldable pub trim_left : List ℕ → List ℕ
trim_left [] = []
trim_left (c ∷ cs) = let rest = trim_left cs in if is_space c then rest else c ∷ cs

unfoldable pub trim_last : ℕ → List ℕ → List ℕ
trim_last c [] = if is_space c then [] else c ∷ []
trim_last c (d ∷ ds) = c ∷ d ∷ ds

unfoldable pub trim_right : List ℕ → List ℕ
trim_right [] = []
trim_right (c ∷ cs) = trim_last c (trim_right cs)

-- `strings.TrimSpace`
unfoldable pub trim_space : List ℕ → List ℕ
trim_space s = trim_right (trim_left s)

unfoldable pub on_first : ℕ → List (List ℕ) → List (List ℕ)
on_first c [] = (c ∷ []) ∷ []
on_first c (l ∷ ls) = (c ∷ l) ∷ ls

-- `strings.Split` at a byte.
unfoldable pub split_at : ℕ → List ℕ → List (List ℕ)
split_at sep [] = [] ∷ []
split_at sep (c ∷ cs) =
    let rest = split_at sep cs in if c == sep then [] ∷ rest else on_first c rest

-- The loop over the lines, which skips an empty one.
unfoldable pub filled : List (List ℕ) → List (List ℕ)
filled [] = []
filled ([] ∷ ls) = filled ls
filled ((c ∷ cs) ∷ ls) = (c ∷ cs) ∷ filled ls

unfoldable pub lines_of : List ℕ → List (List ℕ)
lines_of out = filled (split_at b'\n' (trim_space out))

-- `Roots`; also `requisites` of internal/hook.
unfoldable pub query_lines : Option (List ℕ) → Option (List (List ℕ))
query_lines none = none
query_lines (some out) = some (lines_of out)

-- The loop of `Referrers`, behind the test for an empty line.
unfoldable pub others : List ℕ → List (List ℕ) → List (List ℕ)
others store_path [] = []
others store_path (l ∷ ls) =
    let rest = others store_path ls in if text_equal l store_path then rest else l ∷ rest

-- `Referrers`
unfoldable pub referrers : List ℕ → Option (List ℕ) → Option (List (List ℕ))
referrers store_path none = none
referrers store_path (some out) = some (others store_path (lines_of out))

-- `storePathBlockers`
unfoldable pub store_path_blockers :
    List ℕ → Option (List ℕ) → Option (List ℕ) → Option (List (List ℕ))
store_path_blockers store_path roots_out referrers_out = do
  roots ← query_lines roots_out
  refs ← referrers store_path referrers_out
  some (roots ++ refs)

-- `PathInfo`
unfoldable pub deriver_of : List ℕ → List ℕ
deriver_of out =
    let deriver = trim_space out in
    if text_equal deriver (codes "unknown-deriver") then [] else deriver

unfoldable pub path_info : Option (List ℕ) → Option (List ℕ) → Option (List ℕ × List (List ℕ))
path_info deriver_out references_out = do
  out ← deriver_out
  references ← query_lines references_out
  some (deriver_of out, references)
