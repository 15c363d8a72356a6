-- ===== src/Nixstore/StorePath.antt =====
-- internal/nixstore/nixstore.go: `StorePathOf`, with what `path/filepath` does on Unix to absolute
-- paths. A path is a list of bytes; a clean absolute path is the list of its elements.
pub mod Clean
pub mod Below
pub mod Idempotent
use machokeeper.Base.{
  ℕ, Bool, true, false, ◌||◌, not, Option, none, some, List, [], ◌∷◌, ◌++◌, ◌>>=◌, if◌then◌else◌,
  ◌==◌, codes, cut_prefix, text_equal,
}
use machokeeper.Nixstore.Lines.{split_at}

unfoldable pub drop_last : List (List ℕ) → List (List ℕ)
drop_last [] = []
drop_last (e ∷ []) = []
drop_last (e ∷ f ∷ es) = e ∷ drop_last (f ∷ es)

-- An element of a path, behind the clean ones before it.
unfoldable pub add_element : List (List ℕ) → List ℕ → List (List ℕ)
add_element before e =
    if text_equal e [] || text_equal e (codes ".")
    then before
    else if text_equal e (codes "..")
    then drop_last before
    else before ++ (e ∷ [])

unfoldable pub add_elements : List (List ℕ) → List (List ℕ) → List (List ℕ)
add_elements before [] = before
add_elements before (e ∷ es) = add_elements (add_element before e) es

-- `filepath.Clean` on an absolute path.
unfoldable pub clean : List ℕ → List (List ℕ)
clean path = add_elements [] (split_at b'/' path)

unfoldable pub is_abs : List ℕ → Bool
is_abs [] = false
is_abs (c ∷ cs) = c == b'/'

unfoldable pub under_wd : List ℕ → Option (List ℕ) → Option (List (List ℕ))
under_wd path none = none
under_wd path (some wd) = some (clean (wd ++ (b'/' ∷ path)))

-- `filepath.Abs`, with the working directory, if the system tells it.
unfoldable pub absolute : Option (List ℕ) → List ℕ → Option (List (List ℕ))
absolute wd path = if is_abs path then some (clean path) else under_wd path wd

-- The elements joined by slashes.
unfoldable pub join_elements : List (List ℕ) → List ℕ
join_elements [] = []
join_elements (e ∷ []) = e
join_elements (e ∷ f ∷ es) = e ++ (b'/' ∷ join_elements (f ∷ es))

-- The text of a clean absolute path.
unfoldable pub path_text : List (List ℕ) → List ℕ
path_text es = b'/' ∷ join_elements es

-- The steps up from a base to the root.
unfoldable pub ups : List (List ℕ) → List (List ℕ) → List (List ℕ)
ups [] target = target
ups (e ∷ es) target = codes ".." ∷ ups es target

unfoldable pub rel_elements : List (List ℕ) → List (List ℕ) → List (List ℕ)
rel_elements [] target = target
rel_elements (b ∷ bs) [] = ups (b ∷ bs) []
rel_elements (b ∷ bs) (t ∷ ts) =
    let rest = rel_elements bs ts in if text_equal b t then rest else ups (b ∷ bs) (t ∷ ts)

unfoldable pub rel_text : List (List ℕ) → List ℕ
rel_text [] = codes "."
rel_text (e ∷ es) = join_elements (e ∷ es)

-- `filepath.Rel` to an absolute path: an error if the base is not absolute.
unfoldable pub rel : List ℕ → List (List ℕ) → Option (List ℕ)
rel base target = if is_abs base then some (rel_text (rel_elements (clean base) target)) else none

-- The bytes before the first slash.
unfoldable pub before_slash : List ℕ → List ℕ
before_slash [] = []
before_slash (c ∷ cs) = let rest = before_slash cs in if c == b'/' then [] else c ∷ rest

-- `filepath.Join` of an absolute path and an element.
unfoldable pub join : List ℕ → List ℕ → List ℕ
join dir first = path_text (clean (dir ++ (b'/' ∷ first)))

-- `StorePathOf` behind the call of `Rel`.
unfoldable pub named_by : List ℕ → List ℕ → Option (List ℕ)
named_by store_dir rel_path =
    let first = before_slash rel_path in
    if text_equal first [] || text_equal first (codes ".")
    then none
    else some (join store_dir first)

unfoldable pub is_below : List ℕ → Option (List ℕ) → Bool
is_below path none = true
is_below path (some rest) = false

-- `StorePathOf`, with the value of NIX_STORE_DIR, "" if it is not set.
unfoldable pub store_dir_of : List ℕ → List ℕ
store_dir_of [] = codes "/nix/store"
store_dir_of (c ∷ cs) = c ∷ cs

unfoldable pub store_path_of : List ℕ → Option (List ℕ) → List ℕ → Option (List ℕ)
store_path_of env wd path = do
  let store_dir = store_dir_of env
  target ← absolute wd path
  rel_path ← rel store_dir target
  if is_below rel_path (cut_prefix (codes "..") rel_path) then named_by store_dir rel_path else none
