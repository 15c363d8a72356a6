-- ===== src/Nixstore/PathInfo/Named.antt =====
-- internal/nixstore/nixstore.go: which entry of the response answers `parsePathInfoCA`.
use machokeeper.Base.{
  ap, sym, not, ℕ, ◌≡◌, ◌≢◌, ◌∙◌, ◌⊎◌, inl, inr, refl, String, Bool, Option, none, some, List, [],
  ◌∷◌, arith, At, here, there, length, eq_string, eq_string_iff, OnSome, OnSome-if, OnSome-map,
  OnSome-elim, ◌==◌, ◌||◌,
}
use mathlib.Core.Path.{subst}
use machokeeper.Nixstore.PathInfo.{
  Info, has_ca, find_in_array, lookup, only_entry, or_only, find_in_map, parse_path_info_ca,
}

-- The entry of the response that names the store path, or else its only entry.
pub data Names (store_path : String) (i : Info)
    : Option (List Info) → Option (List (String × Info)) → Type 0 where
  in_array :
      {arr : List Info} {obj : Option (List (String × Info))}
      → At i arr
      → (i.path ≡ store_path) ⊎ (length arr ≡ 1)
      → Names store_path i (some arr) obj
  in_map :
      {entries : List (String × Info)} {key : String}
      → At (key, i) entries
      → (key ≡ store_path) ⊎ (length entries ≡ 1)
      → Names store_path i none (some entries)

abbrev Answers : String → Option (List Info) → Option (List (String × Info)) → Bool → Type 0
Answers store_path arr obj ca = (i : Info) × Names store_path i arr obj × (has_ca i ≡ ca)

abbrev InList : String → ℕ → List Info → Bool → Type 0
InList store_path n arr ca =
    (i : Info) × At i arr × ((i.path ≡ store_path) ⊎ (n ≡ 1)) × (has_ca i ≡ ca)

find_in_array-InList :
    (store_path : String) (n : ℕ) (arr : List Info)
    → OnSome (InList store_path n arr) (find_in_array store_path n arr)
unfolding find_in_array
find_in_array-InList store_path n [] = tt
find_in_array-InList store_path n (i ∷ is) =
    OnSome-if _ (eq_string i.path store_path || n == 1) _ _
      (λ h.
        let why : (i.path ≡ store_path) ⊎ (n ≡ 1) =
          ground (arith, h, eq_string_iff i.path store_path) in
        (i, here refl, why, refl))
      (λ _.
        OnSome-map _ _ (find_in_array store_path n is) (λ _ (k, a, why, e). (k, there a, why, e))
          (find_in_array-InList store_path n is))

lookup-At :
    (key : String) (entries : List (String × Info))
    → OnSome (λ i. At (key, i) entries) (lookup key entries)
unfolding lookup
lookup-At key [] = tt
lookup-At key ((k, i) ∷ entries) =
    OnSome-if _ (eq_string k key) _ _
      (λ h. here (ap (λ (s : String). (s, i)) (sym ((eq_string_iff k key).0 h))))
      (λ _. OnSome-map _ _ (lookup key entries) (λ _ a. there a) (lookup-At key entries))

only_entry-Answers :
    (store_path : String) (entries : List (String × Info))
    → OnSome (Answers store_path none (some entries)) (only_entry entries)
unfolding only_entry
only_entry-Answers store_path [] = tt
only_entry-Answers store_path ((k, i) ∷ []) = (i, in_map (here refl) (inr refl), refl)
only_entry-Answers store_path (a ∷ b ∷ entries) = tt

or_only-Answers :
    (store_path : String) (o : Option Info) (entries : List (String × Info))
    → OnSome (λ i. At (store_path, i) entries) o
    → OnSome (Answers store_path none (some entries)) (or_only o entries)
unfolding or_only
or_only-Answers store_path none entries h = only_entry-Answers store_path entries
or_only-Answers store_path (some i) entries h = (i, in_map h (inl refl), refl)

answer-Answers :
    (arr : Option (List Info)) (obj : Option (List (String × Info))) (store_path : String)
    → OnSome (Answers store_path arr obj) (parse_path_info_ca arr obj store_path)
unfolding parse_path_info_ca find_in_map
answer-Answers (some arr) obj store_path =
    OnSome-map _ _ (find_in_array store_path (length arr) arr)
      (λ _ (i, a, why, e). (i, in_array a why, e))
      (find_in_array-InList store_path (length arr) arr)
answer-Answers none none store_path = tt
answer-Answers none (some entries) store_path =
    or_only-Answers store_path (lookup store_path entries) entries (lookup-At store_path entries)

-- Where there is no answer, no entry resolves.
find_in_array-unnamed :
    (store_path : String) (n : ℕ) (arr : List Info) (i : Info)
    → At i arr
    → (i.path ≡ store_path) ⊎ (n ≡ 1)
    → find_in_array store_path n arr ≢ none
unfolding find_in_array
find_in_array-unnamed store_path n [] i a why e = elim a [ ]
find_in_array-unnamed store_path n (j ∷ js) i (here s) why e =
    let why' : (j.path ≡ store_path) ⊎ (n ≡ 1) =
      subst (λ (k : Info). (k.path ≡ store_path) ⊎ (n ≡ 1)) s why in
    ground (arith, why', eq_string_iff j.path store_path)
find_in_array-unnamed store_path n (j ∷ js) i (there a) why e =
    find_in_array-unnamed store_path n js i a why (ground arith)

lookup-unnamed :
    (key k : String) (entries : List (String × Info)) (i : Info)
    → At (k, i) entries
    → k ≡ key
    → lookup key entries ≢ none
unfolding lookup
lookup-unnamed key k [] i a s e = elim a [ ]
lookup-unnamed key k ((l, j) ∷ entries) i (here q) s e =
    let named : l ≡ key = sym (ap (λ (p : String × Info). p.0) q) ∙ s in
    ground (arith, (eq_string_iff l key).1 named)
lookup-unnamed key k ((l, j) ∷ entries) i (there a) s e =
    lookup-unnamed key k entries i a s (ground arith)

only_entry-none : (entries : List (String × Info)) → only_entry entries ≡ none → length entries ≢ 1
unfolding only_entry
only_entry-none [] e n = omega (arith, n)
only_entry-none ((k, i) ∷ []) e n = ground arith
only_entry-none (a ∷ b ∷ entries) e n = omega (arith, n)

or_only-none :
    (o : Option Info) (entries : List (String × Info))
    → or_only o entries ≡ none
    → (o ≡ none) × (only_entry entries ≡ none)
unfolding or_only
or_only-none none entries e = (refl, e)
or_only-none (some i) entries e = absurd (ground arith)

none-unnamed :
    (arr : Option (List Info)) (obj : Option (List (String × Info))) (store_path : String)
    → parse_path_info_ca arr obj store_path ≡ none
    → (i : Info) → ¬ Names store_path i arr obj
unfolding parse_path_info_ca find_in_map
none-unnamed (some arr) obj store_path e i (in_array a why) =
    find_in_array-unnamed store_path (length arr) arr i a why e
none-unnamed none none store_path e i names = elim names [ ]
none-unnamed none (some entries) store_path e i (in_map a why) =
    let (unnamed, several) = or_only-none (lookup store_path entries) entries e in
    elim why [
      | inl s ↦ lookup-unnamed store_path _ entries i a s unnamed
      | inr n ↦ only_entry-none entries several n
    ]

-- `parsePathInfoCA` gives an error exactly if no entry of the response has the store path as its
-- name, and the response has not just one entry. Else it answers by an entry that has that name or is
-- the only one: whether its `ca`, as read, is not empty.
pub parse_path_info_ca-Names :
    (arr : Option (List Info)) (obj : Option (List (String × Info))) (store_path : String)
    → ((ca : Bool)
        → parse_path_info_ca arr obj store_path ≡ some ca
        → (i : Info) × Names store_path i arr obj × (not (eq_string i.ca "") ≡ ca))
      × (parse_path_info_ca arr obj store_path ≡ none → (i : Info) → ¬ Names store_path i arr obj)
unfolding has_ca
parse_path_info_ca-Names arr obj store_path = (
  λ ca.
      OnSome-elim (Answers store_path arr obj) (parse_path_info_ca arr obj store_path) ca
        (answer-Answers arr obj store_path),
  none-unnamed arr obj store_path,
)
