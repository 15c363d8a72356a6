-- ===== src/Nixstore/StorePath/Clean.antt =====
-- internal/nixstore/nixstore.go: the elements of clean paths.
use machokeeper.Base.{
  ℕ, ◌≡◌, refl, ap, ◌∙◌, false, ◌||◌, List, [], ◌∷◌, ◌++◌, ◌==◌, codes, text_equal, Lacks, arith,
  Bool-cases, inl, inr,
}
use machokeeper.Nixstore.Lines.{split_at, on_first}
use machokeeper.Nixstore.Lines.RoundTrip.{split_at-line}
use machokeeper.Nixstore.StorePath.{drop_last, add_element, add_elements, clean}

-- An element that `Clean` keeps as it is.
abbrev pub IsElement : List ℕ → Type 0
IsElement e =
    Lacks b'/' e
    × (text_equal e [] ≡ false)
    × (text_equal e (codes ".") ≡ false)
    × (text_equal e (codes "..") ≡ false)

abbrev pub AreElements : List (List ℕ) → Type 0
AreElements [] = Unit
AreElements (e ∷ es) = IsElement e × AreElements es

abbrev AllLackSlash : List (List ℕ) → Type 0
AllLackSlash [] = Unit
AllLackSlash (e ∷ es) = Lacks b'/' e × AllLackSlash es

on_first-Lacks :
    (c : ℕ) (es : List (List ℕ))
    → (c == b'/') ≡ false
    → AllLackSlash es
    → AllLackSlash (on_first c es)
unfolding on_first
on_first-Lacks c [] h k = ((h, tt), tt)
on_first-Lacks c (e ∷ es) h k = ((h, k.0), k.1)

split_at-Lacks : (s : List ℕ) → AllLackSlash (split_at b'/' s)
unfolding split_at
split_at-Lacks [] = (tt, tt)
split_at-Lacks (c ∷ s) = elim (Bool-cases (c == b'/')) [
  | inl e ↦ rw e (tt, split_at-Lacks s)
  | inr e ↦ rw e (on_first-Lacks c (split_at b'/' s) e (split_at-Lacks s))
]

AreElements-append :
    (es fs : List (List ℕ)) → AreElements es → AreElements fs → AreElements (es ++ fs)
AreElements-append [] fs h k = k
AreElements-append (e ∷ es) fs (he, h) k = (he, AreElements-append es fs h k)

drop_last-AreElements : (es : List (List ℕ)) → AreElements es → AreElements (drop_last es)
unfolding drop_last
drop_last-AreElements [] h = tt
drop_last-AreElements (e ∷ []) h = tt
drop_last-AreElements (e ∷ f ∷ es) (he, h) = (he, drop_last-AreElements (f ∷ es) h)

add_element-AreElements :
    (before : List (List ℕ)) (e : List ℕ)
    → Lacks b'/' e
    → AreElements before
    → AreElements (add_element before e)
unfolding add_element
add_element-AreElements before e h k =
    elim (Bool-cases (text_equal e [] || text_equal e (codes "."))) [
      | inl skipped ↦ rw skipped k
      | inr kept ↦ elim (Bool-cases (text_equal e (codes ".."))) [
        | inl up ↦ rw (kept, up) (drop_last-AreElements before k)
        | inr down ↦
            let (named, not_dot) : (text_equal e [] ≡ false) × (text_equal e (codes ".") ≡ false) =
              ground (arith, kept) in
            rw (kept, down) (AreElements-append before (e ∷ []) k ((h, named, not_dot, down), tt))
      ]
    ]

add_elements-AreElements :
    (before es : List (List ℕ))
    → AllLackSlash es
    → AreElements before
    → AreElements (add_elements before es)
unfolding add_elements
add_elements-AreElements before [] h k = k
add_elements-AreElements before (e ∷ es) (he, h) k =
    add_elements-AreElements (add_element before e) es h (add_element-AreElements before e he k)

pub clean-AreElements : (path : List ℕ) → AreElements (clean path)
unfolding clean
clean-AreElements path = add_elements-AreElements [] (split_at b'/' path) (split_at-Lacks path) tt

split_at-cons :
    (sep : ℕ) (s : List ℕ) → (e : List ℕ) × (es : List (List ℕ)) × (split_at sep s ≡ e ∷ es)
unfolding split_at on_first
split_at-cons sep [] = ([], [], refl)
split_at-cons sep (c ∷ s) = elim (Bool-cases (c == sep)) [
  | inl q ↦ ([], split_at sep s, ground (arith, q))
  | inr q ↦ let (e, es, h) = split_at-cons sep s in (c ∷ e, es, ground (arith, q, h))
]

on_first-append :
    (c : ℕ) (es fs : List (List ℕ)) (e : List ℕ) (rest : List (List ℕ))
    → es ≡ e ∷ rest
    → on_first c (es ++ fs) ≡ on_first c es ++ fs
unfolding on_first
on_first-append c [] fs e rest h = absurd (cc)
on_first-append c (f ∷ es) fs e rest h = refl

split_at-append_last :
    (s e : List ℕ) → Lacks b'/' e → split_at b'/' (s ++ (b'/' ∷ e)) ≡ split_at b'/' s ++ (e ∷ [])
unfolding split_at
split_at-append_last [] e h = ap (λ (es : List (List ℕ)). [] ∷ es) (split_at-line b'/' e h)
split_at-append_last (c ∷ s) e h =
    let (f, fs, shape) = split_at-cons b'/' s in
    let first = on_first-append c (split_at b'/' s) (e ∷ []) f fs shape in
    elim (Bool-cases (c == b'/')) [
      | inl q ↦ ground (arith, q, split_at-append_last s e h)
      | inr q ↦ ground (arith, q, first, split_at-append_last s e h)
    ]

add_elements-append :
    (before es fs : List (List ℕ))
    → add_elements before (es ++ fs) ≡ add_elements (add_elements before es) fs
unfolding add_elements
add_elements-append before [] fs = refl
add_elements-append before (e ∷ es) fs = add_elements-append (add_element before e) es fs

-- An element behind a clean path stays.
pub clean-append :
    (dir e : List ℕ) → IsElement e → clean (dir ++ (b'/' ∷ e)) ≡ clean dir ++ (e ∷ [])
unfolding clean add_elements add_element
clean-append dir e (lacks, named, not_dot, not_up) =
    ap (λ (es : List (List ℕ)). add_elements [] es) (split_at-append_last dir e lacks)
    ∙ add_elements-append [] (split_at b'/' dir) (e ∷ [])
    ∙ ground (arith, named, not_dot, not_up)
