-- ===== src/Nixstore/StorePath/Below.antt =====
-- internal/nixstore/nixstore.go: which store path `StorePathOf` names.
use machokeeper.Base.{
  ℕ, ◌≡◌, refl, sym, true, Option, none, some, List, [], ◌∷◌, ◌++◌, if◌then◌else◌, codes,
  cut_prefix, text_equal, text_equal_iff, Lacks, arith, Bool-cases, inl, inr, Option-cases, OnSome,
  OnSome-if, OnSome-elim,
}
use mathlib.Core.Path.{ap₂, subst}
use machokeeper.Nixstore.StorePath.{
  clean, absolute, under_wd, is_abs, join_elements, path_text, ups, rel_elements, rel_text, rel,
  before_slash, join, named_by, is_below, store_dir_of, store_path_of,
}
use machokeeper.Nixstore.StorePath.Clean.{IsElement, AreElements, clean-AreElements, clean-append}

-- Where a path lies from a base: below it, or one has to go up first.
data Relation (base target : List (List ℕ)) : List (List ℕ) → Type 0 where
  below : {rest : List (List ℕ)} → target ≡ base ++ rest → Relation base target rest
  up : {rest : List (List ℕ)} → Relation base target (codes ".." ∷ rest)

Relation-cons :
    (b t : List ℕ) (bs ts rest : List (List ℕ))
    → b ≡ t
    → Relation bs ts rest
    → Relation (b ∷ bs) (t ∷ ts) rest
Relation-cons b t bs ts rest e (below h) =
    below (ap₂ (λ (x : List ℕ) (xs : List (List ℕ)). x ∷ xs) (sym e) h)
Relation-cons b t bs ts rest e up = up

rel_elements-Relation :
    (base target : List (List ℕ)) → Relation base target (rel_elements base target)
unfolding rel_elements ups
rel_elements-Relation [] target = below refl
rel_elements-Relation (b ∷ bs) [] = up
rel_elements-Relation (b ∷ bs) (t ∷ ts) = elim (Bool-cases (text_equal b t)) [
  | inl e ↦ rw e (
      Relation-cons b t bs ts (rel_elements bs ts) ((text_equal_iff b t).0 e)
        (rel_elements-Relation bs ts))
  | inr e ↦ rw e up
]

pub rel_elements-append : (base rest : List (List ℕ)) → rel_elements base (base ++ rest) ≡ rest
unfolding rel_elements
rel_elements-append [] rest = refl
rel_elements-append (b ∷ bs) rest = rw ((text_equal_iff b b).1 refl) (rel_elements-append bs rest)

before_slash-join :
    (e : List ℕ) (es : List (List ℕ)) → Lacks b'/' e → before_slash (join_elements (e ∷ es)) ≡ e
unfolding before_slash join_elements
before_slash-join [] [] h = refl
before_slash-join [] (f ∷ es) h = ground arith
before_slash-join (c ∷ e) [] h = ground (arith, before_slash-join e [] h.1)
before_slash-join (c ∷ e) (f ∷ es) h = ground (arith, before_slash-join e (f ∷ es) h.1)

named_by-join :
    (store_dir e : List ℕ) (es : List (List ℕ))
    → IsElement e
    → named_by store_dir (join_elements (e ∷ es)) ≡ some (path_text (clean store_dir ++ (e ∷ [])))
unfolding named_by join
named_by-join store_dir e es (lacks, named, not_dot, not_up) =
    rw
      (
        before_slash-join e es lacks,
        named,
        not_dot,
        clean-append store_dir e (lacks, named, not_dot, not_up),
      )
      refl

-- Two dots at the start of the text are two dots at the start of the first element.
cut_prefix-join :
    (e : List ℕ) (es : List (List ℕ))
    → IsElement e
    → cut_prefix (codes "..") e ≡ none
    → cut_prefix (codes "..") (join_elements (e ∷ es)) ≡ none
unfolding cut_prefix join_elements
cut_prefix-join [] es h k = absurd (ground (arith, h.1, (text_equal_iff [] []).1 refl))
cut_prefix-join e [] h k = k
cut_prefix-join (c ∷ []) (f ∷ es) h k = ground arith
cut_prefix-join (c ∷ d ∷ e) (f ∷ es) h k = ground (arith, k)

pub AreElements-behind :
    (base : List (List ℕ)) (e : List ℕ) (es : List (List ℕ))
    → AreElements (base ++ (e ∷ es))
    → IsElement e
AreElements-behind [] e es h = h.0
AreElements-behind (b ∷ bs) e es h = AreElements-behind bs e es h.1

pub absolute-AreElements :
    (wd : Option (List ℕ)) (path : List ℕ) → OnSome AreElements (absolute wd path)
unfolding absolute under_wd
absolute-AreElements none path =
    OnSome-if _ (is_abs path) _ _ (λ _. clean-AreElements path) (λ _. tt)
absolute-AreElements (some dir) path =
    OnSome-if _ (is_abs path) _ _ (λ _. clean-AreElements path)
      (λ _. clean-AreElements (dir ++ (b'/' ∷ path)))

-- A path with an element below the store's directory lies below the store path of that element's
-- name, unless the name starts with two dots.
pub store_path_of-below :
    (env : List ℕ) (wd : Option (List ℕ)) (path name : List ℕ) (rest : List (List ℕ))
    → is_abs (store_dir_of env) ≡ true
    → absolute wd path ≡ some (clean (store_dir_of env) ++ (name ∷ rest))
    → cut_prefix (codes "..") name ≡ none
    → store_path_of env wd path ≡ some (path_text (clean (store_dir_of env) ++ (name ∷ [])))
unfolding store_path_of rel rel_text is_below
store_path_of-below env wd path name rest rooted e k =
    let dir = store_dir_of env in
    let elements : AreElements (clean dir ++ (name ∷ rest)) =
      OnSome-elim AreElements (absolute wd path) _ (absolute-AreElements wd path) e in
    let element : IsElement name = AreElements-behind (clean dir) name rest elements in
    rw
      (
        e,
        rooted,
        rel_elements-append (clean dir) (name ∷ rest),
        cut_prefix-join name rest element k,
        named_by-join dir name rest element,
      )
      refl

-- The store path named is a directory entry of the store, and the path is at or below it.
abbrev pub IsAbove : List ℕ → List (List ℕ) → List ℕ → Type 0
IsAbove dir target store_path =
    (name : List ℕ) × (rest : List (List ℕ)) × (target ≡ clean dir ++ (name ∷ rest))
    × (store_path ≡ path_text (clean dir ++ (name ∷ [])))

below-IsAbove :
    (dir : List ℕ) (target rest : List (List ℕ))
    → AreElements target
    → Relation (clean dir) target rest
    → OnSome (IsAbove dir target) (
        if is_below (rel_text rest) (cut_prefix (codes "..") (rel_text rest))
        then named_by dir (rel_text rest)
        else none)
unfolding rel_text is_below named_by before_slash text_equal cut_prefix join_elements
below-IsAbove dir target [] h (below e) = tt
below-IsAbove dir target (name ∷ rest) h (below e) =
    let element : IsElement name =
      AreElements-behind (clean dir) name rest (subst AreElements e h) in
    let named = named_by-join dir name rest element in
    OnSome-if _
      (is_below (join_elements (name ∷ rest))
        (cut_prefix (codes "..") (join_elements (name ∷ rest))))
      _ _ (λ _. rw named (name, rest, e, refl)) (λ _. tt)
below-IsAbove dir target (_ ∷ []) h up = tt
below-IsAbove dir target (_ ∷ f ∷ rest) h up = tt

-- Where `StorePathOf` names a store path, the path is at or below it, and it is an entry of the
-- store's directory.
pub store_path_of-IsAbove :
    (env : List ℕ) (wd : Option (List ℕ)) (path store_path : List ℕ)
    → store_path_of env wd path ≡ some store_path
    → (target : List (List ℕ)) × (absolute wd path ≡ some target)
      × IsAbove (store_dir_of env) target store_path
unfolding store_path_of rel
store_path_of-IsAbove env wd path store_path e = elim (Option-cases (absolute wd path)) [
  | inl failed ↦ absurd (ground (arith, e, failed))
  | inr (target, found) ↦ elim (Bool-cases (is_abs (store_dir_of env))) [
    | inl rooted ↦
        let dir = store_dir_of env in
        let elements =
          OnSome-elim AreElements (absolute wd path) target (absolute-AreElements wd path) found in
        (
          target,
          found,
          OnSome-elim (IsAbove dir target) _ store_path
              (below-IsAbove dir target (rel_elements (clean dir) target) elements
                (rel_elements-Relation (clean dir) target))
              (rw (found, rooted) at e),
        )
    | inr relative ↦ absurd (ground (arith, e, found, relative))
  ]
]
