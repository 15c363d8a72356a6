-- ===== src/Nixstore/StorePath/Idempotent.antt =====
-- internal/nixstore/nixstore.go: `StorePathOf` on a store path.
use machokeeper.Base.{
  ℕ, ◌≡◌, refl, sym, ap, ◌∙◌, true, Option, none, some, List, [], ◌∷◌, ◌++◌, codes, cut_prefix,
  text_equal, OnSome-elim, arith, Bool-cases, inl, inr, Option-cases,
}
use mathlib.Core.Option.{none-ne-some}
use mathlib.Core.List.{append_assoc, append-nil}
use machokeeper.Nixstore.Lines.{split_at}
use machokeeper.Nixstore.Lines.RoundTrip.{split_at-append, split_at-line}
use machokeeper.Nixstore.StorePath.{
  add_element, add_elements, clean, absolute, is_abs, join_elements, path_text, rel_text, rel,
  is_below, store_dir_of, store_path_of,
}
use machokeeper.Nixstore.StorePath.Clean.{IsElement, AreElements}
use machokeeper.Nixstore.StorePath.Below.{
  rel_elements-append, absolute-AreElements, store_path_of-below, store_path_of-IsAbove,
}

split_at-join_elements :
    (e : List ℕ) (es : List (List ℕ))
    → AreElements (e ∷ es)
    → split_at b'/' (join_elements (e ∷ es)) ≡ e ∷ es
unfolding join_elements
split_at-join_elements e [] (h, a) = split_at-line b'/' e h.0
split_at-join_elements e (f ∷ es) (h, a) =
    split_at-append b'/' e (join_elements (f ∷ es)) h.0
    ∙ ap (λ (rest : List (List ℕ)). e ∷ rest) (split_at-join_elements f es a)

add_element-IsElement :
    (before : List (List ℕ)) (e : List ℕ) → IsElement e → add_element before e ≡ before ++ (e ∷ [])
unfolding add_element
add_element-IsElement before e (lacks, named, not_dot, not_up) = rw (named, not_dot, not_up) refl

-- An empty element is skipped.
add_element-nil : (before : List (List ℕ)) → add_element before [] ≡ before
unfolding add_element text_equal
add_element-nil before = refl

add_elements-AreElements_append :
    (before es : List (List ℕ)) → AreElements es → add_elements before es ≡ before ++ es
unfolding add_elements
add_elements-AreElements_append before [] a = sym (append-nil before)
add_elements-AreElements_append before (e ∷ es) (h, a) =
    ap (λ (b : List (List ℕ)). add_elements b es) (add_element-IsElement before e h)
    ∙ add_elements-AreElements_append (before ++ (e ∷ [])) es a
    ∙ append_assoc before (e ∷ []) es

-- The text of clean elements is read back.
clean-path_text :
    (e : List ℕ) (es : List (List ℕ)) → AreElements (e ∷ es) → clean (path_text (e ∷ es)) ≡ e ∷ es
unfolding clean path_text split_at add_elements
clean-path_text e es a =
    ap (λ (b : List (List ℕ)). add_elements b (split_at b'/' (join_elements (e ∷ es))))
      (add_element-nil [])
    ∙ ap (λ (s : List (List ℕ)). add_elements [] s) (split_at-join_elements e es a)
    ∙ add_elements-AreElements_append [] (e ∷ es) a

clean-path_text_last :
    (es : List (List ℕ)) (e : List ℕ)
    → AreElements (es ++ (e ∷ []))
    → clean (path_text (es ++ (e ∷ []))) ≡ es ++ (e ∷ [])
clean-path_text_last [] e a = clean-path_text e [] a
clean-path_text_last (f ∷ es) e a = clean-path_text f (es ++ (e ∷ [])) a

AreElements-last :
    (base : List (List ℕ)) (e : List ℕ) (es : List (List ℕ))
    → AreElements (base ++ (e ∷ es))
    → AreElements (base ++ (e ∷ []))
AreElements-last [] e es (h, a) = (h, tt)
AreElements-last (b ∷ base) e es (h, a) = (h, AreElements-last base e es a)

cut_prefix-join_back :
    (e : List ℕ) (es : List (List ℕ))
    → cut_prefix (codes "..") (join_elements (e ∷ es)) ≡ none
    → cut_prefix (codes "..") e ≡ none
unfolding cut_prefix join_elements
cut_prefix-join_back e [] h = h
cut_prefix-join_back [] (f ∷ es) h = refl
cut_prefix-join_back (c ∷ []) (f ∷ es) h = ground arith
cut_prefix-join_back (c ∷ d ∷ e) (f ∷ es) h = ground (arith, h)

module _ (env : List ℕ) (wd : Option (List ℕ)) (path store_path : List ℕ)
    (e : store_path_of env wd path ≡ some store_path) where
  rooted : is_abs (store_dir_of env) ≡ true
  unfolding store_path_of rel
  rooted = elim (Bool-cases (is_abs (store_dir_of env))) [
    | inl r ↦ r
    | inr r ↦ elim (Option-cases (absolute wd path)) [
      | inl failed ↦ absurd (ground (arith, e, failed))
      | inr (target, found) ↦ absurd (ground (arith, e, found, r))
    ]
  ]

  not_dotted :
      (name : List ℕ) (rest : List (List ℕ))
      → absolute wd path ≡ some (clean (store_dir_of env) ++ (name ∷ rest))
      → cut_prefix (codes "..") name ≡ none
  unfolding store_path_of rel rel_text is_below
  not_dotted name rest found =
      elim (Option-cases (cut_prefix (codes "..") (join_elements (name ∷ rest)))) [
        | inl none_cut ↦ cut_prefix-join_back name rest none_cut
        | inr (left, cut) ↦ absurd (
            none-ne-some store_path (
              rw (found, rooted, rel_elements-append (clean (store_dir_of env)) (name ∷ rest), cut)
                at e))
      ]

  -- The store path of a store path is itself.
  pub store_path_of-idempotent : store_path_of env wd store_path ≡ some store_path
  unfolding absolute is_abs path_text
  store_path_of-idempotent =
      let (target, found, (name, rest, below, is_text)) =
        store_path_of-IsAbove env wd path store_path e in
      let dir = clean (store_dir_of env) in
      let at_target : absolute wd path ≡ some (dir ++ (name ∷ rest)) = found ∙ ap some below in
      let elements : AreElements (dir ++ (name ∷ [])) =
        AreElements-last dir name rest
          (OnSome-elim AreElements (absolute wd path) _ (absolute-AreElements wd path) at_target) in
      ap (store_path_of env wd) is_text
      ∙ store_path_of-below env wd (path_text (dir ++ (name ∷ []))) name [] rooted
          (ap some (clean-path_text_last dir name elements)) (not_dotted name rest at_target)
      ∙ ap some (sym is_text)
