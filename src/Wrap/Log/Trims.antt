-- ===== src/Wrap/Log/Trims.antt =====
-- internal/wrap/wrap.go: `cleanPath`, described without its searches.
use machokeeper.Base.{
  ℕ, ◌≡◌, ◌≢◌, ◌⊎◌, refl, ap, ◌∙◌, some, Bool-cases, inl, inr, List, [], ◌∷◌, ◌++◌, text_equal,
  text_equal_iff, cut_prefix, codes, Lacks, ◌==◌, arith, OnSome, OnSome-map,
}
use machokeeper.Nixstore.StorePath.{before_slash}
use machokeeper.Wrap.Log.{store_prefix, trim_suffix, clean_rest}

-- What is below an entry of a directory: nothing, or a slash and more.
abbrev IsBelow : List ℕ → Type 0
IsBelow sub = (sub ≡ []) ⊎ ((more : List ℕ) × (sub ≡ b'/' ∷ more))

-- A text with a suffix cut, if it had one.
abbrev IsCut : List ℕ → List ℕ → List ℕ → Type 0
IsCut suffix s t = (s ≡ t ++ suffix) ⊎ ((s ≡ t) × ((k : List ℕ) → t ≢ k ++ suffix))

-- `p` is the store's directory, with its slash, and the first element behind it of `path`, without
-- one suffix ".narinfo". That element has no slash; it may be empty, or be "..".
pub record Trims (path p : List ℕ) : Type 0 where
  pub element : List ℕ
  pub name : List ℕ
  pub sub : List ℕ
  pub whole : path ≡ store_prefix ++ (element ++ sub)
  pub below : IsBelow sub
  pub one_element : Lacks b'/' element
  pub narinfo : IsCut (codes ".narinfo") element name
  pub trimmed : p ≡ store_prefix ++ name

before_slash-IsBelow : (s : List ℕ) → (sub : List ℕ) × (s ≡ before_slash s ++ sub) × IsBelow sub
unfolding before_slash
before_slash-IsBelow [] = ([], refl, inl refl)
before_slash-IsBelow (c ∷ s) =
    let (sub, e, below) = before_slash-IsBelow s in
    elim (Bool-cases (c == b'/')) [
      | inl slash ↦ rw slash (c ∷ s, refl, inr (s, ap (λ (d : ℕ). d ∷ s) (ground (arith, slash))))
      | inr other ↦ rw other (sub, ap (λ (r : List ℕ). c ∷ r) e, below)
    ]

before_slash-Lacks : (s : List ℕ) → Lacks b'/' (before_slash s)
unfolding before_slash
before_slash-Lacks [] = tt
before_slash-Lacks (c ∷ s) = elim (Bool-cases (c == b'/')) [
  | inl e ↦ rw e tt
  | inr e ↦ rw e (e, before_slash-Lacks s)
]

no_end : (b : ℕ) (bs k : List ℕ) → ◌≢◌ {A = List ℕ} [] (k ++ (b ∷ bs))
no_end b bs [] e = ground (arith, e)
no_end b bs (x ∷ k) e = ground (arith, e)

cons_end :
    (c b : ℕ) (s bs : List ℕ)
    → (c ∷ s) ≢ (b ∷ bs)
    → ((k : List ℕ) → s ≢ k ++ (b ∷ bs))
    → (k : List ℕ) → (c ∷ s) ≢ k ++ (b ∷ bs)
cons_end c b s bs n h [] e = n e
cons_end c b s bs n h (x ∷ k) e = h k (ground (arith, e))

-- The suffix is not empty.
trim_suffix-IsCut : (b : ℕ) (bs s : List ℕ) → IsCut (b ∷ bs) s (trim_suffix (b ∷ bs) s)
unfolding trim_suffix
trim_suffix-IsCut b bs [] = inr (refl, no_end b bs)
trim_suffix-IsCut b bs (c ∷ s) = elim (Bool-cases (text_equal (c ∷ s) (b ∷ bs))) [
  | inl e ↦ rw e (inl ((text_equal_iff (c ∷ s) (b ∷ bs)).0 e))
  | inr e ↦ rw e (elim (trim_suffix-IsCut b bs s) [
    | inl cut ↦ inl (ap (λ (r : List ℕ). c ∷ r) cut)
    | inr (same, ends) ↦
        let n : (c ∷ s) ≢ (b ∷ bs) =
          λ p. absurd (ground (arith, e, (text_equal_iff (c ∷ s) (b ∷ bs)).1 p)) in
        let here_same = ap (λ (r : List ℕ). c ∷ r) same in
        inr (here_same, cons_end c b (trim_suffix (b ∷ bs) s) bs (λ p. n (here_same ∙ p)) ends)
  ])
]

-- `cleanPath`, on a path below the store's directory.
pub clean_rest-Trims : (rest : List ℕ) → Trims (store_prefix ++ rest) (clean_rest rest)
unfolding clean_rest
clean_rest-Trims rest =
    let (sub, e, below) = before_slash-IsBelow rest in
    record {
      element = before_slash rest;
      name = trim_suffix (codes ".narinfo") (before_slash rest);
      sub = sub;
      whole = ap (λ (r : List ℕ). store_prefix ++ r) e;
      below = below;
      one_element = before_slash-Lacks rest;
      narinfo = trim_suffix-IsCut _ _ (before_slash rest);
      trimmed = refl;
    }

-- What is read behind a prefix.
pub cut_prefix-append :
    (prefix s : List ℕ) → OnSome (λ rest. s ≡ prefix ++ rest) (cut_prefix prefix s)
unfolding cut_prefix
cut_prefix-append [] s = refl
cut_prefix-append (c ∷ cs) [] = tt
cut_prefix-append (c ∷ cs) (d ∷ s) = elim (Bool-cases (c == d)) [
  | inl e ↦ rw e (
      OnSome-map _ _ (cut_prefix cs s) (λ rest (q : s ≡ cs ++ rest). ground (arith, e, q))
        (cut_prefix-append cs s))
  | inr e ↦ rw e tt
]

pub append-cut_prefix : (prefix rest : List ℕ) → cut_prefix prefix (prefix ++ rest) ≡ some rest
unfolding cut_prefix
append-cut_prefix [] rest = refl
append-cut_prefix (c ∷ cs) rest = ground (arith, append-cut_prefix cs rest)
