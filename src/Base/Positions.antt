-- ===== src/Base/Positions.antt =====
-- Membership in a list, as a position.
use mathlib.Core.Path.{◌≡◌}
use mathlib.Core.Logic.{◌⊎◌, inl, inr, ◌↔◌}
use mathlib.Core.List.{List, [], ◌∷◌, ◌++◌}

-- `p` is listed at a position.
pub data At {A : Type 0} (p : A) : List A → Type 0 where
  here : {q : A} {qs : List A} → p ≡ q → At p (q ∷ qs)
  there : {q : A} {qs : List A} → At p qs → At p (q ∷ qs)

pub At-nil : {A : Type 0} (p : A) → At p [] → ⊥
At-nil p a = elim a [ ]

pub At-cons : {A : Type 0} (p q : A) (qs : List A) → At p (q ∷ qs) → (p ≡ q) ⊎ At p qs
At-cons p q qs (here e) = inl e
At-cons p q qs (there a) = inr a

module _ {A : Type 0} (p : A) where
  pub At-append_left : (xs ys : List A) → At p xs → At p (xs ++ ys)
  At-append_left [] ys h = elim h [ ]
  At-append_left (x ∷ xs) ys (here e) = here e
  At-append_left (x ∷ xs) ys (there h) = there (At-append_left xs ys h)

  pub At-append_right : (xs ys : List A) → At p ys → At p (xs ++ ys)
  At-append_right [] ys h = h
  At-append_right (x ∷ xs) ys h = there (At-append_right xs ys h)

  At-append_cases : (xs ys : List A) → At p (xs ++ ys) → At p xs ⊎ At p ys
  At-append_cases [] ys h = inr h
  At-append_cases (x ∷ xs) ys (here e) = inl (here e)
  At-append_cases (x ∷ xs) ys (there h) = elim (At-append_cases xs ys h) [
    | inl a ↦ inl (there a)
    | inr b ↦ inr b
  ]

  pub At-append : (xs ys : List A) → At p (xs ++ ys) ↔ (At p xs ⊎ At p ys)
  At-append xs ys = (
    At-append_cases xs ys,
    λ h. elim h [ inl a ↦ At-append_left xs ys a | inr b ↦ At-append_right xs ys b ],
  )
