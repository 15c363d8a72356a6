-- ===== src/Base/Panic.antt =====
-- Go code that may panic: `none` is a run-time panic, such as a slice index out of range.
use machokeeper.Base.Tests.{if◌then◌else◌}
use mathlib.Core.Bool.{Bool, true, false}
use mathlib.Core.Path.{◌≡◌, refl, sym, ◌∙◌, subst}
use mathlib.Core.Logic.{◌≢◌}
use mathlib.Core.Option.{Option, none, some, some-injective}

infixl 5 ◌>>=◌
abbrev pub ◌>>=◌ {ℓ κ} : {A : Type ℓ} {B : Type κ} → Option A → (A → Option B) → Option B
none >>= f = none
some a >>= f = f a

-- The steps behind a result.
pub >>=-eq-some {ℓ κ} :
    {A : Type ℓ} {B : Type κ} (m : Option A) (f : A → Option B) {b : B}
    → (m >>= f) ≡ some b
    → (a : A) × (m ≡ some a) × (f a ≡ some b)
>>=-eq-some none f e = cc
>>=-eq-some (some a) f e = (a, refl, e)

-- The code does not panic, and its result meets `P`.
abbrev pub Returns {ℓ κ} : {A : Type ℓ} → (A → Type κ) → Option A → Type (ℓ ⊔ κ)
Returns {A} P m = (a : A) × (m ≡ some a) × P a

-- The rule for a step and the code behind it.
pub Returns-bind {ℓ κ ρ σ} :
    {A : Type ℓ} {B : Type κ} (P : A → Type ρ) (Q : B → Type σ) (m : Option A) (f : A → Option B)
    → Returns P m
    → ((a : A) → P a → Returns Q (f a))
    → Returns Q (m >>= f)
Returns-bind P Q m f (a, e, p) k = rw e (k a p)

pub Returns_of_ne {ℓ} : {A : Type ℓ} (m : Option A) → m ≢ none → Returns (λ _. Unit {0}) m
Returns_of_ne none h = absurd (h refl)
Returns_of_ne (some a) h = (a, refl, tt)

pub Returns-some {ℓ κ} : {A : Type ℓ} (P : A → Type κ) (a : A) → P a → Returns P (some a)
Returns-some P a p = (a, refl, p)

-- The rule for a test.
pub Returns-if {ℓ κ} :
    {A : Type ℓ} (P : A → Type κ) (b : Bool) (m n : Option A)
    → (b ≡ true → Returns P m)
    → (b ≡ false → Returns P n)
    → Returns P (if b then m else n)
Returns-if P true m n h k = h refl
Returns-if P false m n h k = k refl

-- The rule for a read that is known to succeed.
pub Returns-read {ℓ κ ρ} :
    {A : Type ℓ} {B : Type κ} (Q : B → Type ρ) (m : Option A) (a : A) (f : A → Option B)
    → m ≡ some a
    → Returns Q (f a)
    → Returns Q (m >>= f)
Returns-read Q m a f e h = rw e h

pub Returns-both {ℓ κ ρ} :
    {A : Type ℓ} (P : A → Type κ) (Q : A → Type ρ) (m : Option A)
    → Returns P m
    → Returns Q m
    → Returns (λ a. P a × Q a) m
Returns-both P Q m (a, e, p) (b, f, q) = (a, e, (p, subst Q (some-injective b a (sym f ∙ e)) q))

-- If there is a result, it meets `P`.
abbrev pub OnSome {ℓ κ} : {A : Type ℓ} → (A → Type κ) → Option A → Type κ
OnSome P none = Unit
OnSome P (some a) = P a

pub OnSome-if {ℓ κ} :
    {A : Type ℓ} (P : A → Type κ) (b : Bool) (m n : Option A)
    → (b ≡ true → OnSome P m)
    → (b ≡ false → OnSome P n)
    → OnSome P (if b then m else n)
OnSome-if P true m n h k = h refl
OnSome-if P false m n h k = k refl

pub OnSome-bind {ℓ κ ρ σ} :
    {A : Type ℓ} {B : Type κ} (P : A → Type ρ) (Q : B → Type σ) (m : Option A) (f : A → Option B)
    → OnSome P m
    → ((a : A) → P a → OnSome Q (f a))
    → OnSome Q (m >>= f)
OnSome-bind P Q none f h k = tt
OnSome-bind P Q (some a) f h k = k a h

pub OnSome-elim {ℓ κ} :
    {A : Type ℓ} (P : A → Type κ) (m : Option A) (a : A) → OnSome P m → m ≡ some a → P a
OnSome-elim P m a h e = subst (OnSome P) e h

pub OnSome-map {ℓ κ ρ} :
    {A : Type ℓ} (P : A → Type κ) (Q : A → Type ρ) (m : Option A)
    → ((a : A) → P a → Q a)
    → OnSome P m
    → OnSome Q m
OnSome-map P Q none k h = tt
OnSome-map P Q (some a) k h = k a h
