-- ===== src/Nixstore/Lines/RoundTrip.antt =====
-- internal/nixstore/nixstore.go: the lines of a query, printed and read.
use machokeeper.Base.{ℕ, ◌≡◌, refl, ap, ◌∙◌, false, List, [], ◌∷◌, ◌++◌, arith, Lacks}
use mathlib.Core.List.{append-nil}
use machokeeper.Nixstore.Lines.{
  is_space, trim_left, trim_last, trim_right, trim_space, on_first, split_at, filled, lines_of,
}

-- Each line with its end.
abbrev pub unlines : List (List ℕ) → List ℕ
unlines [] = []
unlines (l ∷ ls) = l ++ (b'\n' ∷ unlines ls)

-- The text without the last end.
abbrev join_lines : List ℕ → List (List ℕ) → List ℕ
join_lines l [] = l
join_lines l (m ∷ ls) = l ++ (b'\n' ∷ join_lines m ls)

abbrev pub StartsVisible : List ℕ → Type 0
StartsVisible [] = ⊥
StartsVisible (c ∷ cs) = is_space c ≡ false

abbrev pub EndsVisible : List ℕ → Type 0
EndsVisible [] = ⊥
EndsVisible (c ∷ []) = is_space c ≡ false
EndsVisible (c ∷ d ∷ cs) = EndsVisible (d ∷ cs)

-- A line with neither a line's end in it nor white space around it, and not empty.
abbrev pub IsLine : List ℕ → Type 0
IsLine l = Lacks b'\n' l × StartsVisible l × EndsVisible l

abbrev pub AreLines : List (List ℕ) → Type 0
AreLines [] = Unit
AreLines (l ∷ ls) = IsLine l × AreLines ls

trim_last-visible : (c : ℕ) (r : List ℕ) → is_space c ≡ false → trim_last c r ≡ c ∷ r
unfolding trim_last
trim_last-visible c [] h = ground (arith, h)
trim_last-visible c (d ∷ ds) h = refl

trim_right-append :
    (l rest : List ℕ) → EndsVisible l → trim_right (l ++ rest) ≡ l ++ trim_right rest
unfolding trim_right trim_last
trim_right-append [] rest h = absurd h
trim_right-append (c ∷ []) rest h = trim_last-visible c (trim_right rest) h
trim_right-append (c ∷ d ∷ cs) rest h = ap (trim_last c) (trim_right-append (d ∷ cs) rest h)

pub split_at-append :
    (sep : ℕ) (l rest : List ℕ)
    → Lacks sep l
    → split_at sep (l ++ (sep ∷ rest)) ≡ l ∷ split_at sep rest
unfolding split_at on_first
split_at-append sep [] rest h = ground arith
split_at-append sep (c ∷ l) rest h = ground (arith, split_at-append sep l rest h.1)

pub split_at-line : (sep : ℕ) (l : List ℕ) → Lacks sep l → split_at sep l ≡ l ∷ []
unfolding split_at on_first
split_at-line sep [] h = refl
split_at-line sep (c ∷ l) h = ground (arith, split_at-line sep l h.1)

trim_left-visible : (l rest : List ℕ) → StartsVisible l → trim_left (l ++ rest) ≡ l ++ rest
unfolding trim_left
trim_left-visible [] rest h = absurd h
trim_left-visible (c ∷ l) rest h = ground (arith, h)

trim_last-join_lines :
    (c : ℕ) (m : List ℕ) (ls : List (List ℕ))
    → StartsVisible m
    → trim_last c (join_lines m ls) ≡ c ∷ join_lines m ls
unfolding trim_last
trim_last-join_lines c [] ls h = absurd h
trim_last-join_lines c (d ∷ m) [] h = refl
trim_last-join_lines c (d ∷ m) (l ∷ ls) h = refl

trim_right-unlines :
    (l : List ℕ) (ls : List (List ℕ))
    → AreLines (l ∷ ls)
    → trim_right (unlines (l ∷ ls)) ≡ join_lines l ls
unfolding trim_right trim_last is_space
trim_right-unlines l [] (h, hs) = trim_right-append l (b'\n' ∷ []) h.2 ∙ append-nil l
trim_right-unlines l (m ∷ ls) (h, hs) =
    trim_right-append l (b'\n' ∷ unlines (m ∷ ls)) h.2
    ∙ ap (λ (r : List ℕ). l ++ trim_last b'\n' r) (trim_right-unlines m ls hs)
    ∙ ap (λ (r : List ℕ). l ++ r) (trim_last-join_lines b'\n' m ls hs.0.1)

split_at-join_lines :
    (l : List ℕ) (ls : List (List ℕ))
    → AreLines (l ∷ ls)
    → split_at b'\n' (join_lines l ls) ≡ l ∷ ls
split_at-join_lines l [] (h, hs) = split_at-line b'\n' l h.0
split_at-join_lines l (m ∷ ls) (h, hs) =
    split_at-append b'\n' l (join_lines m ls) h.0
    ∙ ap (λ (r : List (List ℕ)). l ∷ r) (split_at-join_lines m ls hs)

filled-lines : (ls : List (List ℕ)) → AreLines ls → filled ls ≡ ls
unfolding filled
filled-lines [] h = refl
filled-lines ([] ∷ ls) h = absurd h.0.1
filled-lines ((c ∷ cs) ∷ ls) h = ap (λ (r : List (List ℕ)). (c ∷ cs) ∷ r) (filled-lines ls h.1)

-- The lines of a printed list of lines are the list, if no line is empty, has a line's end in it, or
-- starts or ends with white space.
pub lines_of-unlines : (ls : List (List ℕ)) → AreLines ls → lines_of (unlines ls) ≡ ls
unfolding lines_of trim_space trim_left trim_right split_at filled
lines_of-unlines [] h = refl
lines_of-unlines (l ∷ ls) h =
    ap (λ (t : List ℕ). filled (split_at b'\n' (trim_right t)))
      (trim_left-visible l (b'\n' ∷ unlines ls) h.0.1)
    ∙ ap (λ (t : List ℕ). filled (split_at b'\n' t)) (trim_right-unlines l ls h)
    ∙ ap (λ (t : List (List ℕ)). filled t) (split_at-join_lines l ls h)
    ∙ filled-lines (l ∷ ls) h

pub trim_space-line : (l : List ℕ) → IsLine l → trim_space (unlines (l ∷ [])) ≡ l
unfolding trim_space
trim_space-line l h =
    ap (λ (t : List ℕ). trim_right t) (trim_left-visible l (b'\n' ∷ []) h.1)
    ∙ trim_right-unlines l [] (h, tt)
