-- ===== src/Nixstore/Lines/Blockers.antt =====
-- internal/doctor/doctor.go: `storePathBlockers` on what nix-store prints.
use machokeeper.Base.{
  At-append, ℕ, ◌≡◌, ◌≢◌, ◌↔◌, ◌⊎◌, inl, inr, refl, sym, ◌∙◌, some, List, [], ◌∷◌, arith, At, here,
  there, Returns, Bool-cases, text_equal, text_equal_iff,
}
use machokeeper.Nixstore.Lines.{query_lines, others, referrers, store_path_blockers}
use machokeeper.Nixstore.Lines.RoundTrip.{unlines, AreLines, lines_of-unlines}

others-At :
    (store_path p : List ℕ) (ls : List (List ℕ))
    → At p (others store_path ls) ↔ (At p ls × (p ≢ store_path))
unfolding others
others-At store_path p [] = (λ h. elim h [ ], λ h. elim h.0 [ ])
others-At store_path p (l ∷ ls) =
    let rest = others-At store_path p ls in
    elim (Bool-cases (text_equal l store_path)) [
      | inl e ↦
          let same : l ≡ store_path = (text_equal_iff l store_path).0 e in
          rw e (
            λ h. let (a, n) = rest.0 h in (there a, n),
            λ (a, n). elim a [ here q ↦ absurd (n (q ∙ same)) | there b ↦ rest.1 (b, n) ],
          )
      | inr e ↦ rw e (
        λ h. elim h [
          | here q ↦ (here q, λ s. ground (arith, e, (text_equal_iff l store_path).1 (sym q ∙ s)))
          | there a ↦ let (b, n) = rest.0 a in (there b, n)
        ],
        λ (a, n). elim a [ here q ↦ here q | there b ↦ there (rest.1 (b, n)) ],
      )
    ]

-- On printed lists of roots and referrers, the blockers of a store path are exactly the roots, and
-- the referrers but the path itself.
pub store_path_blockers-At :
    (store_path : List ℕ) (roots refs : List (List ℕ))
    → AreLines roots
    → AreLines refs
    → Returns
        (λ blockers. (p : List ℕ) → At p blockers ↔ (At p roots ⊎ (At p refs × (p ≢ store_path))))
        (store_path_blockers store_path (some (unlines roots)) (some (unlines refs)))
unfolding store_path_blockers query_lines referrers
store_path_blockers-At store_path roots refs h k =
    rw (lines_of-unlines roots h, lines_of-unlines refs k)
      (
        _,
        refl,
        λ p. (
          λ a. elim ((At-append p roots (others store_path refs)).0 a) [
            | inl b ↦ inl b
            | inr b ↦ inr ((others-At store_path p refs).0 b)
          ],
          λ a.
              (At-append p roots (others store_path refs)).1
                (elim a [ inl b ↦ inl b | inr b ↦ inr ((others-At store_path p refs).1 b) ]),
        ),
      )
