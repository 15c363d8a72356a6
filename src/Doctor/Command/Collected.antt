-- ===== src/Doctor/Command/Collected.antt =====
-- internal/doctor/doctor.go: the findings that `Run` collects from the paths, sorted.
use machokeeper.Base.{
  ◌≡◌, refl, sym, ap, ◌∙◌, String, Option, some, List, [], ◌∷◌, ◌++◌, inl, inr, Option-cases, At,
  here, there,
}
use mathlib.Core.Path.{subst}
use mathlib.Core.List.{Permᴰ}
use machokeeper.Doctor.Scan.{Finding}
use machokeeper.Doctor.Run.Rule.{AllFiles}
use machokeeper.Doctor.Command.{collect}

module _ (F : String → Type 0) where
  AllFiles-both : (fs gs : List Finding) → AllFiles F fs → AllFiles F gs → AllFiles F (fs ++ gs)
  AllFiles-both [] gs a b = b
  AllFiles-both (f ∷ fs) gs (h, a) b = (h, AllFiles-both fs gs a b)

  AllFiles-split : (fs gs : List Finding) → AllFiles F (fs ++ gs) → AllFiles F fs × AllFiles F gs
  AllFiles-split [] gs a = (tt, a)
  AllFiles-split (f ∷ fs) gs (h, a) = let (b, c) = AllFiles-split fs gs a in ((h, b), c)

  pub AllFiles-permuted : {fs gs : List Finding} → Permᴰ fs gs → AllFiles F fs → AllFiles F gs
  AllFiles-permuted Permᴰ.nil a = a
  AllFiles-permuted (Permᴰ.cons e p) (h, a) =
      (subst (λ (f : Finding). F f.file) e h, AllFiles-permuted p a)
  AllFiles-permuted {fs = f ∷ g ∷ fs} (Permᴰ.swap d e) (h, (k, a)) =
      (subst (λ (x : Finding). F x.file) e k, (subst (λ (x : Finding). F x.file) d h, a))
  AllFiles-permuted (Permᴰ.trans p q) a = AllFiles-permuted q (AllFiles-permuted p a)

  module _ (walk : String → Option (List Finding)) where
    -- Every file that is found below one of the paths meets `F`.
    abbrev pub AllFound : List String → Type 0
    AllFound paths =
        (path : String) (fs : List Finding) → At path paths → walk path ≡ some fs → AllFiles F fs

    pub AllFiles-collect : (paths : List String) → AllFound paths → AllFiles F (collect walk paths)
    unfolding collect
    AllFiles-collect [] h = tt
    AllFiles-collect (p ∷ paths) h =
        let rest = AllFiles-collect paths (λ q fs a. h q fs (there a)) in
        elim (Option-cases (walk p)) [
          | inl failed ↦ rw (collect, failed) rest
          | inr (fs, walked) ↦
              rw (collect, walked) (AllFiles-both fs _ (h p fs (here refl) walked) rest)
        ]

    pub AllFound-collect : (paths : List String) → AllFiles F (collect walk paths) → AllFound paths
    unfolding collect
    AllFound-collect [] a path fs at walked = elim at [ ]
    AllFound-collect (p ∷ paths) a path fs (here e) walked =
        let found : walk p ≡ some fs = ap walk (sym e) ∙ walked in
        (AllFiles-split fs (collect walk paths) (rw (collect, found) at a)).0
    AllFound-collect (p ∷ paths) a path fs (there at_rest) walked = elim (Option-cases (walk p)) [
      | inl failed ↦ AllFound-collect paths (rw (collect, failed) at a) path fs at_rest walked
      | inr (gs, found) ↦
          AllFound-collect paths
            (AllFiles-split gs (collect walk paths) (rw (collect, found) at a)).1 path fs at_rest
            walked
    ]
