-- ===== src/Engine/Container/Maps.antt =====
-- engine/engine.go: two walks of `walkContainer` over the same bytes.
use machokeeper.Base.{
  ℕ, zero, suc, ◌+◌, ◌≡◌, Bool, Option, none, some, List, arith, inl, inr, Option-cases,
}
use machokeeper.Engine.Defs.{Error}
use machokeeper.Engine.Container.{visit_arch, walk_archs, walk_fat, walk_container}

module _ {S T : Type 0} (b : List ℕ) (f : S → T) (visit : ℕ → ℕ → S → Option (S × Option Error))
    (visit' : ℕ → ℕ → T → Option (T × Option Error))
    (follows : (slice_base slice_end : ℕ) (s s' : S) (failed : Option Error)
      → visit slice_base slice_end s ≡ some (s', failed)
      → visit' slice_base slice_end (f s) ≡ some (f s', failed)) where
  visit_arch-follows :
      (is64 : Bool) (ends i : ℕ) (s s' : S) (failed : Option Error)
      → visit_arch (λ _. b) visit is64 ends i s ≡ some (s', failed)
      → visit_arch (λ _. b) visit' is64 ends i (f s) ≡ some (f s', failed)
  unfolding visit_arch
  visit_arch-follows is64 ends i s s' failed e = grind (arith, follows)

  walk_archs-follows :
      (is64 : Bool) (ends n i : ℕ) (s s' : S) (failed : Option Error)
      → walk_archs (λ _. b) visit is64 ends n i s ≡ some (s', failed)
      → walk_archs (λ _. b) visit' is64 ends n i (f s) ≡ some (f s', failed)
  unfolding walk_archs
  walk_archs-follows is64 ends zero i s s' failed e = ground arith
  walk_archs-follows is64 ends (suc n) i s s' failed e =
      elim (Option-cases (visit_arch (λ _. b) visit is64 ends i s)) [
        | inl stuck ↦ ground arith
        | inr ((t, none), v) ↦ ground (
          arith,
          visit_arch-follows is64 ends i s t none v,
          walk_archs-follows is64 ends n (i + 1) t s' failed,
        )
        | inr ((t, some x), v) ↦ ground (arith, visit_arch-follows is64 ends i s t (some x) v)
      ]

  walk_fat-follows :
      (is64 : Bool) (s s' : S) (failed : Option Error)
      → walk_fat (λ _. b) visit is64 s ≡ some (s', failed)
      → walk_fat (λ _. b) visit' is64 (f s) ≡ some (f s', failed)
  unfolding walk_fat
  walk_fat-follows is64 s s' failed e = grind (arith, walk_archs-follows)

  pub walk_container-follows :
      (s s' : S) (failed : Option Error)
      → walk_container (λ _. b) visit s ≡ some (s', failed)
      → walk_container (λ _. b) visit' (f s) ≡ some (f s', failed)
  unfolding walk_container
  walk_container-follows s s' failed e = grind (arith, follows, walk_fat-follows)
