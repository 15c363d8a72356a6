-- ===== src/Engine/Walk/Total.antt =====
-- engine/engine.go: whether `Detect` and `walk` return.
use machokeeper.Base.{
  ℕ, ◌^◌, ◌<◌, ◌≡◌, refl, ap, String, Bool, true, false, Option, List, arith, length, Returns,
  Returns-bind, Returns-if, Returns_of_ne,
}
use machokeeper.Engine.Defs.{unsigned, Error, Hashes}
use machokeeper.Engine.Signature.{slice_carries_cms}
use machokeeper.Engine.Signature.Kinds.{
  detect_slice-ne-none, slice_carries_cms-detect_slice, is_cms,
}
use machokeeper.Engine.Fixup.{Buffer}
use machokeeper.Engine.Fixup.Frame.{IsFrame, fixup_slice-P}
use machokeeper.Engine.Container.Rules.{walk_container-Kept}
use machokeeper.Engine.Walk.{
  Walked, detect_visit, detect, cms_visit, any_cms, fixup_visit, walk_fixup, walk,
}

module _ (b : List ℕ) (small : length b < 2 ^ 62) where
  slice_carries_cms-Returns : (base : ℕ) → Returns (λ _. Unit {0}) (slice_carries_cms b base)
  slice_carries_cms-Returns base =
      let (k, e, _) = Returns_of_ne _ (detect_slice-ne-none b base) in
      (is_cms k, slice_carries_cms-detect_slice b base k e, tt)

  cms_visit-Returns : (base stop : ℕ) (s : Bool) → Returns (λ _. Unit {0}) (cms_visit b base stop s)
  unfolding cms_visit
  cms_visit-Returns base stop true = (_, refl, tt)
  cms_visit-Returns base stop false =
      Returns-bind _ _ _ _ (slice_carries_cms-Returns base) λ c _. (_, refl, tt)

  pub any_cms-Returns : Returns (λ _. Unit {0}) (any_cms b)
  unfolding any_cms
  any_cms-Returns =
      Returns-bind _ _ _ _
        (walk_container-Kept (λ _. b) (cms_visit b) (length b) (λ _. Unit {0}) small (λ s p. refl)
          (λ base stop s h k p. cms_visit-Returns base stop s) false tt)
        λ r _. (_, refl, tt)

  pub detect-Returns : Returns (λ _. Unit {0}) (detect b)
  unfolding detect detect_visit
  detect-Returns =
      Returns-bind _ _ _ _
        (walk_container-Kept (λ _. b) (detect_visit b) (length b) (λ _. Unit {0}) small
          (λ s p. refl)
          (λ base stop s h k p.
            Returns-bind _ _ _ _ (Returns_of_ne _ (detect_slice-ne-none b base))
              λ c _. (_, refl, tt))
          unsigned tt)
        λ r _. (_, refl, tt)

module _ (hashes : Hashes) (size : ℕ) (small : size < 2 ^ 62) (P : Buffer → Type 0) where
  abbrev pub KeptWalk : Walked × Option Error → Type 0
  KeptWalk r = P (r.0).buffer

  -- An assertion that a rewrite of one slot keeps is kept by the walk over all slices.
  pub walk_fixup-P :
      (write : Bool) (path : String) (buf : Buffer)
      → IsFrame write size P
      → P buf
      → Returns KeptWalk (walk_fixup hashes path write buf)
  unfolding walk_fixup fixup_visit
  walk_fixup-P write path buf F p =
      walk_container-Kept (λ w. w.buffer.bytes) (fixup_visit hashes path write) size
        (λ w. P w.buffer) small (λ w. F.sized w.buffer)
        (λ base stop w h k q.
          Returns-bind _ KeptWalk _ _
            (fixup_slice-P hashes size P small write base stop path w.buffer F (omega arith) q)
            λ r q'. (_, refl, q'))
        (record { buffer = buf; modified = false }) p

  pub walk-P :
      (write : Bool) (path : String) (buf : Buffer)
      → IsFrame write size P
      → P buf
      → Returns KeptWalk (walk hashes path write buf)
  unfolding walk
  walk-P true path buf F p =
      Returns-bind _ KeptWalk _ _ (any_cms-Returns buf.bytes (omega (arith, F.sized buf p)))
        λ carries _.
          Returns-if KeptWalk carries _ _ (λ _. (_, refl, p)) (λ _. walk_fixup-P true path buf F p)
  walk-P false path buf F p = walk_fixup-P false path buf F p

pub unwritten-IsFrame :
    (original : Buffer) → IsFrame false (length original.bytes) (λ buf. buf ≡ original)
unwritten-IsFrame original = record {
  sized = λ buf e. ap (λ (c : Buffer). length c.bytes) e;
  kept = λ buf off old sum w. cc;
}

-- On a file of less than 2^62 bytes `walk` in check mode returns, with no panic, and leaves the bytes
-- and the journal as they are.
pub walk_unwritten :
    (hashes : Hashes) (path : String) (buf : Buffer)
    → length buf.bytes < 2 ^ 62
    → Returns (λ (r : Walked × Option Error). (r.0).buffer ≡ buf) (walk hashes path false buf)
walk_unwritten hashes path buf small =
    walk-P hashes (length buf.bytes) small (λ c. c ≡ buf) false path buf (unwritten-IsFrame buf)
      refl
