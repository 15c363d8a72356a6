-- ===== src/Engine/Verify/Repair.antt =====
-- engine/engine.go: `Repair` on a valid file.
use machokeeper.Base.{
  ℕ, ◌^◌, ◌≤◌, ◌<◌, ◌≡◌, refl, ap, String, true, false, Option, some, List, [], arith, length,
  Returns, Returns-bind, Returns-if,
}
use machokeeper.Engine.Defs.{Error, Hashes}
use machokeeper.Engine.Container.Slices.{IsSlice, whole, member}
use machokeeper.Engine.Container.Only.{walk_container-Only}
use machokeeper.Engine.Walk.{Walked, fixup_visit, walk_fixup, walk, repair}
use machokeeper.Engine.Walk.Total.{any_cms-Returns}
use machokeeper.Engine.Walk.Valid.{fixup_slice-as_repair}
use machokeeper.Engine.Verify.Check.{IsFileValid, fixup_slice_quiet}

pub slice_in_file :
    (b : List ℕ) (base stop : ℕ) → IsSlice b base stop → (base ≤ length b) × (stop ≤ length b)
slice_in_file b base stop (whole long t first last) = (omega arith, omega arith)
slice_in_file b base stop (member is64 i fat h m) =
    (omega (arith, m.in_file), omega (arith, m.in_file, m.ends))

-- What a repair starts with, and ends with if nothing is stale.
abbrev pub unrepaired : List ℕ → Walked
unrepaired b = record { buffer = record { bytes = b; changed = some [] }; modified = false }

module _ (hashes : Hashes) (b : List ℕ) (path : String) (small : length b < 2 ^ 62)
    (valid : IsFileValid hashes b) where
  abbrev Unrepaired : Walked × Option Error → Type 0
  Unrepaired r = r.0 ≡ unrepaired b

  fixup_visit-Unrepaired :
      (base stop : ℕ) (w : Walked)
      → IsSlice b base stop
      → w ≡ unrepaired b
      → Returns Unrepaired (fixup_visit hashes path true base stop w)
  unfolding fixup_visit
  fixup_visit-Unrepaired base stop w sl e =
      let (h, k) = slice_in_file b base stop sl in
      let (r, f, q) = fixup_slice_quiet hashes b small path base stop h k in
      let (r', f', (same, clean)) =
        fixup_slice-as_repair hashes base stop path b r f (q.2.1 (valid base stop sl)) in
      rw (e, fixup_visit, f') (_, refl, cc)

  -- On a file of less than 2^62 bytes in which every signature is valid, `Repair` returns, with no
  -- panic, leaves the bytes, records no change and reports that it has modified nothing, whether or
  -- not it refuses a CMS signature.
  pub repair-IsFileValid :
      Returns (λ (r : Walked × Option Error). r.0 ≡ unrepaired b) (repair hashes b path)
  unfolding repair walk walk_fixup
  repair-IsFileValid =
      Returns-bind (λ _. Unit {0}) Unrepaired _ _ (any_cms-Returns b small)
        λ carries _.
          Returns-if Unrepaired carries _ _ (λ _. (_, refl, refl))
            λ _.
              walk_container-Only (λ w. w.buffer.bytes) (fixup_visit hashes path true) b small
                (λ w. w ≡ unrepaired b) (λ w e. ap (λ (v : Walked). v.buffer.bytes) e)
                fixup_visit-Unrepaired (unrepaired b) refl
