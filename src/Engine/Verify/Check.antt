-- ===== src/Engine/Verify/Check.antt =====
-- engine/engine.go: `Check`, and the valid files.
use machokeeper.Base.{
  ℕ, ◌^◌, ◌≤◌, ◌<◌, ◌≡◌, ◌↔◌, refl, ap, String, Bool, false, Option, none, some, List, arith,
  length, Returns, Returns-bind, ◌||◌,
}
use machokeeper.Engine.Defs.{Error, Hashes}
use machokeeper.Engine.Container.Slices.{IsSlice}
use machokeeper.Engine.Container.Visits.{Outcome, walk_container-Outcome}
use machokeeper.Engine.Fixup.{Buffer, Fixed, conclude, fixup_signature, fixup_slice}
use machokeeper.Engine.Fixup.Frame.{fixup_slice-P}
use machokeeper.Engine.Verify.Spec.{IsSliceValid}
use machokeeper.Engine.Verify.Slice.{fixup_slice-check}
use machokeeper.Engine.Walk.{Walked, fixup_visit, walk_fixup, walk, check}
use machokeeper.Engine.Walk.Total.{unwritten-IsFrame}

-- Every slice of the container that has a signature has a valid one.
abbrev pub IsFileValid : Hashes → List ℕ → Type 0
IsFileValid hashes b = (base stop : ℕ) → IsSlice b base stop → IsSliceValid hashes b base stop

abbrev unjournaled : List ℕ → Buffer
unjournaled b = record { bytes = b; changed = none }

or_false : (a c : Bool) → ((a || c) ≡ false) ↔ ((a ≡ false) × (c ≡ false))
or_false a c = ground arith

module _ (hashes : Hashes) (b : List ℕ) (small : length b < 2 ^ 62) (path : String) where
  -- In check mode `fixupSlice` returns no error,
  check_no_error :
      (base stop : ℕ) (buf : Buffer) (r : Fixed)
      → fixup_slice hashes base stop path false buf ≡ some r
      → r.failed ≡ none
  unfolding fixup_slice fixup_signature conclude
  check_no_error base stop buf r e = ground arith

  -- leaves the buffer, and reports a slice that is not valid.
  pub fixup_slice_quiet :
      (base stop : ℕ)
      → base ≤ length b
      → stop ≤ length b
      → Returns
          (λ (r : Fixed).
            (r.failed ≡ none)
            × (r.buffer ≡ unjournaled b)
            × ((r.modified ≡ false) ↔ IsSliceValid hashes b base stop))
          (fixup_slice hashes base stop path false (unjournaled b))
  fixup_slice_quiet base stop h k =
      let (r, e, same) =
        fixup_slice-P hashes (length b) (λ c. c ≡ unjournaled b) small false base stop path
          (unjournaled b) (unwritten-IsFrame (unjournaled b)) h refl in
      (
        r,
        e,
        (
          check_no_error base stop (unjournaled b) r e,
          same,
          fixup_slice-check hashes b small base stop h k path r e,
        ),
      )

  abbrev Reports : (w : Walked) → Type 0 → Walked × Option Error → Type 0
  Reports =
      Outcome (λ w. w.buffer.bytes) (fixup_visit hashes path false) b small
        (λ w. w.buffer ≡ unjournaled b) (λ w e. ap (λ (c : Buffer). c.bytes) e) (λ w. w.modified)
        (IsSliceValid hashes b)

  fixup_visit-Reports :
      (base stop : ℕ) (w : Walked)
      → base ≤ stop
      → stop ≤ length b
      → w.buffer ≡ unjournaled b
      → Returns
          (Reports w (IsSliceValid hashes b base stop))
          (fixup_visit hashes path false base stop w)
  unfolding fixup_visit
  fixup_visit-Reports base stop w h k e =
      let (r, f, (ok, same, valid)) = fixup_slice_quiet base stop (omega arith) k in
      rw (e, fixup_visit, f)
        (
          _,
          refl,
          record {
            no_error = ok;
            keeps = same;
            sound = λ c. let (d, m) = (or_false w.modified r.modified).0 c in (d, valid.0 m);
            complete = λ c v. (or_false w.modified r.modified).1 (c, valid.1 v);
          },
        )

  -- On a file of less than 2^62 bytes `Check` returns, with no panic, and its answer is false exactly
  -- if every slice of the container that has a signature has a valid one: the SuperBlob and its
  -- entries parse, one of them is a CodeDirectory, and every slot of every CodeDirectory holds the
  -- hash of its page, which lies in the file.
  pub check-IsFileValid :
      Returns (λ stale. (stale ≡ false) ↔ IsFileValid hashes b) (check hashes b path)
  unfolding check walk walk_fixup
  check-IsFileValid =
      Returns-bind (Reports _ (IsFileValid hashes b))
        (λ stale. (stale ≡ false) ↔ IsFileValid hashes b) _ _
        (walk_container-Outcome (λ w. w.buffer.bytes) (fixup_visit hashes path false) b small
          (λ w. w.buffer ≡ unjournaled b) (λ w e. ap (λ (c : Buffer). c.bytes) e) (λ w. w.modified)
          (IsSliceValid hashes b) fixup_visit-Reports
          (record { buffer = unjournaled b; modified = false }) refl)
        λ r o. (_, refl, (λ c. (o.sound c).1, λ v. o.complete refl v))
