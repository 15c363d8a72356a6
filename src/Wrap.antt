-- ===== src/Wrap.antt =====
-- internal/wrap/wrap.go: `Run`, `repairSubstitutes` and `realise`.
pub mod Runs
pub mod Log
use machokeeper.Base.{
  ℕ, String, Bool, true, false, not, Option, none, some, List, [], ◌∷◌, ◌++◌, if◌then◌else◌,
  eq_string, ◌==◌, ltb, length,
}

-- The injectable functions: `willSubstituteFn`, `fixFn` and `passthroughFn`, and of `realiseFn` the
-- two steps for one path, `os.Stat` and `nix-store --realise`, which say whether they succeed. `W` is
-- the state of the world.
pub record Seams (W : Type 0) : Type 0 where
  pub will_substitute : List String → W → W × List String
  pub stat : String → W → Bool
  pub realise_path : String → W → W × Bool
  pub fix : List String → W → W × ℕ
  pub passthrough : List String → W → W × ℕ

module _ {W : Type 0} (seams : Seams W) where
  -- `realise`
  unfoldable pub realise : List String → W → W × List String
  realise [] w = (w, [])
  realise (p ∷ ps) w =
      if seams.stat p w
      then (let (w', found) = realise ps w in (w', p ∷ found))
      else let (w1, fetched) = seams.realise_path p w in
        let (w', found) = realise ps w1 in (w', if fetched then p ∷ found else found)

  -- The repair of what has been realised, before the command runs.
  unfoldable pub fix_realised : List String → W → W
  fix_realised [] w = w
  fix_realised (p ∷ ps) w = (seams.fix (p ∷ ps) w).0

  -- The pre-fetch pass of `Run`.
  unfoldable pub prefetch : List String → W → W
  prefetch [] w = w
  prefetch (s ∷ subs) w = let (w', found) = realise (s ∷ subs) w in fix_realised found w'

  -- The last lines of `repairSubstitutes`.
  unfoldable pub sweep_realised : List String → W → W × Bool
  sweep_realised [] w = (w, false)
  sweep_realised (p ∷ ps) w = let (w', code) = seams.fix (p ∷ ps) w in (w', code == 0)

  -- `repairSubstitutes`
  unfoldable pub repair_substitutes : List String → W → W × Bool
  repair_substitutes argv w =
      let (w1, subs) = seams.will_substitute argv w in
      let (w2, found) = realise subs w1 in sweep_realised found w2

  -- `Run` behind the first run of the command.
  unfoldable pub retry : List String → ℕ → W → W × ℕ
  retry argv code w =
      if code == 0
      then (w, 0)
      else let (w', repaired) = repair_substitutes argv w in
        if repaired then seams.passthrough argv w' else (w', code)

  -- `Run`
  unfoldable pub run : List String → W → W × ℕ
  run [] w = (w, 1)
  run (a ∷ args) w =
      let argv = a ∷ args in
      let (w1, subs) = seams.will_substitute argv w in
      let (w2, code) = seams.passthrough argv (prefetch subs w1) in retry argv code w2
