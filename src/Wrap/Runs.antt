-- ===== src/Wrap/Runs.antt =====
-- internal/wrap/wrap.go: how often `Run` runs the command.
use machokeeper.Base.{
  ℕ, ◌≡◌, ◌≢◌, ◌⊎◌, ◌==◌, refl, ap, ◌∙◌, String, List, [], ◌∷◌, arith, inl, inr, Bool-cases,
}
use machokeeper.Wrap.{
  Seams, realise, fix_realised, prefetch, sweep_realised, repair_substitutes, retry, run,
}

-- The world keeps a log of the exit codes with which the command ran: a run adds its code, and
-- nothing else changes the log.
pub record IsLogged {W : Type 0} (seams : Seams W) (log : W → List ℕ) : Type 0 where
  pub asks : (argv : List String) (w : W) → log (seams.will_substitute argv w).0 ≡ log w
  pub realises : (p : String) (w : W) → log (seams.realise_path p w).0 ≡ log w
  pub fixes : (ps : List String) (w : W) → log (seams.fix ps w).0 ≡ log w
  pub runs :
      (argv : List String) (w : W)
      → log (seams.passthrough argv w).0 ≡ (seams.passthrough argv w).1 ∷ log w

module _ {W : Type 0} (seams : Seams W) (log : W → List ℕ) (l : IsLogged seams log) where
  realise-log : (ps : List String) (w : W) → log (realise seams ps w).0 ≡ log w
  unfolding realise
  realise-log [] w = refl
  realise-log (p ∷ ps) w = elim (Bool-cases (seams.stat p w)) [
    | inl e ↦ rw e (realise-log ps w)
    | inr e ↦ rw e (realise-log ps (seams.realise_path p w).0 ∙ l.realises p w)
  ]

  fix_realised-log : (ps : List String) (w : W) → log (fix_realised seams ps w) ≡ log w
  unfolding fix_realised
  fix_realised-log [] w = refl
  fix_realised-log (p ∷ ps) w = l.fixes (p ∷ ps) w

  prefetch-log : (subs : List String) (w : W) → log (prefetch seams subs w) ≡ log w
  unfolding prefetch
  prefetch-log [] w = refl
  prefetch-log (s ∷ subs) w =
      fix_realised-log (realise seams (s ∷ subs) w).1 (realise seams (s ∷ subs) w).0
      ∙ realise-log (s ∷ subs) w

  sweep_realised-log : (ps : List String) (w : W) → log (sweep_realised seams ps w).0 ≡ log w
  unfolding sweep_realised
  sweep_realised-log [] w = refl
  sweep_realised-log (p ∷ ps) w = l.fixes (p ∷ ps) w

  repair_substitutes-log :
      (argv : List String) (w : W) → log (repair_substitutes seams argv w).0 ≡ log w
  unfolding repair_substitutes
  repair_substitutes-log argv w =
      let (w1, subs) = seams.will_substitute argv w in
      sweep_realised-log (realise seams subs w1).1 (realise seams subs w1).0
      ∙ realise-log subs w1
      ∙ l.asks argv w

  -- The log after a run of the command that exited with `code`, and a retry.
  retry-log :
      (argv : List String) (code : ℕ) (w : W) (before : List ℕ)
      → log w ≡ code ∷ before
      → (log (retry seams argv code w).0 ≡ (retry seams argv code w).1 ∷ before)
        ⊎ ((code ≢ 0)
            × (log (retry seams argv code w).0 ≡ (retry seams argv code w).1 ∷ code ∷ before))
  unfolding retry
  retry-log argv code w before e = elim (Bool-cases (code == 0)) [
    | inl z ↦ inl (ground (arith, e))
    | inr z ↦
        let w' = (repair_substitutes seams argv w).0 in
        let f : log w' ≡ code ∷ before = repair_substitutes-log argv w ∙ e in
        elim (Bool-cases (repair_substitutes seams argv w).1) [
          | inl again ↦ inr (λ c. ground arith, ground (arith, l.runs argv w', f))
          | inr given_up ↦ inl (ground (arith, f))
        ]
  ]

  -- In a world that logs the exit codes of the command, `Run` on a command that is not empty runs it
  -- once, or twice if the first run did not exit with 0; it returns the exit code of the last run.
  pub run-IsLogged :
      (arg : String) (args : List String) (w : W)
      → (log (run seams (arg ∷ args) w).0 ≡ (run seams (arg ∷ args) w).1 ∷ log w)
        ⊎ ((first : ℕ) × (first ≢ 0)
            × (log (run seams (arg ∷ args) w).0 ≡ (run seams (arg ∷ args) w).1 ∷ first ∷ log w))
  unfolding run
  run-IsLogged arg args w =
      let argv = arg ∷ args in
      let (w1, subs) = seams.will_substitute argv w in
      let w2 = prefetch seams subs w1 in
      let (w3, code) = seams.passthrough argv w2 in
      let logged : log w3 ≡ code ∷ log w =
        l.runs argv w2 ∙ ap (λ (k : List ℕ). code ∷ k) (prefetch-log subs w1 ∙ l.asks argv w) in
      elim (retry-log argv code w3 (log w) logged) [ inl e ↦ inl e | inr (n, e) ↦ inr (code, n, e) ]
