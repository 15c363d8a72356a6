-- ===== src/Cmd/Open.antt =====
-- cmd/machokeeper/main.go: the exit codes of the commands that builds and activations run.
use machokeeper.Base.{
  ℕ, ◌≡◌, ◌≢◌, refl, sym, ap, ◌∙◌, String, Option, Option-cases, inl, inr, List, [], ◌∷◌, ◌++◌, At,
  here, there, eq_string, eq_string_ne,
}
use mathlib.Core.List.{append-nil, append_assoc}
use machokeeper.Hook.{DoctorCalls, post_build, scan_delta, scan_generation, sweep, closure_delta}
use machokeeper.Cmd.{
  Generation, read_generation, new_path_of, old_path_of, run_generation, run_command, main,
}

read_generation-repair :
    (args : List String) (g : Generation)
    → (At "--refuse" args → ⊥)
    → read_generation args g ≡ record g { rest = g.rest ++ args }
unfolding read_generation
read_generation-repair [] g h =
    ap (λ (r : List String). record g { rest = r }) (sym (append-nil g.rest))
read_generation-repair (a ∷ args) g h =
    let other = eq_string_ne a "--refuse" (λ e. h (here (sym e))) in
    let assoc = append_assoc g.rest (a ∷ []) args in
    rw other (
      read_generation-repair args (record g { rest = g.rest ++ (a ∷ []) }) (λ b. h (there b))
      ∙ ap (λ (r : List String). record g { rest = r }) assoc)

module _ {D : Type 0} (doctor : DoctorCalls D) (requisites : String → Option (List String)) where
  post_build-open : (out_paths : List String) (d : D) → (post_build doctor out_paths d).1 ≡ 0
  unfolding post_build
  post_build-open [] d = refl
  post_build-open (p ∷ ps) d = refl

  scan_delta-open : (delta : List String) (d : D) → (scan_delta doctor delta "repair" d).1 ≡ 0
  unfolding scan_delta eq_string
  scan_delta-open [] d = refl
  scan_delta-open (p ∷ ps) d = refl

  scan_generation-open :
      (new_path old_path : String) (d : D)
      → (scan_generation doctor requisites new_path old_path "repair" d).1 ≡ 0
  unfolding scan_generation
  scan_generation-open new_path old_path d =
      elim (Option-cases (closure_delta requisites new_path old_path)) [
        | inl e ↦ rw (scan_generation, e) refl
        | inr (delta, e) ↦ rw (scan_generation, e) (scan_delta-open delta d)
      ]

  module _ (undo wrap : List String → D → D × ℕ) (out_paths : List String) where
    -- The commands of builds and activations fail open, whatever the doctor does: post-build-hook and
    -- sweep exit with 0, and so does scan-generation on a path that is not empty, if --refuse is not
    -- among its arguments.
    pub main-open :
        (path : String) (args : List String)
        → path ≢ ""
        → (At "--refuse" (path ∷ args) → ⊥)
        → (d : D)
        → ((main doctor undo wrap requisites out_paths ("post-build-hook" ∷ args) d).1 ≡ 0)
          × ((main doctor undo wrap requisites out_paths ("sweep" ∷ args) d).1 ≡ 0)
          × ((main doctor undo wrap requisites out_paths ("scan-generation" ∷ path ∷ args) d).1 ≡ 0)
    unfolding main run_command eq_string sweep run_generation new_path_of old_path_of
    main-open path args named repairs d =
        let g : Generation = record { mode = "repair"; rest = [] } in
        (
          post_build-open out_paths d,
          refl,
          rw (read_generation-repair (path ∷ args) g repairs, eq_string_ne path "" named)
              (scan_generation-open path (new_path_of args) d),
        )
