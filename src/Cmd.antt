-- ===== src/Cmd.antt =====
-- cmd/machokeeper/main.go: the dispatch of `main`, without the texts that it prints.
pub mod Open
use machokeeper.Base.{ℕ, String, Option, List, [], ◌∷◌, ◌++◌, ◌||◌, if◌then◌else◌, eq_string}
use machokeeper.Hook.{DoctorCalls, post_build, scan_generation, sweep}

-- The variables of the command scan-generation.
pub record Generation : Type 0 where
  pub mode : String
  pub rest : List String

unfoldable pub read_generation : List String → Generation → Generation
read_generation [] g = g
read_generation (a ∷ args) g = read_generation args (
    if eq_string a "--refuse"
    then record g { mode = "refuse" }
    else record g { rest = g.rest ++ (a ∷ []) })

unfoldable pub new_path_of : List String → String
new_path_of [] = ""
new_path_of (p ∷ ps) = p

unfoldable pub old_path_of : List String → String
old_path_of [] = ""
old_path_of (p ∷ ps) = new_path_of ps

-- The arguments of the command wrap.
unfoldable pub without_dashes : List String → List String
without_dashes [] = []
without_dashes (a ∷ args) = if eq_string a "--" then args else a ∷ args

-- `doctor.Run` and `doctor.Check`, `doctor.Undo` and `wrap.Run`, the query of the hook, and the fields
-- of OUT_PATHS. `D` is the state of the world.
module _ {D : Type 0} (doctor : DoctorCalls D) (undo wrap : List String → D → D × ℕ)
    (requisites : String → Option (List String)) (out_paths : List String) where
  unfoldable pub run_generation : Generation → D → D × ℕ
  run_generation g d =
      let new_path = new_path_of g.rest in
      if eq_string new_path ""
      then (d, 1)
      else scan_generation doctor requisites new_path (old_path_of g.rest) g.mode d

  -- The `switch` of `main`: the state after, and the exit code.
  unfoldable pub run_command : String → List String → D → D × ℕ
  run_command command args d =
      if eq_string command "doctor"
      then doctor.run args d
      else if eq_string command "check"
      then doctor.check args d
      else if eq_string command "undo"
      then undo args d
      else if eq_string command "post-build-hook"
      then post_build doctor out_paths d
      else if eq_string command "scan-generation"
      then run_generation (read_generation args (record { mode = "repair"; rest = [] })) d
      else if eq_string command "sweep"
      then sweep doctor d
      else if eq_string command "wrap"
      then wrap (without_dashes args) d
      else if eq_string command "version" || eq_string command "--version"
      then (d, 0)
      else if eq_string command "help" || eq_string command "--help" || eq_string command "-h"
      then (d, 0)
      else (d, 1)

  -- `main`, on the arguments behind the program's name.
  unfoldable pub main : List String → D → D × ℕ
  main [] d = (d, 1)
  main (command ∷ args) d = run_command command args d
