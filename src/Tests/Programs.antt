-- ===== src/Tests/Programs.antt =====
-- The theorems on the log of internal/wrap/wrap.go, on cmd/machokeeper/main.go, on the lock of
-- internal/doctor and on internal/machofixture at concrete inputs.
use machokeeper.Base.{
  ℕ, suc, ◌-◌, ◌≡◌, ◌≢◌, inl, inr, refl, String, true, false, Option, some, List, [], ◌∷◌, arith,
  codes, cut_prefix, text_equal, ◌++◌, At, here, At-cons, At-nil, pos, eq_string, eq_string_iff,
  ◌>>=◌, copy_at, copy,
}
use machokeeper.Nixstore.Lines.{split_at, on_first}
use machokeeper.Nixstore.StorePath.{before_slash}
use machokeeper.Wrap.Log.{
  LogEvent, store_prefix, trim_suffix, clean_rest, is_transfer, add_path, add_cut, read_first,
  read_start, read_event, known, dedupe_from, dedupe, event_of, read_line, read_lines,
  parse_substitute_paths,
}
use machokeeper.Wrap.Log.Trims.{Trims}
use machokeeper.Wrap.Log.Extracted.{
  IsNamed, parse_substitute_paths-IsNamed, parse_substitute_paths-transfer,
}
use machokeeper.Hook.{DoctorCalls}
use machokeeper.Cmd.{main}
use machokeeper.Cmd.Open.{main-open}
use machokeeper.Doctor.Lock.{LockCalls, repair_locked}
use machokeeper.Doctor.Lock.Balanced.{Counts, IsCounted, repair_locked-IsCounted}
use machokeeper.Engine.Defs.{ad_hoc, cms}
use machokeeper.Engine.Defs
use machokeeper.Fixture.{
  write_all, header_writes, write, le32, blob_writes, be32, entry_writes, directory_writes, byte,
  cms_writes, build, layout, repairable, with_cms, unsigned,
}
use machokeeper.Engine.Walk.{check}
use machokeeper.Tests.Fixtures.{toy}
use machokeeper.Tests.Engine.{run_detect, run_repair}

-- Every line asks for the description of one path.
abbrev querying : LogEvent
querying = record {
  action = "start";
  kind = pos 109;
  msg = [];
  fields = some (codes "/nix/store/a.narinfo") ∷ [];
}

abbrev unmarshal : List ℕ → Option LogEvent
unmarshal raw = some querying

abbrev log : List ℕ
log = codes "@nix 0"

log_line : At log (split_at b'\n' log)
unfolding split_at on_first
log_line = here refl

log_event : unmarshal (codes "0") ≡ some querying
log_event = refl

parse_substitute_paths-transfer_example :
    (p : List ℕ) × At p (parse_substitute_paths unmarshal log)
    × Trims (store_prefix ++ codes "a.narinfo") p
parse_substitute_paths-transfer_example =
    parse_substitute_paths-transfer unmarshal (codes "0") querying (codes "a.narinfo") [] log_event
      refl (inr refl) refl log log_line

copied : At (codes "/nix/store/a") (parse_substitute_paths unmarshal log)
unfolding parse_substitute_paths dedupe dedupe_from known split_at on_first read_lines read_line
    event_of cut_prefix read_event eq_string read_start is_transfer read_first add_cut add_path
    clean_rest trim_suffix before_slash text_equal
copied = here refl

parse_substitute_paths-IsNamed_example :
    IsNamed unmarshal (split_at b'\n' log) (codes "/nix/store/a")
parse_substitute_paths-IsNamed_example =
    parse_substitute_paths-IsNamed unmarshal log (codes "/nix/store/a") copied

-- Paths that name no entry of the store's directory are kept.
cleans_to_dir : clean_rest (codes ".narinfo") ≡ codes "/nix/store/"
unfolding clean_rest trim_suffix before_slash text_equal
cleans_to_dir = refl

cleans_to_parent : clean_rest (codes "../etc") ≡ codes "/nix/store/.."
unfolding clean_rest trim_suffix before_slash text_equal
cleans_to_parent = refl

abbrev strict_doctor : DoctorCalls ℕ
strict_doctor = record { run = λ args d. (d, 2); check = λ args d. (d, 2) }

path_is_named : ◌≢◌ {A = String} "p" ""
unfolding eq_string
path_is_named e = ground (arith, (eq_string_iff "p" "").1 e)

no_refusal : At {A = String} "--refuse" ("p" ∷ []) → ⊥
unfolding eq_string
no_refusal a = elim (At-cons "--refuse" "p" [] a) [
  | inl e ↦ ground (arith, (eq_string_iff "--refuse" "p").1 e)
  | inr b ↦ At-nil "--refuse" b
]

abbrev run_main : List String → ℕ → ℕ × ℕ
run_main = main strict_doctor (λ args d. (d, 1)) (λ args d. (d, 1)) (λ p. some (p ∷ [])) ("o" ∷ [])

main-open_example :
    ((run_main ("post-build-hook" ∷ []) 7).1 ≡ 0)
    × ((run_main ("sweep" ∷ []) 7).1 ≡ 0)
    × ((run_main ("scan-generation" ∷ "p" ∷ []) 7).1 ≡ 0)
main-open_example =
    main-open strict_doctor (λ p. some (p ∷ [])) (λ args d. (d, 1)) (λ args d. (d, 1)) ("o" ∷ [])
      "p" [] path_is_named no_refusal 7

-- Counts as the state of the world: the file opens, and the lock cannot be had.
abbrev busy_lock : LockCalls Counts
busy_lock = record {
  open_file = λ path s. (record s { opened = suc s.opened }, true);
  lock_shared = λ s. (s, false);
  unlock = λ s. record s { held = s.held - 1 };
  close = λ s. record s { opened = s.opened - 1 };
}

abbrev one_run : Counts → Counts
one_run s = record s { runs = suc s.runs }

busy_lock-IsCounted : IsCounted busy_lock one_run (λ s. s)
busy_lock-IsCounted = record {
  opens = λ path s. refl;
  locks = λ s. refl;
  unlocks = λ s. refl;
  closes = λ s. refl;
  function_runs = λ s. refl;
}

repair_locked-IsCounted_example :
    repair_locked busy_lock "lock" true one_run (record { opened = 3; held = 0; runs = 0 })
    ≡ record { opened = 3; held = 0; runs = 1 }
repair_locked-IsCounted_example =
    repair_locked-IsCounted busy_lock one_run (λ s. s) busy_lock-IsCounted "lock" true
      (record { opened = 3; held = 0; runs = 0 })

-- A fixture, opened for evaluation.
build_file : ℕ → ℕ → Option (List ℕ)
unfolding build write_all header_writes write le32 layout copy_at copy blob_writes be32 entry_writes
    directory_writes byte cms_writes
build_file = build

repairable_is_ad_hoc : (repairable 1 >>= run_detect) ≡ some ad_hoc
unfolding run_detect repairable build_file
repairable_is_ad_hoc = refl

with_cms_is_cms : (with_cms 1 >>= run_detect) ≡ some cms
unfolding run_detect with_cms build_file
with_cms_is_cms = refl

unsigned_is_unsigned : (unsigned >>= run_detect) ≡ some Defs.unsigned
unfolding run_detect unsigned build_file
unsigned_is_unsigned = refl

repairable_is_stale : (repairable 1 >>= (λ s. check toy s "f")) ≡ some true
unfolding run_repair repairable build_file
repairable_is_stale = refl
