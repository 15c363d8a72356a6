-- ===== src/Doctor/Flags/Keeps.antt =====
-- internal/doctor/doctor.go: which arguments `parseScanFlags` keeps, and the numbers it reads.
use machokeeper.Base.{
  At-nil, At-append, ◌⊎◌, Option, Bool-cases, At-append_left, At-append_right, ℕ, ◌≡◌, refl, sym,
  ap, ◌∙◌, String, Bool, true, false, none, some, List, [], ◌∷◌, ◌++◌, arith, inl, inr,
  Option-cases, eq_string, At, here, there, codes, cut_prefix,
}
use mathlib.Core.Option.{none-ne-some}
use mathlib.Core.Path.{subst}
use machokeeper.Doctor.Pool.{ScanConfig}
use machokeeper.Doctor.Flags.{
  jobs_of, next_number, read_jobs, read_inline, read_arg, read_args, parse_scan_flags,
}

read_args-rest :
    (a : String) (skip : Bool) (args : List String) (cfg : ScanConfig) (rest : List String)
    → At a rest
    → At a (read_args skip args cfg rest).1
unfolding read_args
read_args-rest a skip [] cfg rest h = h
read_args-rest a true (b ∷ args) cfg rest h = read_args-rest a false args cfg rest h
read_args-rest a false (b ∷ args) cfg rest h =
    let round = read_arg b args cfg in
    read_args-rest a round.skip args round.config (rest ++ round.kept)
      (At-append_left a rest round.kept h)

read_inline-kept :
    (a b : String) (v : Option (List ℕ)) (cfg : ScanConfig)
    → At a (read_inline b v cfg).kept
    → a ≡ b
unfolding read_inline
read_inline-kept a b none cfg (here e) = e
read_inline-kept a b none cfg (there h) = elim h [ ]
read_inline-kept a b (some v) cfg h = elim h [ ]

read_jobs-kept : (a : String) (n : Option ℕ) (cfg : ScanConfig) → ¬ At a (read_jobs n cfg).kept
unfolding read_jobs
read_jobs-kept a none cfg h = elim h [ ]
read_jobs-kept a (some n) cfg h = elim h [ ]

read_arg-only :
    (a b : String) (args : List String) (cfg : ScanConfig) → At a (read_arg b args cfg).kept → a ≡ b
unfolding read_arg
read_arg-only a b args cfg h = elim (Bool-cases (eq_string b "--background")) [
  | inl e ↦ absurd (At-nil a (rw e at h))
  | inr e ↦ elim (Bool-cases (eq_string b "--jobs")) [
    | inl j ↦ absurd (read_jobs-kept a (next_number args) cfg (rw (e, j) at h))
    | inr j ↦ read_inline-kept a b _ cfg (rw (e, j) at h)
  ]
]

read_args-only :
    (a : String) (skip : Bool) (args : List String) (cfg : ScanConfig) (rest : List String)
    → At a (read_args skip args cfg rest).1
    → At a rest ⊎ At a args
unfolding read_args
read_args-only a skip [] cfg rest h = inl h
read_args-only a true (b ∷ args) cfg rest h = elim (read_args-only a false args cfg rest h) [
  | inl r ↦ inl r
  | inr m ↦ inr (there m)
]
read_args-only a false (b ∷ args) cfg rest h =
    let round = read_arg b args cfg in
    elim (read_args-only a round.skip args round.config (rest ++ round.kept) h) [
      | inl r ↦ elim ((At-append a rest round.kept).0 r) [
        | inl old ↦ inl old
        | inr new ↦ inr (here (read_arg-only a b args cfg new))
      ]
      | inr m ↦ inr (there m)
    ]

-- What `parseScanFlags` leaves is among its arguments.
pub parse_scan_flags-only :
    (a : String) (args : List String) → At a (parse_scan_flags args).1 → At a args
unfolding parse_scan_flags
parse_scan_flags-only a args h = elim (read_args-only a false args _ [] h) [
  | inl n ↦ elim n [ ]
  | inr m ↦ m
]

-- The next argument is consumed only if it is a number.
read_arg-skip :
    (b : String) (args : List String) (cfg : ScanConfig)
    → (read_arg b args cfg).skip ≡ true
    → (n : ℕ) × (next_number args ≡ some n)
unfolding read_arg read_jobs read_inline
read_arg-skip b args cfg h = elim (Option-cases (next_number args)) [
  | inl e ↦ absurd (ground (arith, cut_prefix (codes "--jobs=") (codes b)))
  | inr e ↦ e
]

module _ (a : String) (not_background : eq_string a "--background" ≡ false)
    (not_jobs : eq_string a "--jobs" ≡ false)
    (not_inline : cut_prefix (codes "--jobs=") (codes a) ≡ none)
    (not_number : jobs_of (codes a) ≡ none) where
  read_arg-kept : (args : List String) (cfg : ScanConfig) → At a (read_arg a args cfg).kept
  unfolding read_arg read_inline
  read_arg-kept args cfg = rw (not_background, not_jobs, not_inline) (here refl)

  read_args-keeps :
      (skip : Bool) (args : List String) (cfg : ScanConfig) (rest : List String)
      → (skip ≡ true → (n : ℕ) × (next_number args ≡ some n))
      → At a args
      → At a (read_args skip args cfg rest).1
  unfolding read_args next_number
  read_args-keeps skip [] cfg rest number h = elim h [ ]
  read_args-keeps true (b ∷ args) cfg rest number (here e) =
      let (n, some_number) = number refl in
      absurd (none-ne-some n (sym not_number ∙ ap (λ c. jobs_of (codes c)) e ∙ some_number))
  read_args-keeps true (b ∷ args) cfg rest number (there h) =
      read_args-keeps false args cfg rest (λ t. absurd (ground arith)) h
  read_args-keeps false (b ∷ args) cfg rest number (here e) =
      let round = read_arg b args cfg in
      read_args-rest a round.skip args round.config (rest ++ round.kept) (
        At-append_right a rest round.kept
          (subst (λ c. At a (read_arg c args cfg).kept) e (read_arg-kept args cfg)))
  read_args-keeps false (b ∷ args) cfg rest number (there h) =
      let round = read_arg b args cfg in
      read_args-keeps round.skip args round.config (rest ++ round.kept) (read_arg-skip b args cfg) h

  -- No path is swallowed: an argument that is no flag of `parseScanFlags`, and no positive number, is
  -- among the remaining arguments, also behind a `--jobs` whose number was forgotten.
  pub parse_scan_flags-keeps : (args : List String) → At a args → At a (parse_scan_flags args).1
  unfolding parse_scan_flags
  parse_scan_flags-keeps args h = read_args-keeps false args _ [] (λ t. absurd (ground arith)) h
