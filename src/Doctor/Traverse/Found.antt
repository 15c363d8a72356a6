-- ===== src/Doctor/Traverse/Found.antt =====
-- internal/doctor/doctor.go: the files of the findings that `walkParallel` delivers.
use machokeeper.Base.{
  ℕ, ◌<◌, ◌≡◌, refl, sym, ap, ◌∙◌, String, Option, none, some, List, [], ◌∷◌, arith, inl, inr,
  Option-cases, Bool-cases, At, here, there, eq_string, eq_string_iff, eq_string_refl,
  if◌then◌else◌,
}
use mathlib.Core.Path.{subst}
use machokeeper.Doctor.Scan.{Finding}
use machokeeper.Doctor.Pool.{scan_all}
use machokeeper.Doctor.Pool.Weight.{total}
use machokeeper.Doctor.Run.Rule.{AllFiles}
use machokeeper.Doctor.Traverse.{Tree, Info, Walked, files_of, scan_walk}
use machokeeper.Doctor.Traverse.Delivers.{Walked-scan_walk}

abbrev is_in : String → Finding → ℕ
is_in file f = if eq_string f.file file then 1 else 0

module _ (F : String → Type 0) where
  AllFiles-counted :
      (fs : List Finding) → ((file : String) → 0 < total (is_in file) fs → F file) → AllFiles F fs
  AllFiles-counted [] h = tt
  AllFiles-counted (f ∷ fs) h = (
    h f.file (ground (arith, eq_string_refl f.file)),
    AllFiles-counted fs (λ file n. h file (omega (arith, n))),
  )

  counted-AllFiles :
      (gs : List Finding) → AllFiles F gs → (file : String) → 0 < total (is_in file) gs → F file
  counted-AllFiles [] a file n = absurd (omega arith)
  counted-AllFiles (g ∷ gs) (h, a) file n = elim (Bool-cases (eq_string g.file file)) [
    | inl e ↦ subst F ((eq_string_iff g.file file).0 e) h
    | inr e ↦ counted-AllFiles gs a file (ground (arith, n))
  ]

  -- What is delivered in any order.
  AllFiles-same :
      (fs gs : List Finding)
      → ((m : Finding → ℕ) → total m fs ≡ total m gs)
      → AllFiles F gs
      → AllFiles F fs
  AllFiles-same fs gs same a =
      AllFiles-counted fs λ file n. counted-AllFiles gs a file (omega (arith, n, same (is_in file)))

  module _ (scan : String → Option Finding) where
    -- Every file of a finding in the files meets `F`.
    abbrev pub AllScanned : List String → Type 0
    AllScanned files = (p : String) (f : Finding) → At p files → scan p ≡ some f → F f.file

    AllFiles-scan_all : (files : List String) → AllScanned files → AllFiles F (scan_all scan files)
    unfolding scan_all
    AllFiles-scan_all [] h = tt
    AllFiles-scan_all (p ∷ files) h =
        let rest = AllFiles-scan_all files (λ q f a. h q f (there a)) in
        elim (Option-cases (scan p)) [
          | inl e ↦ rw (scan_all, e) rest
          | inr (f, e) ↦ rw (scan_all, e) (h p f (here refl) e, rest)
        ]

    scan_all-AllFiles : (files : List String) → AllFiles F (scan_all scan files) → AllScanned files
    unfolding scan_all
    scan_all-AllFiles [] a p f at e = elim at [ ]
    scan_all-AllFiles (q ∷ files) a p f (here s) e =
        let found = ap scan (sym s) ∙ e in (rw (scan_all, found) at a).0
    scan_all-AllFiles (q ∷ files) a p f (there at_rest) e = elim (Option-cases (scan q)) [
      | inl m ↦ scan_all-AllFiles files (rw (scan_all, m) at a) p f at_rest e
      | inr (g, m) ↦ scan_all-AllFiles files (rw (scan_all, m) at a).1 p f at_rest e
    ]

    module _ (n : ℕ) (some_workers : 0 < n) (root : String) (tree : Tree) where
      -- The findings that are delivered are those in the files that the traversal sends, and the other
      -- way round.
      pub Walked-AllFiles :
          (info : Option Info) (fs : List Finding)
          → Walked scan n root tree info (some fs)
          → AllScanned (files_of root info tree)
          → AllFiles F fs
      unfolding scan_walk
      Walked-AllFiles none fs w h = absurd (Walked-scan_walk scan n some_workers w)
      Walked-AllFiles (some info) fs w h =
          AllFiles-same fs _ (Walked-scan_walk scan n some_workers w)
            (AllFiles-scan_all (files_of root (some info) tree) h)

      pub Walked-AllScanned :
          (info : Option Info) (result : Option (List Finding))
          → Walked scan n root tree info result
          → ((fs : List Finding) → result ≡ some fs → AllFiles F fs)
          → AllScanned (files_of root info tree)
      unfolding scan_walk files_of
      Walked-AllScanned none result w h p f at e = elim at [ ]
      Walked-AllScanned (some info) none w h p f at e =
          absurd (Walked-scan_walk scan n some_workers w)
      Walked-AllScanned (some info) (some fs) w h p f at e =
          scan_all-AllFiles (files_of root (some info) tree)
            (AllFiles-same _ fs (λ m. sym (Walked-scan_walk scan n some_workers w m)) (h fs refl)) p
            f at e
