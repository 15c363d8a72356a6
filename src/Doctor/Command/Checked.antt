-- ===== src/Doctor/Command/Checked.antt =====
-- internal/doctor/doctor.go: `Check`, with its scan, on the files below its paths.
use machokeeper.Base.{
  ◌<◌, ◌^◌, ◌≡◌, ◌≢◌, ◌↔◌, refl, ap, ℕ, String, false, Option, none, some, List, [], ◌∷◌, arith,
  inl, inr, Option-cases, At,
}
use mathlib.Core.Path.{subst}
use mathlib.Core.Option.{some-injective}
use machokeeper.Engine.Defs.{Hashes}
use machokeeper.Engine.Verify.Check.{IsFileValid}
use machokeeper.Doctor.Scan.{Finding, Opened, Bounds, scan_file}
use machokeeper.Doctor.Disk.{Inode, Disk}
use machokeeper.Doctor.Disk.Keeps.{IsSmall}
use machokeeper.Doctor.Files.Repair.{IsFile}
use machokeeper.Doctor.Pool.{ScanConfig, workers}
use machokeeper.Doctor.Flags.{parse_scan_flags}
use machokeeper.Doctor.Flags.Workers.{workers-parse_scan_flags}
use machokeeper.Doctor.Traverse.{Tree, Info, Walked, files_of, scan_walk}
use machokeeper.Doctor.Traverse.Found.{AllScanned, Walked-AllFiles, Walked-AllScanned}
use machokeeper.Doctor.Traverse.Delivers.{Walked-scan_walk}
use machokeeper.Doctor.Run.Rule.{AllFiles}
use machokeeper.Doctor.Run.Repaired.{IsSound}
use machokeeper.Doctor.Command.{is_empty, doctor_check}
use machokeeper.Doctor.Command.Exit.{check_paths-IsClean}
use machokeeper.Doctor.Command.Clean.{IsReadable, scanned}

none_found : (fs : List Finding) → AllFiles (λ file. ⊥) fs → fs ≡ []
none_found [] a = refl
none_found (f ∷ fs) (h, a) = absurd h

-- A name leads to one file.
same_file : (d : Disk) (p : String) (m n : Inode) → IsFile d p m → IsFile d p n → m ≡ n
same_file d p m n f g = ground (arith, f.named, g.named, f.content, g.content)

module _ (hashes : Hashes) (bounds : Bounds) (present : String → Opened)
    (scan : String → Option Finding)
    (scans : (p : String) (result : Option Finding)
      → scan_file hashes bounds (present p) p ≡ some result
      → scan p ≡ result)
    (lstat : String → Option Info) (tree : String → Tree) (d : Disk) (small : IsSmall d) where
  -- The path is there, and every regular file that its traversal meets has only valid signatures.
  abbrev pub IsIntact : String → Type 0
  IsIntact root =
      (lstat root ≢ none)
      × ((p : String) → At p (files_of root (lstat root) (tree root)) → IsSound hashes d p)

  module _ (root : String) (readable : IsReadable bounds present lstat tree d root) (n : ℕ)
      (some_workers : 0 < n) where
    nothing_found : Walked scan n root (tree root) (lstat root) (some []) → IsIntact root
    unfolding scan_walk
    nothing_found w = (
      λ e. absurd (
          Walked-scan_walk scan n some_workers
            (subst (λ (i : Option Info). Walked scan n root (tree root) i (some [])) e w)),
      λ p at_p.
          let (node, f, shown) = readable p at_p in
          elim (Option-cases (scan p)) [
            | inl e ↦ (
              node,
              f,
              (scanned hashes bounds present scan scans d small p node f shown none e).1,
            )
            | inr (g, e) ↦ absurd (
                Walked-AllScanned (λ file. ⊥) scan n some_workers root (tree root) (lstat root) _ w
                  (λ fs s. subst (AllFiles (λ file. ⊥)) (some-injective _ _ s) tt) p g at_p e)
          ],
    )

    finds_nothing :
        IsIntact root → AllScanned (λ file. ⊥) scan (files_of root (lstat root) (tree root))
    finds_nothing (there_is, sound) p g at_p e =
        let (node, f, shown) = readable p at_p in
        let (n, f', valid) = sound p at_p in
        (scanned hashes bounds present scan scans d small p node f shown (some g) e).1.0
          (subst (λ (m : Inode). IsFileValid hashes m.bytes) (same_file d p n node f' f) valid)

    intact-result :
        (result : Option (List Finding))
        → Walked scan n root (tree root) (lstat root) result
        → IsIntact root
        → result ≡ some []
    unfolding scan_walk
    intact-result none w intact = elim (Option-cases (lstat root)) [
      | inl e ↦ absurd (intact.0 e)
      | inr (info, e) ↦ absurd (
          Walked-scan_walk scan n some_workers
            (subst (λ (i : Option Info). Walked scan n root (tree root) i none) e w))
    ]
    intact-result (some fs) w intact = ap some (
        none_found fs (
          Walked-AllFiles (λ file. ⊥) scan n some_workers root (tree root) (lstat root) fs w
            (finds_nothing intact)))

  -- `Check` exits with 0 exactly if it is given a path, every path is there, and every regular file
  -- that the traversals meet has only valid signatures. So it is if the system presents these files,
  -- within the bounds on the size, on a disk whose files are of less than 2^62 bytes, with fewer than
  -- 2^63 processors, however the goroutines of `walkParallel` are scheduled.
  pub doctor_check-IsIntact :
      (walk : ScanConfig → String → Option (List Finding)) (args : List String) (cpus : ℕ)
      → cpus < 2 ^ 63
      → ((root : String)
          → At root (parse_scan_flags args).1
          → IsReadable bounds present lstat tree d root)
      → ((root : String)
          → Walked scan
              (workers (parse_scan_flags args).0 cpus)
              root
              (tree root)
              (lstat root)
              (walk (parse_scan_flags args).0 root))
      → (doctor_check walk args ≡ 0) ↔ (
          (is_empty (parse_scan_flags args).1 ≡ false)
          × ((root : String) → At root (parse_scan_flags args).1 → IsIntact root))
  unfolding doctor_check
  doctor_check-IsIntact walk args cpus fits readable walked =
      let some_workers = (workers-parse_scan_flags args cpus fits).0 in
      let (cfg, paths) = parse_scan_flags args in
      let exits = check_paths-IsClean (walk cfg) paths in
      (
        λ e.
            let (given, clean) = exits.0 e in
            (
              given,
              λ root at. nothing_found root (readable root at) (workers cfg cpus) some_workers (
                  subst (Walked scan _ root (tree root) (lstat root)) (clean root at)
                    (walked root)),
            ),
        λ (given, intact). exits.1 (
          given,
          λ root at.
              intact-result root (readable root at) (workers cfg cpus) some_workers _ (walked root)
                (intact root at),
        ),
      )
