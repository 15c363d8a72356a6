-- ===== src/Doctor/Command/Clean.antt =====
-- internal/doctor/doctor.go: `Run`, its scan and its repairs together, on the files below its paths.
use machokeeper.Base.{
  ℕ, ◌<◌, ◌^◌, ◌≡◌, sym, ◌∙◌, String, Option, none, some, List, inl, inr, Option-cases, length,
  OnSome, OnSome-elim, Returns, At,
}
use mathlib.Core.Path.{subst}
use mathlib.Core.List.{Permᴰ}
use machokeeper.Engine.Defs.{Hashes}
use machokeeper.Doctor.Scan.{Finding, Opened, Bounds, scan_file}
use machokeeper.Doctor.Scan.Finds.{IsPresented, IsFound, scan_file-IsFound}
use machokeeper.Doctor.Scan.Named.{scan_file-Names}
use machokeeper.Doctor.Disk.{Inode, Disk, System}
use machokeeper.Doctor.Disk.Keeps.{IsSmall}
use machokeeper.Doctor.Files.Repair.{IsFile}
use machokeeper.Doctor.Pool.{ScanConfig, workers}
use machokeeper.Doctor.Flags.Workers.{workers-parse_scan_flags}
use machokeeper.Doctor.Traverse.{Tree, Info, Walked, files_of}
use machokeeper.Doctor.Traverse.Found.{Walked-AllFiles, Walked-AllScanned}
use machokeeper.Doctor.Run.{Store}
use machokeeper.Doctor.Run.Repaired.{IsSound}
use machokeeper.Doctor.Command.{Surroundings, Outcome, paths_of, doctor_run}
use machokeeper.Doctor.Command.Sound.{
  IsRegular, IsIdempotent, IsJournalNew, config_of, flags_of, found_in, doctor_run-IsSound,
}

-- Every file that the traversal of a path sends is a regular file on the disk, and the system presents
-- its bytes, within the bounds on the size.
abbrev pub IsReadable :
    Bounds → (String → Opened) → (String → Option Info) → (String → Tree) → Disk → String → Type 0
IsReadable bounds present lstat tree d root =
    (p : String)
    → At p (files_of root (lstat root) (tree root))
    → (node : Inode) × IsFile d p node × IsPresented bounds (present p) node.bytes

module _ (hashes : Hashes) (bounds : Bounds) (present : String → Opened)
    (scan : String → Option Finding)
    (scans : (p : String) (result : Option Finding)
      → scan_file hashes bounds (present p) p ≡ some result
      → scan p ≡ result)
    (d : Disk) (small : IsSmall d) (p : String) (node : Inode) (f : IsFile d p node)
    (shown : IsPresented bounds (present p) node.bytes) where
  pub short : length node.bytes < 2 ^ 62
  short = subst (λ (n : Inode). length n.bytes < 2 ^ 62) f.content (small f.inode)

  pub scanned :
      (g : Option Finding)
      → scan p ≡ g
      → OnSome (λ h. h.file ≡ p) g × IsFound hashes node.bytes p short g
  scanned g e =
      let (result, s, found) =
        scan_file-IsFound hashes node.bytes p short bounds (present p) shown in
      let same = sym (scans p result s) ∙ e in
      (
        subst (OnSome (λ h. h.file ≡ p)) same
            (OnSome-elim _ _ result (scan_file-Names hashes p bounds (present p)) s),
        subst (IsFound hashes node.bytes p short) same found,
      )

module _ {S L : Type 0} (hashes : Hashes) (sys : System) (store : Store S) (around : Surroundings L)
    (idempotent : IsIdempotent store) (sort : List Finding → List Finding)
    (walk : ScanConfig → Disk → String → Option (List Finding))
    (permutes : (fs : List Finding) → Permᴰ (sort fs) fs) (bounds : Bounds)
    (present : String → Opened) (scan : String → Option Finding) (cpus : ℕ) (fits : cpus < 2 ^ 63)
    (lstat : String → Option Info) (tree : String → Tree) where
  -- `Run` returns, and exits with 0 only if nothing is broken: every regular file that the traversal
  -- of its paths meets has then only valid signatures, on the disk that `Run` leaves. `walkParallel`
  -- runs with any interleaving of its goroutines, on what `scanFile` returns for the bytes that the
  -- system presents, and whatever becomes of the lock, the probe, the write of the journal and the
  -- calls of the repairs. The files of the disk are of less than 2^62 bytes, and those that the
  -- traversal meets are presented within the bounds on the size; there are fewer than 2^63 processors;
  -- the sorting permutes the findings; the store path of a store path is itself; and the repairs leave
  -- no file of the journal's name.
  pub doctor_run-IsClean :
      (args : List String) (d : Disk) (db : S) (l : L)
      → IsSmall d
      → ((p : String) (result : Option Finding)
          → scan_file hashes bounds (present p) p ≡ some result
          → scan p ≡ result)
      → ((root : String)
          → At root (paths_of (flags_of args))
          → IsReadable bounds present lstat tree d root)
      → ((root : String)
          → Walked scan
              (workers (config_of args) cpus)
              root
              (tree root)
              (lstat root)
              (walk (config_of args) d root))
      → IsJournalNew hashes sys store around idempotent
          (flags_of args).fix_live
          (found_in hashes sys store around idempotent sort walk permutes args d)
          d
          db
      → Returns
          (λ (r : Outcome S L).
            r.1 ≡ 0
            → (root p : String) → At root (paths_of (flags_of args))
            → At p (files_of root (lstat root) (tree root))
            → IsSound hashes r.0.0.disk p)
          (doctor_run hashes sys store around sort walk args d db l)
  doctor_run-IsClean args d db l small scans readable walked is_new =
      let some_workers = (workers-parse_scan_flags args cpus fits).0 in
      let (r, ran, (keeps, sound)) =
        doctor_run-IsSound hashes sys store around idempotent sort walk permutes args d db l small
          (λ root fs at_root e.
            Walked-AllFiles (IsRegular d) scan _ some_workers root (tree root) (lstat root) fs
              (subst (Walked scan _ root (tree root) (lstat root)) e (walked root))
              (λ p g at_p s.
                let (node, f, shown) = readable root at_root p at_p in
                subst (IsRegular d)
                  (sym
                    (scanned hashes bounds present scan scans d small p node f shown (some g) s).0)
                  (node, f)))
          is_new in
      (
        r,
        ran,
        λ zero root p at_root at_p.
            let (node, f, shown) = readable root at_root p at_p in
            let answer = scanned hashes bounds present scan scans d small p node f shown in
            elim (Option-cases (scan p)) [
              | inl e ↦ keeps p (node, f, (answer none e).1)
              | inr (g, e) ↦ subst (IsSound hashes r.0.0.disk) (answer (some g) e).0 (
                  Walked-AllScanned (IsSound hashes r.0.0.disk) scan _ some_workers root (tree root)
                    (lstat root) _ (walked root) (λ fs w. sound zero root fs at_root w) p g at_p e)
            ],
      )
