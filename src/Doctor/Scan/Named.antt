-- ===== src/Doctor/Scan/Named.antt =====
-- internal/doctor/doctor.go: the file of a finding of `scanFile`.
use machokeeper.Base.{
  ℕ, ◌≡◌, refl, String, not, Option, none, some, List, inl, inr, ltb, if◌then◌else◌, OnSome,
  OnSome-if, OnSome-bind, ◌>>=◌, false, Option-cases,
}
use machokeeper.Engine.Defs.{Kind, unsigned, ad_hoc, cms, Hashes}
use machokeeper.Engine.Read.{has_macho_magic}
use machokeeper.Engine.Walk.{detect, check}
use machokeeper.Doctor.Plan.{trial_repair}
use machokeeper.Doctor.Scan.{
  Finding, Opened, Bounds, Loaded, loaded, too_large, unreadable, oversized_finding, is_ad_hoc,
  read_for_scan, report, inspect_signed, inspect, scan_loaded, scan_sized, scan_file,
}

-- Whatever the first result is.
OnSome-then {ℓ κ σ} :
    {A : Type ℓ} {B : Type κ} (Q : B → Type σ) (m : Option A) (f : A → Option B)
    → ((a : A) → OnSome Q (f a))
    → OnSome Q (m >>= f)
OnSome-then Q none f h = tt
OnSome-then Q (some a) f h = h a

module _ (hashes : Hashes) (path : String) where
  abbrev Names : Finding → Type 0
  Names g = g.file ≡ path

  report-Names : (contents : List ℕ) (kind : Kind) → OnSome Names (report hashes contents path kind)
  unfolding report
  report-Names contents kind =
      OnSome-then Names (if is_ad_hoc kind then trial_repair hashes contents path else some false) _
        λ b. refl

  inspect_signed-Names :
      (contents : List ℕ) (kind : Kind)
      → OnSome (OnSome Names) (inspect_signed hashes contents path kind)
  unfolding inspect_signed
  inspect_signed-Names contents kind =
      OnSome-then (OnSome Names) (check hashes contents path) _ λ stale.
        OnSome-if (OnSome Names) (not stale) _ _ (λ _. tt)
          λ _.
            OnSome-bind Names (OnSome Names) (report hashes contents path kind) _
              (report-Names contents kind) (λ g n. n)

  inspect-Names : (contents : List ℕ) → OnSome (OnSome Names) (inspect hashes contents path)
  unfolding inspect
  inspect-Names contents = OnSome-then (OnSome Names) (detect contents) _ by_kind
    where
      by_kind :
          (k : Kind)
          → OnSome
              (OnSome Names)
              (elim k [ unsigned ↦ some none | j ↦ inspect_signed hashes contents path j ])
      by_kind unsigned = tt
      by_kind ad_hoc = inspect_signed-Names contents ad_hoc
      by_kind cms = inspect_signed-Names contents cms

  scan_loaded-Names :
      (bounds : Bounds) (data_read : Loaded) (size : ℕ)
      → OnSome (OnSome Names) (scan_loaded hashes bounds data_read path size)
  unfolding scan_loaded oversized_finding
  scan_loaded-Names bounds (loaded contents) size = inspect-Names contents
  scan_loaded-Names bounds too_large size = refl
  scan_loaded-Names bounds unreadable size = tt

  scan_sized-Names :
      (bounds : Bounds) (f : Opened) → OnSome (OnSome Names) (scan_sized hashes bounds f path)
  unfolding scan_sized oversized_finding
  scan_sized-Names bounds f = elim (Option-cases f.size) [
    | inl e ↦ rw (scan_sized, e) tt
    | inr (size, e) ↦
        rw (scan_sized, e)
          (OnSome-if (OnSome Names) (ltb bounds.max_file_size size) _ _ (λ _. refl)
            λ _. scan_loaded-Names bounds (read_for_scan bounds f size) size)
  ]

  -- A finding of `scanFile` has the path of the file that was scanned.
  pub scan_file-Names :
      (bounds : Bounds) (f : Opened) → OnSome (OnSome Names) (scan_file hashes bounds f path)
  unfolding scan_file
  scan_file-Names bounds f =
      OnSome-if (OnSome Names) (not f.opens) _ _ (λ _. tt)
        λ _. elim (Option-cases f.peek) [
          | inl e ↦ rw (scan_file, e) tt
          | inr (prefix, e) ↦
              rw (scan_file, e)
                (OnSome-then (OnSome Names) (has_macho_magic prefix) _ λ magic.
                  OnSome-if (OnSome Names) (not magic) _ _ (λ _. tt) λ _. scan_sized-Names bounds f)
        ]
