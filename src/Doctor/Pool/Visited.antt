-- ===== src/Doctor/Pool/Visited.antt =====
-- internal/doctor/doctor.go: what `walkParallel` has delivered when it returns.
use machokeeper.Base.{
  ℕ, ◌<◌, ◌≡◌, refl, sym, ◌∙◌, String, true, Option, List, [], ◌∷◌, length, arith,
}
use machokeeper.Doctor.Scan.{Finding}
use machokeeper.Doctor.Pool.{
  Worker, receiving, scanning, sending, stopped, Pool, Reach, is_finished, scan_all,
}
use machokeeper.Doctor.Pool.Weight.{total, total-empty, is_live, found, carried, total-scan_all}
use machokeeper.Doctor.Pool.Orderly.{IsOrderly, Reach-IsOrderly}

module _ (scan : String → Option Finding) (n : ℕ) (some_workers : 0 < n) where
  carried-stopped :
      (m : Finding → ℕ) (ws : List Worker) → total is_live ws ≡ 0 → total (carried scan m) ws ≡ 0
  carried-stopped m [] h = refl
  carried-stopped m (receiving ∷ ws) h = absurd (omega arith)
  carried-stopped m (scanning p ∷ ws) h = absurd (omega arith)
  carried-stopped m (sending f ∷ ws) h = absurd (omega arith)
  carried-stopped m (stopped ∷ ws) h = omega (arith, carried-stopped m ws (omega arith))

  -- However the goroutines are scheduled, with at least one worker the findings
  -- that `visit` has been called with when the loop over `results` ends are those of a scan of the
  -- files one after the other, each as often: a number has the same sum over both.
  pub Reach-visited :
      {files : List String} {k : ℕ} {s : Pool}
      → Reach scan n files k s
      → is_finished s ≡ true
      → (m : Finding → ℕ) → total m s.visited ≡ total m (scan_all scan files)
  unfolding is_finished
  Reach-visited {files} {s} r done m =
      let o : IsOrderly scan n files s = Reach-IsOrderly scan n files r in
      let (closed, empty) : (s.results_closed ≡ true) × (length s.results ≡ 0) = ground arith in
      let waiting : s.waiting ≡ 0 = o.all_stopped closed in
      let (files_closed, no_files) = o.drained (omega arith) in
      omega (
        arith,
        o.kept m,
        total-empty m s.results empty,
        carried-stopped m s.workers (sym o.counted ∙ waiting),
        total-empty (λ p. found scan m (scan p)) s.files no_files,
        total-empty (λ p. found scan m (scan p)) s.to_send (o.all_sent files_closed),
        total-scan_all scan m files,
      )
