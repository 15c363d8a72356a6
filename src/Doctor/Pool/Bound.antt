-- ===== src/Doctor/Pool/Bound.antt =====
-- internal/doctor/doctor.go: how many moves the goroutines of `walkParallel` make.
use machokeeper.Base.{
  ℕ, ◌+◌, ◌*◌, ◌≤◌, ◌<◌, ◌≡◌, refl, String, not, ◌&&◌, Option, none, some, List, [], ◌∷◌, length,
  length-append, get_elem?, set, arith, ltb, ◌==◌, OnSome, OnSome-if, OnSome-bind, OnSome-elim,
  if◌then◌else◌,
}
use machokeeper.Doctor.Scan.{Finding}
use machokeeper.Doctor.Pool.{
  Worker, receiving, scanning, sending, stopped, Pool, Turn, traversal, main, closer, worker, start,
  send_file, visit_result, close_results, receive, after_scan, files_capacity, work, move_worker,
  move, Reach, begin, next,
}
use machokeeper.Doctor.Pool.Weight.{total, total-set, total-replicate}

-- The moves that a worker has left on the file it holds, with the one that stops it.
abbrev pub worker_rank : Worker → ℕ
worker_rank receiving = 1
worker_rank (scanning p) = 4
worker_rank (sending f) = 3
worker_rank stopped = 0

-- A bound on the moves that are left.
abbrev pub rank : Pool → ℕ
rank s =
    5 * length s.to_send
    + 4 * length s.files
    + total worker_rank s.workers
    + length s.results
    + (if s.files_closed then 0 else 1)
    + (if s.results_closed then 0 else 1)

module _ (scan : String → Option Finding) (n : ℕ) where
  send_file-rank :
      (todo : List String) (s : Pool)
      → s.to_send ≡ todo
      → OnSome (λ t. rank t < rank s) (send_file n todo s)
  unfolding send_file
  send_file-rank [] s e = OnSome-if _ s.files_closed _ _ (λ h. tt) (λ h. ground (arith, h))
  send_file-rank (p ∷ ps) s e =
      OnSome-if _ (ltb (length s.files) (files_capacity n)) _ _
        (λ h. grind (arith, length-append s.files (p ∷ []))) (λ h. tt)

  visit_result-rank :
      (queue : List Finding) (s : Pool)
      → s.results ≡ queue
      → OnSome (λ t. rank t < rank s) (visit_result queue s)
  unfolding visit_result
  visit_result-rank [] s e = tt
  visit_result-rank (f ∷ fs) s e = grind arith

  close_results-rank : (s : Pool) → OnSome (λ t. rank t < rank s) (close_results s)
  unfolding close_results
  close_results-rank s =
      OnSome-if _ (s.waiting == 0 && not s.results_closed) _ _ (λ h. ground (arith, h)) (λ h. tt)

  receive-rank :
      (queue : List String) (i : ℕ) (s : Pool)
      → s.files ≡ queue
      → get_elem? s.workers i ≡ some receiving
      → OnSome
          (λ (w, t). rank (record t { workers = set i w s.workers }) < rank s)
          (receive queue s)
  unfolding receive
  receive-rank [] i s e g =
      OnSome-if _ s.files_closed _ _
        (λ h. ground (arith, total-set worker_rank i receiving stopped s.workers g)) (λ h. tt)
  receive-rank (p ∷ ps) i s e g =
      grind (arith, total-set worker_rank i receiving (scanning p) s.workers g)

  after_scan-rank : (o : Option Finding) → worker_rank (after_scan o) ≤ 3
  unfolding after_scan
  after_scan-rank none = omega arith
  after_scan-rank (some f) = omega arith

  work-rank :
      (i : ℕ) (w : Worker) (s : Pool)
      → get_elem? s.workers i ≡ some w
      → OnSome
          (λ (w', t). rank (record t { workers = set i w' s.workers }) < rank s)
          (work scan n w s)
  unfolding work
  work-rank i receiving s g = receive-rank s.files i s refl g
  work-rank i (scanning p) s g = omega (
    arith,
    after_scan-rank (scan p),
    total-set worker_rank i (scanning p) (after_scan (scan p)) s.workers g,
  )
  work-rank i (sending f) s g =
      OnSome-if _ (ltb (length s.results) n) _ _
        (λ h. omega (
          arith,
          length-append s.results (f ∷ []),
          total-set worker_rank i (sending f) receiving s.workers g,
        ))
        (λ h. tt)
  work-rank i stopped s g = tt

  move_worker-rank :
      (i : ℕ) (w : Option Worker) (s : Pool)
      → get_elem? s.workers i ≡ w
      → OnSome (λ t. rank t < rank s) (move_worker scan n i w s)
  unfolding move_worker
  move_worker-rank i none s g = tt
  move_worker-rank i (some w) s g =
      OnSome-bind (λ (w', t). rank (record t { workers = set i w' s.workers }) < rank s)
        (λ t. rank t < rank s) (work scan n w s) _ (work-rank i w s g) (λ _ h. h)

  pub move-rank : (turn : Turn) (s : Pool) → OnSome (λ t. rank t < rank s) (move scan n turn s)
  unfolding move
  move-rank traversal s = send_file-rank s.to_send s refl
  move-rank main s = visit_result-rank s.results s refl
  move-rank closer s = close_results-rank s
  move-rank (worker i) s = move_worker-rank i (get_elem? s.workers i) s refl

  Reach-rank :
      {files : List String} {k : ℕ} {s : Pool}
      → Reach scan n files k s
      → k + rank s ≤ rank (start n files)
  Reach-rank (begin made) = omega arith
  Reach-rank (next {s} {t} turn r e) =
      omega (arith, Reach-rank r, OnSome-elim _ (move scan n turn s) t (move-rank turn s) e)

  -- However the goroutines are scheduled, `n` workers on the given files make at most five moves for
  -- each file, one for each worker, and two.
  pub Reach-bound :
      {k : ℕ} {files : List String} {s : Pool}
      → Reach scan n files k s
      → k ≤ 5 * length files + n + 2
  unfolding start
  Reach-bound {files} r = omega (arith, Reach-rank r, total-replicate worker_rank n receiving)
