-- ===== src/Doctor/Pool/Orderly.antt =====
-- internal/doctor/doctor.go: what holds between the goroutines of `walkParallel` after each move.
use machokeeper.Base.{
  length-replicate, ltb, not, ◌++◌, ◌&&◌, OnSome, OnSome-if, OnSome-bind, OnSome-elim, ℕ, ◌+◌, ◌<◌,
  ◌≡◌, refl, String, true, Option, none, some, List, [], ◌∷◌, length, get_elem?, set, arith, ◌==◌,
}
use machokeeper.Doctor.Scan.{Finding}
use machokeeper.Doctor.Pool.{
  Worker, receiving, scanning, sending, stopped, Pool, Turn, traversal, main, closer, worker, start,
  send_file, visit_result, close_results, receive, after_scan, files_capacity, work, move_worker,
  move, Reach, begin, next,
}
use machokeeper.Doctor.Pool.Weight.{
  total, total-append, total-set, total-replicate, length-set, is_live, found, carried,
}

-- How often a finding counts that has not been visited.
abbrev pub pending : (String → Option Finding) → (Finding → ℕ) → Pool → ℕ
pending scan m s =
    total m s.results
    + total (carried scan m) s.workers
    + total (λ p. found scan m (scan p)) s.files
    + total (λ p. found scan m (scan p)) s.to_send

-- With `n` workers and the given files, the wait group counts the workers that have not stopped, and
-- a channel is closed when its senders are done.
pub record IsOrderly (scan : String → Option Finding) (n : ℕ) (files : List String) (s : Pool)
    : Type 0 where
  pub size : length s.workers ≡ n
  pub counted : s.waiting ≡ total is_live s.workers
  pub all_sent : s.files_closed ≡ true → length s.to_send ≡ 0
  pub drained : s.waiting < n → (s.files_closed ≡ true) × (length s.files ≡ 0)
  pub all_stopped : s.results_closed ≡ true → s.waiting ≡ 0
  pub kept :
      (m : Finding → ℕ)
      → total m s.visited + pending scan m s ≡ total (λ p. found scan m (scan p)) files

module _ (scan : String → Option Finding) (n : ℕ) (files : List String) where
  start-IsOrderly : IsOrderly scan n files (start n files)
  unfolding start
  start-IsOrderly = record {
    size = length-replicate n receiving;
    counted = grind (arith, total-replicate is_live n receiving);
    all_sent = λ h. ground arith;
    drained = λ h. absurd (omega arith);
    all_stopped = λ h. ground arith;
    kept = λ m. grind (arith, total-replicate (carried scan m) n receiving);
  }

  send_file-IsOrderly :
      (todo : List String) (s : Pool)
      → s.to_send ≡ todo
      → IsOrderly scan n files s
      → OnSome (IsOrderly scan n files) (send_file n todo s)
  unfolding send_file
  send_file-IsOrderly [] s e o =
      OnSome-if _ s.files_closed _ _ (λ h. tt)
        (λ h. record {
          size = o.size;
          counted = o.counted;
          all_sent = λ _. rw e refl;
          drained = λ l. absurd (ground (arith, o.drained l));
          all_stopped = o.all_stopped;
          kept = o.kept;
        })
  send_file-IsOrderly (p ∷ ps) s e o =
      OnSome-if _ (ltb (length s.files) (files_capacity n)) _ _
        (λ h. record {
          size = o.size;
          counted = o.counted;
          all_sent = λ c. absurd (grind (arith, o.all_sent c));
          drained = λ l. absurd (grind (arith, o.drained l, o.all_sent));
          all_stopped = o.all_stopped;
          kept = λ m.
              grind (arith, o.kept m, total-append (λ p. found scan m (scan p)) s.files (p ∷ []));
        })
        (λ h. tt)

  visit_result-IsOrderly :
      (queue : List Finding) (s : Pool)
      → s.results ≡ queue
      → IsOrderly scan n files s
      → OnSome (IsOrderly scan n files) (visit_result queue s)
  unfolding visit_result
  visit_result-IsOrderly [] s e o = tt
  visit_result-IsOrderly (f ∷ fs) s e o = record {
    size = o.size;
    counted = o.counted;
    all_sent = o.all_sent;
    drained = o.drained;
    all_stopped = o.all_stopped;
    kept = λ m. grind (arith, o.kept m, total-append m s.visited (f ∷ []));
  }

  close_results-IsOrderly :
      (s : Pool) → IsOrderly scan n files s → OnSome (IsOrderly scan n files) (close_results s)
  unfolding close_results
  close_results-IsOrderly s o =
      OnSome-if _ (s.waiting == 0 && not s.results_closed) _ _
        (λ h. record {
          size = o.size;
          counted = o.counted;
          all_sent = o.all_sent;
          drained = o.drained;
          all_stopped = λ _. ground (arith, h);
          kept = o.kept;
        })
        (λ h. tt)

  receive-IsOrderly :
      (queue : List String) (i : ℕ) (s : Pool)
      → s.files ≡ queue
      → get_elem? s.workers i ≡ some receiving
      → IsOrderly scan n files s
      → OnSome
          (λ (w, t). IsOrderly scan n files (record t { workers = set i w s.workers }))
          (receive queue s)
  unfolding receive
  receive-IsOrderly [] i s e g o =
      OnSome-if _ s.files_closed _ _
        (λ h.
          let less = total-set is_live i receiving stopped s.workers g in
          record {
            size = omega (arith, o.size, length-set i stopped s.workers);
            counted = omega (arith, o.counted, less);
            all_sent = o.all_sent;
            drained = λ _. (h, rw e refl);
            all_stopped = λ c. omega (arith, o.all_stopped c);
            kept = λ m.
                grind (arith, o.kept m, total-set (carried scan m) i receiving stopped s.workers g);
          })
        (λ h. tt)
  receive-IsOrderly (p ∷ ps) i s e g o =
      let same = total-set is_live i receiving (scanning p) s.workers g in
      record {
        size = omega (arith, o.size, length-set i (scanning p) s.workers);
        counted = omega (arith, o.counted, same);
        all_sent = o.all_sent;
        drained = λ l. absurd (grind (arith, o.drained l));
        all_stopped = o.all_stopped;
        kept = λ m.
            grind
              (arith, o.kept m, total-set (carried scan m) i receiving (scanning p) s.workers g);
      }

  -- A scan, and a send, keep the worker running.
  exchange-IsOrderly :
      (i : ℕ) (w w' : Worker) (rs : List Finding) (s : Pool)
      → get_elem? s.workers i ≡ some w
      → is_live w ≡ 1
      → is_live w' ≡ 1
      → ((m : Finding → ℕ) → total m rs + carried scan m w' ≡ total m s.results + carried scan m w)
      → IsOrderly scan n files s
      → IsOrderly scan n files (record s { results = rs; workers = set i w' s.workers })
  exchange-IsOrderly i w w' rs s g live live' same o = record {
    size = omega (arith, o.size, length-set i w' s.workers);
    counted = omega (arith, o.counted, live, live', total-set is_live i w w' s.workers g);
    all_sent = o.all_sent;
    drained = o.drained;
    all_stopped = o.all_stopped;
    kept = λ m. omega (arith, o.kept m, same m, total-set (carried scan m) i w w' s.workers g);
  }

  after_scan-live : (o : Option Finding) → is_live (after_scan o) ≡ 1
  unfolding after_scan
  after_scan-live none = refl
  after_scan-live (some f) = refl

  after_scan-carried :
      (m : Finding → ℕ) (o : Option Finding) → carried scan m (after_scan o) ≡ found scan m o
  unfolding after_scan
  after_scan-carried m none = refl
  after_scan-carried m (some f) = refl

  work-IsOrderly :
      (i : ℕ) (w : Worker) (s : Pool)
      → get_elem? s.workers i ≡ some w
      → IsOrderly scan n files s
      → OnSome
          (λ (w', t). IsOrderly scan n files (record t { workers = set i w' s.workers }))
          (work scan n w s)
  unfolding work
  work-IsOrderly i receiving s g o = receive-IsOrderly s.files i s refl g o
  work-IsOrderly i (scanning p) s g o =
      exchange-IsOrderly i (scanning p) (after_scan (scan p)) s.results s g refl
        (after_scan-live (scan p)) (λ m. omega (arith, after_scan-carried m (scan p))) o
  work-IsOrderly i (sending f) s g o =
      OnSome-if _ (ltb (length s.results) n) _ _
        (λ h.
          exchange-IsOrderly i (sending f) receiving (s.results ++ (f ∷ [])) s g refl refl
            (λ m. omega (arith, total-append m s.results (f ∷ []))) o)
        (λ h. tt)
  work-IsOrderly i stopped s g o = tt

  move_worker-IsOrderly :
      (i : ℕ) (w : Option Worker) (s : Pool)
      → get_elem? s.workers i ≡ w
      → IsOrderly scan n files s
      → OnSome (IsOrderly scan n files) (move_worker scan n i w s)
  unfolding move_worker
  move_worker-IsOrderly i none s g o = tt
  move_worker-IsOrderly i (some w) s g o =
      OnSome-bind (λ (w', t). IsOrderly scan n files (record t { workers = set i w' s.workers }))
        (IsOrderly scan n files) (work scan n w s) _ (work-IsOrderly i w s g o) (λ _ h. h)

  pub move-IsOrderly :
      (turn : Turn) (s : Pool)
      → IsOrderly scan n files s
      → OnSome (IsOrderly scan n files) (move scan n turn s)
  unfolding move
  move-IsOrderly traversal s o = send_file-IsOrderly s.to_send s refl o
  move-IsOrderly main s o = visit_result-IsOrderly s.results s refl o
  move-IsOrderly closer s o = close_results-IsOrderly s o
  move-IsOrderly (worker i) s o = move_worker-IsOrderly i (get_elem? s.workers i) s refl o

  -- In each state that an interleaving reaches: a channel is closed once, and only when no goroutine
  -- can send on it any more; and the findings visited, with those still to come, are those of the
  -- files, each as often.
  pub Reach-IsOrderly : {k : ℕ} {s : Pool} → Reach scan n files k s → IsOrderly scan n files s
  Reach-IsOrderly (begin made) = start-IsOrderly
  Reach-IsOrderly (next {s} {t} turn r e) =
      OnSome-elim _ (move scan n turn s) t (move-IsOrderly turn s (Reach-IsOrderly r)) e
