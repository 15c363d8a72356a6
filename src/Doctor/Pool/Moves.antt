-- ===== src/Doctor/Pool/Moves.antt =====
-- internal/doctor/doctor.go: that the goroutines of `walkParallel` are never all blocked.
use machokeeper.Base.{
  Bool, ℕ, zero, suc, ◌^◌, ◌<◌, ◌≡◌, refl, ◌∙◌, String, true, false, Option, some, ◌⊎◌, inl, inr,
  List, [], ◌∷◌, length, get_elem?, arith, ltb, OnSome-elim, true, false, if◌then◌else◌, Bool-cases,
}
use machokeeper.Doctor.Scan.{Finding}
use machokeeper.Doctor.Pool.{
  Worker, receiving, scanning, sending, stopped, Pool, Turn, traversal, main, closer, worker,
  send_file, visit_result, close_results, receive, files_capacity, work, move_worker, move, Reach,
  next, is_finished,
}
use machokeeper.Doctor.Pool.Weight.{total, is_live}
use machokeeper.Doctor.Pool.Orderly.{IsOrderly, Reach-IsOrderly}
use machokeeper.Doctor.Pool.Bound.{rank, move-rank}

-- A worker that has not stopped, if one is live.
live_worker :
    (ws : List Worker)
    → (total is_live ws ≡ 0)
      ⊎ ((i : ℕ) × (w : Worker) × (get_elem? ws i ≡ some w) × (is_live w ≡ 1))
live_worker [] = inl refl
live_worker (receiving ∷ ws) = inr (0, receiving, refl, refl)
live_worker (scanning p ∷ ws) = inr (0, scanning p, refl, refl)
live_worker (sending f ∷ ws) = inr (0, sending f, refl, refl)
live_worker (stopped ∷ ws) = elim (live_worker ws) [
  | inl none_live ↦ inl (omega arith)
  | inr (i, w, g, live) ↦ inr (suc i, w, g, live)
]

-- The move is not blocked.
abbrev CanMove : {A : Type 0} → Option A → Type 0
CanMove {A} m = (a : A) × (m ≡ some a)

CanMove-if :
    {A : Type 0} (b : Bool) (m m' : Option A)
    → (b ≡ true → CanMove m)
    → (b ≡ false → CanMove m')
    → CanMove (if b then m else m')
CanMove-if true m m' h k = h refl
CanMove-if false m m' h k = k refl

module _ (scan : String → Option Finding) (n : ℕ) (some_workers : 0 < n) (fits : n < 2 ^ 61) where
  send_file-CanMove :
      (todo : List String) (s : Pool)
      → length s.files ≡ 0
      → s.files_closed ≡ false
      → CanMove (send_file n todo s)
  unfolding send_file files_capacity
  send_file-CanMove [] s e h = rw h (_, refl)
  send_file-CanMove (p ∷ ps) s e h =
      CanMove-if (ltb (length s.files) (files_capacity n)) _ _ (λ _. (_, refl))
        (λ full. absurd (ground (arith, full)))

  close_results-CanMove :
      (s : Pool) → s.waiting ≡ 0 → s.results_closed ≡ false → CanMove (close_results s)
  unfolding close_results
  close_results-CanMove s e h = rw (e, h) (_, refl)

  receive-CanMove :
      (queue : List String) (s : Pool) → (length queue ≡ 0) ⊎ CanMove (receive queue s)
  unfolding receive
  receive-CanMove [] s = inl refl
  receive-CanMove (p ∷ ps) s = inr (_, refl)

  receive_closed-CanMove :
      (queue : List String) (s : Pool) → s.files_closed ≡ true → CanMove (receive queue s)
  unfolding receive
  receive_closed-CanMove [] s h = rw h (_, refl)
  receive_closed-CanMove (p ∷ ps) s h = (_, refl)

  move_worker-CanMove :
      (i : ℕ) (w : Worker) (s : Pool)
      → get_elem? s.workers i ≡ some w
      → CanMove (work scan n w s)
      → CanMove (move scan n (worker i) s)
  unfolding move move_worker
  move_worker-CanMove i w s g ((w', t), e) = rw (g, e) (_, refl)

  live_worker-CanMove :
      (i : ℕ) (w : Worker) (s : Pool)
      → get_elem? s.workers i ≡ some w
      → is_live w ≡ 1
      → length s.results ≡ 0
      → (turn : Turn) × CanMove (move scan n turn s)
  unfolding work move
  live_worker-CanMove i receiving s g live e = elim (Bool-cases s.files_closed) [
    | inl closed ↦
        (worker i, move_worker-CanMove i receiving s g (receive_closed-CanMove s.files s closed))
    | inr open_ ↦ elim (receive-CanMove s.files s) [
      | inl empty ↦ (traversal, send_file-CanMove s.to_send s empty open_)
      | inr m ↦ (worker i, move_worker-CanMove i receiving s g m)
    ]
  ]
  live_worker-CanMove i (scanning p) s g live e =
      (worker i, move_worker-CanMove i (scanning p) s g (_, refl))
  live_worker-CanMove i (sending f) s g live e = (
    worker i,
    move_worker-CanMove i (sending f) s g (
        CanMove-if (ltb (length s.results) n) _ _ (λ _. (_, refl))
          (λ full. absurd (ground (arith, full)))),
  )
  live_worker-CanMove i stopped s g live e = absurd (omega arith)

  move_drained-CanMove :
      (files : List String) (s : Pool)
      → IsOrderly scan n files s
      → length s.results ≡ 0
      → (is_finished s ≡ true) ⊎ ((turn : Turn) × CanMove (move scan n turn s))
  unfolding is_finished move
  move_drained-CanMove files s o e = elim (live_worker s.workers) [
    | inl none_live ↦ elim (Bool-cases s.results_closed) [
      | inl closed ↦ inl (ground (arith, closed))
      | inr open_ ↦ inr (closer, close_results-CanMove s (o.counted ∙ none_live) open_)
    ]
    | inr (i, w, g, live) ↦ inr (live_worker-CanMove i w s g live e)
  ]

  visits :
      (queue : List Finding) (s : Pool)
      → s.results ≡ queue
      → (length s.results ≡ 0) ⊎ CanMove (visit_result queue s)
  unfolding visit_result
  visits [] s e = inl (rw e refl)
  visits (f ∷ fs) s e = inr (_, refl)

  -- No deadlock: with at least one worker, and fewer than 2^61, in each state that an interleaving
  -- reaches the loop over `results` has ended, or some goroutine can move.
  pub Reach-is_finished :
      {files : List String} {k : ℕ} {s : Pool}
      → Reach scan n files k s
      → (is_finished s ≡ true) ⊎ ((turn : Turn) × (t : Pool) × (move scan n turn s ≡ some t))
  unfolding move
  Reach-is_finished {files} {s} r = elim (visits s.results s refl) [
    | inl empty ↦ elim (move_drained-CanMove files s (Reach-IsOrderly scan n files r) empty) [
      | inl done ↦ inl done
      | inr (turn, m) ↦ inr (turn, m.0, m.1)
    ]
    | inr m ↦ inr (main, m.0, m.1)
  ]

  finish :
      (fuel : ℕ) {files : List String} {k : ℕ} {s : Pool}
      → rank s < fuel
      → Reach scan n files k s
      → (j : ℕ) × (t : Pool) × Reach scan n files j t × (is_finished t ≡ true)
  finish zero h r = absurd (omega arith)
  finish (suc fuel) {k = k} {s = s} h r = elim (Reach-is_finished r) [
    | inl done ↦ (k, s, r, done)
    | inr (turn, t, e) ↦
        finish fuel
          (omega (arith, OnSome-elim _ (move scan n turn s) t (move-rank scan n turn s) e))
          (next turn r e)
  ]

  -- From each state that an interleaving reaches, with at least one worker, and fewer than 2^61, an
  -- interleaving goes on to a state where the loop over `results` has ended.
  pub Reach-finish :
      {files : List String} {k : ℕ} {s : Pool}
      → Reach scan n files k s
      → (j : ℕ) × (t : Pool) × Reach scan n files j t × (is_finished t ≡ true)
  Reach-finish {s} r = finish (suc (rank s)) (omega arith) r
