-- ===== src/Doctor/Pool.antt =====
-- internal/doctor/doctor.go: `walkParallel` behind the traversal, as the moves of its goroutines, each
-- up to the next operation on a channel or on the wait group, and `workers`.
pub mod Weight
pub mod Orderly
pub mod Bound
pub mod Moves
pub mod Visited
use machokeeper.Base.{
  ℕ, zero, suc, ◌+◌, ◌-◌, ◌*◌, ◌/◌, String, Bool, true, false, not, ◌&&◌, Option, none, some, List,
  [], ◌∷◌, ◌++◌, ltb, ◌==◌, ◌^◌, length, get_elem?, set, replicate, if◌then◌else◌, ◌>>=◌, ◌≡◌,
}
use machokeeper.Doctor.Scan.{Finding}

-- `scanConfig`
pub record ScanConfig : Type 0 where
  pub jobs : ℕ
  pub background : Bool

-- `scanConfig.workers`. `cpus` is what `runtime.NumCPU` returns.
unfoldable pub workers : ScanConfig → ℕ → ℕ
workers cfg cpus =
    if ltb 0 cfg.jobs
    then cfg.jobs
    else let n = if cfg.background && ltb 1 cpus then cpus / 2 else cpus in if ltb n 1 then 1 else n

-- Where a worker stands: at the receive of its loop, before the scan of a file, at the send of a
-- finding, or behind its loop.
pub data Worker : Type 0 where
  receiving : Worker
  scanning : String → Worker
  sending : Finding → Worker
  stopped : Worker

-- The files that the traversal has yet to send, the two channels, the workers, the counter of the
-- wait group, and the findings that `visit` was called with.
pub record Pool : Type 0 where
  pub to_send : List String
  pub files : List String
  pub files_closed : Bool
  pub workers : List Worker
  pub waiting : ℕ
  pub results : List Finding
  pub results_closed : Bool
  pub visited : List Finding

-- The goroutine that moves.
pub data Turn : Type 0 where
  traversal main closer : Turn
  worker : ℕ → Turn

-- Before any goroutine has moved.
unfoldable pub start : ℕ → List String → Pool
start n files = record {
  to_send = files;
  files = [];
  files_closed = false;
  workers = replicate n receiving;
  waiting = n;
  results = [];
  results_closed = false;
  visited = [];
}

-- Whether both calls of `make` can succeed: from 2^61 workers on, one of the channels has a negative
-- size, or one beyond any memory, and `make` panics.
unfoldable pub makes_channels : ℕ → Bool
makes_channels n = ltb n (2 ^ 61)

-- The capacity of `files`.
unfoldable pub files_capacity : ℕ → ℕ
files_capacity n = n * 4

-- The traversal sends a file, or closes `files` when it is done.
unfoldable pub send_file : ℕ → List String → Pool → Option Pool
send_file n [] s = if s.files_closed then none else some (record s { files_closed = true })
send_file n (p ∷ ps) s =
    if ltb (length s.files) (files_capacity n)
    then some (record s { to_send = ps; files = s.files ++ (p ∷ []) })
    else none

-- The loop over `results`.
unfoldable pub visit_result : List Finding → Pool → Option Pool
visit_result [] s = none
visit_result (f ∷ fs) s = some (record s { results = fs; visited = s.visited ++ (f ∷ []) })

-- The goroutine that waits for the workers and closes `results`.
unfoldable pub close_results : Pool → Option Pool
close_results s =
    if s.waiting == 0 && not s.results_closed
    then some (record s { results_closed = true })
    else none

-- The head of a worker's loop.
unfoldable pub receive : List String → Pool → Option (Worker × Pool)
receive [] s = if s.files_closed then some (stopped, record s { waiting = s.waiting - 1 }) else none
receive (p ∷ ps) s = some (scanning p, record s { files = ps })

unfoldable pub after_scan : Option Finding → Worker
after_scan none = receiving
after_scan (some f) = sending f

-- `scan` is `scanFile` with the configuration of the run.
module _ (scan : String → Option Finding) (n : ℕ) where
  unfoldable pub work : Worker → Pool → Option (Worker × Pool)
  work receiving s = receive s.files s
  work (scanning p) s = some (after_scan (scan p), s)
  work (sending f) s =
      if ltb (length s.results) n
      then some (receiving, record s { results = s.results ++ (f ∷ []) })
      else none
  work stopped s = none

  unfoldable pub move_worker : ℕ → Option Worker → Pool → Option Pool
  move_worker i none s = none
  move_worker i (some w) s = do (w', t) ← work w s; some (record t { workers = set i w' s.workers })

  -- One move: `none` where the goroutine is blocked, or has ended.
  unfoldable pub move : Turn → Pool → Option Pool
  move traversal s = send_file n s.to_send s
  move main s = visit_result s.results s
  move closer s = close_results s
  move (worker i) s = move_worker i (get_elem? s.workers i) s

  -- An interleaving of `k` moves that have led from the start on `files` to a state. There is none
  -- where `make` panics.
  pub data Reach (files : List String) : ℕ → Pool → Type 0 where
    begin : makes_channels n ≡ true → Reach files 0 (start n files)
    next :
        {k : ℕ} {s t : Pool} (turn : Turn)
        → Reach files k s
        → move turn s ≡ some t
        → Reach files (suc k) t

-- The loop over `results` has ended.
unfoldable pub is_finished : Pool → Bool
is_finished s = s.results_closed && length s.results == 0

-- The findings of the files, one after the other.
unfoldable pub scan_all : (String → Option Finding) → List String → List Finding
scan_all scan [] = []
scan_all scan (p ∷ ps) = elim (scan p) [ none ↦ scan_all scan ps | some f ↦ f ∷ scan_all scan ps ]
