-- ===== src/Downloader/Tiling.antt =====
-- The ranges of `_spawn_workers` cover the file, each byte once.
use adp_pro.Prelude.{
  ℕ, zero, suc, ◌+◌, ◌*◌, ◌/◌, ◌≤◌, ◌<◌, ◌≡◌, refl, ◌∙◌, sym, ap, subst, List, [], ◌∷◌, ◌++◌, arith,
  if◌then◌else◌, ltb,
}
use native.Mathlib.Nat.{div-add-mod}
use mathlib.Core.List.{append-nil, append_assoc}
use adp_pro.Prelude.Dict.{get}
use adp_pro.Downloader.State.{Manager, Worker}
use adp_pro.Downloader.Spawn.{chunk_start, chunk_stop, start_chunk, start_chunks}

-- The workers' ranges follow one another from `a` to `b`, none of them empty.
abbrev pub Tiles : List Worker → ℕ → ℕ → Type 0
Tiles [] a b = a ≡ b
Tiles (w ∷ ws) a b = (w.start ≡ a) × (w.start < w.stop) × Tiles ws w.stop b

-- How many of the workers have the byte in their range.
abbrev pub holders : ℕ → List Worker → ℕ
holders x [] = 0
holders x (w ∷ ws) = (if ltb x w.start then 0 else if ltb x w.stop then 1 else 0) + holders x ws

holders_below : (x a b : ℕ) (ws : List Worker) → Tiles ws a b → x < a → holders x ws ≡ 0
holders_below x a b [] t h = refl
holders_below x a b (w ∷ ws) t h = ground (arith, holders_below x w.stop b ws t.2)

-- In a tiling from `a` to `b` each byte between them has one holder.
Tiles-holders : (x a b : ℕ) (ws : List Worker) → Tiles ws a b → a ≤ x → x < b → holders x ws ≡ 1
Tiles-holders x a b [] t h l = absurd (omega arith)
Tiles-holders x a b (w ∷ ws) t h l =
    ground (arith, holders_below x w.stop b ws t.2, Tiles-holders x w.stop b ws t.2)

Tiles-append :
    (a b c : ℕ) (us vs : List Worker) → Tiles us a b → Tiles vs b c → Tiles (us ++ vs) a c
Tiles-append a b c [] vs t u = rw t u
Tiles-append a b c (w ∷ us) vs t u = (t.0, t.1, Tiles-append w.stop b c us vs t.2 u)

-- The bounds of the ranges, for `n` of them over `total` bytes.
start_zero : (total n : ℕ) → chunk_start total n 0 ≡ 0
unfolding chunk_start
start_zero total n = omega arith

bounds_meet : (total n i : ℕ) → i + 1 < n → chunk_stop total n i ≡ chunk_start total n (i + 1)
unfolding chunk_stop chunk_start
bounds_meet total n i h = ground arith

last_stop : (total n i : ℕ) → i + 1 ≡ n → chunk_stop total n i ≡ total
unfolding chunk_stop
last_stop total n i h = ground arith

scaled : (c i n : ℕ) → i ≤ n → i * c ≤ n * c
scaled c i n h = grind arith

start_le_total : (total n i : ℕ) → i ≤ n → chunk_start total n i ≤ total
unfolding chunk_start
start_le_total total n i h = omega (arith, scaled (total / n) i n h, div-add-mod total n)

start_le_stop : (total n i : ℕ) → i < n → chunk_start total n i ≤ chunk_stop total n i
unfolding chunk_stop
start_le_stop total n i h = ground (arith, start_le_total total n i)

-- The worker that round `i` starts where nothing is done yet: none for an empty range.
fresh_worker : ℕ → ℕ → ℕ → ℕ → List Worker
fresh_worker total n epoch i =
    if ltb (chunk_start total n i) (chunk_stop total n i)
    then record { start = chunk_start total n i; stop = chunk_stop total n i; epoch = epoch } ∷ []
    else []

fresh_workers : ℕ → ℕ → ℕ → ℕ → ℕ → List Worker
fresh_workers total n epoch zero i = []
fresh_workers total n epoch (suc rounds) i =
    fresh_worker total n epoch i ++ fresh_workers total n epoch rounds (i + 1)

fresh_worker-Tiles :
    (total n epoch i : ℕ)
    → i < n
    → Tiles (fresh_worker total n epoch i) (chunk_start total n i) (chunk_stop total n i)
unfolding fresh_worker
fresh_worker-Tiles total n epoch i h = ground (arith, start_le_stop total n i)

fresh_workers-Tiles :
    (total n epoch rounds i : ℕ)
    → suc rounds + i ≡ n
    → Tiles (fresh_workers total n epoch (suc rounds) i) (chunk_start total n i) total
unfolding fresh_workers
fresh_workers-Tiles total n epoch zero i h =
    Tiles-append _ (chunk_stop total n i) total (fresh_worker total n epoch i) []
      (fresh_worker-Tiles total n epoch i (omega arith)) (last_stop total n i (omega arith))
fresh_workers-Tiles total n epoch (suc rounds) i h =
    Tiles-append _ (chunk_stop total n i) total (fresh_worker total n epoch i) _
      (fresh_worker-Tiles total n epoch i (omega arith))
      (rw (bounds_meet total n i (omega arith))
        (fresh_workers-Tiles total n epoch rounds (i + 1) (omega arith)))

-- What the rounds keep fixed.
record IsFixed (total n epoch : ℕ) (m : Manager) : Type 0 where
  size : m.total_size ≡ total
  threads : m.num_threads ≡ n
  generation : m.worker_epoch ≡ epoch
  fresh : m.chunk_progress ≡ []

start_chunk-IsFixed :
    (total n epoch i : ℕ) (m : Manager)
    → IsFixed total n epoch m
    → IsFixed total n epoch (start_chunk i m)
unfolding start_chunk
start_chunk-IsFixed total n epoch i m f = ground arith

start_chunk-workers :
    (total n epoch i : ℕ) (m : Manager)
    → IsFixed total n epoch m
    → (start_chunk i m).workers ≡ m.workers ++ fresh_worker total n epoch i
unfolding start_chunk fresh_worker get
start_chunk-workers total n epoch i m f = ground (arith, append-nil m.workers)

start_chunks-workers :
    (total n epoch rounds i : ℕ) (m : Manager)
    → IsFixed total n epoch m
    → (start_chunks rounds i m).workers ≡ m.workers ++ fresh_workers total n epoch rounds i
unfolding start_chunks fresh_workers
start_chunks-workers total n epoch zero i m f = sym (append-nil m.workers)
start_chunks-workers total n epoch (suc rounds) i m f =
    start_chunks-workers total n epoch rounds (i + 1) (start_chunk i m)
      (start_chunk-IsFixed total n epoch i m f)
    ∙ ap (λ ws. ws ++ fresh_workers total n epoch rounds (i + 1))
        (start_chunk-workers total n epoch i m f)
    ∙ append_assoc m.workers (fresh_worker total n epoch i) _

-- A manager with no workers and no progress starts workers, at least one thread being configured,
-- whose ranges tile the file: each byte of it lies in the range of exactly one of them.
pub start_chunks-covers :
    (m : Manager) (x : ℕ)
    → m.workers ≡ []
    → m.chunk_progress ≡ []
    → 0 < m.num_threads
    → x < m.total_size
    → Tiles (start_chunks m.num_threads 0 m).workers 0 m.total_size
      × (holders x (start_chunks m.num_threads 0 m).workers ≡ 1)
start_chunks-covers m x none_yet fresh h l =
    (tiles, Tiles-holders x 0 m.total_size _ tiles (omega arith) l)
  where
    all :
        (k : ℕ)
        → k ≡ m.num_threads
        → 0 < k
        → Tiles (fresh_workers m.total_size m.num_threads m.worker_epoch k 0) 0 m.total_size
    all zero e p = absurd (omega arith)
    all (suc k) e p =
        subst
          (λ a.
            Tiles (fresh_workers m.total_size m.num_threads m.worker_epoch (suc k) 0) a
              m.total_size)
          (start_zero m.total_size m.num_threads)
          (fresh_workers-Tiles m.total_size m.num_threads m.worker_epoch k 0 (omega arith))

    tiles : Tiles (start_chunks m.num_threads 0 m).workers 0 m.total_size
    tiles =
        subst (λ ws. Tiles ws 0 m.total_size)
          (sym (
            start_chunks-workers m.total_size m.num_threads m.worker_epoch m.num_threads 0 m
              (record { size = refl; threads = refl; generation = refl; fresh = fresh })
            ∙ ap
                (λ (ws : List Worker).
                  ws ++ fresh_workers m.total_size m.num_threads m.worker_epoch m.num_threads 0)
                none_yet))
          (all m.num_threads refl h)
