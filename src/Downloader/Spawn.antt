-- ===== src/Downloader/Spawn.antt =====
-- src/adp/core/downloader/manager.py: splitting the file into ranges, a worker for each.
use adp_pro.Prelude.{
  ℕ, zero, suc, ◌+◌, ◌-◌, ◌*◌, ◌/◌, ◌==◌, nat_eq, not, ◌&&◌, Option, none, some, [], ◌∷◌, ◌++◌,
  if◌then◌else◌, ltb,
}
use adp_pro.Prelude.Dict.{get}
use adp_pro.Downloader.State.{
  Manager, Env, Allocation, allocated, emptied, refused, Worker, download,
}
use adp_pro.Downloader.Sidecar.{is_removable, remove_sidecar}
use adp_pro.Downloader.Finish.{finish_download}

unfoldable pub start_worker : ℕ → ℕ → Manager → Manager
start_worker start stop m =
    let worker : Worker = record { start = start; stop = stop; epoch = m.worker_epoch } in
    record m {
      workers = m.workers ++ worker ∷ [];
      active_workers = m.active_workers + 1;
      tasks = download worker ∷ m.tasks;
    }

abbrev or_zero : Option ℕ → ℕ
or_zero none = 0
or_zero (some n) = n

-- Range `i` of `n` over `total` bytes: its first byte, and the byte after its last one.
unfoldable pub chunk_start : ℕ → ℕ → ℕ → ℕ
chunk_start total n i = i * (total / n)

unfoldable pub chunk_stop : ℕ → ℕ → ℕ → ℕ
unfolding chunk_start
chunk_stop total n i = if ltb i (n - 1) then chunk_start total n i + total / n else total

unfoldable pub start_chunk : ℕ → Manager → Manager
unfolding start_worker chunk_stop get
start_chunk i m =
    let start = chunk_start m.total_size m.num_threads i in
    let stop = chunk_stop m.total_size m.num_threads i in
    if ltb (or_zero (get m.chunk_progress start)) (stop - start)
    then start_worker start stop m
    else m

-- `for i in range(num_threads)`, with the rounds left first.
unfoldable pub start_chunks : ℕ → ℕ → Manager → Manager
start_chunks zero i m = m
start_chunks (suc rounds) i m = start_chunks rounds (i + 1) (start_chunk i m)

-- `open(..., 'wb')`, then a seek and the last byte, in a `try` that logs.
unfoldable pub reset_file : Allocation → ℕ → Option ℕ → Option ℕ
reset_file allocated total file = some total
reset_file emptied total file = some 0
reset_file refused total file = file

-- A server without ranges sends the whole file: earlier progress is dropped.
unfoldable pub reset_for_full_get : Env → Manager → Manager
unfolding reset_file
reset_for_full_get env m =
    if not m.ranges_supported && ltb 0 m.downloaded_size
    then record m {
      chunk_progress = [];
      downloaded_size = 0;
      downloaded_at_start = 0;
      file = reset_file env.allocation m.total_size m.file;
    }
    else m

-- The sidecar is removed first; if that raises, the file is not touched.
unfoldable pub fail_safe : Env → Manager → Manager
unfolding remove_sidecar reset_file start_worker
fail_safe env m =
    let m' = remove_sidecar env m in
    start_worker 0 m.total_size (record m' {
      chunk_progress = [];
      downloaded_size = 0;
      downloaded_at_start = 0;
      speed_history = [];
      file =
          if is_removable env m.sidecar
          then reset_file env.allocation m.total_size m.file
          else m.file;
    })

unfoldable pub after_chunks : Env → Manager → Manager
after_chunks env m =
    if m.active_workers == 0 && ltb m.downloaded_size m.total_size
    then fail_safe env m
    else if m.active_workers == 0
    then finish_download env m
    else m

unfoldable pub spawn_workers : Env → Manager → Manager
spawn_workers env m =
    let m' = reset_for_full_get env (record m { active_workers = 0 }) in
    after_chunks env (start_chunks m'.num_threads 0 m')
