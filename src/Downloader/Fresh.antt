-- ===== src/Downloader/Fresh.antt =====
-- A transfer that begins with nothing done.
use adp_pro.Prelude.{ℕ, zero, suc, ◌+◌, ◌<◌, ◌≡◌, [], false, true, some, arith}
use adp_pro.Core.Models.{Status, downloading}
use adp_pro.Downloader.State.{Manager, Env, set_status}
use adp_pro.Downloader.Spawn.{
  start_chunk, start_chunks, after_chunks, fail_safe, reset_for_full_get, spawn_workers,
}
use adp_pro.Downloader.Lifecycle.{claim_file, create_file, begin_transfer}
use adp_pro.Downloader.Outcome.{set_status_lem, start_chunks_status}

-- A manager with nothing done and bytes to fetch.
pub record IsFresh (m : Manager) : Type 0 where
  pub nothing : m.downloaded_size ≡ 0
  pub no_chunks : m.chunk_progress ≡ []
  pub some_bytes : 0 < m.total_size

start_chunk-IsFresh : (i : ℕ) (m : Manager) → IsFresh m → IsFresh (start_chunk i m)
unfolding start_chunk
start_chunk-IsFresh i m f = ground arith

start_chunks-IsFresh : (n i : ℕ) (m : Manager) → IsFresh m → IsFresh (start_chunks n i m)
unfolding start_chunks
start_chunks-IsFresh zero i m f = f
start_chunks-IsFresh (suc n) i m f =
    start_chunks-IsFresh n (i + 1) (start_chunk i m) (start_chunk-IsFresh i m f)

after_chunks-IsFresh : (env : Env) (m : Manager) → IsFresh m → IsFresh (after_chunks env m)
unfolding after_chunks fail_safe
after_chunks-IsFresh env m f = ground arith

spawn_workers-IsFresh : (env : Env) (m : Manager) → IsFresh m → IsFresh (spawn_workers env m)
unfolding spawn_workers reset_for_full_get
spawn_workers-IsFresh env m f =
    let m' : Manager = record m { active_workers = 0 } in
    ground (
      arith,
      after_chunks-IsFresh env (start_chunks m.num_threads 0 m'),
      start_chunks-IsFresh m.num_threads 0 m'
          (record { nothing = f.nothing; no_chunks = f.no_chunks; some_bytes = f.some_bytes }),
    )

begin_transfer-IsFresh : (env : Env) (m : Manager) → IsFresh m → IsFresh (begin_transfer env m)
unfolding begin_transfer
begin_transfer-IsFresh env m f = ground (
  arith,
  spawn_workers-IsFresh env
      (set_status env downloading
        (record m { start_time = some env.now; downloaded_at_start = m.downloaded_size }))
      (unfold set_status in ground arith),
)

pub claim_file-IsFresh :
    (env : Env) (m : Manager)
    → m.allow_overwrite ≡ true
    → 0 < m.total_size
    → IsFresh (claim_file env (m, false) m)
unfolding claim_file create_file
claim_file-IsFresh env m o l = ground (arith, begin_transfer-IsFresh env (create_file env m))

-- Such a transfer is running afterwards, with the status that it had.
pub record IsRunning (s : Status) (m : Manager) : Type 0 where
  pub status : m.status ≡ s
  pub busy : 0 < m.active_workers

after_chunks-IsRunning :
    (env : Env) (m : Manager) → IsFresh m → IsRunning m.status (after_chunks env m)
unfolding after_chunks fail_safe
after_chunks-IsRunning env m f = ground arith

spawn_workers-IsRunning :
    (env : Env) (m : Manager) → IsFresh m → IsRunning m.status (spawn_workers env m)
unfolding spawn_workers reset_for_full_get
spawn_workers-IsRunning env m f =
    let m' : Manager = record m { active_workers = 0 } in
    ground (
      arith,
      after_chunks-IsRunning env (start_chunks m.num_threads 0 m'),
      start_chunks-IsFresh m.num_threads 0 m'
          (record { nothing = f.nothing; no_chunks = f.no_chunks; some_bytes = f.some_bytes }),
      start_chunks_status m.num_threads 0 m',
    )

pub begin_transfer-IsRunning :
    (env : Env) (m : Manager) → IsFresh m → IsRunning downloading (begin_transfer env m)
unfolding begin_transfer
begin_transfer-IsRunning env m f =
    let m' : Manager =
      set_status env downloading
        (record m { start_time = some env.now; downloaded_at_start = m.downloaded_size }) in
    ground (
      arith,
      spawn_workers-IsRunning env m' (unfold set_status in ground arith),
      set_status_lem env downloading
          (record m { start_time = some env.now; downloaded_at_start = m.downloaded_size }),
    )
