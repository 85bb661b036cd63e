-- ===== src/Downloader/Outcome.antt =====
-- How `finish_download` and `_spawn_workers` can end.
use adp_pro.Prelude.{
  ℕ, zero, suc, ◌+◌, ◌<◌, ◌≡◌, refl, ◌∙◌, ◌⊎◌, nat_eq, true, false, Option, none, some, arith,
  if◌then◌else◌,
}
use adp_pro.Core.Models.{Status, status_eq, completed, error, verifying}
use adp_pro.Downloader.State.{Manager, Env, truthy, set_status}
use adp_pro.Downloader.Sidecar.{save_progress}
use adp_pro.Downloader.Finish.{
  finish_download, check_on_disk, on_worker_error, complete, start_verification,
}
use adp_pro.Downloader.Spawn.{
  start_chunk, start_chunks, after_chunks, spawn_workers, reset_for_full_get, fail_safe,
}

-- Memory and disk agree on the expected size.
pub record IsFullSize (m : Manager) : Type 0 where
  pub counted : m.downloaded_size ≡ m.total_size
  pub on_disk : m.file ≡ some m.total_size

-- The three ways in which a run ends.
abbrev pub IsOutcome : Manager → Type 0
IsOutcome m =
    (m.status ≡ error)
    ⊎ ((m.status ≡ completed) × (truthy m.checksum ≡ false) × IsFullSize m)
    ⊎ ((m.status ≡ verifying) × (truthy m.checksum ≡ true) × IsFullSize m)

pub set_status_lem : (env : Env) (s : Status) (m : Manager) → (set_status env s m).status ≡ s
unfolding set_status status_eq
set_status_lem env s m = ground arith

check_on_disk-IsOutcome :
    (env : Env) (o : Option ℕ) (m : Manager)
    → (o ≡ none) ⊎ (o ≡ m.file)
    → m.downloaded_size ≡ m.total_size
    → IsOutcome (check_on_disk env o m)
unfolding check_on_disk on_worker_error complete start_verification
check_on_disk-IsOutcome env none m h e = ground arith
check_on_disk-IsOutcome env (some n) m h e = ground arith

-- `finish_download` never leaves the run open.
pub finish_download-IsOutcome : (env : Env) (m : Manager) → IsOutcome (finish_download env m)
unfolding finish_download on_worker_error
finish_download-IsOutcome env m =
    let m' : Manager = save_progress env m in
    ground (arith, check_on_disk-IsOutcome env (if env.can_stat then m'.file else none) m')

start_chunk_status : (i : ℕ) (m : Manager) → (start_chunk i m).status ≡ m.status
unfolding start_chunk
start_chunk_status i m = ground arith

pub start_chunks_status : (n i : ℕ) (m : Manager) → (start_chunks n i m).status ≡ m.status
unfolding start_chunks
start_chunks_status zero i m = refl
start_chunks_status (suc n) i m =
    start_chunks_status n (i + 1) (start_chunk i m) ∙ start_chunk_status i m

after_chunks_lem :
    (env : Env) (m : Manager)
    → ((0 < (after_chunks env m).active_workers) × ((after_chunks env m).status ≡ m.status))
      ⊎ IsOutcome (after_chunks env m)
unfolding after_chunks fail_safe
after_chunks_lem env m = ground (arith, finish_download-IsOutcome env m)

-- After `_spawn_workers` some worker is running, and the status is what it was, or the run has
-- ended: with an error, verified bytes to come, or completion.
pub spawn_workers-running_or_ended :
    (env : Env) (m : Manager)
    → ((0 < (spawn_workers env m).active_workers) × ((spawn_workers env m).status ≡ m.status))
      ⊎ IsOutcome (spawn_workers env m)
unfolding spawn_workers reset_for_full_get
spawn_workers-running_or_ended env m =
    let m' : Manager = reset_for_full_get env (record m { active_workers = 0 }) in
    ground (
      arith,
      after_chunks_lem env (start_chunks m'.num_threads 0 m'),
      start_chunks_status m'.num_threads 0 m',
    )
