-- ===== src/Downloader/Finish.antt =====
-- src/adp/core/downloader/manager.py: how a run ends, in completion, verification or an error.
use adp_pro.Prelude.{
  ℕ, ◌+◌, ◌-◌, ◌==◌, nat_eq, Bool, true, not, ◌&&◌, Option, none, some, [], ◌∷◌, if◌then◌else◌, leb,
  ltb,
}
use adp_pro.Core.Models.{status_eq, downloading, completed, error, verifying}
use adp_pro.Downloader.State.{
  Manager, Env, Message, byte_count_mismatch, no_such_file, wrong_size_on_disk, checksum_failed,
  cleanup, verify, download_finished, error_occurred, truthy, set_status, update_progress,
}
use adp_pro.Downloader.Sidecar.{save_progress}

-- The workers' `is_stopped` flags are read by the workers alone, which exit on the new epoch too.
unfoldable pub retire_workers : Manager → Manager
retire_workers m = record m { worker_epoch = m.worker_epoch + 1; workers = []; active_workers = 0 }

-- Sets the status first, then tells the listeners.
unfoldable pub fail : Env → Message → Manager → Manager
unfolding set_status
fail env message m =
    let m' = set_status env error (record m { traceback_info = some message }) in
    record m' { signals = error_occurred message ∷ m'.signals }

unfoldable pub fail_and_retire : Env → Message → Manager → Manager
unfolding fail retire_workers
fail_and_retire env message m = retire_workers (fail env message m)

-- The tuple of a worker's signal carries its epoch; that of `finish_download` carries none.
unfoldable pub on_worker_error : Env → Message → Option ℕ → Manager → Manager
unfolding fail_and_retire
on_worker_error env message none m = fail_and_retire env message m
on_worker_error env message (some epoch) m =
    if epoch == m.worker_epoch then fail_and_retire env message m else m

unfoldable pub complete : Env → Manager → Manager
unfolding set_status
complete env m =
    let m' = set_status env completed m in
    record m' { signals = download_finished ∷ m'.signals; tasks = cleanup ∷ m'.tasks }

unfoldable pub start_verification : Env → Manager → Manager
unfolding set_status
start_verification env m =
    let m' = set_status env verifying m in record m' { tasks = verify m'.worker_epoch ∷ m'.tasks }

-- With the byte count right: the size on disk, then the checksum or completion.
unfoldable pub check_on_disk : Env → Option ℕ → Manager → Manager
check_on_disk env none m = on_worker_error env no_such_file none m
check_on_disk env (some on_disk) m =
    if not (on_disk == m.total_size)
    then on_worker_error env (wrong_size_on_disk on_disk m.total_size) none
        (record m { restart_required = true })
    else if truthy m.checksum
    then start_verification env m
    else complete env m

unfoldable pub finish_download : Env → Manager → Manager
finish_download env m =
    let m' = save_progress env m in
    if not (m'.downloaded_size == m'.total_size)
    then on_worker_error env byte_count_mismatch none (record m' { restart_required = true })
    else check_on_disk env (if env.can_stat then m'.file else none) m'

unfoldable pub on_worker_finished : Env → ℕ → Manager → Manager
unfolding status_eq
on_worker_finished env epoch m =
    if not (epoch == m.worker_epoch)
    then m
    else let m' = record m { active_workers = m.active_workers - 1 } in
      if leb m'.active_workers 0 && status_eq m'.status downloading
      then finish_download env m'
      else m'

unfoldable pub on_chunk_downloaded : Env → ℕ → Manager → Manager
unfolding save_progress update_progress
on_chunk_downloaded env size m =
    let m' = record m { downloaded_size = m.downloaded_size + size } in
    let m'' =
      if ltb (m'.last_save_time + 1000) env.now
      then record (save_progress env m') { last_save_time = env.now }
      else m' in
    update_progress env m''

unfoldable pub on_verification_finished : Env → Bool → ℕ → Manager → Manager
unfolding complete fail
on_verification_finished env is_valid epoch m =
    if not (status_eq m.status verifying)
    then m
    else if not (epoch == m.worker_epoch)
    then m
    else if is_valid
    then complete env m
    else fail env checksum_failed (record m { restart_required = true })

unfoldable pub on_verification_error : Env → Message → ℕ → Manager → Manager
unfolding fail
on_verification_error env message epoch m =
    if not (status_eq m.status verifying)
    then m
    else if not (epoch == m.worker_epoch)
    then m
    else fail env message m
