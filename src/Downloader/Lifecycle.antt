-- ===== src/Downloader/Lifecycle.antt =====
-- src/adp/core/downloader/manager.py: start, metadata, pause, resume, stop and retry.
use adp_pro.Prelude.{
  ℕ, ◌+◌, nat_eq, String, Bool, true, false, not, ◌&&◌, ◌||◌, Option, none, some, [], ◌∷◌,
  if◌then◌else◌, leb, is_some,
}
use adp_pro.Core.Models.{
  status_eq, pending, starting, downloading, paused, stopped, completed, error,
}
use adp_pro.Downloader.State.{
  Manager, Env, Allocation, refused, Message, unknown_size, already_exists, fetch_metadata, cleanup,
  set_status,
}
use adp_pro.Downloader.Sidecar.{
  load_progress, escapes, save_progress, write_initial_progress, remove_sidecar,
}
use adp_pro.Downloader.Finish.{fail, retire_workers, finish_download}
use adp_pro.Downloader.Spawn.{spawn_workers, reset_file}

unfoldable pub start : Env → Manager → Manager
unfolding set_status
start env m = let m' = set_status env starting m in record m' { tasks = fetch_metadata ∷ m'.tasks }

unfoldable pub handle_metadata_error : Env → Message → Manager → Manager
unfolding fail status_eq
handle_metadata_error env message m = if status_eq m.status stopped then m else fail env message m

abbrev pub is_refused : Allocation → Bool
is_refused refused = true
is_refused _ = false

-- What follows the first of the two attempts to open the file, one of which has succeeded.
unfoldable pub create_file : Env → Manager → Manager
unfolding reset_file write_initial_progress
create_file env m = write_initial_progress env (record m {
  downloaded_size = 0;
  chunk_progress = [];
  file = reset_file env.allocation m.total_size m.file;
  destination_owned_by_adp = true;
})

unfoldable pub begin_transfer : Env → Manager → Manager
begin_transfer env m =
    if leb m.total_size m.downloaded_size
    then finish_download env m
    else spawn_workers env (
        set_status env downloading
          (record m { start_time = some env.now; downloaded_at_start = m.downloaded_size }))

-- With the size known: adopt the sidecar's progress, refuse, or create the file. Where it cannot
-- be opened, the `OSError` of the second attempt leaves the handler, and nothing follows.
unfoldable pub claim_file : Env → Manager × Bool → Manager → Manager
claim_file env (loaded, adopted) m =
    if is_some m.file && adopted
    then begin_transfer env (record loaded { destination_owned_by_adp = true })
    else if is_some m.file && not m.allow_overwrite
    then handle_metadata_error env already_exists m
    else if is_refused env.allocation
    then record m { downloaded_size = 0; chunk_progress = [] }
    else begin_transfer env (create_file env m)

unfoldable pub handle_metadata_fetched :
    Env → ℕ → Bool → Option String → Option String → Manager → Manager
unfolding status_eq
handle_metadata_fetched env total_size accepts_ranges etag last_modified m =
    if status_eq m.status stopped || status_eq m.status error
    then m
    else let m' = record m {
      total_size = total_size;
      server_etag = etag;
      server_last_modified = last_modified;
      metadata_initialized = true;
    } in
      if leb total_size 0
      then handle_metadata_error env unknown_size m'
      else let m'' = record m' {
        num_threads = if accepts_ranges then m.num_threads else 1;
        ranges_supported = accepts_ranges;
      } in
        if escapes m.file m.sidecar then m'' else claim_file env (load_progress m'') m''

unfoldable pub pause : Env → Manager → Manager
unfolding set_status retire_workers save_progress
pause env m =
    if status_eq m.status downloading
    then save_progress env (retire_workers (set_status env paused m))
    else m

unfoldable pub resume : Env → Manager → Manager
unfolding status_eq
resume env m =
    if status_eq m.status paused
    then if not m.metadata_initialized
      then start env m
      else spawn_workers env (
          set_status env downloading (record m {
            start_time = some env.now;
            downloaded_at_start = m.downloaded_size;
            speed_history = [];
          }))
    else m

unfoldable pub stop : Env → Manager → Manager
unfolding set_status retire_workers
stop env m =
    if status_eq m.status stopped || status_eq m.status completed || status_eq m.status error
    then m
    else let m' = retire_workers (set_status env stopped m) in
      record m' { tasks = cleanup ∷ m'.tasks }

-- Whether a retry must drop the bytes on disk.
unfoldable pub needs_clean_restart : Manager → Bool
unfolding status_eq
needs_clean_restart m =
    (status_eq m.status stopped || status_eq m.status completed)
    || (status_eq m.status error && m.restart_required)

unfoldable pub discard_progress : Env → Manager → Manager
unfolding remove_sidecar
discard_progress env m = remove_sidecar env (record m { downloaded_size = 0; chunk_progress = [] })

unfoldable pub prepare_retry : Env → Manager → Manager
unfolding needs_clean_restart discard_progress set_status
prepare_retry env m =
    let m' = record m {
      workers = [];
      active_workers = 0;
      traceback_info = none;
      worker_epoch = m.worker_epoch + 1;
      allow_overwrite = if m.destination_owned_by_adp then true else m.allow_overwrite;
    } in
    let m'' = if needs_clean_restart m' then discard_progress env m' else m' in
    set_status env pending (record m'' { restart_required = false })

reset_run : Manager → Manager
reset_run m = record m {
  workers = [];
  active_workers = 0;
  traceback_info = none;
  allow_overwrite = if m.destination_owned_by_adp then true else m.allow_overwrite;
}

drop_counts : Manager → Manager
drop_counts m = record m { downloaded_size = 0; chunk_progress = [] }

unfoldable pub retry : Env → Manager → Manager
unfolding start reset_run drop_counts
retry env m =
    if status_eq m.status error
    then start env (reset_run m)
    else if status_eq m.status stopped
    then start env (drop_counts (reset_run m))
    else m
