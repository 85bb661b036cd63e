-- ===== src/Downloader/Retry.antt =====
-- What a retry keeps, drops and may overwrite.
use adp_pro.Prelude.{
  ℕ, ◌+◌, ◌<◌, ◌≡◌, ◌⊎◌, [], Bool, true, false, ◌||◌, String, Option, none, arith, if◌then◌else◌,
}
use adp_pro.Core.Models.{pending, starting, stopped, completed, error, verifying}
use adp_pro.Downloader.State.{Manager, Env, missing}
use adp_pro.Downloader.Sidecar.{load_progress, load_from, escapes, is_removable}
use adp_pro.Downloader.Finish.{on_verification_finished}
use adp_pro.Downloader.Lifecycle.{
  start, handle_metadata_fetched, prepare_retry, needs_clean_restart,
}
use adp_pro.Downloader.Fresh.{IsFresh, claim_file-IsFresh}

-- `prepare_retry` makes the download pending, in a new epoch with no worker, no error and no
-- pending restart, leaves its file, and lets it overwrite the destination if it might before or if
-- ADP made the file, and for no other reason.
prepare_retry-rights :
    (env : Env) (m : Manager)
    → let r = prepare_retry env m in
      (r.status ≡ pending)
      × (r.worker_epoch ≡ m.worker_epoch + 1)
      × (r.active_workers ≡ 0)
      × (r.traceback_info ≡ none)
      × (r.restart_required ≡ false)
      × (r.file ≡ m.file)
      × (r.allow_overwrite ≡ (m.allow_overwrite || m.destination_owned_by_adp))
unfolding prepare_retry needs_clean_restart
prepare_retry-rights env m = (
  ground arith,
  ground arith,
  ground arith,
  ground arith,
  ground arith,
  ground arith,
  ground arith,
)

-- After a transient error the retry keeps the progress, in memory and on disk.
prepare_retry-transient :
    (env : Env) (m : Manager)
    → m.status ≡ error
    → m.restart_required ≡ false
    → let r = prepare_retry env m in
      (r.downloaded_size ≡ m.downloaded_size)
      × (r.chunk_progress ≡ m.chunk_progress)
      × (r.sidecar ≡ m.sidecar)
unfolding prepare_retry needs_clean_restart
prepare_retry-transient env m e k = ground arith

-- After a stop, a completion or an error of integrity it drops the progress, and the sidecar too,
-- where that can be removed.
prepare_retry-clean :
    (env : Env) (m : Manager)
    → (m.status ≡ stopped)
      ⊎ (m.status ≡ completed)
      ⊎ ((m.status ≡ error) × (m.restart_required ≡ true))
    → is_removable env m.sidecar ≡ true
    → let r = prepare_retry env m in
      (r.downloaded_size ≡ 0) × (r.chunk_progress ≡ []) × (r.sidecar ≡ missing)
unfolding prepare_retry needs_clean_restart is_removable
prepare_retry-clean env m h k = ground arith

metadata-IsFresh :
    (env : Env) (m : Manager) (total : ℕ) (ranges : Bool) (etag modified : Option String)
    → m.status ≡ starting
    → m.sidecar ≡ missing
    → m.allow_overwrite ≡ true
    → 0 < total
    → IsFresh (handle_metadata_fetched env total ranges etag modified m)
unfolding handle_metadata_fetched load_progress load_from escapes
metadata-IsFresh env m total ranges etag modified s c o l =
    let m'' : Manager = record m {
      total_size = total;
      server_etag = etag;
      server_last_modified = modified;
      metadata_initialized = true;
      num_threads = if ranges then m.num_threads else 1;
      ranges_supported = ranges;
    } in
    ground (arith, claim_file-IsFresh env m'')

ready_again :
    (env : Env) (m : Manager)
    → m.status ≡ verifying
    → m.destination_owned_by_adp ≡ true
    → is_removable env m.sidecar ≡ true
    → let k = start env (prepare_retry env (on_verification_finished env false m.worker_epoch m)) in
      (k.status ≡ starting) × (k.sidecar ≡ missing) × (k.allow_overwrite ≡ true)
unfolding start prepare_retry needs_clean_restart on_verification_finished
ready_again env m v o k = ground arith

-- Once verification has found a file of ADP's wrong, a retry downloads it anew, if its sidecar is
-- gone or can be removed and the server names a size above 0: after the retry, the start and the
-- answer of the server, nothing counts as done and no range has progress.
pub integrity_retry_restarts :
    (env : Env) (m : Manager) (total : ℕ) (ranges : Bool) (etag modified : Option String)
    → m.status ≡ verifying
    → m.destination_owned_by_adp ≡ true
    → is_removable env m.sidecar ≡ true
    → 0 < total
    → let failed = on_verification_finished env false m.worker_epoch m in
      let r =
        handle_metadata_fetched env total ranges etag modified
          (start env (prepare_retry env failed)) in
      (r.downloaded_size ≡ 0) × (r.chunk_progress ≡ [])
integrity_retry_restarts env m total ranges etag modified v o k l =
    let failed : Manager = on_verification_finished env false m.worker_epoch m in
    let ready = ready_again env m v o k in
    let fresh =
      metadata-IsFresh env (start env (prepare_retry env failed)) total ranges etag modified ready.0
        ready.1 ready.2 l in
    (fresh.nothing, fresh.no_chunks)
