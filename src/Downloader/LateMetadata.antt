-- ===== src/Downloader/LateMetadata.antt =====
-- The answer to a metadata request carries no epoch, and can reach a later life of the download.
use adp_pro.Prelude.{ℕ, ◌<◌, ◌≡◌, Bool, true, false, String, Option, none, if◌then◌else◌, arith}
use adp_pro.Core.Models.{pending, starting, downloading}
use adp_pro.Downloader.State.{Manager, Env}
use adp_pro.Downloader.Sidecar.{escapes}
use adp_pro.Downloader.Lifecycle.{
  handle_metadata_fetched, claim_file, create_file, stop, prepare_retry, is_refused,
  needs_clean_restart,
}
use adp_pro.Downloader.Fresh.{IsRunning, begin_transfer-IsRunning}

waiting_again :
    (env : Env) (m : Manager)
    → m.status ≡ starting
    → m.file ≡ none
    → let w = prepare_retry env (stop env m) in (w.status ≡ pending) × (w.file ≡ none)
unfolding stop prepare_retry needs_clean_restart
waiting_again env m s f = ground arith

metadata-IsRunning :
    (env : Env) (w : Manager) (total : ℕ) (ranges : Bool) (etag modified : Option String)
    → w.status ≡ pending
    → w.file ≡ none
    → is_refused env.allocation ≡ false
    → 0 < total
    → IsRunning downloading (handle_metadata_fetched env total ranges etag modified w)
unfolding handle_metadata_fetched claim_file create_file escapes
metadata-IsRunning env w total ranges etag modified s f a l =
    let w' : Manager = record w {
      total_size = total;
      server_etag = etag;
      server_last_modified = modified;
      metadata_initialized = true;
      num_threads = if ranges then w.num_threads else 1;
      ranges_supported = ranges;
    } in
    ground (arith, begin_transfer-IsRunning env (create_file env w'))

-- A download that is stopped while it waits for its metadata and is then retried waits in the
-- queue. Where nothing lies at its destination and the file can be opened there, the old answer, with
-- a size above 0 and arriving now, starts its workers although the queue did not.
pub late_metadata_starts :
    (env : Env) (m : Manager) (total : ℕ) (ranges : Bool) (etag modified : Option String)
    → m.status ≡ starting
    → m.file ≡ none
    → is_refused env.allocation ≡ false
    → 0 < total
    → let w = prepare_retry env (stop env m) in
      let r = handle_metadata_fetched env total ranges etag modified w in
      (w.status ≡ pending) × (r.status ≡ downloading) × (0 < r.active_workers)
late_metadata_starts env m total ranges etag modified s f a l =
    let w : Manager = prepare_retry env (stop env m) in
    let waiting = waiting_again env m s f in
    let run = metadata-IsRunning env w total ranges etag modified waiting.0 waiting.1 a l in
    (waiting.0, run.status, run.busy)
