-- ===== src/Downloader/Completion.antt =====
-- A download is complete only with the expected size in memory and on disk, and, where a checksum
-- was given, after its verification.
use adp_pro.Prelude.{
  ℕ, String, ◌-◌, [], if◌then◌else◌, ◌≡◌, ◌≢◌, ◌⊎◌, inl, inr, Bool, true, false, Option, some,
  arith,
}
use adp_pro.Core.Models.{downloading, completed, verifying}
use adp_pro.Downloader.State.{
  Manager, Message, already_exists, unknown_size, Env, truthy, set_status, update_progress,
}
use adp_pro.Downloader.Sidecar.{load_progress, save_progress}
use adp_pro.Downloader.Finish.{
  on_worker_error, on_worker_finished, on_chunk_downloaded, on_verification_finished,
  on_verification_error, fail,
}
use adp_pro.Downloader.Spawn.{spawn_workers}
use adp_pro.Downloader.Lifecycle.{
  start, claim_file, begin_transfer, create_file, handle_metadata_fetched, handle_metadata_error,
  pause, resume, stop, prepare_retry, retry,
}
use adp_pro.Downloader.Outcome.{
  set_status_lem, IsFullSize, finish_download-IsOutcome, spawn_workers-running_or_ended,
}
use adp_pro.Downloader.Events.{
  Report, chunk_downloaded, finished, worker_error, verified, verification_error, metadata_fetched,
  metadata_error, Call, starts, pauses, resumes, stops, prepares_retry, retries, receive, perform,
  Event, report, call, step,
}

-- What a completed manager shows for it, if it has just ended a transfer.
abbrev IsChecked : Manager → Type 0
IsChecked m = m.status ≡ completed → (truthy m.checksum ≡ false) × IsFullSize m

spawn-IsChecked :
    (env : Env) (m : Manager) → IsChecked (spawn_workers env (set_status env downloading m))
spawn-IsChecked env m e = ground (
  arith,
  set_status_lem env downloading m,
  spawn_workers-running_or_ended env (set_status env downloading m),
)

begin_transfer-IsChecked : (env : Env) (m : Manager) → IsChecked (begin_transfer env m)
unfolding begin_transfer
begin_transfer-IsChecked env m e = ground (
  arith,
  finish_download-IsOutcome env m,
  spawn-IsChecked env
      (record m { start_time = some env.now; downloaded_at_start = m.downloaded_size }),
)

handle_metadata_error_status :
    (env : Env) (message : Message) (m : Manager)
    → (handle_metadata_error env message m).status ≢ completed
unfolding handle_metadata_error fail set_status
handle_metadata_error_status env message m = ground arith

claim_file-IsChecked :
    (env : Env) (l : Manager × Bool) (m : Manager)
    → m.status ≢ completed
    → IsChecked (claim_file env l m)
unfolding claim_file
claim_file-IsChecked env (loaded, adopted) m h e = ground (
  arith,
  begin_transfer-IsChecked env (record loaded { destination_owned_by_adp = true }),
  begin_transfer-IsChecked env (create_file env m),
  handle_metadata_error_status env already_exists m,
)

-- The one way into completion beside the end of a transfer.
abbrev IsVerified : Manager → Event → Type 0
IsVerified m (report env (verified valid epoch)) =
    (m.status ≡ verifying) × (valid ≡ true) × (epoch ≡ m.worker_epoch)
IsVerified m _ = ⊥

finished-IsChecked :
    (env : Env) (epoch : ℕ) (m : Manager)
    → m.status ≢ completed
    → IsChecked (on_worker_finished env epoch m)
unfolding on_worker_finished
finished-IsChecked env epoch m h e =
    ground
      (arith, finish_download-IsOutcome env (record m { active_workers = m.active_workers - 1 }))

metadata-IsChecked :
    (env : Env) (total : ℕ) (ranges : Bool) (etag modified : Option String) (m : Manager)
    → m.status ≢ completed
    → IsChecked (handle_metadata_fetched env total ranges etag modified m)
unfolding handle_metadata_fetched
metadata-IsChecked env total ranges etag modified m h e =
    let m' : Manager = record m {
      total_size = total;
      server_etag = etag;
      server_last_modified = modified;
      metadata_initialized = true;
    } in
    let m'' : Manager = record m' {
      num_threads = if ranges then m.num_threads else 1;
      ranges_supported = ranges;
    } in
    ground (
      arith,
      handle_metadata_error_status env unknown_size m',
      claim_file-IsChecked env (load_progress m'') m'' h,
    )

receive-checked :
    (env : Env) (r : Report) (m : Manager)
    → m.status ≢ completed
    → (receive env r m).status ≡ completed
    → ((truthy (receive env r m).checksum ≡ false) × IsFullSize (receive env r m))
      ⊎ IsVerified m (report env r)
unfolding receive
receive-checked env (chunk_downloaded size) m h e =
    absurd (h (unfold on_chunk_downloaded save_progress update_progress in ground arith))
receive-checked env (finished epoch) m h e = inl (finished-IsChecked env epoch m h e)
receive-checked env (worker_error message epoch) m h e =
    absurd (unfold on_worker_error in ground arith)
receive-checked env (verified valid epoch) m h e =
    inr (unfold on_verification_finished in ground arith)
receive-checked env (verification_error message epoch) m h e =
    absurd (unfold on_verification_error in ground arith)
receive-checked env (metadata_fetched total ranges etag modified) m h e =
    inl (metadata-IsChecked env total ranges etag modified m h e)
receive-checked env (metadata_error message) m h e =
    absurd (handle_metadata_error_status env message m e)

resume-IsChecked : (env : Env) (m : Manager) → m.status ≢ completed → IsChecked (resume env m)
unfolding resume start
resume-IsChecked env m h e = ground (
  arith,
  spawn-IsChecked env (record m {
    start_time = some env.now;
    downloaded_at_start = m.downloaded_size;
    speed_history = [];
  }),
)

perform-checked :
    (env : Env) (c : Call) (m : Manager)
    → m.status ≢ completed
    → (perform env c m).status ≡ completed
    → (truthy (perform env c m).checksum ≡ false) × IsFullSize (perform env c m)
unfolding perform
perform-checked env starts m h e = absurd (unfold start in ground arith)
perform-checked env pauses m h e = absurd (unfold pause save_progress in ground arith)
perform-checked env resumes m h e = resume-IsChecked env m h e
perform-checked env stops m h e = absurd (unfold stop in ground arith)
perform-checked env prepares_retry m h e = absurd (unfold prepare_retry in ground arith)
perform-checked env retries m h e = absurd (unfold retry in ground arith)

-- Whatever happens, a manager that becomes completed either has no checksum, the counted bytes
-- and the file on disk both at the expected size, or it was verifying and the event is a valid
-- result of the verification of its own epoch.
pub completion_checked :
    (e : Event) (m : Manager)
    → m.status ≢ completed
    → (step e m).status ≡ completed
    → ((truthy (step e m).checksum ≡ false) × IsFullSize (step e m)) ⊎ IsVerified m e
unfolding step
completion_checked (report env r) m h c = receive-checked env r m h c
completion_checked (call env r) m h c = inl (perform-checked env r m h c)
