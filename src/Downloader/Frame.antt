-- ===== src/Downloader/Frame.antt =====
-- No call changes a download's id or destination, and only a retry or an answer to a metadata
-- request brings a finished one back.
use adp_pro.Prelude.{
  ℕ, zero, suc, ◌+◌, ◌-◌, ◌≡◌, refl, ◌∙◌, ◌⊎◌, String, Bool, true, false, Option, none, some, [],
  arith, if◌then◌else◌,
}
use adp_pro.Core.Models.{Status, status_eq, is_terminal, downloading, completed}
use adp_pro.Downloader.State.{Manager, Env, update_progress, set_status}
use adp_pro.Downloader.Sidecar.{load_progress, load_from, save_progress}
use adp_pro.Downloader.Finish.{
  finish_download, check_on_disk, complete, start_verification, on_worker_error, on_worker_finished,
  on_chunk_downloaded, on_verification_finished, on_verification_error, fail,
}
use adp_pro.Downloader.Spawn.{
  start_chunk, start_chunks, after_chunks, fail_safe, reset_for_full_get, spawn_workers,
}
use adp_pro.Downloader.Lifecycle.{
  start, handle_metadata_fetched, handle_metadata_error, claim_file, create_file, begin_transfer,
  pause, resume, stop, prepare_retry,
}
use adp_pro.Downloader.Events.{
  Report, chunk_downloaded, finished, worker_error, verified, verification_error, metadata_fetched,
  metadata_error, receive,
}

pub record IsSame (m r : Manager) : Type 0 where
  pub id : r.download_id ≡ m.download_id
  pub path : r.save_path ≡ m.save_path

IsSame-trans : {a b c : Manager} → IsSame a b → IsSame b c → IsSame a c
IsSame-trans f g = record { id = g.id ∙ f.id; path = g.path ∙ f.path }

pub set_status-IsSame : (env : Env) (s : Status) (m : Manager) → IsSame m (set_status env s m)
unfolding set_status
set_status-IsSame env s m = ground arith

check_on_disk-IsSame : (env : Env) (o : Option ℕ) (m : Manager) → IsSame m (check_on_disk env o m)
unfolding check_on_disk on_worker_error complete start_verification
check_on_disk-IsSame env none m = ground arith
check_on_disk-IsSame env (some n) m = ground arith

save_progress-IsSame : (env : Env) (m : Manager) → IsSame m (save_progress env m)
unfolding save_progress
save_progress-IsSame env m = ground arith

finish_download-IsSame : (env : Env) (m : Manager) → IsSame m (finish_download env m)
unfolding finish_download on_worker_error
finish_download-IsSame env m =
    let m' : Manager = save_progress env m in
    ground (
      arith,
      save_progress-IsSame env m,
      check_on_disk-IsSame env (if env.can_stat then m'.file else none) m',
    )

start_chunks-IsSame : (n i : ℕ) (m : Manager) → IsSame m (start_chunks n i m)
unfolding start_chunks start_chunk
start_chunks-IsSame zero i m = record { id = refl; path = refl }
start_chunks-IsSame (suc n) i m = ground (arith, start_chunks-IsSame n (i + 1) (start_chunk i m))

after_chunks-IsSame : (env : Env) (m : Manager) → IsSame m (after_chunks env m)
unfolding after_chunks fail_safe
after_chunks-IsSame env m = ground (arith, finish_download-IsSame env m)

spawn_workers-IsSame : (env : Env) (m : Manager) → IsSame m (spawn_workers env m)
unfolding spawn_workers reset_for_full_get
spawn_workers-IsSame env m =
    let m' : Manager = reset_for_full_get env (record m { active_workers = 0 }) in
    ground (
      arith,
      start_chunks-IsSame m'.num_threads 0 m',
      after_chunks-IsSame env (start_chunks m'.num_threads 0 m'),
    )

begin_transfer-IsSame : (env : Env) (m : Manager) → IsSame m (begin_transfer env m)
unfolding begin_transfer
begin_transfer-IsSame env m =
    let m' : Manager = record m {
      start_time = some env.now;
      downloaded_at_start = m.downloaded_size;
    } in
    ground (
      arith,
      finish_download-IsSame env m,
      set_status-IsSame env downloading m',
      spawn_workers-IsSame env (set_status env downloading m'),
    )

claim_file-IsSame :
    (env : Env) (l : Manager × Bool) (m : Manager) → IsSame m l.0 → IsSame m (claim_file env l m)
unfolding claim_file create_file handle_metadata_error fail
claim_file-IsSame env (loaded, adopted) m h = ground (
  arith,
  begin_transfer-IsSame env (record loaded { destination_owned_by_adp = true }),
  begin_transfer-IsSame env (create_file env m),
)

load_progress-IsSame : (m : Manager) → IsSame m (load_progress m).0
unfolding load_progress load_from
load_progress-IsSame m = ground arith

metadata-IsSame :
    (env : Env) (total : ℕ) (ranges : Bool) (etag modified : Option String) (m : Manager)
    → IsSame m (handle_metadata_fetched env total ranges etag modified m)
unfolding handle_metadata_fetched handle_metadata_error fail
metadata-IsSame env total ranges etag modified m =
    let m'' : Manager = record m {
      total_size = total;
      server_etag = etag;
      server_last_modified = modified;
      metadata_initialized = true;
      num_threads = if ranges then m.num_threads else 1;
      ranges_supported = ranges;
    } in
    ground (arith, load_progress-IsSame m'', claim_file-IsSame env (load_progress m'') m'')

resume-IsSame : (env : Env) (m : Manager) → IsSame m (resume env m)
unfolding resume start
resume-IsSame env m =
    let m' : Manager = record m {
      start_time = some env.now;
      downloaded_at_start = m.downloaded_size;
      speed_history = [];
    } in
    ground (
      arith,
      set_status-IsSame env downloading m',
      spawn_workers-IsSame env (set_status env downloading m'),
    )

-- The download is the same, and finished if it was.
pub record IsTame (m r : Manager) : Type 0 where
  pub same : IsSame m r
  pub lasting : (is_terminal m.status ≡ false) ⊎ (is_terminal r.status ≡ true)

pub start-IsSame : (env : Env) (m : Manager) → IsSame m (start env m)
unfolding start
start-IsSame env m = ground arith

pub pause-IsTame : (env : Env) (m : Manager) → IsTame m (pause env m)
unfolding pause save_progress is_terminal
pause-IsTame env m = ground arith

pub stop-IsTame : (env : Env) (m : Manager) → IsTame m (stop env m)
unfolding stop is_terminal
stop-IsTame env m = ground arith

resume_lasting :
    (env : Env) (m : Manager)
    → (is_terminal m.status ≡ false) ⊎ (is_terminal (resume env m).status ≡ true)
unfolding resume is_terminal
resume_lasting env m = ground arith

pub resume-IsTame : (env : Env) (m : Manager) → IsTame m (resume env m)
resume-IsTame env m = record { same = resume-IsSame env m; lasting = resume_lasting env m }

pub prepare_retry-IsSame : (env : Env) (m : Manager) → IsSame m (prepare_retry env m)
unfolding prepare_retry
prepare_retry-IsSame env m = ground arith

finished-IsTame : (env : Env) (epoch : ℕ) (m : Manager) → IsTame m (on_worker_finished env epoch m)
unfolding on_worker_finished is_terminal
finished-IsTame env epoch m =
    ground (arith, finish_download-IsSame env (record m { active_workers = m.active_workers - 1 }))

metadata_lasting :
    (env : Env) (total : ℕ) (ranges : Bool) (etag modified : Option String) (m : Manager)
    → status_eq m.status completed ≡ false
    → let r = handle_metadata_fetched env total ranges etag modified m in
      (is_terminal m.status ≡ false) ⊎ (is_terminal r.status ≡ true)
unfolding handle_metadata_fetched is_terminal
metadata_lasting env total ranges etag modified m h = ground arith

-- A report that may follow the manager's status: no answer to a metadata request after completion.
abbrev pub IsTimely : Manager → Report → Type 0
IsTimely m (metadata_fetched total ranges etag modified) = status_eq m.status completed ≡ false
IsTimely m _ = Unit

pub receive-IsTame :
    (env : Env) (r : Report) (m : Manager) → IsTimely m r → IsTame m (receive env r m)
unfolding receive is_terminal
receive-IsTame env (chunk_downloaded size) m h =
    unfold on_chunk_downloaded save_progress update_progress in ground arith
receive-IsTame env (finished epoch) m h = finished-IsTame env epoch m
receive-IsTame env (worker_error message epoch) m h = unfold on_worker_error in ground arith
receive-IsTame env (verified valid epoch) m h = unfold on_verification_finished in ground arith
receive-IsTame env (verification_error message epoch) m h =
    unfold on_verification_error in ground arith
receive-IsTame env (metadata_fetched total ranges etag modified) m h = record {
  same = metadata-IsSame env total ranges etag modified m;
  lasting = metadata_lasting env total ranges etag modified m h;
}
receive-IsTame env (metadata_error message) m h = unfold handle_metadata_error fail in ground arith
