-- ===== src/Downloader/Progress.antt =====
-- The sidecar carries the progress of one process to the next.
use adp_pro.Prelude.{◌+◌, ◌≡◌, ◌∙◌, ap, ◌⊎◌, true, false, arith, sum}
use adp_pro.Prelude.Dict.{values}
use adp_pro.Core.Models.{downloading, paused}
use adp_pro.Downloader.State.{Manager, Env, Sidecar, holds, truthy}
use adp_pro.Downloader.Sidecar.{load_progress, load_from, save_progress, is_usable, snapshot}
use adp_pro.Downloader.Lifecycle.{pause}
use adp_pro.Downloader.Overwrite.{is_usable_iff}

save_progress_lem :
    (env : Env) (m : Manager)
    → (m.status ≡ downloading) ⊎ (m.status ≡ paused)
    → env.can_write_sidecar ≡ true
    → (save_progress env m).sidecar ≡ holds (snapshot m)
unfolding save_progress
save_progress_lem env m run w = ground arith

load_from_lem :
    (m : Manager) (s : Sidecar)
    → is_usable m s ≡ true
    → load_from m (holds s) ≡ (
      record m {
        total_size = s.total_size;
        chunk_progress = s.chunk_progress;
        downloaded_size = sum (values s.chunk_progress);
      },
      true,
    )
unfolding load_from
load_from_lem m s u = rw u

-- What a running or paused download saves, where the sidecar can be written, a manager of the same
-- URL and destination loads, unless the server now names another ETag or another size: the same
-- progress of each range, and its sum as the bytes done.
pub load-save :
    (env : Env) (m k : Manager)
    → (m.status ≡ downloading) ⊎ (m.status ≡ paused)
    → env.can_write_sidecar ≡ true
    → m.url ≡ k.url
    → m.save_path ≡ k.save_path
    → (truthy k.server_etag ≡ false) ⊎ (m.server_etag ≡ k.server_etag)
    → (k.total_size ≡ 0) ⊎ (m.total_size ≡ k.total_size)
    → k.sidecar ≡ (save_progress env m).sidecar
    → load_progress k ≡ (
      record k {
        total_size = m.total_size;
        chunk_progress = m.chunk_progress;
        downloaded_size = sum (values m.chunk_progress);
      },
      true,
    )
unfolding load_progress snapshot
load-save env m k run w url path etag size e =
    ap (load_from k) (e ∙ save_progress_lem env m run w)
    ∙ load_from_lem k (snapshot m) (
        (is_usable_iff k (snapshot m)).1
          (record { url = url; save_path = path; etag = etag; total_size = size }))

-- Pausing retires the workers by a new epoch and keeps the bytes done, in memory and, where the
-- sidecar can be written, on disk.
pause_keeps_progress :
    (env : Env) (m : Manager)
    → m.status ≡ downloading
    → env.can_write_sidecar ≡ true
    → let r = pause env m in
      (r.status ≡ paused)
      × (r.worker_epoch ≡ m.worker_epoch + 1)
      × (r.active_workers ≡ 0)
      × (r.downloaded_size ≡ m.downloaded_size)
      × (r.chunk_progress ≡ m.chunk_progress)
      × (r.file ≡ m.file)
      × (r.sidecar ≡ holds (snapshot m))
unfolding pause save_progress snapshot
pause_keeps_progress env m h w = ground arith
