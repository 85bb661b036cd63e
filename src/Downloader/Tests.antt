-- ===== src/Downloader/Tests.antt =====
-- Concrete downloads.
use adp_pro.Prelude.{◌<◌, ◌≡◌, ◌⊎◌, inl, inr, refl, true, false, none, some, List, [], ◌∷◌, arith}
use adp_pro.Core.Models.{
  pending, starting, downloading, stopped, completed, error, verifying, is_terminal,
}
use adp_pro.Downloader.State.{Manager, Env, allocated, holds, missing, odd, reported, truthy, init}
use adp_pro.Downloader.Sidecar.{load_progress, save_progress, snapshot, is_removable}
use adp_pro.Downloader.Finish.{
  on_verification_finished, finish_download, on_worker_finished, complete, check_on_disk,
}
use adp_pro.Downloader.Spawn.{start_chunks, spawn_workers}
use adp_pro.Downloader.Lifecycle.{handle_metadata_fetched, start, stop, prepare_retry}
use adp_pro.Downloader.Outcome.{IsFullSize, IsOutcome, spawn_workers-running_or_ended}
use adp_pro.Downloader.Events.{
  Report, chunk_downloaded, finished, worker_error, metadata_fetched, receive, receive_all, report,
  step,
}
use adp_pro.Downloader.Completion.{completion_checked}
use adp_pro.Downloader.Late.{stop_is_final}
use adp_pro.Downloader.Overwrite.{refuses_foreign_file}
use adp_pro.Downloader.Progress.{load-save}
use adp_pro.Downloader.Tiling.{Tiles, holders, start_chunks-covers}
use adp_pro.Downloader.Retry.{integrity_retry_restarts}
use adp_pro.Downloader.LateMetadata.{late_metadata_starts}

abbrev env : Env
env = record {
  now = 5000;
  allocation = allocated;
  can_write_sidecar = true;
  can_remove_sidecar = true;
  can_stat = true;
}

abbrev fresh : Manager
fresh = init "d1" "http://host/a.zip" "/tmp/a.zip" 4 none "Archives" 0 true false none missing

-- One worker of epoch 2 is left, and all ten bytes are there.
abbrev at_end : Manager
at_end = record fresh {
  status = downloading;
  total_size = 10;
  downloaded_size = 10;
  active_workers = 1;
  worker_epoch = 2;
  file = some 10;
  chunk_progress = (0, 5) ∷ (5, 5) ∷ [];
}

abbrev half_done : Manager
half_done = record at_end {
  downloaded_size = 7;
  active_workers = 2;
  chunk_progress = (0, 5) ∷ (5, 2) ∷ [];
}

abbrev foreign : Manager
foreign = record fresh { status = starting; file = some 99 }

at_end_completes : (step (report env (finished 2)) at_end).status ≡ completed
unfolding init step receive on_worker_finished finish_download save_progress complete check_on_disk
at_end_completes = refl

completion_checked_example :
    ((truthy (step (report env (finished 2)) at_end).checksum ≡ false)
      × IsFullSize (step (report env (finished 2)) at_end))
    ⊎ ⊥
completion_checked_example =
    completion_checked (report env (finished 2)) at_end (unfold init in λ e. cc) at_end_completes

abbrev late : List (Env × Report)
late =
    (env, chunk_downloaded 3)
    ∷ (env, worker_error (reported "reset") 2)
    ∷ (env, finished 1)
    ∷ (env, metadata_fetched 10 true none none)
    ∷ []

stop_is_final_example :
    let r = receive_all (stop env half_done) late in
    (r.status ≡ stopped)
    × (r.tasks ≡ (stop env half_done).tasks)
    × (r.file ≡ some 10)
    × (r.sidecar ≡ (stop env half_done).sidecar)
unfolding init
stop_is_final_example =
    stop_is_final env half_done late (unfold is_terminal in refl)
      (tt, (omega arith, (omega arith, (tt, tt))))

refuses_foreign_file_example :
    let r = handle_metadata_fetched env 10 true none none foreign in
    (r.file ≡ some 99)
    × (r.sidecar ≡ missing)
    × (r.tasks ≡ [])
    × ((r.status ≡ stopped)
        ⊎ (r.status ≡ error)
        ⊎ ((foreign.sidecar ≡ odd) × (r.status ≡ foreign.status)))
unfolding init
refuses_foreign_file_example =
    refuses_foreign_file env 10 true none none foreign 99 refl refl (λ s e k. cc)

-- A new process, with the file and the sidecar of the paused download.
abbrev restarted : Manager
restarted = record fresh {
  status = starting;
  total_size = 10;
  file = some 10;
  sidecar = (save_progress env half_done).sidecar;
}

load-save_example : load_progress restarted ≡ (
  record restarted { total_size = 10; chunk_progress = (0, 5) ∷ (5, 2) ∷ []; downloaded_size = 7 },
  true,
)
unfolding init
load-save_example =
    load-save env half_done restarted (inl refl) refl refl refl (inl refl) (inr refl) refl

abbrev sized : Manager
sized = record fresh { total_size = 10 }

start_chunks-covers_example :
    Tiles (start_chunks 4 0 sized).workers 0 10 × (holders 7 (start_chunks 4 0 sized).workers ≡ 1)
unfolding init
start_chunks-covers_example = start_chunks-covers sized 7 refl refl (omega arith) (omega arith)

spawn_workers-running_or_ended_example :
    ((0 < (spawn_workers env half_done).active_workers)
      × ((spawn_workers env half_done).status ≡ downloading))
    ⊎ IsOutcome (spawn_workers env half_done)
unfolding init
spawn_workers-running_or_ended_example = spawn_workers-running_or_ended env half_done

abbrev failed : Manager
failed = record half_done { status = error; destination_owned_by_adp = true }

abbrev corrupt : Manager
corrupt = record failed { restart_required = true }

abbrev checking : Manager
checking = record at_end {
  status = verifying;
  checksum = some "abc";
  destination_owned_by_adp = true;
  sidecar = holds (snapshot at_end);
}

integrity_retry_restarts_example :
    let failed = on_verification_finished env false 2 checking in
    let r = handle_metadata_fetched env 10 true none none (start env (prepare_retry env failed)) in
    (r.downloaded_size ≡ 0) × (r.chunk_progress ≡ [])
unfolding init
integrity_retry_restarts_example =
    integrity_retry_restarts env checking 10 true none none refl refl (unfold is_removable in refl)
      (omega arith)

late_metadata_starts_example :
    let w = prepare_retry env (stop env (record fresh { status = starting })) in
    let r = handle_metadata_fetched env 10 true none none w in
    (w.status ≡ pending) × (r.status ≡ downloading) × (0 < r.active_workers)
unfolding init
late_metadata_starts_example =
    late_metadata_starts env (record fresh { status = starting }) 10 true none none refl refl refl
      (omega arith)
