-- ===== src/Downloader/Events.antt =====
-- Everything that can happen to a manager: the calls of its owner, and the reports that the thread
-- pool delivers to it.
use adp_pro.Prelude.{ℕ, String, ◌≢◌, Bool, Option, List, [], ◌∷◌}
use adp_pro.Downloader.State.{Manager, Env, Message}
use adp_pro.Downloader.Finish.{
  on_worker_error, on_worker_finished, on_chunk_downloaded, on_verification_finished,
  on_verification_error,
}
use adp_pro.Downloader.Lifecycle.{
  start, handle_metadata_fetched, handle_metadata_error, pause, resume, stop, prepare_retry, retry,
}

pub data Report : Type 0 where
  chunk_downloaded finished : ℕ → Report
  worker_error : Message → ℕ → Report
  verified : Bool → ℕ → Report
  verification_error : Message → ℕ → Report
  metadata_fetched : ℕ → Bool → Option String → Option String → Report
  metadata_error : Message → Report

pub data Call : Type 0 where
  starts pauses resumes stops prepares_retry retries : Call

unfoldable pub receive : Env → Report → Manager → Manager
receive env (chunk_downloaded size) m = on_chunk_downloaded env size m
receive env (finished epoch) m = on_worker_finished env epoch m
receive env (worker_error message epoch) m = on_worker_error env message (Option.some epoch) m
receive env (verified valid epoch) m = on_verification_finished env valid epoch m
receive env (verification_error message epoch) m = on_verification_error env message epoch m
receive env (metadata_fetched total ranges etag modified) m =
    handle_metadata_fetched env total ranges etag modified m
receive env (metadata_error message) m = handle_metadata_error env message m

unfoldable pub receive_all : Manager → List (Env × Report) → Manager
receive_all m [] = m
receive_all m ((env, r) ∷ rest) = receive_all (receive env r m) rest

unfoldable pub perform : Env → Call → Manager → Manager
perform env starts m = start env m
perform env pauses m = pause env m
perform env resumes m = resume env m
perform env stops m = stop env m
perform env prepares_retry m = prepare_retry env m
perform env retries m = retry env m

-- The epoch that a worker's report carries is another than the manager's.
abbrev pub IsStale : ℕ → Report → Type 0
IsStale epoch (finished e) = e ≢ epoch
IsStale epoch (worker_error message e) = e ≢ epoch
IsStale epoch (verified valid e) = e ≢ epoch
IsStale epoch (verification_error message e) = e ≢ epoch
IsStale epoch _ = Unit

pub data Event : Type 0 where
  report : Env → Report → Event
  call : Env → Call → Event

unfoldable pub step : Event → Manager → Manager
step (report env r) m = receive env r m
step (call env c) m = perform env c m

unfoldable pub run : Manager → List Event → Manager
run m [] = m
run m (e ∷ rest) = run (step e m) rest
