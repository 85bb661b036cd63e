-- ===== src/Panel/Answers.antt =====
-- Which requests the panel accepts, and what a refusal and an empty acceptance change.
use adp_pro.Prelude.{
  ◌≡◌, ◌⊎◌, String, Bool, true, false, not, ◌&&◌, ◌||◌, Option, none, some, is_some, arith,
  string_eq,
}
use adp_pro.Prelude.Dict.{get, get-put_self}
use adp_pro.Core.Models.{
  status_eq, starting, downloading, paused, stopped, completed, error, verifying,
}
use adp_pro.Downloader.State.{Manager, Env}
use adp_pro.Downloader.Lifecycle.{pause}
use adp_pro.Downloader.Events.{perform}
use adp_pro.Panel.State.{
  Panel, Outside, find_path_conflict, settle, has_ended, quiet, call_manager, save_downloads,
}
use adp_pro.Panel.Actions.{pause_download, resume_download, stop_download, retry_download}
use adp_pro.Panel.Reload.{status_of}

pub data Verb : Type 0 where
  pausing resuming stopping retrying : Verb

unfoldable pub ask : Outside → Verb → String → Panel → Panel × Bool
ask o pausing id p = pause_download o.env id p
ask o resuming id p = resume_download o.env id p
ask o stopping id p = stop_download o.env id p
ask o retrying id p = retry_download o id p

-- The statuses in which each request makes sense, and for a retry a destination that no unfinished
-- download has taken.
abbrev pub is_allowed : Outside → Verb → String → Panel → Option Manager → Bool
is_allowed o v id p none = false
is_allowed o pausing id p (some m) = status_eq m.status downloading || status_eq m.status starting
is_allowed o resuming id p (some m) = status_eq m.status paused
is_allowed o stopping id p (some m) =
    status_eq m.status downloading
    || status_eq m.status starting
    || status_eq m.status verifying
    || status_eq m.status paused
is_allowed o retrying id p (some m) =
    (status_eq m.status completed || status_eq m.status error || status_eq m.status stopped)
    && not (is_some (find_path_conflict o m.save_path (some id) p.downloads))

-- The panel accepts a request exactly when it is allowed, and leaves everything as it was when it
-- refuses.
pub ask-is_allowed :
    (o : Outside) (v : Verb) (id : String) (p : Panel)
    → ((ask o v id p).1 ≡ is_allowed o v id p (get p.downloads id))
      × (((ask o v id p).1 ≡ true) ⊎ ((ask o v id p).0 ≡ p))
unfolding ask pause_download resume_download stop_download retry_download status_eq
ask-is_allowed o pausing id p = ground arith
ask-is_allowed o resuming id p = ground arith
ask-is_allowed o stopping id p = ground arith
ask-is_allowed o retrying id p = ground arith

-- Pausing a download that still waits for its metadata is reported as done, and leaves it starting.
pause_download-starting :
    (env : Env) (id : String) (m : Manager) (p : Panel)
    → get p.downloads id ≡ some m
    → m.status ≡ starting
    → ((pause_download env id p).1 ≡ true)
      × (status_of (get (pause_download env id p).0.downloads id) ≡ some starting)
unfolding pause_download call_manager perform pause settle has_ended save_downloads
pause_download-starting env id m p e s = ground (arith, get-put_self p.downloads id (quiet m))
