-- ===== src/Panel/State.antt =====
-- src/adp/gui/main_window/download_panel.py: the panel's state, its slots and its queue. A manager
-- in the queue is named by its id. Widgets and messages are not modelled.
use adp_pro.Prelude.{
  ℕ, String, ◌==◌, string_eq, nat_eq, Bool, true, false, not, ◌&&◌, ◌||◌, Option, none, some, List,
  [], ◌∷◌, ◌++◌, if◌then◌else◌, ltb, length, map, any, filter,
}
use adp_pro.Prelude.Dict.{Dict, get, put, values, contains}
use adp_pro.Core.Models.{
  Status, status_eq, is_terminal, pending, starting, downloading, completed, error,
}
use adp_pro.Core.Scheduler.{Schedule, scheduled_time}
use adp_pro.Core.Session.{DownloadRecord}
use adp_pro.Downloader.State.{
  Manager, Env, SidecarFile, Signal, progress_updated, download_finished, error_occurred,
}
use adp_pro.Downloader.Lifecycle.{start}
use adp_pro.Downloader.Events.{Report, Call, receive, perform}

pub record Panel : Type 0 where
  pub downloads : Dict String Manager
  pub download_queue : List String
  pub slot_holders : List String
  pub schedule : Schedule
  -- The value of the concurrency spin box.
  pub max_active : ℕ
  -- `settings.get("verify_tls", True)`
  pub verify_tls : Bool
  -- What the session file holds.
  pub session : List DownloadRecord

-- What the panel asks of the outside during one action.
pub record Outside : Type 0 where
  pub env : Env
  -- `str(uuid.uuid4())`
  pub new_id : String
  -- The file and the sidecar at a path.
  pub file_at : String → Option ℕ
  pub sidecar_at : String → SidecarFile
  -- `os.path.normcase(os.path.abspath(path))`, and `os.path.basename`
  pub normalise : String → String
  pub basename : String → String

-- Membership in a list of ids.
abbrev pub has_id : List String → String → Bool
has_id ids id = any (λ j. j == id) ids

unfoldable pub acquire_slot : String → Panel → Panel
acquire_slot id p = record p {
  slot_holders = if has_id p.slot_holders id then p.slot_holders else p.slot_holders ++ id ∷ [];
}

unfoldable pub release_slot : String → Panel → Panel
release_slot id p = record p { slot_holders = filter (λ j. not (j == id)) p.slot_holders }

-- A queued id is popped: its manager is started if it is pending.
unfoldable pub start_popped : Env → String → Option Manager → Panel → Panel
unfolding acquire_slot
start_popped env id none p = p
start_popped env id (some m) p =
    if status_eq m.status pending
    then record (acquire_slot id p) { downloads = put p.downloads id (start env m) }
    else p

-- The loop, with the queue that is left first.
unfoldable pub drain_queue : Env → List String → Panel → Panel
drain_queue env [] p = record p { download_queue = [] }
drain_queue env (id ∷ queue) p =
    let rest = drain_queue env queue (start_popped env id (get p.downloads id) p) in
    if ltb (length p.slot_holders) p.max_active
    then rest
    else record p { download_queue = id ∷ queue }

unfoldable pub process_queue : Env → Panel → Panel
process_queue env p = drain_queue env p.download_queue p

unfoldable pub finish_download_slot : Env → String → Panel → Panel
finish_download_slot env id p =
    if contains p.downloads id then process_queue env (release_slot id p) else p

-- A status as it is stored: the two active ones as pending.
unfoldable pub stored_status : Status → Status
stored_status downloading = pending
stored_status starting = pending
stored_status s = s

-- Only these have no sidecar from which to recompute the bytes.
unfoldable pub has_own_byte_truth : Status → Bool
unfolding status_eq
has_own_byte_truth s = status_eq s completed || status_eq s error

unfoldable pub to_record : Schedule → Manager → DownloadRecord
unfolding stored_status has_own_byte_truth scheduled_time
to_record schedule m = record {
  download_id = m.download_id;
  url = m.url;
  save_path = m.save_path;
  checksum = m.checksum;
  num_threads = m.num_threads;
  category = m.category;
  speed_limit = m.speed_limit;
  scheduled_time = scheduled_time schedule m.download_id;
  status = some (stored_status m.status);
  downloaded_size = if has_own_byte_truth (stored_status m.status) then m.downloaded_size else 0;
  total_size = m.total_size;
  verify_tls = m.verify_tls;
  destination_owned_by_adp = m.destination_owned_by_adp;
  restart_required = m.restart_required;
  allow_overwrite = m.allow_overwrite;
}

-- Every queued manager is among the downloads, so the records are those of the downloads.
unfoldable pub save_downloads : Panel → Panel
save_downloads p = record p { session = map (to_record p.schedule) (values p.downloads) }

-- `on_download_finished` and `on_download_error`, for a manager that the panel still has.
unfoldable pub on_download_ended : Env → String → Panel → Panel
on_download_ended env id p =
    if contains p.downloads id then save_downloads (finish_download_slot env id p) else p

-- Whether the signals of one call, newest first, end the download.
unfoldable pub has_ended : List Signal → Bool
has_ended [] = false
has_ended (progress_updated d t v s ∷ rest) = has_ended rest
has_ended (download_finished ∷ rest) = true
has_ended (error_occurred message ∷ rest) = true

-- Stores what a manager has become, and handles the signals it emitted. The panel's handlers run
-- inside the emission in the source; what the manager still does after it touches its own epoch,
-- workers and tasks alone, which the handlers do not read.
unfoldable pub settle : Env → String → Manager → Panel → Panel
settle env id m p =
    let p' = record p { downloads = put p.downloads id m } in
    if has_ended m.signals then on_download_ended env id p' else p'

abbrev pub quiet : Manager → Manager
quiet m = record m { signals = [] }

-- A report reaches a manager; one that the panel has removed is heard by nobody.
unfoldable pub deliver : Env → String → Report → Panel → Panel
deliver env id r p = elim (get p.downloads id) [
  | none ↦ p
  | some m ↦ settle env id (receive env r (quiet m)) p
]

unfoldable pub call_manager : Env → String → Call → Manager → Panel → Panel
call_manager env id c m p = settle env id (perform env c (quiet m)) p

abbrev pub clashes : Outside → String → Option String → Manager → Bool
clashes o path exclude m =
    not (elim exclude [ none ↦ false | some e ↦ m.download_id == e ])
    && not (is_terminal m.status)
    && o.normalise m.save_path == o.normalise path

-- The first manager that is not finished and writes to the same file.
unfoldable pub find_path_conflict :
    Outside → String → Option String → Dict String Manager → Option Manager
find_path_conflict o path exclude [] = none
find_path_conflict o path exclude ((id, m) ∷ d) =
    if clashes o path exclude m then some m else find_path_conflict o path exclude d
