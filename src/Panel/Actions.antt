-- ===== src/Panel/Actions.antt =====
-- src/adp/gui/main_window/download_panel.py: the actions on downloads, for the GUI and the API.
use adp_pro.Prelude.{
  ℕ, String, ◌==◌, string_eq, Bool, true, false, not, ◌||◌, Option, none, some, List, [], ◌∷◌, ◌++◌,
  if◌then◌else◌, is_some,
}
use adp_pro.Prelude.Dict.{get, put, remove, contains}
use adp_pro.Core.Models.{
  Status, status_eq, pending, starting, downloading, paused, stopped, completed, error, verifying,
  category_for_filename,
}
use adp_pro.Core.Scheduler.{schedule, unschedule, is_scheduled, check_due}
use adp_pro.Downloader.State.{Manager, Env, init, set_status}
use adp_pro.Downloader.Events.{pauses, resumes, stops, prepares_retry}
use adp_pro.Panel.State.{
  Panel, Outside, has_id, process_queue, finish_download_slot, save_downloads, call_manager,
  find_path_conflict,
}

-- The arguments of `add_download`.
pub record Request : Type 0 where
  pub url : String
  pub save_path : String
  pub checksum : Option String
  pub num_threads : ℕ
  pub start_immediately : Bool
  pub category : Option String
  pub speed_limit : ℕ
  pub scheduled_time : Option ℕ
  pub verify_tls : Option Bool
  pub download_id : Option String
  pub allow_overwrite : Bool

-- `a or b` on optional texts.
abbrev pub or_text : Option String → String → String
or_text none b = b
or_text (some a) b = if a == "" then b else a

abbrev pub or_flag : Option Bool → Bool → Bool
or_flag none b = b
or_flag (some a) b = a

unfoldable pub new_manager : Outside → Panel → Request → Manager
unfolding init
new_manager o p r =
    init (or_text r.download_id o.new_id) r.url r.save_path r.num_threads r.checksum
      (or_text r.category (category_for_filename (o.basename r.save_path))) r.speed_limit
      (or_flag r.verify_tls p.verify_tls) r.allow_overwrite (o.file_at r.save_path)
      (o.sidecar_at r.save_path)

-- A download with a time is left to the scheduler, any other is queued.
unfoldable pub enqueue : Outside → Request → String → Panel → Panel
enqueue o r id p = elim r.scheduled_time [
  | some when ↦ record p { schedule = schedule p.schedule id when }
  | none ↦
      let p' = record p { download_queue = p.download_queue ++ id ∷ [] } in
      if r.start_immediately then process_queue o.env p' else p'
]

unfoldable pub accept : Outside → Request → Panel → Panel
accept o r p =
    let m = new_manager o p r in
    save_downloads
      (enqueue o r m.download_id (record p { downloads = put p.downloads m.download_id m }))

-- The panel afterwards, and the id of the new download unless the request was refused.
unfoldable pub add_download : Outside → Request → Panel → Panel × Option String
add_download o r p =
    if r.url == "" || r.save_path == ""
    then (p, none)
    else if is_some (find_path_conflict o r.save_path none p.downloads)
    then (p, none)
    else (accept o r p, some (or_text r.download_id o.new_id))

-- `_on_schedule_due`
unfoldable pub on_schedule_due : Env → String → Panel → Panel
on_schedule_due env id p =
    if contains p.downloads id
    then save_downloads
        (process_queue env (record p { download_queue = p.download_queue ++ id ∷ [] }))
    else p

-- The loop of `check_due`: each due id leaves the schedule and is handled at once.
unfoldable pub fire : Env → List String → Panel → Panel
fire env [] p = p
fire env (id ∷ ids) p =
    fire env ids (on_schedule_due env id (record p { schedule = unschedule p.schedule id }))

unfoldable pub tick : Env → ℕ → Panel → Panel
tick env now p = fire env (check_due now p.schedule).0 p

unfoldable pub start_scheduled_now : Env → String → Panel → Panel
start_scheduled_now env id p =
    if is_scheduled p.schedule id
    then on_schedule_due env id (record p { schedule = unschedule p.schedule id })
    else p

-- The panel afterwards, and whether the action was accepted. The Booleans of the source.
unfoldable pub pause_found : Env → String → Option Manager → Panel → Panel × Bool
pause_found env id none p = (p, false)
pause_found env id (some m) p =
    if not (status_eq m.status downloading || status_eq m.status starting)
    then (p, false)
    else (save_downloads (call_manager env id pauses m p), true)

unfoldable pub pause_download : Env → String → Panel → Panel × Bool
unfolding pause_found
pause_download env id p = pause_found env id (get p.downloads id) p

-- `if manager not in self.download_queue: self.download_queue.append(manager)`
unfoldable pub queue_once : String → Panel → Panel
queue_once id p = record p {
  download_queue =
      if has_id p.download_queue id then p.download_queue else p.download_queue ++ id ∷ [];
}

unfoldable pub resume_found : Env → String → Option Manager → Panel → Panel × Bool
resume_found env id none p = (p, false)
resume_found env id (some m) p =
    if not (status_eq m.status paused)
    then (p, false)
    else if not m.metadata_initialized
    then (
      save_downloads (
          process_queue env (
            queue_once id
              (record p { downloads = put p.downloads id (set_status env pending m) }))),
      true,
    )
    else (save_downloads (call_manager env id resumes m p), true)

unfoldable pub resume_download : Env → String → Panel → Panel × Bool
unfolding resume_found
resume_download env id p = resume_found env id (get p.downloads id) p

-- The states that `stop` acts on.
abbrev pub is_stoppable : Status → Bool
is_stoppable s =
    status_eq s downloading || status_eq s paused || status_eq s starting || status_eq s verifying

unfoldable pub stop_found : Env → String → Option Manager → Panel → Panel × Bool
stop_found env id none p = (p, false)
stop_found env id (some m) p =
    if is_stoppable m.status
    then (save_downloads (finish_download_slot env id (call_manager env id stops m p)), true)
    else (p, false)

unfoldable pub stop_download : Env → String → Panel → Panel × Bool
unfolding stop_found
stop_download env id p = stop_found env id (get p.downloads id) p

abbrev pub is_retriable : Status → Bool
is_retriable s = status_eq s error || status_eq s stopped || status_eq s completed

unfoldable pub retry_found : Outside → String → Option Manager → Panel → Panel × Bool
retry_found o id none p = (p, false)
retry_found o id (some m) p =
    if not (is_retriable m.status)
    then (p, false)
    else if is_some (find_path_conflict o m.save_path (some id) p.downloads)
    then (p, false)
    else (
      save_downloads
          (process_queue o.env (queue_once id (call_manager o.env id prepares_retry m p))),
      true,
    )

unfoldable pub retry_download : Outside → String → Panel → Panel × Bool
unfolding retry_found
retry_download o id p = retry_found o id (get p.downloads id) p

-- `deque.remove` drops the first occurrence.
unfoldable pub remove_first : String → List String → List String
remove_first id [] = []
remove_first id (j ∷ ids) = if j == id then ids else j ∷ remove_first id ids

unfoldable pub stop_if_running : Env → String → Manager → Panel → Panel
stop_if_running env id m p = if is_stoppable m.status then call_manager env id stops m p else p

unfoldable pub forget : String → Panel → Panel
unfolding remove_first
forget id p = record p {
  download_queue = remove_first id p.download_queue;
  downloads = remove p.downloads id;
}

unfoldable pub remove_found : Env → String → Option Manager → Panel → Panel
remove_found env id none p = p
remove_found env id (some m) p =
    forget id (finish_download_slot env id (stop_if_running env id m p))

-- `remove_selected_download`, with the selected row's id.
unfoldable pub remove_download : Env → String → Panel → Panel
unfolding remove_found stop_if_running forget
remove_download env id p =
    save_downloads
      (remove_found env id (get p.downloads id) (record p { schedule = unschedule p.schedule id }))
