-- ===== src/Panel/Tests.antt =====
-- Concrete panels.
use adp_pro.Prelude.{
  ◌≤◌, max, ◌≡◌, ◌⊎◌, refl, String, string_eq, true, false, none, some, List, [], ◌∷◌, ◌++◌, arith,
  length, All,
}
use adp_pro.Prelude.Dict.{get, put}
use adp_pro.Core.Models.{status_eq, is_terminal, pending, starting, paused, completed}
use adp_pro.Core.Session.{DownloadRecord}
use adp_pro.Downloader.State.{Manager, Env, missing, allocated, init}
use adp_pro.Downloader.Events.{metadata_fetched}
use adp_pro.Panel.State.{
  Panel, Outside, process_queue, drain_queue, start_popped, has_id, find_path_conflict, to_record,
}
use adp_pro.Panel.Actions.{remove_download}
use adp_pro.Panel.Restore.{restore_record, load_downloads}
use adp_pro.Panel.Slots.{process_queue_slots}
use adp_pro.Panel.Fifo.{IsPopped, process_queue-fifo}
use adp_pro.Panel.Steps.{Action, act_all}
use adp_pro.Panel.Reserve.{IsReserved, blocks, blocks_any}
use adp_pro.Panel.Exclusive.{act_all-IsReserved}
use adp_pro.Panel.Removal.{remove_download-leaks}
use adp_pro.Panel.Reload.{
  IsReloaded, restore_record-IsReloaded, session_status, emptied, status_of, load_downloads-unsaved,
}

abbrev env : Env
env = record {
  now = 5000;
  allocation = allocated;
  can_write_sidecar = true;
  can_remove_sidecar = true;
  can_stat = true;
}

abbrev outside : Outside
outside = record {
  env = env;
  new_id = "d9";
  file_at = λ path. none;
  sidecar_at = λ path. missing;
  normalise = λ path. path;
  basename = λ path. path;
}

abbrev download : String → String → Manager
download id path = init id "http://host/a.zip" path 4 none "Archives" 0 true false none missing

abbrev empty : Panel
empty = record {
  downloads = [];
  download_queue = [];
  slot_holders = [];
  schedule = [];
  max_active = 2;
  verify_tls = true;
  session = [];
}

-- Three downloads wait, and two may run.
abbrev waiting : Panel
waiting = record empty {
  downloads =
      ("a", download "a" "/tmp/a")
      ∷ ("b", download "b" "/tmp/b")
      ∷ ("c", download "c" "/tmp/c")
      ∷ [];
  download_queue = "a" ∷ "b" ∷ "c" ∷ [];
}

process_queue-waiting :
    ((process_queue env waiting).slot_holders ≡ "a" ∷ "b" ∷ [])
    × ((process_queue env waiting).download_queue ≡ "c" ∷ [])
unfolding process_queue init drain_queue start_popped get status_eq put
process_queue-waiting = (refl, refl)

process_queue_slots_example :
    (length (process_queue env waiting).slot_holders
      ≤ max (length waiting.slot_holders) waiting.max_active)
    × (((process_queue env waiting).download_queue ≡ [])
        ⊎ (waiting.max_active ≤ length (process_queue env waiting).slot_holders))
process_queue_slots_example = process_queue_slots env waiting

process_queue-fifo_example :
    (taken : List String) × (waiting.download_queue
      ≡ taken ++ (process_queue env waiting).download_queue)
    × All (IsPopped waiting (process_queue env waiting)) taken
process_queue-fifo_example = process_queue-fifo env waiting

-- The second of them has asked for its metadata.
abbrev answered : Panel
answered = record waiting {
  downloads =
      ("a", download "a" "/tmp/a")
      ∷ ("b", record (download "b" "/tmp/b") { status = starting })
      ∷ ("c", download "c" "/tmp/c")
      ∷ [];
  download_queue = "c" ∷ [];
  slot_holders = "b" ∷ [];
}

abbrev history : List Action
history =
    Action.reports "b" (metadata_fetched 10 true none none)
    ∷ Action.add (record {
      url = "http://host/d.zip";
      save_path = "/tmp/d";
      checksum = none;
      num_threads = 4;
      start_immediately = true;
      category = none;
      speed_limit = 0;
      scheduled_time = none;
      verify_tls = none;
      download_id = none;
      allow_overwrite = false;
    })
    ∷ Action.stops "a"
    ∷ Action.retries "a"
    ∷ []

act_all-IsReserved_example : IsReserved outside (act_all outside history answered).downloads
unfolding init blocks blocks_any
act_all-IsReserved_example =
    act_all-IsReserved outside history answered (unfold get status_eq in refl, (tt, (tt, (tt, tt))))
      (unfold get is_terminal in (refl, refl, refl, (refl, refl, refl, (refl, refl, refl, tt))))

abbrev one_waits : Panel
one_waits = record waiting { download_queue = "a" ∷ [] }

remove_download-leaks_example :
    let r = remove_download env "a" one_waits in
    (get r.downloads "a" ≡ none) × (has_id r.slot_holders "a" ≡ true)
unfolding init
remove_download-leaks_example =
    remove_download-leaks env "a" (download "a" "/tmp/a") [] one_waits (unfold get in refl) refl
      refl (omega arith)

abbrev saved : Manager
saved = record (download "a" "/tmp/a") {
  status = paused;
  speed_limit = 5;
  destination_owned_by_adp = true;
}

restore_record-IsReloaded_example :
    (n : Manager) × (get (restore_record outside (to_record [] saved) empty).downloads "a" ≡ some n)
    × IsReloaded saved n
unfolding init
restore_record-IsReloaded_example =
    restore_record-IsReloaded outside [] saved empty refl refl refl
      (unfold find_path_conflict in refl)

abbrev completed_record : DownloadRecord
completed_record =
    to_record [] (record (download "a" "/tmp/a") { status = completed; downloaded_size = 10 })

load_downloads-unsaved_example :
    let q = load_downloads outside (completed_record ∷ []) (emptied empty) in
    (session_status q.session ≡ some pending)
    × (status_of (get q.downloads completed_record.download_id) ≡ some completed)
unfolding init to_record get
load_downloads-unsaved_example =
    load_downloads-unsaved outside completed_record empty refl refl refl refl refl

abbrev begun : Panel
begun = record empty {
  downloads = ("a", record (download "a" "/tmp/a") { status = starting }) ∷ [];
}
