-- ===== src/Panel/Restore.antt =====
-- src/adp/gui/main_window/download_panel.py: building the panel from the saved session.
use adp_pro.Prelude.{string_eq, Bool, false, ◌||◌, Option, none, some, List, [], ◌∷◌, if◌then◌else◌}
use adp_pro.Prelude.Dict.{get, put}
use adp_pro.Core.Models.{Status, status_eq, pending, paused, stopped, completed, error}
use adp_pro.Core.Session.{DownloadRecord}
use adp_pro.Downloader.State.{Manager, Env, set_status}
use adp_pro.Panel.State.{Panel, Outside, process_queue}
use adp_pro.Panel.Actions.{Request, add_download, remove_first}

abbrev pub request_of : DownloadRecord → Request
request_of r = record {
  url = r.url;
  save_path = r.save_path;
  checksum = r.checksum;
  num_threads = r.num_threads;
  start_immediately = false;
  category = some r.category;
  speed_limit = r.speed_limit;
  scheduled_time = r.scheduled_time;
  verify_tls = some r.verify_tls;
  download_id = some r.download_id;
  allow_overwrite = false;
}

-- The states that are restored as they were saved.
unfoldable pub is_restored_as_is : Status → Bool
unfolding status_eq
is_restored_as_is s =
    status_eq s completed || status_eq s stopped || status_eq s error || status_eq s paused

abbrev pub saved_status : DownloadRecord → Status
saved_status r = elim r.status [ none ↦ pending | some s ↦ s ]

-- The byte figures, for a record that has its own.
unfoldable pub with_figures : DownloadRecord → Manager → Manager
unfolding status_eq
with_figures r m =
    if status_eq (saved_status r) completed || status_eq (saved_status r) error
    then record m { total_size = r.total_size; downloaded_size = r.downloaded_size }
    else m

unfoldable pub with_policy : DownloadRecord → Manager → Manager
with_policy r m = record m {
  destination_owned_by_adp = r.destination_owned_by_adp;
  restart_required = r.restart_required;
  allow_overwrite = r.allow_overwrite;
}

-- What follows the add, for the manager that the panel has under the record's id.
unfoldable pub restore_found : Env → DownloadRecord → Option Manager → Panel → Panel
unfolding with_figures with_policy set_status is_restored_as_is
restore_found env r none p = p
restore_found env r (some m) p =
    if is_restored_as_is (saved_status r)
    then record p {
      download_queue = remove_first r.download_id p.download_queue;
      downloads =
          put p.downloads r.download_id
            (set_status env (saved_status r) (with_figures r (with_policy r m)));
    }
    else record p { downloads = put p.downloads r.download_id (with_policy r m) }

unfoldable pub restore_record : Outside → DownloadRecord → Panel → Panel
restore_record o r p =
    let p' = (add_download o (request_of r) p).0 in
    restore_found o.env r (get p'.downloads r.download_id) p'

unfoldable pub restore_records : Outside → List DownloadRecord → Panel → Panel
restore_records o [] p = p
restore_records o (r ∷ records) p = restore_records o records (restore_record o r p)

-- `load_downloads`, with the records that the session store has read.
unfoldable pub load_downloads : Outside → List DownloadRecord → Panel → Panel
load_downloads o records p = process_queue o.env (restore_records o records p)
