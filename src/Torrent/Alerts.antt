-- ===== src/Torrent/Alerts.antt =====
-- src/adp/torrent/engine.py: the poll. libtorrent's alerts and the statuses become signals, and the
-- panel takes each as it comes. What is saved as resume data is given to `save_session`.
use adp_pro.Prelude.{
  ℕ, String, ◌==◌, string_eq, nat_eq, Bool, ◌||◌, Option, none, some, List, [], ◌∷◌, if◌then◌else◌,
}
use adp_pro.Prelude.Dict.{Dict, put}
use adp_pro.Torrent.States.{LtStatus, state_from_status}
use adp_pro.Torrent.Engine.{Handle}
use adp_pro.Torrent.Panel.{
  TorrentPanel, World, Progress, on_progress_updated, on_metadata_received, download_started,
}
use adp_pro.Torrent.Moves.{on_torrent_finished, on_storage_moved, on_storage_move_failed}

-- The fields of a status that only its dictionary has.
pub record Totals : Type 0 where
  pub is_seeding : Bool
  pub all_time_upload : ℕ
  pub all_time_download : ℕ

-- What libtorrent knows of the metadata that came.
pub record Metadata : Type 0 where
  pub name : String
  pub total_size : ℕ

pub data Alert : Type 0 where
  metadata_received : String → Option Metadata → Alert
  torrent_finished torrent_error storage_move_failed resume_data_saved resume_data_failed
        other_alert :
      String → Alert
  state_changed : String → ℕ → Alert
  storage_moved : String → String → Alert

-- `_status_dict`, as far as the panel reads it.
unfoldable pub status_dict : Totals → LtStatus → Progress
status_dict t s = record {
  state = state_from_status s;
  is_seeding = t.is_seeding;
  all_time_upload = t.all_time_upload;
  all_time_download = t.all_time_download;
}

abbrev pub with_name : String → String → TorrentPanel → TorrentPanel
with_name id name p = record p {
  engine = record p.engine { known_names = put p.engine.known_names id name };
}

unfoldable pub handle_alert : World → Alert → TorrentPanel → TorrentPanel
handle_alert w (metadata_received id none) p = p
handle_alert w (metadata_received id (some m)) p =
    on_metadata_received w id m.name m.total_size (with_name id m.name p)
handle_alert w (torrent_finished id) p = on_torrent_finished w id p
handle_alert w (state_changed id n) p =
    let started = download_started id p in if n == 2 || n == 3 then started else p
handle_alert w (storage_moved id path) p = on_storage_moved id path p
handle_alert w (storage_move_failed id) p = on_storage_move_failed id p
handle_alert w (torrent_error id) p = p
handle_alert w (resume_data_saved id) p = p
handle_alert w (resume_data_failed id) p = p
handle_alert w (other_alert id) p = p

unfoldable pub handle_alerts : World → List Alert → TorrentPanel → TorrentPanel
handle_alerts w [] p = p
handle_alerts w (a ∷ rest) p = handle_alerts w rest (handle_alert w a p)

-- Over the handles that there are when the statuses are asked for.
unfoldable pub report_each : (String → Totals) → Dict String Handle → TorrentPanel → TorrentPanel
report_each totals [] p = p
report_each totals ((id, h) ∷ rest) p =
    let skipped = report_each totals rest p in
    let told =
      report_each totals rest (on_progress_updated id (status_dict (totals id) h.status) p) in
    if h.is_valid then told else skipped

unfoldable pub poll : World → (String → Totals) → List Alert → TorrentPanel → TorrentPanel
poll w totals alerts p =
    let p' = handle_alerts w alerts p in report_each totals p'.engine.handles p'
