-- ===== src/Torrent/Polled.antt =====
-- A poll keeps the torrents of the engine and of the records.
use adp_pro.Prelude.{
  refl, String, string_eq, ◌||◌, ◌==◌, nat_eq, none, some, List, [], ◌∷◌, if_rule,
}
use adp_pro.Prelude.Dict.{Dict}
use adp_pro.Torrent.Engine.{Handle}
use adp_pro.Torrent.Panel.{TorrentPanel, World, on_progress_updated, download_started}
use adp_pro.Torrent.Moves.{
  on_torrent_finished, maybe_move_completed, enforce_stop_on_complete, on_storage_move_failed,
}
use adp_pro.Torrent.Alerts.{
  Totals, Alert, metadata_received, torrent_finished, torrent_error, storage_move_failed,
  resume_data_saved, resume_data_failed, other_alert, state_changed, storage_moved, status_dict,
  with_name, handle_alert, handle_alerts, report_each, poll,
}
use adp_pro.Torrent.Kept.{IsKept, IsKept-refl, IsKept-trans, engine-IsKept}
use adp_pro.Torrent.Known.{
  progress-IsKept, metadata-IsKept, moved-IsKept, stop-IsKept, move_if_seen-IsKept,
}

pub finished-IsKept :
    (w : World) (id : String) (p : TorrentPanel) → IsKept p (on_torrent_finished w id p)
unfolding on_torrent_finished maybe_move_completed
finished-IsKept w id p =
    let q : TorrentPanel = enforce_stop_on_complete id p in
    IsKept-trans (stop-IsKept id p) (move_if_seen-IsKept w id q.move_completed_dir q)

alert-IsKept : (w : World) (a : Alert) (p : TorrentPanel) → IsKept p (handle_alert w a p)
unfolding handle_alert
alert-IsKept w (metadata_received id none) p = IsKept-refl p
alert-IsKept w (metadata_received id (some m)) p =
    IsKept-trans (engine-IsKept p (with_name id m.name p).engine refl)
      (metadata-IsKept w id m.name m.total_size (with_name id m.name p))
alert-IsKept w (torrent_finished id) p = finished-IsKept w id p
alert-IsKept w (state_changed id n) p =
    if_rule (IsKept p) (n == 2 || n == 3) _ _
      (λ e. unfold download_started in record { handles = λ j. refl; records = λ j. refl })
      λ e. IsKept-refl p
alert-IsKept w (storage_moved id path) p = moved-IsKept id path p
alert-IsKept w (storage_move_failed id) p =
    unfold on_storage_move_failed in record { handles = λ j. refl; records = λ j. refl }
alert-IsKept w (torrent_error id) p = IsKept-refl p
alert-IsKept w (resume_data_saved id) p = IsKept-refl p
alert-IsKept w (resume_data_failed id) p = IsKept-refl p
alert-IsKept w (other_alert id) p = IsKept-refl p

alerts-IsKept :
    (w : World) (alerts : List Alert) (p : TorrentPanel) → IsKept p (handle_alerts w alerts p)
unfolding handle_alerts
alerts-IsKept w [] p = IsKept-refl p
alerts-IsKept w (a ∷ rest) p =
    IsKept-trans (alert-IsKept w a p) (alerts-IsKept w rest (handle_alert w a p))

report-IsKept :
    (totals : String → Totals) (handles : Dict String Handle) (p : TorrentPanel)
    → IsKept p (report_each totals handles p)
unfolding report_each
report-IsKept totals [] p = IsKept-refl p
report-IsKept totals ((id, h) ∷ rest) p =
    let s = status_dict (totals id) h.status in
    if_rule (IsKept p) h.is_valid _ _
      (λ e.
        IsKept-trans (progress-IsKept id s p)
          (report-IsKept totals rest (on_progress_updated id s p)))
      λ e. report-IsKept totals rest p

pub poll-IsKept :
    (w : World) (totals : String → Totals) (alerts : List Alert) (p : TorrentPanel)
    → IsKept p (poll w totals alerts p)
unfolding poll
poll-IsKept w totals alerts p =
    let q : TorrentPanel = handle_alerts w alerts p in
    IsKept-trans (alerts-IsKept w alerts p) (report-IsKept totals q.engine.handles q)
