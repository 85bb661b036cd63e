-- ===== src/Torrent/Actions.antt =====
-- Everything that can happen to the torrent panel, as one step function.
use adp_pro.Prelude.{ℕ, String, string_eq, Bool, Option, none, some, List, [], ◌∷◌}
use adp_pro.Prelude.Dict.{get, put}
use adp_pro.Torrent.States.{LtStatus}
use adp_pro.Torrent.Engine.{Engine, start_now, set_max_active_downloads}
use adp_pro.Torrent.Panel.{
  TorrentPanel, TorrentRecord, World, AddRequest, Progress, add, on_progress_updated,
  on_metadata_received, download_started, pause_in, set_default_save_path,
}
use adp_pro.Torrent.Moves.{
  on_torrent_finished, set_stop_on_complete, set_move_completed, move_torrents, on_storage_moved,
  on_storage_move_failed,
}
use adp_pro.Torrent.Session.{
  Properties, Restored, resume_torrent, apply_properties, remove_one, remove_completed,
  load_torrents, save_session,
}
use adp_pro.Torrent.Alerts.{Totals, Alert, poll}

pub data TorrentAction : Type 0 where
  adds : AddRequest → TorrentAction
  polls : (String → Totals) → List Alert → TorrentAction
  progresses : String → Progress → TorrentAction
  resolves : String → String → ℕ → TorrentAction
  begins finishes pauses resumes starts_now move_fails : String → TorrentAction
  sets_default_save_path : String → TorrentAction
  limits_active : ℕ → TorrentAction
  sets_stop_on_complete : Bool → TorrentAction
  sets_move_completed : Option String → Bool → TorrentAction
  moves : List String → String → TorrentAction
  moved : String → String → TorrentAction
  applies : String → Properties → TorrentAction
  removes : String → Bool → TorrentAction
  removes_completed : TorrentAction
  loads : List (TorrentRecord × Restored) → TorrentAction
  saves : List String → TorrentAction
  -- libtorrent's own doing.
  changes_status : String → LtStatus → TorrentAction

-- The status of a handle changes; a torrent that is gone has none.
unfoldable pub change_status : String → LtStatus → Engine → Engine
change_status id s e = elim (get e.handles id) [
  | none ↦ e
  | some h ↦ record e { handles = put e.handles id (record h { status = s }) }
]

unfoldable pub act : World → TorrentAction → TorrentPanel → TorrentPanel
act w (adds r) p = (add r p).0
act w (polls totals alerts) p = poll w totals alerts p
act w (progresses id s) p = on_progress_updated id s p
act w (resolves id name size) p = on_metadata_received w id name size p
act w (begins id) p = download_started id p
act w (finishes id) p = on_torrent_finished w id p
act w (pauses id) p = pause_in id p
act w (resumes id) p = resume_torrent id p
act w (starts_now id) p = record p { engine = start_now id p.engine }
act w (move_fails id) p = on_storage_move_failed id p
act w (sets_stop_on_complete b) p = set_stop_on_complete b p
act w (sets_move_completed folder b) p = set_move_completed folder b p
act w (sets_default_save_path path) p = set_default_save_path path p
act w (limits_active n) p = record p { engine = set_max_active_downloads n p.engine }
act w (moves ids destination) p = move_torrents w ids destination p
act w (moved id path) p = on_storage_moved id path p
act w (applies id c) p = (apply_properties id c p).0
act w (removes id b) p = remove_one id b p
act w removes_completed p = remove_completed p
act w (loads records) p = load_torrents records p
act w (saves ids) p = save_session ids p
act w (changes_status id s) p = record p { engine = change_status id s p.engine }

unfoldable pub act_all : World → List TorrentAction → TorrentPanel → TorrentPanel
act_all w [] p = p
act_all w (a ∷ rest) p = act_all w rest (act w a p)
