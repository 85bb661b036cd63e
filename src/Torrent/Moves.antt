-- ===== src/Torrent/Moves.antt =====
-- src/adp/gui/torrent_panel.py: completed torrents are stopped, and moved.
use adp_pro.Prelude.{
  String, ◌==◌, string_eq, Bool, true, false, not, ◌&&◌, ◌||◌, Option, none, some, List, [], ◌∷◌,
  if◌then◌else◌, any, filter,
}
use adp_pro.Prelude.Dict.{get, put, remove, contains, values, keys}
use adp_pro.Torrent.Engine.{Handle, pause, move_storage, request_save_resume_data}
use adp_pro.Torrent.Panel.{TorrentRecord, TorrentPanel, World, set_record, on_record}

-- There is such a handle, it is valid, and its torrent is finished and not paused.
abbrev pub is_seeding_now : Option Handle → Bool
is_seeding_now none = false
is_seeding_now (some h) = h.is_valid && not h.status.is_paused && h.status.is_finished

abbrev pub keeps_seeding : Option TorrentRecord → Bool
keeps_seeding none = true
keeps_seeding (some r) = r.keep_seeding

-- Whether `_enforce_stop_on_complete` pauses the torrent.
unfoldable pub must_stop : String → TorrentPanel → Bool
must_stop id p =
    p.stop_on_complete
    && not (keeps_seeding (get p.records id))
    && is_seeding_now (get p.engine.handles id)

unfoldable pub enforce_stop_on_complete : String → TorrentPanel → TorrentPanel
unfolding must_stop
enforce_stop_on_complete id p =
    if must_stop id p
    then record p { engine = request_save_resume_data id (pause id p.engine) }
    else p

unfoldable pub stop_each : List String → TorrentPanel → TorrentPanel
stop_each [] p = p
stop_each (id ∷ ids) p = stop_each ids (enforce_stop_on_complete id p)

unfoldable pub set_stop_on_complete : Bool → TorrentPanel → TorrentPanel
set_stop_on_complete enabled p =
    let p' = record p { stop_on_complete = enabled } in
    if enabled then stop_each (keys p.records) p' else p'

abbrev pub is_valid_handle : Option Handle → Bool
is_valid_handle none = false
is_valid_handle (some h) = h.is_valid

-- Whether the move of a torrent to that folder is started: it is there, it is not moving already,
-- it is elsewhere, the folder can be made, and on another volume there is space.
unfoldable pub may_move : World → String → String → TorrentPanel → Bool
may_move w destination id p = elim (get p.records id) [
  | none ↦ false
  | some r ↦
      is_valid_handle (get p.engine.handles id)
      && not (contains p.moves_pending id)
      && not (w.normcase (w.absolute r.save_path) == w.normcase destination)
      && w.can_create destination
      && (w.on_same_volume r.save_path destination || w.fits destination (w.wanted_done id))
]

unfoldable pub move_one : World → String → String → TorrentPanel → TorrentPanel
move_one w destination id p =
    if may_move w destination id p
    then record p {
      moves_pending = put p.moves_pending id destination;
      engine = (move_storage id destination p.engine).0;
    }
    else p

unfoldable pub move_each : World → String → List String → TorrentPanel → TorrentPanel
move_each w destination [] p = p
move_each w destination (id ∷ ids) p = move_each w destination ids (move_one w destination id p)

-- `move_torrents`
unfoldable pub move_torrents : World → List String → String → TorrentPanel → TorrentPanel
move_torrents w ids destination p = move_each w (w.absolute destination) ids p

unfoldable pub set_move_completed : Option String → Bool → TorrentPanel → TorrentPanel
set_move_completed folder by_category p = record p {
  move_completed_dir = folder;
  move_completed_by_category = by_category;
}

unfoldable pub completed_destination : World → TorrentRecord → String → TorrentPanel → String
completed_destination w r dir p =
    if p.move_completed_by_category then w.join dir (w.sanitize r.category) else dir

abbrev pub discard : String → List String → List String
discard id ids = filter (λ j. not (j == id)) ids

unfoldable pub move_to : World → String → String → TorrentRecord → TorrentPanel → TorrentPanel
unfolding completed_destination
move_to w id dir r p = move_torrents w (id ∷ []) (completed_destination w r dir p) p

unfoldable pub move_if_seen : World → String → Option String → TorrentPanel → TorrentPanel
move_if_seen w id none p = p
move_if_seen w id (some dir) p =
    if any (λ j. j == id) p.seen_downloading
    then on_record id (move_to w id dir)
        (record p { seen_downloading = discard id p.seen_downloading })
    else p

unfoldable pub maybe_move_completed : World → String → TorrentPanel → TorrentPanel
unfolding move_if_seen
maybe_move_completed w id p = move_if_seen w id p.move_completed_dir p

unfoldable pub on_torrent_finished : World → String → TorrentPanel → TorrentPanel
on_torrent_finished w id p = maybe_move_completed w id (enforce_stop_on_complete id p)

unfoldable pub arrive : String → String → TorrentRecord → TorrentPanel → TorrentPanel
arrive id path r p =
    let p' = set_record id (record r { save_path = path }) p in
    record p' { stored = values p'.records; engine = request_save_resume_data id p'.engine }

unfoldable pub on_storage_moved : String → String → TorrentPanel → TorrentPanel
on_storage_moved id path p =
    on_record id (arrive id path) (record p { moves_pending = remove p.moves_pending id })

unfoldable pub on_storage_move_failed : String → TorrentPanel → TorrentPanel
on_storage_move_failed id p = record p { moves_pending = remove p.moves_pending id }
