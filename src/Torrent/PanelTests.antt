-- ===== src/Torrent/PanelTests.antt =====
-- A concrete torrent panel.
use adp_pro.Prelude.{◌≡◌, refl, String, string_eq, nat_eq, true, false, none, some, [], ◌∷◌, arith}
use adp_pro.Prelude.Dict.{get, put, remove, contains}
use adp_pro.Torrent.Engine.{
  Handle, has_handle, add_torrent, remove_torrent, pause, request_save_resume_data,
  apply_file_priorities,
}
use adp_pro.Torrent.Panel.{
  TorrentPanel, TorrentRecord, World, AddRequest, Source, add, folder_of, limited, add_source,
}
use adp_pro.Torrent.Moves.{
  on_torrent_finished, maybe_move_completed, move_if_seen, must_stop, enforce_stop_on_complete,
  move_one,
}
use adp_pro.Torrent.Session.{remove_one}
use adp_pro.Torrent.Actions.{act, act_all, adds, finishes, removes}
use adp_pro.Torrent.Recorded.{act_all-IsKnown}
use adp_pro.Torrent.Seeding.{removed_move_blocks}

abbrev world : World
world = record {
  absolute = λ path. path;
  normcase = λ path. path;
  join = λ folder name. folder;
  sanitize = λ name. name;
  can_create = λ path. true;
  on_same_volume = λ a b. true;
  fits = λ path bytes. true;
  wanted_done = λ id. 0;
}

abbrev seeding : Handle
seeding = record {
  status = record {
    state = 5;
    is_paused = false;
    is_finished = true;
    auto_managed = true;
    has_metadata = true;
  };
  is_valid = true;
  files = [];
  priorities = [];
  progress = [];
}

abbrev film : TorrentRecord
film = record {
  torrent_id = "t";
  name = "film";
  save_path = "/films";
  category = "Video";
  source_magnet = none;
  source_torrent_file = none;
  file_priorities = [];
  upload_limit = 0;
  download_limit = 0;
  seed_ratio_limit = 0;
  keep_seeding = false;
}

abbrev panel : TorrentPanel
panel = record {
  engine = record { handles = ("t", seeding) ∷ []; known_names = []; calls = [] };
  records = ("t", film) ∷ [];
  stop_on_complete = true;
  move_completed_dir = none;
  move_completed_by_category = false;
  seen_downloading = [];
  moves_pending = ("t", "/new") ∷ [];
  unavailable_path = none;
  default_save_path = some "/films";
  stored = [];
  resume_files = [];
}

abbrev source : Source
source = record {
  info_hash = "t";
  display_name = none;
  made_handle = seeding;
  torrent_file = none;
  stored_copy = none;
  magnet = some "magnet:?xt=urn:btih:t";
  fallback_name = "film";
}

abbrev request : AddRequest
request = record {
  source = some source;
  folder = some "/films";
  category = "Video";
  priorities = [];
  download_limit = 0;
  upload_limit = 0;
  seed_ratio_limit = 0;
}

film-IsKnown : (j : String) → contains panel.records j ≡ true → has_handle panel.engine j ≡ true
unfolding get
film-IsKnown j c = ground arith

act_all-IsKnown_example :
    has_handle
      (act_all world (removes "t" false ∷ adds request ∷ finishes "t" ∷ []) panel).engine
      "t"
    ≡ true
act_all-IsKnown_example =
    act_all-IsKnown world (removes "t" false ∷ adds request ∷ finishes "t" ∷ []) panel "t"
      film-IsKnown
      (unfold act_all act add folder_of add_source limited remove_one on_torrent_finished
          maybe_move_completed move_if_seen enforce_stop_on_complete must_stop remove_torrent
          add_torrent apply_file_priorities request_save_resume_data pause get put remove in
        refl)

removed_move_blocks_example :
    let gone = remove_one "t" true panel in
    let q = add_source request source "/films" gone in
    (get gone.records "t" ≡ none)
    × (get gone.engine.handles "t" ≡ none)
    × (contains q.records "t" ≡ true)
    × (move_one world "/other" "t" q ≡ q)
removed_move_blocks_example =
    removed_move_blocks world "t" "/new" "/other" true request source "/films" panel
      (unfold get in refl) refl
