-- ===== src/Api/TorrentTests.antt =====
-- Concrete calls about torrents.
use adp_pro.Prelude.{◌≡◌, refl, string_eq, true, false, none, some, [], ◌∷◌}
use adp_pro.Prelude.Dict.{get}
use adp_pro.Torrent.Engine.{Handle}
use adp_pro.Torrent.Panel.{TorrentPanel, TorrentRecord}
use adp_pro.Api.Updates.{
  absent, text, flag, thousandths, Arguments, Changes, check_category, check_limit, check_ratio,
  check_flag, validate_torrent_update,
}
use adp_pro.Api.Torrents.{call, pauses, pause_torrent, update_torrent}
use adp_pro.Api.Partial.{call-refused, update_torrent-changes}
use adp_pro.Api.Named.{IsUpdated}

abbrev handle : Handle
handle = record {
  status = record {
    state = 3;
    is_paused = false;
    is_finished = false;
    auto_managed = true;
    has_metadata = true;
  };
  is_valid = true;
  files = [];
  priorities = [];
  progress = [];
}

abbrev film : TorrentRecord
film = record {
  torrent_id = "t";
  name = "film";
  save_path = "/films";
  category = "Video";
  source_magnet = none;
  source_torrent_file = none;
  file_priorities = [];
  upload_limit = 7;
  download_limit = 0;
  seed_ratio_limit = 0;
  keep_seeding = false;
}

abbrev panel : TorrentPanel
panel = record {
  engine = record { handles = ("t", handle) ∷ []; known_names = []; calls = [] };
  records = ("t", film) ∷ [];
  stop_on_complete = true;
  move_completed_dir = none;
  move_completed_by_category = false;
  seen_downloading = [];
  moves_pending = [];
  unavailable_path = none;
  default_save_path = some "/films";
  stored = [];
  resume_files = [];
}

call-refused_example : (call (λ s. s) (pauses "u") panel).0 ≡ panel
call-refused_example =
    call-refused (λ s. s) (pauses "u") panel (unfold call pause_torrent get in refl)

abbrev arguments : Arguments
arguments = record {
  category = text "Films";
  download_limit = absent;
  upload_limit = absent;
  seed_ratio_limit = thousandths 1500;
  keep_seeding = flag true;
}

abbrev changes : Changes
changes = record {
  category = some "Films";
  download_limit = none;
  upload_limit = none;
  seed_ratio_limit = some 1500;
  keep_seeding = some true;
}

update_torrent-changes_example :
    ((update_torrent (λ s. s) "t" arguments panel).1 ≡ none)
    × ((n : TorrentRecord) × (get (update_torrent (λ s. s) "t" arguments panel).0.records "t"
          ≡ some n)
        × IsUpdated (λ s. s) arguments film n)
update_torrent-changes_example =
    update_torrent-changes (λ s. s) "t" arguments changes film panel (unfold get in refl)
      (unfold get in refl)
      (unfold validate_torrent_update check_category check_limit check_ratio check_flag in refl)
