-- ===== src/Files/Tests.antt =====
-- Concrete names and volumes.
use adp_pro.Prelude.{
  ℕ, ◌+◌, ◌*◌, ◌-◌, ◌≤◌, ◌≡◌, refl, string_eq, nat_eq, ◌==◌, Bool, true, false, ◌||◌, ◌&&◌, none,
  some, [], ◌∷◌, if◌then◌else◌, leb, arith,
}
use adp_pro.Prelude.Dict.{get, put}
use adp_pro.Torrent.Engine.{Handle}
use adp_pro.Torrent.Panel.{TorrentPanel, TorrentRecord, World}
use adp_pro.Torrent.Moves.{may_move, move_one}
use adp_pro.Files.Names.{
  Text, sanitize_filename, cleaned, strip, lstrip, rstrip, last_segment, stem, upper,
}
use adp_pro.Files.Safe.{IsSafe, sanitize_filename-IsSafe}
use adp_pro.Files.Storage.{
  Disk, existing_ancestor, free_space_bytes, probe_free, probe_existing, check_space,
  default_headroom, same_volume,
}
use adp_pro.Files.Space.{move_one-headroom}

-- The space and the one that does not break.
abbrev is_space : ℕ → Bool
is_space c = c == 32 || c == 160

abbrev up : ℕ → Text
up c = (if leb 97 c && leb c 122 then c - 32 else c) ∷ []

-- "..\con.txt"
abbrev device : Text
device = 46 ∷ 46 ∷ 92 ∷ 99 ∷ 111 ∷ 110 ∷ 46 ∷ 116 ∷ []

-- "file"
abbrev fallback : Text
fallback = 102 ∷ 105 ∷ 108 ∷ 101 ∷ []

device_named : sanitize_filename is_space up device fallback ≡ 95 ∷ 99 ∷ 111 ∷ 110 ∷ 46 ∷ 116 ∷ []
unfolding sanitize_filename cleaned strip lstrip rstrip last_segment stem upper
device_named = refl

-- "x." with a space that does not break and a question mark: the dot stays at the end.
dot_stays : sanitize_filename is_space up (120 ∷ 46 ∷ 160 ∷ 63 ∷ []) fallback ≡ 120 ∷ 46 ∷ []
unfolding sanitize_filename cleaned strip lstrip rstrip last_segment stem upper
dot_stays = refl

fallback-IsSafe : IsSafe up fallback
unfolding stem upper
fallback-IsSafe = record { allowed = refl; some_character = refl; no_dots = refl; no_device = refl }

sanitize_filename-IsSafe_example : IsSafe up (sanitize_filename is_space up device fallback)
sanitize_filename-IsSafe_example =
    sanitize_filename-IsSafe is_space up device fallback refl fallback-IsSafe

abbrev disk : Disk
disk = record {
  exists = λ path. path == "/" || path == "/home";
  dirname = λ path. "/";
  absolute = λ path. path;
  free = λ path. some (2000 * (1024 * 1024));
  device = λ path. if path == "/home" then some 1 else some 2;
  makes = λ path. true;
  expand = λ path. path;
}

abbrev world : World
world = record {
  absolute = λ path. path;
  normcase = λ path. path;
  join = λ folder name. folder;
  sanitize = λ name. name;
  can_create = λ path. true;
  on_same_volume = λ a b. true;
  fits = λ path bytes. true;
  wanted_done = λ id. 1000;
}

abbrev film : TorrentRecord
film = record {
  torrent_id = "t";
  name = "film";
  save_path = "/home";
  category = "Video";
  source_magnet = none;
  source_torrent_file = none;
  file_priorities = [];
  upload_limit = 0;
  download_limit = 0;
  seed_ratio_limit = 0;
  keep_seeding = false;
}

abbrev handle : Handle
handle = record {
  status = record {
    state = 5;
    is_paused = false;
    is_finished = true;
    auto_managed = true;
    has_metadata = true;
  };
  is_valid = true;
  files = [];
  priorities = [];
  progress = [];
}

abbrev panel : TorrentPanel
panel = record {
  engine = record { handles = ("t", handle) ∷ []; known_names = []; calls = [] };
  records = ("t", film) ∷ [];
  stop_on_complete = true;
  move_completed_dir = none;
  move_completed_by_category = false;
  seen_downloading = [];
  moves_pending = [];
  unavailable_path = none;
  default_save_path = some "/films";
  stored = [];
  resume_files = [];
}

move_one-headroom_example : 1000 + default_headroom ≤ 2000 * (1024 * 1024)
move_one-headroom_example =
    move_one-headroom disk world "t" "/films" "/" film panel 1 (2000 * (1024 * 1024))
      (unfold get in refl) (unfold get in refl)
      (unfold move_one may_move same_volume check_space free_space_bytes existing_ancestor
          probe_existing probe_free get put in
        refl)
      (unfold same_volume existing_ancestor probe_existing in refl) (omega arith)
      (refl, refl, (refl, refl)) refl
