-- ===== src/Torrent/Panel.antt =====
-- src/adp/gui/torrent_panel.py: the records, and what the panel makes of libtorrent's reports. A ratio
-- limit is in thousandths. Widgets, messages, the selection in the list and the time of adding are not modelled.
use adp_pro.Prelude.{
  ℕ, ◌*◌, String, ◌==◌, string_eq, nat_eq, Bool, true, false, not, ◌&&◌, ◌||◌, Option, none, some,
  List, [], ◌∷◌, ◌++◌, if◌then◌else◌, leb, ltb, is_some, any,
}
use adp_pro.Prelude.Dict.{Dict, get, put, contains}
use adp_pro.Torrent.States.{TorrentState, downloading, downloading_metadata}
use adp_pro.Torrent.Engine.{Engine, Handle, add_torrent, set_speed_limits, pause}

pub record TorrentRecord : Type 0 where
  pub torrent_id : String
  pub name : String
  pub save_path : String
  pub category : String
  pub source_magnet : Option String
  pub source_torrent_file : Option String
  pub file_priorities : Dict ℕ ℕ
  pub upload_limit : ℕ
  pub download_limit : ℕ
  pub seed_ratio_limit : ℕ
  pub keep_seeding : Bool

pub record TorrentPanel : Type 0 where
  pub engine : Engine
  pub records : Dict String TorrentRecord
  pub stop_on_complete : Bool
  pub move_completed_dir : Option String
  pub move_completed_by_category : Bool
  pub seen_downloading : List String
  pub moves_pending : Dict String String
  pub unavailable_path : Option String
  pub default_save_path : Option String
  -- What the session store holds: the records, and the ids with resume data.
  pub stored : List TorrentRecord
  pub resume_files : List String

-- The outside during one action: paths, space, and what libtorrent tells of a torrent beside its
-- status.
pub record World : Type 0 where
  -- `os.path.abspath(os.path.expanduser(path))`, `normcase` of it, and `os.path.join`
  pub absolute : String → String
  pub normcase : String → String
  pub join : String → String → String
  pub sanitize : String → String
  pub can_create : String → Bool
  -- `same_volume(a, b) is True`, and `check_space(path, bytes).fits`
  pub on_same_volume : String → String → Bool
  pub fits : String → ℕ → Bool
  pub wanted_done : String → ℕ

abbrev pub set_record : String → TorrentRecord → TorrentPanel → TorrentPanel
set_record id r p = record p { records = put p.records id r }

-- What a .torrent file or a magnet link is, as libtorrent reads it.
pub record Source : Type 0 where
  pub info_hash : String
  pub display_name : Option String
  pub made_handle : Handle
  -- The file that was given and the copy that is kept, or the link.
  pub torrent_file : Option String
  pub stored_copy : Option String
  pub magnet : Option String
  -- The name without one of its own: the file's, or a placeholder.
  pub fallback_name : String

pub record AddRequest : Type 0 where
  -- None: no such file, or no link.
  pub source : Option Source
  pub folder : Option String
  pub category : String
  pub priorities : Dict ℕ ℕ
  pub download_limit : ℕ
  pub upload_limit : ℕ
  pub seed_ratio_limit : ℕ

-- The name that the engine knows, or the fallback; a file's empty name does not count.
abbrev pub name_or : Bool → Option String → String → String
name_or is_file none f = f
name_or is_file (some n) f = if is_file && n == "" then f else n

-- A link comes without priorities.
abbrev pub priorities_for : Source → Dict ℕ ℕ → Dict ℕ ℕ
priorities_for s priorities = if is_some s.torrent_file then priorities else []

abbrev pub new_record : AddRequest → Source → String → Engine → TorrentRecord
new_record r s folder e = record {
  torrent_id = s.info_hash;
  name = name_or (is_some s.torrent_file) (get e.known_names s.info_hash) s.fallback_name;
  save_path = folder;
  category = r.category;
  source_magnet = s.magnet;
  source_torrent_file = s.stored_copy;
  file_priorities = priorities_for s r.priorities;
  upload_limit = r.upload_limit;
  download_limit = r.download_limit;
  seed_ratio_limit = r.seed_ratio_limit;
  keep_seeding = false;
}

unfoldable pub limited : AddRequest → String → Engine → Engine
limited r id e =
    if ltb 0 r.download_limit || ltb 0 r.upload_limit
    then set_speed_limits id r.download_limit r.upload_limit e
    else e

-- With the folder: the engine gets the torrent, and the panel a record unless it has one.
unfoldable pub add_source : AddRequest → Source → String → TorrentPanel → TorrentPanel
add_source r s folder p =
    let e =
      add_torrent s.info_hash s.made_handle s.display_name (priorities_for s r.priorities)
        p.engine in
    if contains p.records s.info_hash
    then record p { engine = e }
    else set_record s.info_hash (new_record r s folder e)
        (record p { engine = limited r s.info_hash e })

-- `save_path or self.default_save_path`, unless the configured folder is unavailable.
unfoldable pub folder_of : AddRequest → TorrentPanel → Option String
folder_of r p = elim r.folder [
  | some f ↦ some f
  | none ↦ if is_some p.unavailable_path then none else p.default_save_path
]

-- The folder could be made: else it raises.
unfoldable pub set_default_save_path : String → TorrentPanel → TorrentPanel
set_default_save_path path p = record p { default_save_path = some path; unavailable_path = none }

-- `add_torrent`: the panel afterwards, and the id unless it was refused.
unfoldable pub add : AddRequest → TorrentPanel → TorrentPanel × Option String
add r p = elim (folder_of r p) [
  | none ↦ (p, none)
  | some folder ↦ elim r.source [
    | none ↦ (p, none)
    | some s ↦ (add_source r s folder p, some s.info_hash)
  ]
]

-- The part of a status dictionary that the panel reads.
pub record Progress : Type 0 where
  pub state : TorrentState
  pub is_seeding : Bool
  pub all_time_upload : ℕ
  pub all_time_download : ℕ

-- `ratio >= limit`, where the ratio is 0 without a download.
unfoldable pub reaches : ℕ → Progress → Bool
reaches limit s =
    if ltb 0 s.all_time_download
    then leb (limit * s.all_time_download) (1000 * s.all_time_upload)
    else limit == 0

abbrev pub on_record :
    String → (TorrentRecord → TorrentPanel → TorrentPanel) → TorrentPanel → TorrentPanel
on_record id f p = elim (get p.records id) [ none ↦ p | some r ↦ f r p ]

abbrev pub pause_in : String → TorrentPanel → TorrentPanel
pause_in id p = record p { engine = pause id p.engine }

abbrev pub is_running : Option Handle → Bool
is_running none = false
is_running (some h) = not h.status.is_paused

unfoldable pub stop_at_ratio : String → Progress → TorrentRecord → TorrentPanel → TorrentPanel
unfolding reaches
stop_at_ratio id s r p =
    if ltb 0 r.seed_ratio_limit
      && s.is_seeding
      && reaches r.seed_ratio_limit s
      && is_running (get p.engine.handles id)
    then pause_in id p
    else p

unfoldable pub enforce_seed_ratio_limit : String → Progress → TorrentPanel → TorrentPanel
enforce_seed_ratio_limit id s p = on_record id (stop_at_ratio id s) p

abbrev pub is_downloading : TorrentState → Bool
is_downloading downloading = true
is_downloading downloading_metadata = true
is_downloading _ = false

-- `set.add` and `set.discard`
abbrev pub insert : String → List String → List String
insert id ids = if any (λ j. j == id) ids then ids else ids ++ id ∷ []

unfoldable pub download_started : String → TorrentPanel → TorrentPanel
download_started id p = record p { seen_downloading = insert id p.seen_downloading }

unfoldable pub on_progress_updated : String → Progress → TorrentPanel → TorrentPanel
unfolding enforce_seed_ratio_limit download_started
on_progress_updated id s p =
    let p' = enforce_seed_ratio_limit id s p in
    if is_downloading s.state then download_started id p' else p'

-- The folder whose space counts.
abbrev pub target_of : Option TorrentRecord → Option String → String
target_of (some r) d = r.save_path
target_of none (some d) = d
target_of none none = ""

-- A torrent that does not fit where it is saved is paused.
unfoldable pub enforce_free_space : World → String → ℕ → TorrentPanel → TorrentPanel
enforce_free_space w id size p =
    if w.fits (target_of (get p.records id) p.default_save_path) size then p else pause_in id p

unfoldable pub on_metadata_received : World → String → String → ℕ → TorrentPanel → TorrentPanel
unfolding enforce_free_space
on_metadata_received w id name size p =
    enforce_free_space w id size
      (on_record id (λ r q. set_record id (record r { name = name }) q) p)
