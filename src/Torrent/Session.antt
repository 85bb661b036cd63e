-- ===== src/Torrent/Session.antt =====
-- src/adp/gui/torrent_panel.py: resuming, properties, removal, and the session.
use adp_pro.Prelude.{
  ℕ, String, string_eq, Bool, true, false, ◌&&◌, ◌||◌, Option, none, some, List, [], ◌∷◌, ◌++◌,
  if◌then◌else◌, ltb, filter,
}
use adp_pro.Prelude.Dict.{Dict, get, remove, values, keys}
use adp_pro.Torrent.Engine.{
  Engine, Handle, add_torrent, restore_torrent, remove_torrent, set_speed_limits, resume,
  request_save_all_resume_data,
}
use adp_pro.Torrent.Panel.{
  TorrentRecord, TorrentPanel, Source, priorities_for, set_record, on_record,
}
use adp_pro.Torrent.Moves.{discard, enforce_stop_on_complete}

abbrev pub is_complete : Option Handle → Bool
is_complete none = false
is_complete (some h) = h.is_valid && h.status.is_finished

-- To resume a finished torrent is to ask for seeding.
unfoldable pub resume_torrent : String → TorrentPanel → TorrentPanel
resume_torrent id p =
    let p' =
      if is_complete (get p.engine.handles id)
      then on_record id (λ r q. set_record id (record r { keep_seeding = true }) q) p
      else p in
    record p' { engine = resume id p'.engine }

pub record Properties : Type 0 where
  pub category : String
  pub download_limit : ℕ
  pub upload_limit : ℕ
  pub seed_ratio_limit : ℕ
  pub keep_seeding : Bool

abbrev pub with_properties : Properties → TorrentRecord → TorrentRecord
with_properties c r = record r {
  category = c.category;
  download_limit = c.download_limit;
  upload_limit = c.upload_limit;
  seed_ratio_limit = c.seed_ratio_limit;
  keep_seeding = c.keep_seeding;
}

abbrev pub store_records : TorrentPanel → TorrentPanel
store_records p = record p { stored = values p.records }

unfoldable pub apply_properties : String → Properties → TorrentPanel → TorrentPanel × Bool
apply_properties id c p = elim (get p.records id) [
  | none ↦ (p, false)
  | some r ↦
      let p' = set_record id (with_properties c r) p in
      let p'' = record p' {
        engine = set_speed_limits id c.download_limit c.upload_limit p'.engine;
      } in
      (store_records (if c.keep_seeding then p'' else enforce_stop_on_complete id p''), true)
]

unfoldable pub remove_one : String → Bool → TorrentPanel → TorrentPanel
remove_one id delete_files p = record p {
  engine = remove_torrent id delete_files p.engine;
  records = remove p.records id;
  resume_files = discard id p.resume_files;
}

unfoldable pub remove_each : List String → Bool → TorrentPanel → TorrentPanel
remove_each [] delete_files p = p
remove_each (id ∷ ids) delete_files p = remove_each ids delete_files (remove_one id delete_files p)

abbrev pub completed_ids : Dict String Handle → List String → List String
completed_ids handles ids = filter (λ id. is_complete (get handles id)) ids

-- `remove_completed`, once it was confirmed.
unfoldable pub remove_completed : TorrentPanel → TorrentPanel
remove_completed p = remove_each (completed_ids p.engine.handles (keys p.records)) false p

-- How libtorrent brings a saved torrent back: from its resume data, its file or its link; or not.
pub data Restored : Type 0 where
  from_resume_data : String → Handle → Restored
  from_source : Source → Restored
  not_restored : Restored

abbrev pub has_limit : TorrentRecord → Bool
has_limit r = ltb 0 r.download_limit || ltb 0 r.upload_limit

abbrev pub restored : String → TorrentRecord → Engine → TorrentPanel → TorrentPanel
restored id r e p =
    set_record id (record r { torrent_id = id })
      (record p {
        engine = if has_limit r then set_speed_limits id r.download_limit r.upload_limit e else e;
      })

unfoldable pub load_one : Restored → TorrentRecord → TorrentPanel → TorrentPanel
load_one (from_resume_data id h) r p = restored id r (restore_torrent id h p.engine) p
load_one (from_source s) r p =
    restored s.info_hash r
      (add_torrent s.info_hash s.made_handle s.display_name (priorities_for s r.file_priorities)
        p.engine)
      p
load_one not_restored r p = p

unfoldable pub load_torrents : List (TorrentRecord × Restored) → TorrentPanel → TorrentPanel
load_torrents [] p = p
load_torrents ((r, how) ∷ rest) p = load_torrents rest (load_one how r p)

-- `save_session`, with the ids whose resume data has come in.
unfoldable pub save_session : List String → TorrentPanel → TorrentPanel
save_session arrived p = store_records (record p {
  engine = request_save_all_resume_data p.engine;
  resume_files = arrived ++ p.resume_files;
})
