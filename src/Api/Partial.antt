-- ===== src/Api/Partial.antt =====
-- A refused call about a torrent changes nothing, and an update changes what it names.
use adp_pro.Prelude.{
  ℕ, ◌≡◌, refl, inl, inr, String, string_eq, nat_eq, true, false, Option, none, some, List, [], ◌∷◌,
  is_some, arith, Option-cases,
}
use adp_pro.Prelude.Dict.{get, put, get-put_self}
use adp_pro.Torrent.Engine.{TorrentFileEntry, get_file_list, has_handle, set_speed_limits}
use adp_pro.Torrent.Panel.{TorrentPanel, TorrentRecord, AddRequest, add, folder_of}
use adp_pro.Torrent.Moves.{enforce_stop_on_complete}
use adp_pro.Torrent.Session.{Properties, apply_properties, with_properties}
use adp_pro.Api.Updates.{Arguments, Changes, validate_torrent_update, merge}
use adp_pro.Api.Torrents.{
  get_torrent, pause_torrent, resume, start_torrent_now, remove_torrent, force_recheck_torrent,
  choose, select_torrent_files, update_with, update_torrent, no_file, undecodable, decoded,
  add_torrent, answer_to, or_default, TorrentCall, gets, pauses, resumes, starts_now, rechecks,
  removes, selects, updates, adds, call,
}
use adp_pro.Api.Named.{IsUpdated, validated-IsUpdated}

choose-refused :
    (id : String) (selected : List ℕ) (entries : List TorrentFileEntry) (p : TorrentPanel)
    → is_some (choose id selected entries p).1 ≡ true
    → (choose id selected entries p).0 ≡ p
unfolding choose
choose-refused id selected [] p h = refl
choose-refused id selected (e ∷ entries) p h = ground arith

add-refused :
    (r : AddRequest) (p : TorrentPanel)
    → is_some (answer_to (add r p)).1 ≡ true
    → (answer_to (add r p)).0 ≡ p
unfolding add
add-refused r p h = elim (Option-cases (folder_of r p)) [
  | inl e ↦ ground (arith, e)
  | inr (f, e) ↦ elim (Option-cases r.source) [
    | inl g ↦ ground (arith, e, g)
    | inr (s, g) ↦ ground (arith, e, g, h)
  ]
]

update_with-refused :
    (id : String) (c : Changes) (r : Option TorrentRecord) (p : TorrentPanel)
    → is_some (update_with id c r p).1 ≡ true
    → (update_with id c r p).0 ≡ p
unfolding update_with
update_with-refused id c none p h = refl
update_with-refused id c (some r) p h = ground arith

update-refused :
    (strip : String → String) (id : String) (a : Arguments) (p : TorrentPanel)
    → is_some (update_torrent strip id a p).1 ≡ true
    → (update_torrent strip id a p).0 ≡ p
unfolding update_torrent
update-refused strip id a p h = elim (Option-cases (validate_torrent_update strip a)) [
  | inl e ↦ ground (arith, e)
  | inr (c, e) ↦ ground (arith, e, h, update_with-refused id c (get p.records id) p)
]

-- A call about a torrent that is answered with an error has left the torrent panel as it was.
pub call-refused :
    (strip : String → String) (c : TorrentCall) (p : TorrentPanel)
    → is_some (call strip c p).1 ≡ true
    → (call strip c p).0 ≡ p
unfolding call get_torrent pause_torrent resume start_torrent_now force_recheck_torrent
    remove_torrent select_torrent_files add_torrent
call-refused strip (gets id) p h = ground arith
call-refused strip (pauses id) p h = ground arith
call-refused strip (resumes id) p h = ground arith
call-refused strip (starts_now id) p h = ground arith
call-refused strip (rechecks id) p h = ground arith
call-refused strip (removes id b) p h = ground arith
call-refused strip (selects id selected) p h =
    ground (arith, choose-refused id selected (get_file_list id p.engine) p)
call-refused strip (updates id a) p h = update-refused strip id a p h
call-refused strip (adds false no_file r) p h = refl
call-refused strip (adds true no_file r) p h = add-refused (or_default r p) p h
call-refused strip (adds true undecodable r) p h = refl
call-refused strip (adds true (decoded u) r) p h = refl
call-refused strip (adds false undecodable r) p h = refl
call-refused strip (adds false (decoded u) r) p h =
    ground (arith, add-refused (or_default (record r { source = some u.source }) p) p)

stopped_records :
    (id : String) (p : TorrentPanel) → (enforce_stop_on_complete id p).records ≡ p.records
unfolding enforce_stop_on_complete
stopped_records id p = ground arith

applied_record :
    (id : String) (c : Properties) (r : TorrentRecord) (p : TorrentPanel)
    → get p.records id ≡ some r
    → get (apply_properties id c p).0.records id ≡ some (with_properties c r)
unfolding apply_properties
applied_record id c r p e =
    let n : TorrentRecord = with_properties c r in
    let q : TorrentPanel = record p {
      records = put p.records id n;
      engine = set_speed_limits id c.download_limit c.upload_limit p.engine;
    } in
    ground (arith, e, get-put_self p.records id n, stopped_records id q)

-- An accepted update of a torrent that has a record gives each of the five settings the value that
-- was named for it, and leaves those that were not named and the rest of the record as they were.
pub update_torrent-changes :
    (strip : String → String) (id : String) (a : Arguments) (c : Changes) (r : TorrentRecord)
    (p : TorrentPanel)
    → has_handle p.engine id ≡ true
    → get p.records id ≡ some r
    → validate_torrent_update strip a ≡ some c
    → ((update_torrent strip id a p).1 ≡ none)
      × ((n : TorrentRecord) × (get (update_torrent strip id a p).0.records id ≡ some n)
          × IsUpdated strip a r n)
unfolding update_torrent update_with merge
update_torrent-changes strip id a c r p k e v = (
  ground (arith, k, e, v),
  (
    with_properties (merge c r) r,
    ground (arith, k, e, v, applied_record id (merge c r) r p e),
    validated-IsUpdated strip a c r v,
  ),
)
