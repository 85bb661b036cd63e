-- ===== src/Api/Torrents.antt =====
-- src/adp/api/controller.py: the calls about torrents. Each is one step of the torrent panel.
use adp_pro.Prelude.{
  ℕ, ◌*◌, String, ◌==◌, string_eq, nat_eq, Bool, true, false, Option, none, some, List, [], ◌∷◌,
  if◌then◌else◌, ltb, any, map,
}
use adp_pro.Prelude.Dict.{Dict, get}
use adp_pro.Torrent.States.{FilePriority, normal, skip, priority_value, is_queued}
use adp_pro.Torrent.Engine.{
  Handle, TorrentFileEntry, get_file_list, set_file_priorities, has_handle, force_recheck,
  start_now,
}
use adp_pro.Torrent.Panel.{
  TorrentPanel, TorrentRecord, AddRequest, Source, add, pause_in, set_record,
}
use adp_pro.Torrent.Session.{resume_torrent, apply_properties, remove_one}
use adp_pro.Api.Updates.{Arguments, Changes, validate_torrent_update, merge}

pub data TorrentError : Type 0 where
  not_available no_such_torrent not_queued no_file_list no_settings bad_update : TorrentError
  none_given both_given not_base64 empty_upload too_large not_added : TorrentError

-- The HTTP status of each.
unfoldable pub error_status : TorrentError → ℕ
error_status not_available = 503
error_status no_such_torrent = 404
error_status not_queued = 409
error_status no_file_list = 409
error_status no_settings = 409
error_status _ = 400

-- The panel afterwards, and none or the error.
abbrev pub Outcome : Type 0
Outcome = TorrentPanel × Option TorrentError

abbrev pub done : TorrentPanel → Outcome
done p = (p, none)

abbrev pub refuse : TorrentError → TorrentPanel → Outcome
refuse e p = (p, some e)

abbrev pub require_handle : String → TorrentPanel → Outcome → Outcome
require_handle id p r = if has_handle p.engine id then r else refuse no_such_torrent p

unfoldable pub get_torrent : String → TorrentPanel → Outcome
get_torrent id p = require_handle id p (done p)

unfoldable pub pause_torrent : String → TorrentPanel → Outcome
pause_torrent id p = require_handle id p (done (pause_in id p))

unfoldable pub resume : String → TorrentPanel → Outcome
resume id p = require_handle id p (done (resume_torrent id p))

abbrev pub waits : Option Handle → Bool
waits none = false
waits (some h) = is_queued h.status

unfoldable pub start_torrent_now : String → TorrentPanel → Outcome
start_torrent_now id p = require_handle id p (
    if waits (get p.engine.handles id)
    then done (record p { engine = start_now id p.engine })
    else refuse not_queued p)

unfoldable pub remove_torrent : String → Bool → TorrentPanel → Outcome
remove_torrent id delete_files p = require_handle id p (done (remove_one id delete_files p))

unfoldable pub force_recheck_torrent : String → TorrentPanel → Outcome
force_recheck_torrent id p =
    require_handle id p (done (record p { engine = (force_recheck id p.engine).0 }))

-- The priority of each listed file: normal for the chosen ones, skipped for the others. No index is
-- listed twice.
unfoldable pub chosen : List ℕ → List TorrentFileEntry → Dict ℕ FilePriority
chosen selected [] = []
chosen selected (e ∷ entries) =
    (e.index, if any (λ i. i == e.index) selected then normal else skip) ∷ chosen selected entries

abbrev pub with_values : Dict ℕ FilePriority → Dict ℕ ℕ
with_values d = map (λ (c : ℕ × FilePriority). (c.0, priority_value c.1)) d

unfoldable pub note_priorities : String → Dict ℕ FilePriority → TorrentPanel → TorrentPanel
note_priorities id d p = elim (get p.records id) [
  | none ↦ p
  | some r ↦ set_record id (record r { file_priorities = with_values d }) p
]

unfoldable pub choose : String → List ℕ → List TorrentFileEntry → TorrentPanel → Outcome
choose id selected [] p = refuse no_file_list p
choose id selected (e ∷ entries) p =
    let d = chosen selected (e ∷ entries) in
    done (note_priorities id d (record p { engine = set_file_priorities id d p.engine }))

unfoldable pub select_torrent_files : String → List ℕ → TorrentPanel → Outcome
select_torrent_files id selected p =
    require_handle id p (choose id selected (get_file_list id p.engine) p)

unfoldable pub update_with : String → Changes → Option TorrentRecord → TorrentPanel → Outcome
update_with id c none p = refuse no_settings p
update_with id c (some r) p = done (apply_properties id (merge c r) p).0

unfoldable pub update_torrent : (String → String) → String → Arguments → TorrentPanel → Outcome
update_torrent strip id a p = elim (validate_torrent_update strip a) [
  | none ↦ refuse bad_update p
  | some c ↦ require_handle id p (update_with id c (get p.records id) p)
]

-- What `b64decode` makes of an upload: its size in bytes and what libtorrent reads in it. Data that
-- libtorrent cannot read raises its own exception, which is not modelled.
pub record Upload : Type 0 where
  pub size : ℕ
  pub source : Source

abbrev pub max_upload_bytes : ℕ
max_upload_bytes = 10 * (1024 * 1024)

abbrev pub answer_to : TorrentPanel × Option String → Outcome
answer_to (p, none) = (p, some not_added)
answer_to (p, some id) = (p, none)

-- `torrent_file_base64`: not given, given and not decodable, or decoded.
pub data FileArgument : Type 0 where
  no_file undecodable : FileArgument
  decoded : Upload → FileArgument

-- `save_path or self.torrent_panel.default_save_path`
abbrev pub or_default : AddRequest → TorrentPanel → AddRequest
or_default r p = record r {
  folder = elim r.folder [ none ↦ p.default_save_path | some f ↦ some f ];
}

-- The request names the source for a link; for a file it is the decoded one.
unfoldable pub add_torrent : Bool → FileArgument → AddRequest → TorrentPanel → Outcome
add_torrent false no_file r p = refuse none_given p
add_torrent true no_file r p = answer_to (add (or_default r p) p)
add_torrent true _ r p = refuse both_given p
add_torrent false undecodable r p = refuse not_base64 p
add_torrent false (decoded u) r p =
    if u.size == 0
    then refuse empty_upload p
    else if ltb max_upload_bytes u.size
    then refuse too_large p
    else answer_to (add (or_default (record r { source = some u.source }) p) p)

-- With the panel, or without torrent support.
pub data TorrentCall : Type 0 where
  gets pauses resumes starts_now rechecks : String → TorrentCall
  removes : String → Bool → TorrentCall
  selects : String → List ℕ → TorrentCall
  updates : String → Arguments → TorrentCall
  adds : Bool → FileArgument → AddRequest → TorrentCall

unfoldable pub call : (String → String) → TorrentCall → TorrentPanel → Outcome
call strip (gets id) p = get_torrent id p
call strip (pauses id) p = pause_torrent id p
call strip (resumes id) p = resume id p
call strip (starts_now id) p = start_torrent_now id p
call strip (rechecks id) p = force_recheck_torrent id p
call strip (removes id delete_files) p = remove_torrent id delete_files p
call strip (selects id selected) p = select_torrent_files id selected p
call strip (updates id a) p = update_torrent strip id a p
call strip (adds link file r) p = add_torrent link file r p
