-- ===== src/Torrent/Recorded.antt =====
-- The panel has a record only of torrents that the engine has, whatever happens.
use adp_pro.Prelude.{
  ℕ, ◌≡◌, refl, ◌∙◌, sym, inl, inr, String, ◌==◌, string_eq, Bool, true, false, Option, none, some,
  List, [], ◌∷◌, if◌then◌else◌, if_rule, arith, Option-cases, Bool-cases,
}
use adp_pro.Prelude.Dict.{Dict, get, put, contains, get-put, get-remove, get-put_self, keys}
use adp_pro.Torrent.States.{LtStatus}
use adp_pro.Torrent.Engine.{
  Engine, Handle, has_handle, lt, start_now, set_max_active_downloads, set_speed_limits,
  request_save_all_resume_data, add_torrent, restore_torrent, remove_torrent, adds_torrent,
}
use adp_pro.Torrent.Control.{apply_handles, added}
use adp_pro.Torrent.Panel.{
  TorrentPanel, TorrentRecord, World, Source, AddRequest, add, add_source, folder_of, limited,
  new_record, download_started, set_default_save_path, set_record, priorities_for,
}
use adp_pro.Torrent.Moves.{
  set_stop_on_complete, move_torrents, set_move_completed, on_storage_move_failed,
}
use adp_pro.Torrent.Session.{
  Restored, from_resume_data, from_source, not_restored, remove_one, remove_each, remove_completed,
  completed_ids, restored, load_one, load_torrents, save_session, has_limit,
}
use adp_pro.Torrent.Actions.{
  TorrentAction, polls, adds, progresses, resolves, begins, finishes, pauses, resumes, starts_now,
  move_fails, sets_stop_on_complete, sets_move_completed, sets_default_save_path, limits_active,
  moves, moved, applies, removes, removes_completed, loads, saves, changes_status, change_status,
  act, act_all,
}
use adp_pro.Torrent.Kept.{
  IsKept, start_now_handles, limits_handles, request_all_handles, engine-IsKept,
}
use adp_pro.Torrent.Polled.{finished-IsKept, poll-IsKept}
use adp_pro.Torrent.Known.{
  pause-IsKept, progress-IsKept, metadata-IsKept, stop_each-IsKept, move_each-IsKept, moved-IsKept,
  resume-IsKept, properties-IsKept,
}

abbrev IsKnown : TorrentPanel → Type 0
IsKnown p = (j : String) → contains p.records j ≡ true → has_handle p.engine j ≡ true

kept-IsKnown : {p q : TorrentPanel} → IsKept p q → IsKnown p → IsKnown q
kept-IsKnown k h j c = k.handles j ∙ h j (sym (k.records j) ∙ c)

add_torrent_keeps :
    (id j : String) (h : Handle) (name : Option String) (d : Dict ℕ ℕ) (e : Engine)
    → has_handle e j ≡ true
    → has_handle (add_torrent id h name d e) j ≡ true
unfolding add_torrent
add_torrent_keeps id j h name d e k = ground (
  arith,
  k,
  get-put e.handles id j h,
  apply_handles id h d (
      lt (adds_torrent id ∷ []) (record e {
        handles = put e.handles id h;
        known_names = elim name [ none ↦ e.known_names | some n ↦ put e.known_names id n ];
      })),
)

-- A torrent that the engine has gets a record.
recorded-IsKnown :
    (id : String) (r : TorrentRecord) (e f : Engine) (p : TorrentPanel)
    → f.handles ≡ e.handles
    → ((j : String) → has_handle p.engine j ≡ true → has_handle e j ≡ true)
    → has_handle e id ≡ true
    → IsKnown p
    → IsKnown (set_record id r (record p { engine = f }))
recorded-IsKnown id r e f p same grows mine h j c = elim (Bool-cases (id == j)) [
  | inl i ↦ let here : id ≡ j = (string_eq.is_same_iff id j).0 i in rw (same, ← here) mine
  | inr n ↦ rw same (grows j (h j (ground (arith, c, n, get-put p.records id j r))))
]

limited_handles : (r : AddRequest) (id : String) (e : Engine) → (limited r id e).handles ≡ e.handles
unfolding limited
limited_handles r id e = ground (arith, limits_handles id r.download_limit r.upload_limit e)

add_source-IsKnown :
    (r : AddRequest) (s : Source) (folder : String) (p : TorrentPanel)
    → IsKnown p
    → IsKnown (add_source r s folder p)
unfolding add_source
add_source-IsKnown r s folder p h =
    let d = priorities_for s r.priorities in
    let e : Engine = add_torrent s.info_hash s.made_handle s.display_name d p.engine in
    let grows : (j : String) → has_handle p.engine j ≡ true → has_handle e j ≡ true =
      λ j. add_torrent_keeps s.info_hash j s.made_handle s.display_name d p.engine in
    if_rule IsKnown (contains p.records s.info_hash) _ _ (λ old. λ j c. grows j (h j c))
      λ new.
        recorded-IsKnown s.info_hash (new_record r s folder e) e (limited r s.info_hash e) p
          (limited_handles r s.info_hash e) grows
          (added s.info_hash s.made_handle s.display_name d p.engine) h

add-IsKnown : (r : AddRequest) (p : TorrentPanel) → IsKnown p → IsKnown (add r p).0
unfolding add get
add-IsKnown r p h = elim (Option-cases (folder_of r p)) [
  | inl e ↦ rw (e, add) h
  | inr (folder, e) ↦ elim (Option-cases r.source) [
    | inl f ↦ rw (e, f, add) h
    | inr (s, f) ↦ rw (e, f, add) (add_source-IsKnown r s folder p h)
  ]
]

remove_one-IsKnown :
    (id : String) (b : Bool) (p : TorrentPanel) → IsKnown p → IsKnown (remove_one id b p)
unfolding remove_one remove_torrent
remove_one-IsKnown id b p h j c =
    ground (arith, h j, c, get-remove p.records id j, get-remove p.engine.handles id j)

remove_each-IsKnown :
    (ids : List String) (b : Bool) (p : TorrentPanel) → IsKnown p → IsKnown (remove_each ids b p)
unfolding remove_each
remove_each-IsKnown [] b p h = h
remove_each-IsKnown (id ∷ ids) b p h =
    remove_each-IsKnown ids b (remove_one id b p) (remove_one-IsKnown id b p h)

restored-IsKnown :
    (id : String) (r : TorrentRecord) (e : Engine) (p : TorrentPanel)
    → ((j : String) → has_handle p.engine j ≡ true → has_handle e j ≡ true)
    → has_handle e id ≡ true
    → IsKnown p
    → IsKnown (restored id r e p)
restored-IsKnown id r e p grows mine h =
    recorded-IsKnown id (record r { torrent_id = id }) e
      (if has_limit r then set_speed_limits id r.download_limit r.upload_limit e else e) p
      (ground (arith, limits_handles id r.download_limit r.upload_limit e)) grows mine h

load_one-IsKnown :
    (how : Restored) (r : TorrentRecord) (p : TorrentPanel) → IsKnown p → IsKnown (load_one how r p)
unfolding load_one
load_one-IsKnown (from_resume_data id k) r p h =
    restored-IsKnown id r (restore_torrent id k p.engine) p
      (λ j g. unfold restore_torrent in ground (arith, g, get-put p.engine.handles id j k))
      (unfold restore_torrent in ground (arith, get-put_self p.engine.handles id k)) h
load_one-IsKnown (from_source s) r p h =
    let d = priorities_for s r.file_priorities in
    restored-IsKnown s.info_hash r (add_torrent s.info_hash s.made_handle s.display_name d p.engine)
      p (λ j. add_torrent_keeps s.info_hash j s.made_handle s.display_name d p.engine)
      (added s.info_hash s.made_handle s.display_name d p.engine) h
load_one-IsKnown not_restored r p h = h

load-IsKnown :
    (records : List (TorrentRecord × Restored)) (p : TorrentPanel)
    → IsKnown p
    → IsKnown (load_torrents records p)
unfolding load_torrents
load-IsKnown [] p h = h
load-IsKnown ((r, how) ∷ rest) p h =
    load-IsKnown rest (load_one how r p) (load_one-IsKnown how r p h)

status_handle :
    (id j : String) (s : LtStatus) (e : Engine)
    → has_handle (change_status id s e) j ≡ has_handle e j
unfolding change_status get
status_handle id j s e = elim (Option-cases (get e.handles id)) [
  | inl n ↦ rw (n, change_status) refl
  | inr (h, n) ↦
      rw (n, change_status)
        (ground
          (arith, n, get-put e.handles id j (record h { status = s }), string_eq.is_same_iff id j))
]

status-IsKept :
    (id : String) (s : LtStatus) (p : TorrentPanel)
    → IsKept p (record p { engine = change_status id s p.engine })
status-IsKept id s p = record { handles = λ j. status_handle id j s p.engine; records = λ j. refl }

act-IsKnown : (w : World) (a : TorrentAction) (p : TorrentPanel) → IsKnown p → IsKnown (act w a p)
unfolding act download_started on_storage_move_failed set_stop_on_complete set_move_completed
    move_torrents remove_completed save_session
act-IsKnown w (adds r) p h = add-IsKnown r p h
act-IsKnown w (progresses id s) p h = kept-IsKnown (progress-IsKept id s p) h
act-IsKnown w (resolves id name size) p h = kept-IsKnown (metadata-IsKept w id name size p) h
act-IsKnown w (begins id) p h = h
act-IsKnown w (polls totals alerts) p h = kept-IsKnown (poll-IsKept w totals alerts p) h
act-IsKnown w (finishes id) p h = kept-IsKnown (finished-IsKept w id p) h
act-IsKnown w (pauses id) p h = kept-IsKnown (pause-IsKept id p) h
act-IsKnown w (resumes id) p h = kept-IsKnown (resume-IsKept id p) h
act-IsKnown w (starts_now id) p h =
    kept-IsKnown (engine-IsKept p (start_now id p.engine) (start_now_handles id p.engine)) h
act-IsKnown w (move_fails id) p h = h
act-IsKnown w (sets_stop_on_complete b) p h =
    let p' : TorrentPanel = record p { stop_on_complete = b } in
    if_rule IsKnown b _ _ (λ on. kept-IsKnown (stop_each-IsKept (keys p.records) p') h) λ off. h
act-IsKnown w (sets_move_completed folder b) p h = h
act-IsKnown w (moves ids to) p h = kept-IsKnown (move_each-IsKept w (w.absolute to) ids p) h
act-IsKnown w (moved id path) p h = kept-IsKnown (moved-IsKept id path p) h
act-IsKnown w (applies id c) p h = kept-IsKnown (properties-IsKept id c p) h
act-IsKnown w (removes id b) p h = remove_one-IsKnown id b p h
act-IsKnown w removes_completed p h =
    remove_each-IsKnown (completed_ids p.engine.handles (keys p.records)) false p h
act-IsKnown w (sets_default_save_path path) p h = unfold set_default_save_path in h
act-IsKnown w (limits_active n) p h = unfold set_max_active_downloads in h
act-IsKnown w (loads records) p h = load-IsKnown records p h
act-IsKnown w (saves ids) p h = λ j c.
    (engine-IsKept p (request_save_all_resume_data p.engine) (request_all_handles p.engine)).handles
      j
    ∙ h j c
act-IsKnown w (changes_status id s) p h = kept-IsKnown (status-IsKept id s p) h

-- Whatever happens to a panel that has records only of torrents of the engine, it still has: adds,
-- duplicates, removals, loads, moves, changes of the settings, and polls with any alerts and statuses.
pub act_all-IsKnown :
    (w : World) (actions : List TorrentAction) (p : TorrentPanel) (id : String)
    → ((j : String) → contains p.records j ≡ true → has_handle p.engine j ≡ true)
    → contains (act_all w actions p).records id ≡ true
    → has_handle (act_all w actions p).engine id ≡ true
unfolding act_all
act_all-IsKnown w [] p id h c = h id c
act_all-IsKnown w (a ∷ rest) p id h c =
    act_all-IsKnown w rest (act w a p) id (act-IsKnown w a p h) c
