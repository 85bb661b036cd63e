-- ===== src/Torrent/Seeding.antt =====
-- Who decides whether a finished torrent seeds: the user's choice is kept.
use adp_pro.Prelude.{
  ◌≡◌, inl, inr, String, string_eq, Bool, true, none, not, ◌&&◌, some, [], ◌∷◌, ◌++◌, if◌then◌else◌,
  arith, Option-cases,
}
use adp_pro.Prelude.Dict.{get, contains, get-put_self, get-remove_self}
use adp_pro.Torrent.Engine.{
  Engine, Handle, pauses, unsets_auto_managed, saves_resume_data, pause, request_save_resume_data,
  add_torrent, remove_torrent,
}
use adp_pro.Torrent.Panel.{
  TorrentPanel, TorrentRecord, World, AddRequest, Source, add_source, new_record, priorities_for,
}
use adp_pro.Torrent.Moves.{keeps_seeding, must_stop, enforce_stop_on_complete, may_move, move_one}
use adp_pro.Torrent.Session.{resume_torrent, remove_one}

-- A torrent is stopped on completion exactly where the setting is on, its record does not exempt
-- it, and it is finished and running; then libtorrent is told to pause it, out of its automatic
-- management, and otherwise nothing.
enforce_stop_on_complete-calls :
    (id : String) (h : Handle) (r : TorrentRecord) (p : TorrentPanel)
    → get p.engine.handles id ≡ some h
    → get p.records id ≡ some r
    → h.is_valid ≡ true
    → let stops =
        p.stop_on_complete
        && not r.keep_seeding
        && not h.status.is_paused
        && h.status.is_finished in
      (enforce_stop_on_complete id p).engine.calls ≡ (
        if stops
        then (p.engine.calls ++ unsets_auto_managed id ∷ pauses id ∷ [])
          ++ saves_resume_data id ∷ []
        else p.engine.calls)
unfolding enforce_stop_on_complete must_stop pause request_save_resume_data
enforce_stop_on_complete-calls id h r p e f v = ground arith

-- A finished torrent that the user resumes is recorded as one to keep seeding, and is not stopped
-- by a completion that is reported later, whatever the setting.
resume_torrent-lasts :
    (id : String) (h : Handle) (r : TorrentRecord) (p : TorrentPanel)
    → get p.engine.handles id ≡ some h
    → get p.records id ≡ some r
    → h.is_valid ≡ true
    → h.status.is_finished ≡ true
    → let q = resume_torrent id p in
      (keeps_seeding (get q.records id) ≡ true) × (enforce_stop_on_complete id q ≡ q)
unfolding enforce_stop_on_complete must_stop resume_torrent
resume_torrent-lasts id h r p e f v d =
    let n : TorrentRecord = record r { keep_seeding = true } in
    (
      ground (arith, e, f, v, d, get-put_self p.records id n),
      ground (arith, e, f, v, d, get-put_self p.records id n),
    )

pending_blocks :
    (w : World) (id other to : String) (q : TorrentPanel)
    → get q.moves_pending id ≡ some to
    → move_one w other id q ≡ q
pending_blocks w id other to q e = elim (Option-cases (get q.records id)) [
  | inl n ↦ unfold move_one may_move in ground (arith, n)
  | inr (r, n) ↦ unfold move_one may_move in ground (arith, n, e)
]

again_recorded :
    (r : AddRequest) (s : Source) (folder : String) (p : TorrentPanel) (id : String)
    → s.info_hash ≡ id
    → contains (add_source r s folder p).records id ≡ true
unfolding add_source
again_recorded r s folder p id i =
    let e : Engine =
      add_torrent s.info_hash s.made_handle s.display_name (priorities_for s r.priorities)
        p.engine in
    ground (arith, i, get-put_self p.records s.info_hash (new_record r s folder e))

added_pending :
    (r : AddRequest) (s : Source) (folder : String) (p : TorrentPanel)
    → (add_source r s folder p).moves_pending ≡ p.moves_pending
unfolding add_source
added_pending r s folder p = ground arith

remove_torrent-forgets :
    (id : String) (b : Bool) (e : Engine) → get (remove_torrent id b e).handles id ≡ none
unfolding remove_torrent
remove_torrent-forgets id b e = elim (Option-cases (get e.handles id)) [
  | inl gone ↦ ground (arith, gone, get-remove_self e.handles id)
  | inr (h, found) ↦ ground (arith, found, get-remove_self e.handles id)
]

-- The removal of a torrent that is moving forgets its record and its handle, but not its move: the
-- same torrent, added again, is not moved while that entry stays.
pub removed_move_blocks :
    (w : World) (id to other : String) (b : Bool) (r : AddRequest) (s : Source) (folder : String)
    (p : TorrentPanel)
    → get p.moves_pending id ≡ some to
    → s.info_hash ≡ id
    → let gone = remove_one id b p in
      let q = add_source r s folder gone in
      (get gone.records id ≡ none)
      × (get gone.engine.handles id ≡ none)
      × (contains q.records id ≡ true)
      × (move_one w other id q ≡ q)
unfolding remove_one
removed_move_blocks w id to other b r s folder p e i =
    let q : TorrentPanel = add_source r s folder (remove_one id b p) in
    (
      get-remove_self p.records id,
      unfold remove_one in remove_torrent-forgets id b p.engine,
      again_recorded r s folder (remove_one id b p) id i,
      pending_blocks w id other to q
          (rw (added_pending r s folder (remove_one id b p), remove_one) e),
    )
