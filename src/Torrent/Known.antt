-- ===== src/Torrent/Known.antt =====
-- Actions of the torrent panel that keep the torrents of the engine and of the records.
use adp_pro.Prelude.{
  ℕ, ◌≡◌, refl, ◌∙◌, inl, inr, String, ◌==◌, string_eq, true, ◌&&◌, Option, none, some, List, [],
  ◌∷◌, if_rule, Option-cases, any, ltb,
}
use adp_pro.Prelude.Dict.{get, remove}
use adp_pro.Torrent.Engine.{pause, set_speed_limits, request_save_resume_data}
use adp_pro.Torrent.Panel.{
  TorrentPanel, TorrentRecord, World, Progress, on_progress_updated, on_metadata_received,
  enforce_free_space, enforce_seed_ratio_limit, stop_at_ratio, reaches, is_running,
  download_started, pause_in, set_record, on_record, target_of, is_downloading,
}
use adp_pro.Torrent.Moves.{
  must_stop, enforce_stop_on_complete, stop_each, may_move, move_one, move_each, move_torrents,
  completed_destination, move_to, move_if_seen, arrive, on_storage_moved, discard,
}
use adp_pro.Torrent.Session.{
  Properties, with_properties, resume_torrent, apply_properties, is_complete,
}
use adp_pro.Torrent.Kept.{
  IsKept, IsKept-refl, IsKept-trans, set_record-IsKept, pause_handles, resume_handles,
  limits_handles, move_handles, request_handles, engine-IsKept,
}

on_record-IsKept :
    (id : String) (f : TorrentRecord → TorrentPanel → TorrentPanel) (p : TorrentPanel)
    → ((r : TorrentRecord) → get p.records id ≡ some r → IsKept p (f r p))
    → IsKept p (on_record id f p)
on_record-IsKept id f p h = elim (Option-cases (get p.records id)) [
  | inl e ↦ rw (e, on_record) (IsKept-refl p)
  | inr (r, e) ↦ rw (e, on_record) (h r e)
]

pub pause-IsKept : (id : String) (p : TorrentPanel) → IsKept p (pause_in id p)
pause-IsKept id p = engine-IsKept p (pause id p.engine) (pause_handles id p.engine)

ratio-IsKept :
    (id : String) (s : Progress) (p : TorrentPanel) → IsKept p (enforce_seed_ratio_limit id s p)
unfolding enforce_seed_ratio_limit stop_at_ratio
ratio-IsKept id s p = on_record-IsKept id (stop_at_ratio id s) p λ r e.
    if_rule (IsKept p)
      (ltb 0 r.seed_ratio_limit
        && s.is_seeding
        && reaches r.seed_ratio_limit s
        && is_running (get p.engine.handles id))
      _ _ (λ h. pause-IsKept id p) (λ h. IsKept-refl p)

pub progress-IsKept :
    (id : String) (s : Progress) (p : TorrentPanel) → IsKept p (on_progress_updated id s p)
unfolding on_progress_updated download_started
progress-IsKept id s p =
    if_rule (IsKept p) (is_downloading s.state) _ _
      (λ h. let k = ratio-IsKept id s p in record { handles = k.handles; records = k.records })
      λ h. ratio-IsKept id s p

pub metadata-IsKept :
    (w : World) (id name : String) (size : ℕ) (p : TorrentPanel)
    → IsKept p (on_metadata_received w id name size p)
unfolding on_metadata_received enforce_free_space
metadata-IsKept w id name size p =
    let q : TorrentPanel = on_record id (λ r q. set_record id (record r { name = name }) q) p in
    let k =
      on_record-IsKept id (λ r q. set_record id (record r { name = name }) q) p
        (λ r e. set_record-IsKept id r (record r { name = name }) p e) in
    if_rule (IsKept p) (w.fits (target_of (get q.records id) q.default_save_path) size) _ _ (λ h. k)
      λ h. IsKept-trans k (pause-IsKept id q)

pub stop-IsKept : (id : String) (p : TorrentPanel) → IsKept p (enforce_stop_on_complete id p)
unfolding enforce_stop_on_complete
stop-IsKept id p =
    if_rule (IsKept p) (must_stop id p) _ _
      (λ h.
        engine-IsKept p (request_save_resume_data id (pause id p.engine))
          (request_handles id (pause id p.engine) ∙ pause_handles id p.engine))
      λ h. IsKept-refl p

pub stop_each-IsKept : (ids : List String) (p : TorrentPanel) → IsKept p (stop_each ids p)
unfolding stop_each
stop_each-IsKept [] p = IsKept-refl p
stop_each-IsKept (id ∷ ids) p =
    IsKept-trans (stop-IsKept id p) (stop_each-IsKept ids (enforce_stop_on_complete id p))

move_one-IsKept : (w : World) (to id : String) (p : TorrentPanel) → IsKept p (move_one w to id p)
unfolding move_one
move_one-IsKept w to id p =
    if_rule (IsKept p) (may_move w to id p) _ _
      (λ h. record { handles = λ j. rw (move_handles id to p.engine) refl; records = λ j. refl })
      λ h. IsKept-refl p

pub move_each-IsKept :
    (w : World) (to : String) (ids : List String) (p : TorrentPanel)
    → IsKept p (move_each w to ids p)
unfolding move_each
move_each-IsKept w to [] p = IsKept-refl p
move_each-IsKept w to (id ∷ ids) p =
    IsKept-trans (move_one-IsKept w to id p) (move_each-IsKept w to ids (move_one w to id p))

pub move_if_seen-IsKept :
    (w : World) (id : String) (dir : Option String) (p : TorrentPanel)
    → IsKept p (move_if_seen w id dir p)
unfolding move_if_seen move_to move_torrents
move_if_seen-IsKept w id none p = IsKept-refl p
move_if_seen-IsKept w id (some dir) p =
    let q : TorrentPanel = record p { seen_downloading = discard id p.seen_downloading } in
    let k =
      on_record-IsKept id (move_to w id dir) q
        (λ r e. move_each-IsKept w (w.absolute (completed_destination w r dir q)) (id ∷ []) q) in
    if_rule (IsKept p) (any (λ j. j == id) p.seen_downloading) _ _
      (λ h. record { handles = k.handles; records = k.records }) λ h. IsKept-refl p

pub moved-IsKept : (id path : String) (p : TorrentPanel) → IsKept p (on_storage_moved id path p)
unfolding on_storage_moved arrive
moved-IsKept id path p =
    let q : TorrentPanel = record p { moves_pending = remove p.moves_pending id } in
    let k = on_record-IsKept id (arrive id path) q (λ r e.
      let n : TorrentRecord = record r { save_path = path } in
      let kept = set_record-IsKept id r n q e in
      record {
        handles =
            (engine-IsKept q (request_save_resume_data id q.engine)
              (request_handles id q.engine)).handles;
        records = kept.records;
      }) in
    record { handles = k.handles; records = k.records }

pub resume-IsKept : (id : String) (p : TorrentPanel) → IsKept p (resume_torrent id p)
unfolding resume_torrent
resume-IsKept id p =
    let k =
      if_rule (IsKept p) (is_complete (get p.engine.handles id)) _ p
        (λ h.
          on_record-IsKept id (λ r q. set_record id (record r { keep_seeding = true }) q) p
            (λ r e. set_record-IsKept id r (record r { keep_seeding = true }) p e))
        (λ h. IsKept-refl p) in
    IsKept-trans k (engine-IsKept _ _ (resume_handles id _))

pub properties-IsKept :
    (id : String) (c : Properties) (p : TorrentPanel) → IsKept p (apply_properties id c p).0
unfolding apply_properties
properties-IsKept id c p = elim (Option-cases (get p.records id)) [
  | inl e ↦ rw (e, apply_properties) (IsKept-refl p)
  | inr (r, e) ↦
      let q : TorrentPanel = set_record id (with_properties c r) p in
      let limited : TorrentPanel = record q {
        engine = set_speed_limits id c.download_limit c.upload_limit q.engine;
      } in
      let k =
        IsKept-trans (set_record-IsKept id r (with_properties c r) p e)
          (engine-IsKept q _ (limits_handles id c.download_limit c.upload_limit q.engine)) in
      let done =
        if_rule (IsKept p) c.keep_seeding limited (enforce_stop_on_complete id limited) (λ h. k)
          (λ h. IsKept-trans k (stop-IsKept id limited)) in
      rw (e, apply_properties) (record { handles = done.handles; records = done.records })
]
