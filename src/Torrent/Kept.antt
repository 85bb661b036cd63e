-- ===== src/Torrent/Kept.antt =====
-- Operations that keep the torrents of the engine and of the records.
use adp_pro.Prelude.{ℕ, ◌≡◌, refl, ◌∙◌, String, string_eq, some, List, [], ◌∷◌, arith}
use adp_pro.Prelude.Dict.{get, contains, get-put, keys}
use adp_pro.Torrent.Engine.{
  Engine, has_handle, pause, resume, start_now, set_speed_limits, move_storage,
  request_save_resume_data, request_save_all_resume_data, save_each,
}
use adp_pro.Torrent.Panel.{TorrentPanel, TorrentRecord, set_record}

-- The same torrents in the engine and in the records.
pub record IsKept (p q : TorrentPanel) : Type 0 where
  pub handles : (j : String) → has_handle q.engine j ≡ has_handle p.engine j
  pub records : (j : String) → contains q.records j ≡ contains p.records j

pub IsKept-refl : (p : TorrentPanel) → IsKept p p
IsKept-refl p = record { handles = λ j. refl; records = λ j. refl }

pub IsKept-trans : {p q r : TorrentPanel} → IsKept p q → IsKept q r → IsKept p r
IsKept-trans f g = record {
  handles = λ j. g.handles j ∙ f.handles j;
  records = λ j. g.records j ∙ f.records j;
}

pub set_record-IsKept :
    (id : String) (r n : TorrentRecord) (p : TorrentPanel)
    → get p.records id ≡ some r
    → IsKept p (set_record id n p)
set_record-IsKept id r n p e = record {
  handles = λ j. refl;
  records = λ j. ground (arith, get-put p.records id j n, string_eq.is_same_iff id j);
}

-- Operations of the engine that only ask something of libtorrent.
pub pause_handles : (id : String) (e : Engine) → (pause id e).handles ≡ e.handles
unfolding pause
pause_handles id e = ground arith

pub resume_handles : (id : String) (e : Engine) → (resume id e).handles ≡ e.handles
unfolding resume
resume_handles id e = ground arith

pub start_now_handles : (id : String) (e : Engine) → (start_now id e).handles ≡ e.handles
unfolding start_now
start_now_handles id e = ground arith

pub limits_handles :
    (id : String) (d u : ℕ) (e : Engine) → (set_speed_limits id d u e).handles ≡ e.handles
unfolding set_speed_limits
limits_handles id d u e = ground arith

pub move_handles : (id to : String) (e : Engine) → (move_storage id to e).0.handles ≡ e.handles
unfolding move_storage
move_handles id to e = ground arith

pub request_handles :
    (id : String) (e : Engine) → (request_save_resume_data id e).handles ≡ e.handles
unfolding request_save_resume_data
request_handles id e = ground arith

save_each_handles : (ids : List String) (e : Engine) → (save_each ids e).handles ≡ e.handles
unfolding save_each
save_each_handles [] e = refl
save_each_handles (id ∷ ids) e =
    save_each_handles ids (request_save_resume_data id e) ∙ request_handles id e

pub request_all_handles : (e : Engine) → (request_save_all_resume_data e).handles ≡ e.handles
unfolding request_save_all_resume_data
request_all_handles e = save_each_handles (keys e.handles) e

pub engine-IsKept :
    (p : TorrentPanel) (e : Engine)
    → e.handles ≡ p.engine.handles
    → IsKept p (record p { engine = e })
engine-IsKept p e h = record { handles = λ j. rw h refl; records = λ j. refl }
