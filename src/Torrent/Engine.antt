-- ===== src/Torrent/Engine.antt =====
-- src/adp/torrent/engine.py: the handles, and the calls of libtorrent that each operation makes.
-- The session of libtorrent is outside: it tells a handle's status and takes the calls, which are
-- kept here in their order. A handle is named by its info-hash.
use adp_pro.Prelude.{
  ℕ, zero, suc, ◌+◌, String, ◌==◌, string_eq, nat_eq, Bool, true, false, not, Option, none, some,
  List, [], ◌∷◌, ◌++◌, if◌then◌else◌, ltb, length, map,
}
use adp_pro.Prelude.Dict.{Dict, get, put, remove, contains, keys}
use adp_pro.Torrent.States.{FilePriority, priority_value, from_lt_priority, LtStatus}

-- `_limit_value`: none for libtorrent's -1, no limit.
unfoldable pub limit_value : ℕ → Option ℕ
limit_value n = if ltb 0 n then some n else none

pub data LtCall : Type 0 where
  unsets_auto_managed sets_auto_managed pauses resumes rechecks reannounces saves_resume_data :
      String → LtCall
  prioritizes_files : String → List ℕ → LtCall
  limits_download limits_upload : String → ℕ → LtCall
  moves_storage : String → String → LtCall
  adds_torrent : String → LtCall
  removes_torrent : String → Bool → LtCall
  limits_active_downloads : Option ℕ → LtCall

pub record FileInfo : Type 0 where
  pub path : String
  pub size : ℕ
  pub is_pad : Bool

-- What a handle tells. The files are there once the metadata is.
pub record Handle : Type 0 where
  pub status : LtStatus
  pub is_valid : Bool
  pub files : List FileInfo
  pub priorities : List ℕ
  pub progress : List ℕ

pub record Engine : Type 0 where
  pub handles : Dict String Handle
  pub known_names : Dict String String
  -- Oldest first.
  pub calls : List LtCall

abbrev pub lt : List LtCall → Engine → Engine
lt calls e = record e { calls = e.calls ++ calls }

abbrev pub has_handle : Engine → String → Bool
has_handle e id = contains e.handles id

-- The calls are made if there is such a handle.
abbrev pub on_handle : String → List LtCall → Engine → Engine
on_handle id calls e = if has_handle e id then lt calls e else e

unfoldable pub set_max_active_downloads : ℕ → Engine → Engine
unfolding limit_value
set_max_active_downloads n e = lt (limits_active_downloads (limit_value n) ∷ []) e

unfoldable pub move_storage : String → String → Engine → Engine × Bool
move_storage id destination e = elim (get e.handles id) [
  | none ↦ (e, false)
  | some h ↦ if not h.is_valid then (e, false) else (lt (moves_storage id destination ∷ []) e, true)
]

unfoldable pub start_now : String → Engine → Engine
start_now id e = on_handle id (unsets_auto_managed id ∷ resumes id ∷ []) e

unfoldable pub pause : String → Engine → Engine
pause id e = on_handle id (unsets_auto_managed id ∷ pauses id ∷ []) e

unfoldable pub resume : String → Engine → Engine
resume id e = on_handle id (sets_auto_managed id ∷ resumes id ∷ []) e

unfoldable pub force_recheck : String → Engine → Engine × Bool
force_recheck id e = elim (get e.handles id) [
  | none ↦ (e, false)
  | some h ↦ (
    lt
        ((if h.status.is_paused then sets_auto_managed id ∷ resumes id ∷ [] else [])
          ++ rechecks id ∷ reannounces id ∷ [])
        e,
    true,
  )
]

unfoldable pub set_speed_limits : String → ℕ → ℕ → Engine → Engine
set_speed_limits id download upload e =
    on_handle id (limits_download id download ∷ limits_upload id upload ∷ []) e

-- `[4] * n`
unfoldable pub all_normal : ℕ → List ℕ
all_normal zero = []
all_normal (suc n) = 4 ∷ all_normal n

-- `priorities[i] = p`, if there is such a file.
unfoldable pub set_at : ℕ → ℕ → List ℕ → List ℕ
set_at i p [] = []
set_at zero p (q ∷ ps) = p ∷ ps
set_at (suc i) p (q ∷ ps) = q ∷ set_at i p ps

unfoldable pub set_all : Dict ℕ ℕ → List ℕ → List ℕ
unfolding set_at
set_all [] ps = ps
set_all ((i, p) ∷ rest) ps = set_all rest (set_at i p ps)

unfoldable pub apply_file_priorities : String → Handle → Dict ℕ ℕ → Engine → Engine
unfolding set_all all_normal
apply_file_priorities id h [] e = e
apply_file_priorities id h ((i, p) ∷ rest) e =
    let ps = set_all ((i, p) ∷ rest) (all_normal (length h.files)) in
    if length ps == 0 then e else lt (prioritizes_files id ps ∷ []) e

unfoldable pub set_file_priorities : String → Dict ℕ FilePriority → Engine → Engine
unfolding apply_file_priorities priority_value
set_file_priorities id priorities e = elim (get e.handles id) [
  | none ↦ e
  | some h ↦
      apply_file_priorities id h
        (map (λ (c : ℕ × FilePriority). (c.0, priority_value c.1)) priorities) e
]

unfoldable pub add_torrent : String → Handle → Option String → Dict ℕ ℕ → Engine → Engine
unfolding apply_file_priorities
add_torrent id h name priorities e =
    if has_handle e id
    then e
    else let e' = lt (adds_torrent id ∷ []) (record e {
      handles = put e.handles id h;
      known_names = elim name [ none ↦ e.known_names | some n ↦ put e.known_names id n ];
    }) in
      apply_file_priorities id h priorities e'

-- `restore_torrent`, with the handle that libtorrent makes of the saved data.
unfoldable pub restore_torrent : String → Handle → Engine → Engine
restore_torrent id h e = record (lt (adds_torrent id ∷ []) e) { handles = put e.handles id h }

unfoldable pub remove_torrent : String → Bool → Engine → Engine
remove_torrent id delete_files e =
    if has_handle e id
    then lt (removes_torrent id delete_files ∷ [])
        (record e { handles = remove e.handles id; known_names = remove e.known_names id })
    else e

pub record TorrentFileEntry : Type 0 where
  pub index : ℕ
  pub path : String
  pub size : ℕ
  pub priority : FilePriority
  pub progress_bytes : ℕ

-- `values[i] if i < len(values) else default`
unfoldable pub at_or : ℕ → ℕ → List ℕ → ℕ
at_or default i [] = default
at_or default zero (v ∷ vs) = v
at_or default (suc i) (v ∷ vs) = at_or default i vs

unfoldable pub entries_from : Handle → ℕ → List FileInfo → List TorrentFileEntry
unfolding at_or from_lt_priority
entries_from h i [] = []
entries_from h i (f ∷ files) =
    let rest = entries_from h (i + 1) files in
    if f.is_pad
    then rest
    else record {
      index = i;
      path = f.path;
      size = f.size;
      priority = from_lt_priority (at_or 4 i h.priorities);
      progress_bytes = at_or 0 i h.progress;
    }
      ∷ rest

unfoldable pub get_file_list : String → Engine → List TorrentFileEntry
unfolding entries_from
get_file_list id e = elim (get e.handles id) [
  | none ↦ []
  | some h ↦ if h.status.has_metadata then entries_from h 0 h.files else []
]

unfoldable pub request_save_resume_data : String → Engine → Engine
request_save_resume_data id e = elim (get e.handles id) [
  | none ↦ e
  | some h ↦ if h.is_valid then lt (saves_resume_data id ∷ []) e else e
]

unfoldable pub save_each : List String → Engine → Engine
unfolding request_save_resume_data
save_each [] e = e
save_each (id ∷ ids) e = save_each ids (request_save_resume_data id e)

unfoldable pub request_save_all_resume_data : Engine → Engine
unfolding save_each
request_save_all_resume_data e = save_each (keys e.handles) e
