-- ===== src/Downloader/Sidecar.antt =====
-- src/adp/core/downloader/manager.py: reading and writing the `.progress` sidecar.
use adp_pro.Prelude.{
  ℕ, String, ◌==◌, string_eq, nat_eq, Bool, true, false, not, ◌&&◌, ◌||◌, Option, none, some,
  if◌then◌else◌, is_some, ltb, sum,
}
use adp_pro.Prelude.Dict.{values}
use adp_pro.Core.Models.{status_eq, downloading, paused}
use adp_pro.Downloader.State.{
  Manager, Sidecar, SidecarFile, missing, unreadable, odd, holds, Env, truthy,
}

-- `a == b` on optional texts.
unfoldable pub option_eq : Option String → Option String → Bool
option_eq none none = true
option_eq none (some b) = false
option_eq (some a) none = false
option_eq (some a) (some b) = a == b

-- The three checks that a sidecar passes before it is trusted.
unfoldable pub is_usable : Manager → Sidecar → Bool
unfolding option_eq
is_usable m s =
    if not (s.url == m.url) || not (s.save_path == m.save_path)
    then false
    else if truthy m.server_etag && not (option_eq s.etag m.server_etag)
    then false
    else not (ltb 0 m.total_size && not (s.total_size == m.total_size))

-- The manager after `load_progress`, and its result, where it raises nothing.
unfoldable pub load_from : Manager → SidecarFile → Manager × Bool
unfolding is_usable
load_from m missing = (m, false)
load_from m unreadable = (m, false)
load_from m odd = (m, false)
load_from m (holds s) =
    if is_usable m s
    then (
      record m {
        total_size = s.total_size;
        chunk_progress = s.chunk_progress;
        downloaded_size = sum (values s.chunk_progress);
      },
      true,
    )
    else (m, false)

unfoldable pub load_progress : Manager → Manager × Bool
unfolding load_from
load_progress m = load_from m m.sidecar

-- `load_progress` is called, for a file that exists, and raises what it does not handle.
unfoldable pub escapes : Option ℕ → SidecarFile → Bool
escapes file odd = is_some file
escapes file _ = false

unfoldable pub snapshot : Manager → Sidecar
snapshot m = record {
  url = m.url;
  save_path = m.save_path;
  total_size = m.total_size;
  etag = m.server_etag;
  last_modified = m.server_last_modified;
  chunk_progress = m.chunk_progress;
}

-- A failed write leaves the old sidecar: the text goes to a temporary file first.
unfoldable pub write_initial_progress : Env → Manager → Manager
unfolding snapshot
write_initial_progress env m = record m {
  sidecar = if env.can_write_sidecar then holds (snapshot m) else m.sidecar;
}

unfoldable pub save_progress : Env → Manager → Manager
unfolding snapshot status_eq
save_progress env m =
    if status_eq m.status downloading || status_eq m.status paused
    then record m { sidecar = if env.can_write_sidecar then holds (snapshot m) else m.sidecar }
    else m

-- Whether `if os.path.exists(f): os.remove(f)` raises nothing.
unfoldable pub is_removable : Env → SidecarFile → Bool
is_removable env missing = true
is_removable env unreadable = env.can_remove_sidecar
is_removable env odd = env.can_remove_sidecar
is_removable env (holds s) = env.can_remove_sidecar

unfoldable pub remove_sidecar : Env → Manager → Manager
unfolding is_removable
remove_sidecar env m = record m {
  sidecar = if is_removable env m.sidecar then missing else m.sidecar;
}
