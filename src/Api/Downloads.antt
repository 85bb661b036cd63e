-- ===== src/Api/Downloads.antt =====
-- src/adp/api/controller.py: the calls about downloads. Each runs on the GUI thread, so that it is
-- one step of the panel; what it returns of the manager is the manager afterwards.
use adp_pro.Prelude.{
  ℕ, String, ◌==◌, string_eq, Bool, true, false, not, ◌&&◌, Option, none, some, if◌then◌else◌,
  is_some,
}
use adp_pro.Prelude.Dict.{get}
use adp_pro.Downloader.State.{Manager, Env, SidecarFile, missing}
use adp_pro.Panel.State.{Panel, Outside}
use adp_pro.Panel.Actions.{
  Request, add_download, pause_download, resume_download, stop_download, retry_download,
  remove_download, is_retriable,
}

-- `ApiError`, by what it is raised for.
pub data ApiError : Type 0 where
  no_url folder_unavailable destination_exists not_added no_such_download : ApiError
  not_pausable not_resumable not_stoppable retry_refused : ApiError

pub data Answer : Type 0 where
  download : Option Manager → Answer
  removed : String → Answer
  fails : ApiError → Answer

-- 404 for an unknown id, and 400, the default.
unfoldable pub status_code : ApiError → ℕ
status_code no_such_download = 404
status_code _ = 400

-- An action of the panel on a download that it has.
unfoldable pub answer_of : String → ApiError → Panel × Bool → Panel × Answer
answer_of id e (p, accepted) = (p, if accepted then download (get p.downloads id) else fails e)

abbrev pub require : Panel → String → Panel × Answer → Panel × Answer
require p id r = if is_some (get p.downloads id) then r else (p, fails no_such_download)

unfoldable pub get_download : String → Panel → Panel × Answer
get_download id p = require p id (p, download (get p.downloads id))

unfoldable pub pause : Env → String → Panel → Panel × Answer
pause env id p = require p id (answer_of id not_pausable (pause_download env id p))

unfoldable pub resume : Env → String → Panel → Panel × Answer
resume env id p = require p id (answer_of id not_resumable (resume_download env id p))

unfoldable pub stop : Env → String → Panel → Panel × Answer
stop env id p = require p id (answer_of id not_stoppable (stop_download env id p))

abbrev pub has_ended : Option Manager → Bool
has_ended none = false
has_ended (some m) = is_retriable m.status

-- A download that is not over is returned as it is.
unfoldable pub retry : Outside → String → Panel → Panel × Answer
retry o id p = require p id (
    if has_ended (get p.downloads id)
    then answer_of id retry_refused (retry_download o id p)
    else (p, download (get p.downloads id)))

unfoldable pub remove : Env → String → Panel → Panel × Answer
remove env id p = require p id (remove_download env id p, removed id)

abbrev pub is_there : SidecarFile → Bool
is_there missing = false
is_there _ = true

-- What the panel's add returned.
abbrev pub added : Panel × Option String → Panel × Answer
added (p, none) = (p, fails not_added)
added (p, some id) = (p, download (get p.downloads id))

-- `_add_download_impl`, once the path is known: the one given, or the last part of the URL in the
-- folder of the settings. The request has start_immediately set, and no id and no time.
unfoldable pub add_at : Outside → Request → Panel → Panel × Answer
add_at o r p =
    if not r.allow_overwrite
      && is_some (o.file_at r.save_path)
      && not (is_there (o.sidecar_at r.save_path))
    then (p, fails destination_exists)
    else added (add_download o r p)

-- `path_in_folder` is none where the folder of the settings is unavailable.
unfoldable pub add : Outside → Option String → Request → Panel → Panel × Answer
add o path_in_folder r p =
    if r.url == ""
    then (p, fails no_url)
    else if r.save_path == ""
    then elim path_in_folder [
      | none ↦ (p, fails folder_unavailable)
      | some path ↦ add_at o (record r { save_path = path }) p
    ]
    else add_at o r p
