-- ===== src/Panel/Reload.antt =====
-- What a download is after it was saved and loaded again.
use adp_pro.Prelude.{
  ◌≡◌, refl, ◌∙◌, ap, String, ◌==◌, string_eq, beq_refl, false, Option, none, some, List, [], ◌∷◌,
  if◌then◌else◌, arith,
}
use adp_pro.Prelude.Dict.{Dict, get, put, get-put_self}
use adp_pro.Core.Models.{Status, pending, paused, stopped, completed, error}
use adp_pro.Core.Scheduler.{Schedule}
use adp_pro.Core.Session.{DownloadRecord}
use adp_pro.Downloader.State.{Manager, set_status}
use adp_pro.Panel.State.{
  Panel, Outside, find_path_conflict, to_record, save_downloads, process_queue, drain_queue,
}
use adp_pro.Panel.Actions.{Request, add_download, accept, enqueue, new_manager, remove_first}
use adp_pro.Panel.Restore.{
  request_of, restore_record, restore_found, restore_records, load_downloads, with_policy,
  with_figures, is_restored_as_is, saved_status,
}

-- The status in which the next process has a download that this one saved.
abbrev pub reloaded : Status → Status
reloaded completed = completed
reloaded stopped = stopped
reloaded error = error
reloaded paused = paused
reloaded _ = pending

-- The next process knows the download as this one did.
pub record IsReloaded (m n : Manager) : Type 0 where
  pub status : n.status ≡ reloaded m.status
  pub id : n.download_id ≡ m.download_id
  pub url : n.url ≡ m.url
  pub path : n.save_path ≡ m.save_path
  pub checksum : n.checksum ≡ m.checksum
  pub tls : n.verify_tls ≡ m.verify_tls
  pub limit : n.speed_limit ≡ m.speed_limit
  pub owned : n.destination_owned_by_adp ≡ m.destination_owned_by_adp
  pub restart : n.restart_required ≡ m.restart_required
  pub overwrite : n.allow_overwrite ≡ m.allow_overwrite

-- The manager that the record of `m` becomes.
remade : Outside → Panel → Schedule → Manager → Manager
remade o p s m =
    let r = to_record s m in
    let n = with_policy r (new_manager o p (request_of r)) in
    if is_restored_as_is (saved_status r)
    then set_status o.env (saved_status r) (with_figures r n)
    else n

remade-IsReloaded :
    (o : Outside) (p : Panel) (s : Schedule) (m : Manager)
    → (m.download_id == "") ≡ false
    → IsReloaded m (remade o p s m)
unfolding remade to_record with_policy with_figures new_manager is_restored_as_is set_status
remade-IsReloaded o p s m i = ground arith

enqueue_downloads :
    (o : Outside) (r : Request) (id : String) (p : Panel)
    → r.start_immediately ≡ false
    → (enqueue o r id p).downloads ≡ p.downloads
unfolding enqueue
enqueue_downloads o r id p h = ground arith

add_download-accept :
    (o : Outside) (r : Request) (p : Panel)
    → (r.url == "") ≡ false
    → (r.save_path == "") ≡ false
    → find_path_conflict o r.save_path none p.downloads ≡ none
    → (add_download o r p).0 ≡ accept o r p
unfolding add_download
add_download-accept o r p u v f = ground arith

accept_downloads :
    (o : Outside) (r : Request) (p : Panel)
    → r.start_immediately ≡ false
    → let m = new_manager o p r in (accept o r p).downloads ≡ put p.downloads m.download_id m
unfolding accept save_downloads
accept_downloads o r p h =
    let m : Manager = new_manager o p r in
    enqueue_downloads o r m.download_id (record p { downloads = put p.downloads m.download_id m }) h

restore_found_lem :
    (o : Outside) (s : Schedule) (m : Manager) (p p' : Panel) (c : Option Manager)
    → c ≡ some (new_manager o p (request_of (to_record s m)))
    → get (restore_found o.env (to_record s m) c p').downloads m.download_id ≡ some (remade o p s m)
unfolding restore_found remade to_record
restore_found_lem o s m p p' none e = cc
restore_found_lem o s m p p' (some n) e =
    ground (arith, get-put_self p'.downloads m.download_id (remade o p s m))

new_manager-id :
    (o : Outside) (s : Schedule) (m : Manager) (p : Panel)
    → (m.download_id == "") ≡ false
    → (new_manager o p (request_of (to_record s m))).download_id ≡ m.download_id
unfolding new_manager to_record
new_manager-id o s m p i = ground arith

found_after_add :
    (o : Outside) (s : Schedule) (m : Manager) (p : Panel)
    → (m.url == "") ≡ false
    → (m.save_path == "") ≡ false
    → (m.download_id == "") ≡ false
    → find_path_conflict o m.save_path none p.downloads ≡ none
    → get (add_download o (request_of (to_record s m)) p).0.downloads m.download_id
      ≡ some (new_manager o p (request_of (to_record s m)))
found_after_add o s m p u v i f =
    let r : Request = request_of (to_record s m) in
    let n : Manager = new_manager o p r in
    ap (λ (q : Panel). get q.downloads m.download_id)
      (add_download-accept o r p (unfold to_record in u) (unfold to_record in v)
        (unfold to_record in f))
    ∙ ap (λ (d : Dict String Manager). get d m.download_id) (accept_downloads o r p refl)
    ∙ ap (λ (k : String). get (put p.downloads k n) m.download_id) (new_manager-id o s m p i)
    ∙ get-put_self p.downloads m.download_id n

-- The step of the load that restores the record of a download which was saved, with an id, a URL and
-- a destination, makes the download known again, if no download restored before it claims its
-- destination: in the status that it is reloaded to, with its destination, checksum and limits, and
-- with its rights over the file and its need of a restart as they were. The queue, which the load
-- processes after all the records, may start it then.
pub restore_record-IsReloaded :
    (o : Outside) (s : Schedule) (m : Manager) (p : Panel)
    → (m.url == "") ≡ false
    → (m.save_path == "") ≡ false
    → (m.download_id == "") ≡ false
    → find_path_conflict o m.save_path none p.downloads ≡ none
    → (n : Manager) × (get (restore_record o (to_record s m) p).downloads m.download_id ≡ some n)
      × IsReloaded m n
unfolding restore_record to_record
restore_record-IsReloaded o s m p u v i f =
    let r : DownloadRecord = to_record s m in
    let q : Panel = (add_download o (request_of r) p).0 in
    (
      remade o p s m,
      restore_found_lem o s m p q (get q.downloads m.download_id) (found_after_add o s m p u v i f),
      remade-IsReloaded o p s m i,
    )

-- The status of the one record of a session.
abbrev pub session_status : List DownloadRecord → Option Status
session_status [] = none
session_status (r ∷ rest) = r.status

-- A panel with no download yet.
abbrev pub emptied : Panel → Panel
emptied p = record p { downloads = []; download_queue = [] }

abbrev pub status_of : Option Manager → Option Status
status_of none = none
status_of (some m) = some m.status

-- After a load of one completed download into an empty panel, the panel has it completed, and the
-- session file has it pending: the save of `add_download` came before its status was set, and none
-- follows.
pub load_downloads-unsaved :
    (o : Outside) (r : DownloadRecord) (p : Panel)
    → r.status ≡ some completed
    → r.scheduled_time ≡ none
    → (r.url == "") ≡ false
    → (r.save_path == "") ≡ false
    → (r.download_id == "") ≡ false
    → let q = load_downloads o (r ∷ []) (emptied p) in
      (session_status q.session ≡ some pending)
      × (status_of (get q.downloads r.download_id) ≡ some completed)
unfolding load_downloads restore_records restore_record restore_found add_download
    find_path_conflict accept enqueue new_manager save_downloads process_queue drain_queue get put
    remove_first to_record
load_downloads-unsaved o r p c t u v i = ground (arith, beq_refl r.download_id)
