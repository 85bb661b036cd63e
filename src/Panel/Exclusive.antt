-- ===== src/Panel/Exclusive.antt =====
-- No two unfinished downloads write to one file, whatever happens to the panel: the actions.
use adp_pro.Prelude.{
  ◌≡◌, refl, ◌∙◌, inl, inr, String, ◌==◌, string_eq, Bool, true, false, not, ◌||◌, Bool-cases,
  Option-cases, Option, none, some, List, [], ◌∷◌, if_rule, is_some, arith, ◌++◌,
}
use adp_pro.Prelude.Dict.{get, put, contains}
use adp_pro.Core.Models.{status_eq, is_terminal, pending, paused, downloading, starting}
use adp_pro.Core.Scheduler.{unschedule, is_scheduled, check_due}
use adp_pro.Downloader.State.{Manager, Env, set_status}
use adp_pro.Downloader.Lifecycle.{pause, resume, stop, prepare_retry}
use adp_pro.Downloader.Events.{Report, metadata_fetched, metadata_error, perform, receive, stops}
use adp_pro.Downloader.Frame.{
  IsSame, IsTame, IsTimely, pause-IsTame, resume-IsTame, stop-IsTame, prepare_retry-IsSame,
  receive-IsTame, set_status-IsSame,
}
use adp_pro.Panel.State.{Panel, Outside, quiet, deliver, call_manager, find_path_conflict}
use adp_pro.Panel.Actions.{
  Request, new_manager, enqueue, accept, add_download, pause_download, resume_download,
  stop_download, retry_download, remove_download, on_schedule_due, fire, tick, start_scheduled_now,
  is_stoppable, is_retriable, pause_found, resume_found, stop_found, retry_found, remove_found,
  stop_if_running, forget,
}
use adp_pro.Panel.Reserve.{
  IsReserved, get-IsReserved, put_tame-IsReserved, put_clear-IsReserved, remove-IsReserved,
  conflict_free-IsClear,
}
use adp_pro.Panel.Steps.{Action, act, act_all, set_limit}
use adp_pro.Panel.Paths.{
  IsSafe, process_queue-IsSafe, finish_slot-IsSafe, save-IsSafe, settle-IsSafe, tame_settle-IsSafe,
  queue_once-IsSafe,
}

none_of {ℓ} : {A : Type ℓ} (c : Option A) → is_some c ≡ false → c ≡ none
none_of none h = refl
none_of (some a) h = cc

IsTimely-quiet : (r : Report) (m : Manager) → IsTimely m r → IsTimely (quiet m) r
IsTimely-quiet (metadata_fetched total ranges etag modified) m h = h
IsTimely-quiet (metadata_error message) m h = tt
IsTimely-quiet _ m h = tt

module _ (o : Outside) where
  pause_found-IsSafe :
      (env : Env) (id : String) (c : Option Manager) (p : Panel)
      → get p.downloads id ≡ c
      → IsSafe o p
      → IsSafe o (pause_found env id c p).0
  unfolding pause_found call_manager perform
  pause_found-IsSafe env id none p e s = s
  pause_found-IsSafe env id (some m) p e s =
      elim (Bool-cases (not (status_eq m.status downloading || status_eq m.status starting))) [
        | inl refused ↦ rw refused s
        | inr taken ↦ rw taken (
            save-IsSafe o _ (
              tame_settle-IsSafe o env id m (pause env (quiet m)) p e (pause-IsTame env (quiet m))
                s))
      ]

  pending-IsTame :
      (env : Env) (m : Manager)
      → status_eq m.status paused ≡ true
      → IsTame m (set_status env pending m)
  unfolding is_terminal
  pending-IsTame env m h = record { same = set_status-IsSame env pending m; lasting = ground arith }

  resume_found-IsSafe :
      (env : Env) (id : String) (c : Option Manager) (p : Panel)
      → get p.downloads id ≡ c
      → IsSafe o p
      → IsSafe o (resume_found env id c p).0
  unfolding resume_found call_manager perform
  resume_found-IsSafe env id none p e s = s
  resume_found-IsSafe env id (some m) p e s =
      if_rule (λ (r : Panel × Bool). IsSafe o r.0) (not (status_eq m.status paused)) _ _
        (λ refused. s)
        λ taken.
          if_rule (λ (r : Panel × Bool). IsSafe o r.0) (not m.metadata_initialized) _ _
            (λ unknown. save-IsSafe o _ (
              process_queue-IsSafe o env _ (
                queue_once-IsSafe o id
                  (record p { downloads = put p.downloads id (set_status env pending m) })
                  (put_tame-IsReserved o m (set_status env pending m) id p.downloads e
                    (pending-IsTame env m (ground arith)) s))))
            λ known. save-IsSafe o _ (
              tame_settle-IsSafe o env id m (resume env (quiet m)) p e (resume-IsTame env (quiet m))
                s)

  stop_call-IsSafe :
      (env : Env) (id : String) (m : Manager) (p : Panel)
      → get p.downloads id ≡ some m
      → IsSafe o p
      → IsSafe o (call_manager env id stops m p)
  unfolding call_manager perform
  stop_call-IsSafe env id m p e s =
      tame_settle-IsSafe o env id m (stop env (quiet m)) p e (stop-IsTame env (quiet m)) s

  stop_found-IsSafe :
      (env : Env) (id : String) (c : Option Manager) (p : Panel)
      → get p.downloads id ≡ c
      → IsSafe o p
      → IsSafe o (stop_found env id c p).0
  unfolding stop_found
  stop_found-IsSafe env id none p e s = s
  stop_found-IsSafe env id (some m) p e s = elim (Bool-cases (is_stoppable m.status)) [
    | inl live ↦
        rw live (save-IsSafe o _ (finish_slot-IsSafe o env id _ (stop_call-IsSafe env id m p e s)))
    | inr over ↦ rw over s
  ]

  prepared_keeps : (env : Env) (m : Manager) → IsSame m (prepare_retry env (quiet m))
  prepared_keeps env m =
      let k = prepare_retry-IsSame env (quiet m) in record { id = k.id; path = k.path }

  -- The search for a conflict is what lets a finished download come back.
  retry_found-IsSafe :
      (id : String) (c : Option Manager) (p : Panel)
      → get p.downloads id ≡ c
      → IsSafe o p
      → IsSafe o (retry_found o id c p).0
  unfolding retry_found call_manager perform
  retry_found-IsSafe id none p e s = s
  retry_found-IsSafe id (some m) p e s =
      if_rule (λ (r : Panel × Bool). IsSafe o r.0) (not (is_retriable m.status)) _ _ (λ refused. s)
        λ taken.
          if_rule (λ (r : Panel × Bool). IsSafe o r.0)
            (is_some (find_path_conflict o m.save_path (some id) p.downloads)) _ _ (λ blocked. s)
            λ clear.
              let n : Manager = prepare_retry o.env (quiet m) in
              let same = prepared_keeps o.env m in
              save-IsSafe o _ (
                process_queue-IsSafe o o.env _ (
                  queue_once-IsSafe o id _ (
                    settle-IsSafe o o.env id n p (
                      put_clear-IsReserved o n id p.downloads
                        (same.id ∙ get-IsReserved o id m p.downloads e s)
                        (conflict_free-IsClear o n m.save_path id (some id) p.downloads same.path
                          (inr refl)
                          (none_of (find_path_conflict o m.save_path (some id) p.downloads) clear)
                          s)
                        s))))

  remove_found-IsSafe :
      (env : Env) (id : String) (c : Option Manager) (p : Panel)
      → get p.downloads id ≡ c
      → IsSafe o p
      → IsSafe o (remove_found env id c p)
  unfolding remove_found forget stop_if_running
  remove_found-IsSafe env id none p e s = s
  remove_found-IsSafe env id (some m) p e s = remove-IsReserved o id _ (
      finish_slot-IsSafe o env id _ (
        if_rule (IsSafe o) (is_stoppable m.status) _ _ (λ live. stop_call-IsSafe env id m p e s)
          λ over. s))

  on_due-IsSafe :
      (env : Env) (id : String) (p : Panel) → IsSafe o p → IsSafe o (on_schedule_due env id p)
  unfolding on_schedule_due
  on_due-IsSafe env id p s =
      if_rule (IsSafe o) (contains p.downloads id) _ _
        (λ known. save-IsSafe o _ (
          process_queue-IsSafe o env (record p { download_queue = p.download_queue ++ id ∷ [] }) s))
        λ unknown. s

  fire-IsSafe : (env : Env) (ids : List String) (p : Panel) → IsSafe o p → IsSafe o (fire env ids p)
  unfolding fire
  fire-IsSafe env [] p s = s
  fire-IsSafe env (id ∷ ids) p s =
      fire-IsSafe env ids _
        (on_due-IsSafe env id (record p { schedule = unschedule p.schedule id }) s)

  enqueue-IsSafe :
      (r : Request) (id : String) (p : Panel) → IsSafe o p → IsSafe o (enqueue o r id p)
  unfolding enqueue
  enqueue-IsSafe r id p s = elim (Option-cases r.scheduled_time) [
    | inl now ↦
        rw (now, enqueue)
          (if_rule (IsSafe o) r.start_immediately _ _
            (λ go.
              process_queue-IsSafe o o.env
                (record p { download_queue = p.download_queue ++ id ∷ [] }) s)
            λ wait. s)
    | inr (when, later) ↦ rw (later, enqueue) s
  ]

  add-IsSafe : (r : Request) (p : Panel) → IsSafe o p → IsSafe o (add_download o r p).0
  unfolding add_download accept new_manager
  add-IsSafe r p s =
      if_rule (λ (q : Panel × Option String). IsSafe o q.0) (r.url == "" || r.save_path == "") _ _
        (λ empty. s)
        λ given.
          if_rule (λ (q : Panel × Option String). IsSafe o q.0)
            (is_some (find_path_conflict o r.save_path none p.downloads)) _ _ (λ blocked. s)
            λ clear.
              let m : Manager = new_manager o p r in
              save-IsSafe o _ (
                enqueue-IsSafe r m.download_id
                  (record p { downloads = put p.downloads m.download_id m })
                  (put_clear-IsReserved o m m.download_id p.downloads refl
                    (conflict_free-IsClear o m r.save_path m.download_id none p.downloads refl
                      (inl refl) (none_of (find_path_conflict o r.save_path none p.downloads) clear)
                      s)
                    s))

  abbrev IsTimelyFor : Option Manager → Report → Type 0
  IsTimelyFor none r = Unit
  IsTimelyFor (some m) r = IsTimely m r

  deliver-IsSafe :
      (id : String) (r : Report) (c : Option Manager) (p : Panel)
      → get p.downloads id ≡ c
      → IsTimelyFor c r
      → IsSafe o p
      → IsSafe o (deliver o.env id r p)
  unfolding deliver
  deliver-IsSafe id r none p e h s = rw (e, deliver) s
  deliver-IsSafe id r (some m) p e h s =
      rw (e, deliver)
        (tame_settle-IsSafe o o.env id m (receive o.env r (quiet m)) p e
          (receive-IsTame o.env r (quiet m) (IsTimely-quiet r m h)) s)

  -- Any action or report but an answer to a metadata request of a completed download.
  abbrev pub IsOrdinary : Panel → Action → Type 0
  IsOrdinary p (Action.reports id r) = IsTimelyFor (get p.downloads id) r
  IsOrdinary p _ = Unit

  pub act-IsSafe : (a : Action) (p : Panel) → IsOrdinary p a → IsSafe o p → IsSafe o (act o a p)
  unfolding act pause_download resume_download stop_download retry_download remove_download tick
      start_scheduled_now set_limit
  act-IsSafe (Action.add r) p h s = add-IsSafe r p s
  act-IsSafe (Action.pauses id) p h s = pause_found-IsSafe o.env id (get p.downloads id) p refl s
  act-IsSafe (Action.resumes id) p h s = resume_found-IsSafe o.env id (get p.downloads id) p refl s
  act-IsSafe (Action.stops id) p h s = stop_found-IsSafe o.env id (get p.downloads id) p refl s
  act-IsSafe (Action.retries id) p h s = retry_found-IsSafe id (get p.downloads id) p refl s
  act-IsSafe (Action.removes id) p h s = save-IsSafe o _ (
      remove_found-IsSafe o.env id (get p.downloads id)
        (record p { schedule = unschedule p.schedule id }) refl s)
  act-IsSafe (Action.starts_now id) p h s =
      if_rule (IsSafe o) (is_scheduled p.schedule id) _ _
        (λ waits. on_due-IsSafe o.env id (record p { schedule = unschedule p.schedule id }) s)
        λ other. s
  act-IsSafe (Action.ticks now) p h s = fire-IsSafe o.env (check_due now p.schedule).0 p s
  act-IsSafe (Action.sets_limit n) p h s = s
  act-IsSafe (Action.reports id r) p h s = deliver-IsSafe id r (get p.downloads id) p refl h s

  -- Every action of the list is ordinary where it happens.
  abbrev pub AreOrdinary : Panel → List Action → Type 0
  AreOrdinary p [] = Unit
  AreOrdinary p (a ∷ rest) = IsOrdinary p a × AreOrdinary (act o a p) rest

  -- Whatever happens to a panel in which no two unfinished downloads have one file as their
  -- destination, there are still no two: adding, pausing, resuming, stopping, retrying, removing,
  -- scheduled starts and the reports of the workers keep it so, an answer to a metadata request that
  -- comes after the completion of its download excepted.
  pub act_all-IsReserved :
      (actions : List Action) (p : Panel)
      → AreOrdinary p actions
      → IsReserved o p.downloads
      → IsReserved o (act_all o actions p).downloads
  unfolding act_all
  act_all-IsReserved [] p h s = s
  act_all-IsReserved (a ∷ rest) p h s =
      act_all-IsReserved rest (act o a p) h.1 (act-IsSafe a p h.0 s)
