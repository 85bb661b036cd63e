-- ===== src/Panel/Removal.antt =====
-- What is left of a removed download.
use adp_pro.Prelude.{
  ◌≡◌, ◌<◌, ◌≤◌, refl, sym, subst, ◌∙◌, String, ◌==◌, string_eq, Bool, true, false, not, Option,
  none, some, List, [], ◌∷◌, lt→ltb, length, filter, arith,
}
use adp_pro.Prelude.Dict.{get, contains, get-remove_self, get-put_self}
use adp_pro.Core.Models.{status_eq, pending}
use adp_pro.Core.Scheduler.{unschedule}
use adp_pro.Downloader.State.{Manager, Env}
use adp_pro.Downloader.Lifecycle.{stop}
use adp_pro.Downloader.Events.{perform}
use adp_pro.Panel.State.{
  Panel, has_id, start_popped, drain_queue, process_queue, finish_download_slot, release_slot,
  save_downloads, settle, call_manager, quiet, has_ended,
}
use adp_pro.Panel.Actions.{remove_download, remove_found, stop_if_running, forget, is_stoppable}
use adp_pro.Panel.Fifo.{has_id-append, has_status, start_popped-IsServed, drain_queue-keeps}

filter-length : (f : String → Bool) (xs : List String) → length (filter f xs) ≤ length xs
filter-length f [] = omega arith
filter-length f (x ∷ xs) = ground (arith, filter-length f xs)

release_slot-has_id :
    (id : String) (xs : List String) → has_id (filter (λ j. not (j == id)) xs) id ≡ false
release_slot-has_id id [] = refl
release_slot-has_id id (x ∷ xs) = ground (arith, release_slot-has_id id xs)

forgotten :
    (env : Env) (id : String) (c : Option Manager) (p : Panel)
    → get p.downloads id ≡ c
    → get (remove_found env id c p).downloads id ≡ none
unfolding remove_found forget
forgotten env id none p e = e
forgotten env id (some m) p e = get-remove_self _ id

drain_queue-starts :
    (env : Env) (id : String) (rest : List String) (p : Panel)
    → has_status pending (get p.downloads id) ≡ true
    → length p.slot_holders < p.max_active
    → has_id (drain_queue env (id ∷ rest) p).slot_holders id ≡ true
unfolding drain_queue
drain_queue-starts env id rest p w l =
    rw (lt→ltb _ _ l)
      (drain_queue-keeps env rest (start_popped env id (get p.downloads id) p) id
        (start_popped-IsServed env id (get p.downloads id) p refl w)).holds

-- `finish_download_slot` starts a pending download that waits first in the queue.
finish_slot-starts :
    (env : Env) (id : String) (m : Manager) (rest : List String) (p : Panel)
    → get p.downloads id ≡ some m
    → m.status ≡ pending
    → p.download_queue ≡ id ∷ rest
    → length p.slot_holders < p.max_active
    → has_id (finish_download_slot env id p).slot_holders id ≡ true
unfolding finish_download_slot process_queue release_slot
finish_slot-starts env id m rest p e s q l =
    let p' : Panel = release_slot id p in
    let known : contains p.downloads id ≡ true = ground (arith, e) in
    let waits : has_status pending (get p.downloads id) ≡ true =
      unfold status_eq in ground (arith, e, s) in
    rw known (
      subst (λ queue. has_id (drain_queue env queue p').slot_holders id ≡ true) (sym q)
        (drain_queue-starts env id rest p' waits
          (omega (arith, filter-length (λ j. not (j == id)) p.slot_holders))))

removal_starts :
    (env : Env) (id : String) (m : Manager) (rest : List String) (c : Option Manager) (p : Panel)
    → c ≡ some m
    → get p.downloads id ≡ c
    → m.status ≡ pending
    → p.download_queue ≡ id ∷ rest
    → length p.slot_holders < p.max_active
    → has_id (remove_found env id c p).slot_holders id ≡ true
unfolding remove_found forget stop_if_running
removal_starts env id m rest none p ce e s q l = cc
removal_starts env id m rest (some n) p ce e s q l =
    let idle : is_stoppable n.status ≡ false = unfold status_eq in ground (arith, ce) in
    rw idle (finish_slot-starts env id m rest p (e ∙ ce) s q l)

-- Where a pending download stands first in the queue and a slot is free, as after the limit was
-- raised, its removal starts it: it holds a slot afterwards, though the panel has no such download.
pub remove_download-leaks :
    (env : Env) (id : String) (m : Manager) (rest : List String) (p : Panel)
    → get p.downloads id ≡ some m
    → m.status ≡ pending
    → p.download_queue ≡ id ∷ rest
    → length p.slot_holders < p.max_active
    → let r = remove_download env id p in
      (get r.downloads id ≡ none) × (has_id r.slot_holders id ≡ true)
unfolding remove_download save_downloads
remove_download-leaks env id m rest p e s q l = (
  forgotten env id (get p.downloads id) _ refl,
  removal_starts env id m rest (get p.downloads id)
      (record p { schedule = unschedule p.schedule id }) e refl s q l,
)

start_popped-absent :
    (env : Env) (id j : String) (c : Option Manager) (p : Panel)
    → (j == id) ≡ false
    → has_id p.slot_holders id ≡ false
    → has_id (start_popped env j c p).slot_holders id ≡ false
unfolding start_popped
start_popped-absent env id j none p n f = f
start_popped-absent env id j (some m) p n f =
    ground (arith, has_id-append p.slot_holders (j ∷ []) id)

-- What the removal of a download must not find: the id in the queue.
drain_queue-absent :
    (env : Env) (id : String) (q : List String) (p : Panel)
    → has_id q id ≡ false
    → has_id p.slot_holders id ≡ false
    → (has_id (drain_queue env q p).download_queue id ≡ false)
      × (has_id (drain_queue env q p).slot_holders id ≡ false)
unfolding drain_queue
drain_queue-absent env id [] p n f = (refl, f)
drain_queue-absent env id (j ∷ q) p n f =
    let p' : Panel = start_popped env j (get p.downloads j) p in
    ground
      (arith, drain_queue-absent env id q p', start_popped-absent env id j (get p.downloads j) p)

queue-absent :
    (env : Env) (id : String) (q : List String) (p : Panel)
    → has_id q id ≡ false
    → has_id (drain_queue env q p).download_queue id ≡ false
unfolding drain_queue
queue-absent env id [] p n = refl
queue-absent env id (j ∷ q) p n =
    ground (arith, queue-absent env id q (start_popped env j (get p.downloads j) p))

finish_slot-absent :
    (env : Env) (id : String) (p : Panel)
    → contains p.downloads id ≡ true
    → has_id p.download_queue id ≡ false
    → (has_id (finish_download_slot env id p).download_queue id ≡ false)
      × (has_id (finish_download_slot env id p).slot_holders id ≡ false)
unfolding finish_download_slot process_queue release_slot
finish_slot-absent env id p k n = rw k (
    drain_queue-absent env id p.download_queue (release_slot id p) n
      (release_slot-has_id id p.slot_holders))

-- Stopping tells nobody that the download has ended.
stop_signals : (env : Env) (m : Manager) → has_ended (stop env (quiet m)).signals ≡ false
unfolding stop has_ended
stop_signals env m = ground arith

-- Stopping the download leaves the queue alone, and the download known.
stop_if_running-absent :
    (env : Env) (id : String) (m : Manager) (p : Panel)
    → get p.downloads id ≡ some m
    → has_id p.download_queue id ≡ false
    → (contains (stop_if_running env id m p).downloads id ≡ true)
      × (has_id (stop_if_running env id m p).download_queue id ≡ false)
unfolding stop_if_running call_manager perform settle
stop_if_running-absent env id m p e n =
    ground (arith, stop_signals env m, get-put_self p.downloads id (stop env (quiet m)))

removal_frees :
    (env : Env) (id : String) (m : Manager) (c : Option Manager) (p : Panel)
    → c ≡ some m
    → get p.downloads id ≡ c
    → has_id p.download_queue id ≡ false
    → has_id (remove_found env id c p).slot_holders id ≡ false
unfolding remove_found forget
removal_frees env id m none p ce e n = cc
removal_frees env id m (some k) p ce e n =
    let stopped = stop_if_running-absent env id k p e n in
    (finish_slot-absent env id (stop_if_running env id k p) stopped.0 stopped.1).1

-- The removal of a download that does not wait in the queue leaves nothing of it: it is not
-- among the downloads, and it holds no slot.
remove_download-forgets :
    (env : Env) (id : String) (m : Manager) (p : Panel)
    → get p.downloads id ≡ some m
    → has_id p.download_queue id ≡ false
    → let r = remove_download env id p in
      (get r.downloads id ≡ none) × (has_id r.slot_holders id ≡ false)
unfolding remove_download save_downloads
remove_download-forgets env id m p e n =
    let p' : Panel = record p { schedule = unschedule p.schedule id } in
    (
      forgotten env id (get p.downloads id) p' refl,
      removal_frees env id m (get p.downloads id) p' e refl n,
    )
