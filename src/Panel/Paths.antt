-- ===== src/Panel/Paths.antt =====
-- No two unfinished downloads write to one file, whatever happens to the panel.
use adp_pro.Prelude.{
  ◌≡◌, refl, inl, inr, String, string_eq, true, Bool-cases, Option, none, some, List, [], ◌∷◌, ltb,
  length, arith,
}
use adp_pro.Prelude.Dict.{get, put, contains}
use adp_pro.Core.Models.{status_eq, is_terminal, pending}
use adp_pro.Downloader.State.{Manager, Env}
use adp_pro.Downloader.Lifecycle.{start}
use adp_pro.Downloader.Frame.{IsTame, start-IsSame}
use adp_pro.Panel.State.{
  Panel, Outside, start_popped, drain_queue, process_queue, finish_download_slot, release_slot,
  save_downloads, on_download_ended, has_ended, settle, quiet,
}
use adp_pro.Panel.Actions.{queue_once}
use adp_pro.Panel.Reserve.{IsReserved, put_tame-IsReserved}

module _ (o : Outside) where
  abbrev pub IsSafe : Panel → Type 0
  IsSafe p = IsReserved o p.downloads

  start-IsTame :
      (env : Env) (m : Manager) → status_eq m.status pending ≡ true → IsTame m (start env m)
  unfolding is_terminal
  start-IsTame env m h = record { same = start-IsSame env m; lasting = ground arith }

  start_popped-IsSafe :
      (env : Env) (id : String) (c : Option Manager) (p : Panel)
      → get p.downloads id ≡ c
      → IsSafe p
      → IsSafe (start_popped env id c p)
  unfolding start_popped
  start_popped-IsSafe env id none p e s = s
  start_popped-IsSafe env id (some m) p e s = elim (Bool-cases (status_eq m.status pending)) [
    | inl waits ↦
        rw waits
          (put_tame-IsReserved o m (start env m) id p.downloads e (start-IsTame env m waits) s)
    | inr other ↦ rw other s
  ]

  drain_queue-IsSafe :
      (env : Env) (q : List String) (p : Panel) → IsSafe p → IsSafe (drain_queue env q p)
  unfolding drain_queue
  drain_queue-IsSafe env [] p s = s
  drain_queue-IsSafe env (id ∷ q) p s =
      elim (Bool-cases (ltb (length p.slot_holders) p.max_active)) [
        | inl free ↦ rw free (
            drain_queue-IsSafe env q (start_popped env id (get p.downloads id) p)
              (start_popped-IsSafe env id (get p.downloads id) p refl s))
        | inr full ↦ rw full s
      ]

  pub process_queue-IsSafe : (env : Env) (p : Panel) → IsSafe p → IsSafe (process_queue env p)
  unfolding process_queue
  process_queue-IsSafe env p s = drain_queue-IsSafe env p.download_queue p s

  pub finish_slot-IsSafe :
      (env : Env) (id : String) (p : Panel) → IsSafe p → IsSafe (finish_download_slot env id p)
  unfolding finish_download_slot release_slot
  finish_slot-IsSafe env id p s = elim (Bool-cases (contains p.downloads id)) [
    | inl known ↦ rw known (process_queue-IsSafe env (release_slot id p) s)
    | inr unknown ↦ rw unknown s
  ]

  pub save-IsSafe : (p : Panel) → IsSafe p → IsSafe (save_downloads p)
  unfolding save_downloads
  save-IsSafe p s = s

  ended-IsSafe :
      (env : Env) (id : String) (p : Panel) → IsSafe p → IsSafe (on_download_ended env id p)
  unfolding on_download_ended
  ended-IsSafe env id p s = elim (Bool-cases (contains p.downloads id)) [
    | inl known ↦ rw known (save-IsSafe _ (finish_slot-IsSafe env id p s))
    | inr unknown ↦ rw unknown s
  ]

  pub settle-IsSafe :
      (env : Env) (id : String) (n : Manager) (p : Panel)
      → IsReserved o (put p.downloads id n)
      → IsSafe (settle env id n p)
  unfolding settle
  settle-IsSafe env id n p s = elim (Bool-cases (has_ended n.signals)) [
    | inl over ↦ rw over (ended-IsSafe env id (record p { downloads = put p.downloads id n }) s)
    | inr on ↦ rw on s
  ]

  from_quiet : (m r : Manager) → IsTame (quiet m) r → IsTame m r
  from_quiet m r t = record {
    same = record { id = t.same.id; path = t.same.path };
    lasting = t.lasting;
  }

  -- A call or a report after which the download is no less finished.
  pub tame_settle-IsSafe :
      (env : Env) (id : String) (m n : Manager) (p : Panel)
      → get p.downloads id ≡ some m
      → IsTame (quiet m) n
      → IsSafe p
      → IsSafe (settle env id n p)
  tame_settle-IsSafe env id m n p e t s =
      settle-IsSafe env id n p (put_tame-IsReserved o m n id p.downloads e (from_quiet m n t) s)

  pub queue_once-IsSafe : (id : String) (p : Panel) → IsSafe p → IsSafe (queue_once id p)
  unfolding queue_once
  queue_once-IsSafe id p s = s
