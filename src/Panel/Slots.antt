-- ===== src/Panel/Slots.antt =====
-- The queue and the concurrency slots.
use adp_pro.Prelude.{
  ◌+◌, ◌≤◌, max, ◌≡◌, refl, ◌⊎◌, inl, String, string_eq, Option, none, some, List, [], ◌∷◌, length,
  length-append, arith,
}
use adp_pro.Prelude.Dict.{get}
use adp_pro.Downloader.State.{Manager, Env}
use adp_pro.Panel.State.{Panel, start_popped, drain_queue, process_queue}

-- One popped manager takes at most one slot, and none without a free one.
start_popped_slots :
    (env : Env) (id : String) (m : Option Manager) (p : Panel)
    → (length (start_popped env id m p).slot_holders ≤ length p.slot_holders + 1)
      × ((start_popped env id m p).max_active ≡ p.max_active)
unfolding start_popped
start_popped_slots env id none p = ground arith
start_popped_slots env id (some m) p = ground (arith, length-append p.slot_holders (id ∷ []))

drain_queue_slots :
    (env : Env) (q : List String) (p : Panel)
    → length (drain_queue env q p).slot_holders ≤ max (length p.slot_holders) p.max_active
unfolding drain_queue
drain_queue_slots env [] p = omega arith
drain_queue_slots env (id ∷ q) p =
    let p' : Panel = start_popped env id (get p.downloads id) p in
    ground (arith, drain_queue_slots env q p', start_popped_slots env id (get p.downloads id) p)

drain_queue_max :
    (env : Env) (q : List String) (p : Panel) → (drain_queue env q p).max_active ≡ p.max_active
unfolding drain_queue
drain_queue_max env [] p = refl
drain_queue_max env (id ∷ q) p =
    let p' : Panel = start_popped env id (get p.downloads id) p in
    ground (arith, drain_queue_max env q p', start_popped_slots env id (get p.downloads id) p)

drain_queue_busy :
    (env : Env) (q : List String) (p : Panel)
    → ((drain_queue env q p).download_queue ≡ [])
      ⊎ (p.max_active ≤ length (drain_queue env q p).slot_holders)
unfolding drain_queue
drain_queue_busy env [] p = inl refl
drain_queue_busy env (id ∷ q) p =
    let p' : Panel = start_popped env id (get p.downloads id) p in
    ground (arith, drain_queue_busy env q p', start_popped_slots env id (get p.downloads id) p)

-- `process_queue` never gives out more slots than the limit allows, and stops only with an empty
-- queue or with every slot taken.
pub process_queue_slots :
    (env : Env) (p : Panel)
    → let r = process_queue env p in
      (length r.slot_holders ≤ max (length p.slot_holders) p.max_active)
      × ((r.download_queue ≡ []) ⊎ (p.max_active ≤ length r.slot_holders))
unfolding process_queue
process_queue_slots env p =
    (drain_queue_slots env p.download_queue p, drain_queue_busy env p.download_queue p)
