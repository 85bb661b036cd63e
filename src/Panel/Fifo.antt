-- ===== src/Panel/Fifo.antt =====
-- The queue is served in order, and a pending download that leaves it is started.
use adp_pro.Prelude.{
  ◌≡◌, refl, sym, ap, subst, ◌∙◌, ◌⊎◌, inl, inr, String, ◌==◌, string_eq, beq_refl, Bool, true,
  false, ◌||◌, Bool-cases, Option, none, some, List, [], ◌∷◌, ◌++◌, ltb, length, arith, All,
}
use adp_pro.Prelude.Dict.{get, get-put}
use adp_pro.Core.Models.{Status, status_eq, pending, starting}
use adp_pro.Downloader.State.{Manager, Env}
use adp_pro.Downloader.Lifecycle.{start}
use adp_pro.Panel.State.{Panel, has_id, start_popped, drain_queue, process_queue}

-- Whether a manager is in that status.
abbrev pub has_status : Status → Option Manager → Bool
has_status s none = false
has_status s (some m) = status_eq m.status s

-- The download is starting and holds a slot.
pub record IsServed (p : Panel) (id : String) : Type 0 where
  pub starts : has_status starting (get p.downloads id) ≡ true
  pub holds : has_id p.slot_holders id ≡ true

pub has_id-append :
    (xs ys : List String) (id : String) → has_id (xs ++ ys) id ≡ (has_id xs id || has_id ys id)
has_id-append [] ys id = refl
has_id-append (x ∷ xs) ys id = ground (arith, has_id-append xs ys id)

start_status : (env : Env) (m : Manager) → (start env m).status ≡ starting
unfolding start
start_status env m = ground arith

pub start_popped-IsServed :
    (env : Env) (id : String) (o : Option Manager) (p : Panel)
    → get p.downloads id ≡ o
    → has_status pending o ≡ true
    → IsServed (start_popped env id o p) id
unfolding start_popped status_eq
start_popped-IsServed env id none p e h = ground arith
start_popped-IsServed env id (some m) p e h = ground (
  arith,
  get-put p.downloads id id (start env m),
  beq_refl id,
  start_status env m,
  has_id-append p.slot_holders (id ∷ []) id,
)

-- Of the other downloads none changes; a download that is served stays so.
start_popped-keeps :
    (env : Env) (id j : String) (o : Option Manager) (p : Panel)
    → get p.downloads id ≡ o
    → IsServed p j
    → IsServed (start_popped env id o p) j
unfolding start_popped status_eq
start_popped-keeps env id j none p e h = ground arith
start_popped-keeps env id j (some m) p e h = ground (
  arith,
  get-put p.downloads id j (start env m),
  string_eq.is_same_iff id j,
  has_id-append p.slot_holders (id ∷ []) j,
)

pub drain_queue-keeps :
    (env : Env) (q : List String) (p : Panel) (j : String)
    → IsServed p j
    → IsServed (drain_queue env q p) j
unfolding drain_queue
drain_queue-keeps env [] p j h = record { starts = h.starts; holds = h.holds }
drain_queue-keeps env (id ∷ q) p j h =
    elim (Bool-cases (ltb (length p.slot_holders) p.max_active)) [
      | inl free ↦
          rw free (
            drain_queue-keeps env q _ j (start_popped-keeps env id j (get p.downloads id) p refl h))
      | inr full ↦ rw full (record { starts = h.starts; holds = h.holds })
    ]

-- What became of a download that left the queue between two panels.
abbrev pub IsPopped : Panel → Panel → String → Type 0
IsPopped p r id = (has_status pending (get p.downloads id) ≡ false) ⊎ IsServed r id

start_popped_ne :
    (env : Env) (id j : String) (o : Option Manager) (p : Panel)
    → (id == j) ≡ false
    → get (start_popped env id o p).downloads j ≡ get p.downloads j
unfolding start_popped
start_popped_ne env id j none p n = refl
start_popped_ne env id j (some m) p n = ground (arith, get-put p.downloads id j (start env m))

start_popped_self :
    (env : Env) (id : String) (o : Option Manager) (p : Panel)
    → get p.downloads id ≡ o
    → IsPopped p (start_popped env id o p) id
start_popped_self env id o p e = elim (Bool-cases (has_status pending o)) [
  | inl waits ↦ inr (start_popped-IsServed env id o p e waits)
  | inr not_waiting ↦ inl (ap (has_status pending) e ∙ not_waiting)
]

start_popped-pending :
    (env : Env) (id j : String) (o : Option Manager) (p : Panel)
    → get p.downloads id ≡ o
    → has_status pending (get (start_popped env id o p).downloads j) ≡ false
    → IsPopped p (start_popped env id o p) j
start_popped-pending env id j o p e h = elim (Bool-cases (id == j)) [
  | inl same ↦
      subst (IsPopped p (start_popped env id o p)) ((string_eq.is_same_iff id j).0 same)
        (start_popped_self env id o p e)
  | inr other ↦ inl (sym (ap (has_status pending) (start_popped_ne env id j o p other)) ∙ h)
]

-- The panel after the head of the queue was popped.
abbrev after_head : Env → String → Panel → Panel
after_head env id p = start_popped env id (get p.downloads id) p

pop_one :
    (env : Env) (id j : String) (q : List String) (p : Panel)
    → IsPopped p (after_head env id p) j
    → IsPopped p (drain_queue env q (after_head env id p)) j
pop_one env id j q p (inl n) = inl n
pop_one env id j q p (inr s) = inr (drain_queue-keeps env q (after_head env id p) j s)

pop_later :
    (env : Env) (id : String) (q : List String) (p : Panel) (taken : List String)
    → All (IsPopped (after_head env id p) (drain_queue env q (after_head env id p))) taken
    → All (IsPopped p (drain_queue env q (after_head env id p))) taken
pop_later env id q p [] h = tt
pop_later env id q p (j ∷ taken) (inl n, h) = (
  pop_one env id j q p (start_popped-pending env id j (get p.downloads id) p refl n),
  pop_later env id q p taken h,
)
pop_later env id q p (j ∷ taken) (inr s, h) = (inr s, pop_later env id q p taken h)

-- A run of the loop takes a prefix of the queue and handles each id of it.
abbrev TakesPrefix : List String → Panel → Panel → Type 0
TakesPrefix q p r =
    (taken : List String) × (q ≡ taken ++ r.download_queue) × All (IsPopped p r) taken

drain_queue-fifo : (env : Env) (q : List String) (p : Panel) → TakesPrefix q p (drain_queue env q p)
unfolding drain_queue
drain_queue-fifo env [] p = ([], refl, tt)
drain_queue-fifo env (id ∷ q) p = elim (Bool-cases (ltb (length p.slot_holders) p.max_active)) [
  | inl free ↦ rw free (popped (drain_queue-fifo env q (after_head env id p)))
  | inr full ↦ rw full ([], refl, tt)
]
  where
    popped :
        TakesPrefix q (after_head env id p) (drain_queue env q (after_head env id p))
        → TakesPrefix (id ∷ q) p (drain_queue env q (after_head env id p))
    popped (taken, split, all) = (
      id ∷ taken,
      ap (λ (r : List String). id ∷ r) split,
      (
        pop_one env id id q p (start_popped_self env id (get p.downloads id) p refl),
        pop_later env id q p taken all,
      ),
    )

-- `process_queue` takes ids from the front of the queue and leaves the others in their order. Each
-- id that it takes was not pending, or is starting now and holds a slot.
pub process_queue-fifo :
    (env : Env) (p : Panel)
    → (taken : List String) × (p.download_queue ≡ taken ++ (process_queue env p).download_queue)
      × All (IsPopped p (process_queue env p)) taken
unfolding process_queue
process_queue-fifo env p = drain_queue-fifo env p.download_queue p
