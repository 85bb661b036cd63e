-- ===== src/Torrent/Control.antt =====
-- What libtorrent is told of the files, and how the statuses and the bookkeeping agree.
use adp_pro.Prelude.{
  ℕ, zero, suc, ◌<◌, ◌≡◌, ◌≢◌, refl, ◌∙◌, ap, ◌⊎◌, String, ◌==◌, string_eq, nat_eq, Bool, true,
  false, Option, none, some, List, [], ◌∷◌, if◌then◌else◌, length, arith,
}
use adp_pro.Prelude.Dict.{Dict, get, put, get-put_self, get-remove_self}
use adp_pro.Torrent.States.{queued, LtStatus, is_queued, state_from_status}
use adp_pro.Torrent.Engine.{
  Engine, Handle, all_normal, set_at, set_all, at_or, apply_file_priorities, add_torrent,
  remove_torrent, has_handle, lt, adds_torrent,
}

-- A torrent is waiting for a slot exactly when it is paused and shown as queued.
is_queued-shown :
    (s : LtStatus)
    → ((is_queued s ≡ true) × (s.is_paused ≡ true) × (state_from_status s ≡ queued))
      ⊎ ((is_queued s ≡ false) × ((s.is_paused ≡ false) ⊎ (state_from_status s ≢ queued)))
unfolding is_queued state_from_status
is_queued-shown s = ground arith

-- Each index once.
abbrev pub IsDistinct : Dict ℕ ℕ → Type 0
IsDistinct [] = Unit
IsDistinct ((i, p) ∷ rest) = (get rest i ≡ none) × IsDistinct rest

abbrev pub or_default : ℕ → Option ℕ → ℕ
or_default n none = n
or_default n (some p) = p

length-set_at : (i p : ℕ) (ps : List ℕ) → length (set_at i p ps) ≡ length ps
unfolding set_at
length-set_at i p [] = refl
length-set_at zero p (q ∷ ps) = refl
length-set_at (suc i) p (q ∷ ps) = ground (arith, length-set_at i p ps)

at_or-set_at :
    (i j p : ℕ) (ps : List ℕ)
    → j < length ps
    → at_or 0 j (set_at i p ps) ≡ (if i == j then p else at_or 0 j ps)
unfolding set_at at_or
at_or-set_at i j p [] h = omega arith
at_or-set_at zero zero p (q ∷ ps) h = refl
at_or-set_at zero (suc j) p (q ∷ ps) h = ground arith
at_or-set_at (suc i) zero p (q ∷ ps) h = ground arith
at_or-set_at (suc i) (suc j) p (q ∷ ps) h = ground (arith, at_or-set_at i j p ps)

at_or-set_all :
    (d : Dict ℕ ℕ) (j : ℕ) (ps : List ℕ)
    → IsDistinct d
    → j < length ps
    → at_or 0 j (set_all d ps) ≡ or_default (at_or 0 j ps) (get d j)
unfolding set_all get
at_or-set_all [] j ps u h = refl
at_or-set_all ((i, p) ∷ rest) j ps u h = ground (
  arith,
  at_or-set_all rest j (set_at i p ps) u.1,
  length-set_at i p ps,
  at_or-set_at i j p ps h,
  u.0,
  nat_eq.is_same_iff i j,
)

length-all_normal : (n : ℕ) → length (all_normal n) ≡ n
unfolding all_normal
length-all_normal zero = refl
length-all_normal (suc n) = ground (arith, length-all_normal n)

at_or-all_normal : (n j : ℕ) → j < n → at_or 0 j (all_normal n) ≡ 4
unfolding all_normal at_or
at_or-all_normal zero j h = omega arith
at_or-all_normal (suc n) zero h = refl
at_or-all_normal (suc n) (suc j) h = at_or-all_normal n j (omega arith)

-- The list of priorities that libtorrent gets has, for each of its files, the priority that was
-- asked for, and the normal one where none was.
set_all-chooses :
    (d : Dict ℕ ℕ) (n j : ℕ)
    → IsDistinct d
    → j < n
    → at_or 0 j (set_all d (all_normal n)) ≡ or_default 4 (get d j)
set_all-chooses d n j u h =
    at_or-set_all d j (all_normal n) u (omega (arith, length-all_normal n))
    ∙ ap (λ k. or_default k (get d j)) (at_or-all_normal n j h)

pub apply_handles :
    (id : String) (h : Handle) (d : Dict ℕ ℕ) (e : Engine)
    → (apply_file_priorities id h d e).handles ≡ e.handles
unfolding apply_file_priorities
apply_handles id h [] e = refl
apply_handles id h ((i, p) ∷ rest) e = ground arith

pub added :
    (id : String) (h : Handle) (name : Option String) (d : Dict ℕ ℕ) (e : Engine)
    → has_handle (add_torrent id h name d e) id ≡ true
unfolding add_torrent
added id h name d e = ground (
  arith,
  get-put_self e.handles id h,
  apply_handles id h d (
      lt (adds_torrent id ∷ []) (record e {
        handles = put e.handles id h;
        known_names = elim name [ none ↦ e.known_names | some n ↦ put e.known_names id n ];
      })),
)

-- To add a torrent that is there already changes nothing and asks nothing of libtorrent, whatever
-- name, handle and priorities come with it; after its removal it is there no more.
add_torrent-again :
    (id : String) (h k : Handle) (name other : Option String) (d f : Dict ℕ ℕ) (delete_files : Bool)
    (e : Engine)
    → let a = add_torrent id h name d e in
      (add_torrent id k other f a ≡ a) × (has_handle (remove_torrent id delete_files a) id ≡ false)
add_torrent-again id h k name other d f delete_files e =
    let a : Engine = add_torrent id h name d e in
    (
      unfold add_torrent in rw (added id h name d e) refl,
      unfold remove_torrent in ground (arith, added id h name d e, get-remove_self a.handles id),
    )
