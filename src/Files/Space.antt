-- ===== src/Files/Space.antt =====
-- The space that is checked is that of the nearest folder that exists, and a move keeps it.
use adp_pro.Prelude.{
  ℕ, zero, suc, ◌+◌, ◌≤◌, ◌<◌, String, ◌==◌, string_eq, ◌≡◌, refl, ◌∙◌, sym, ap, Bool, true, false,
  Option, none, some, leb→le, arith,
}
use adp_pro.Prelude.Dict.{get, contains}
use adp_pro.Torrent.Panel.{TorrentPanel, TorrentRecord, World}
use adp_pro.Torrent.Moves.{may_move, move_one}
use adp_pro.Files.Storage.{
  Disk, probe_free, free_space_bytes, probe_existing, existing_ancestor, or_here, same_volume,
  default_headroom, fits_in, check_space,
}

-- The folder is reached in so many steps upwards, and is the first one there that exists.
abbrev pub IsNearest : Disk → ℕ → String → String → Type 0
IsNearest d zero p q = (d.exists p ≡ true) × (p ≡ q)
IsNearest d (suc k) p q =
    (d.exists p ≡ false) × ((d.dirname p == p) ≡ false) × IsNearest d k (d.dirname p) q

probe-nearest :
    (d : Disk) (rounds k : ℕ) (p q : String)
    → k < rounds
    → IsNearest d k p q
    → (probe_existing d rounds p ≡ some q) × (probe_free d rounds p ≡ d.free q)
unfolding probe_existing probe_free
probe-nearest d zero k p q l h = absurd (omega (arith, l))
probe-nearest d (suc rounds) zero p q l h = (rw (h.0, h.1) refl, rw (h.0, h.1) refl)
probe-nearest d (suc rounds) (suc k) p q l h =
    let r = probe-nearest d rounds k (d.dirname p) q (omega (arith, l)) h.2 in
    (rw (h.0, h.1) r.0, rw (h.0, h.1) r.1)

-- 64 rounds reach the nearest folder that exists where there is one in less than 64 steps upwards,
-- and both loops then speak of that folder: the check compares with what is free there.
check_space-nearest :
    (d : Disk) (path q : String) (k needed headroom : ℕ)
    → k < 64
    → IsNearest d k (d.absolute (or_here path)) q
    → (existing_ancestor d path ≡ some q)
      × (free_space_bytes d path ≡ d.free q)
      × ((check_space d path needed headroom).fits ≡ fits_in (needed + headroom) (d.free q))
unfolding existing_ancestor free_space_bytes check_space
check_space-nearest d path q k needed headroom l h =
    let r = probe-nearest d 64 k (d.absolute (or_here path)) q l h in
    (r.0, r.1, ap (fits_in (needed + headroom)) r.1)

abbrev pub is_yes : Option Bool → Bool
is_yes none = false
is_yes (some b) = b

-- What the torrent panel asks of its volumes.
abbrev pub world_of : Disk → World → World
world_of d w = record w {
  on_same_volume = λ a b. is_yes (same_volume d a b);
  fits = λ path bytes. (check_space d path bytes default_headroom).fits;
}

started-fits :
    (w : World) (id to : String) (r : TorrentRecord) (p : TorrentPanel)
    → get p.records id ≡ some r
    → contains p.moves_pending id ≡ false
    → contains (move_one w to id p).moves_pending id ≡ true
    → w.on_same_volume r.save_path to ≡ false
    → w.fits to (w.wanted_done id) ≡ true
unfolding move_one may_move
started-fits w id to r p e n c v = ground (arith, e, n, c, v)

-- A torrent that is moved to another volume fits there, where the system tells what is free: in the
-- nearest folder that exists, less than 64 steps upwards, there is room for what was wanted of it
-- and half a gibibyte more.
pub move_one-headroom :
    (d : Disk) (w : World) (id to q : String) (r : TorrentRecord) (p : TorrentPanel) (k free : ℕ)
    → get p.records id ≡ some r
    → contains p.moves_pending id ≡ false
    → contains (move_one (world_of d w) to id p).moves_pending id ≡ true
    → is_yes (same_volume d r.save_path to) ≡ false
    → k < 64
    → IsNearest d k (d.absolute (or_here to)) q
    → d.free q ≡ some free
    → w.wanted_done id + default_headroom ≤ free
move_one-headroom d w id to q r p k free e n c v l h f =
    let fits = started-fits (world_of d w) id to r p e n c v in
    let near = (check_space-nearest d to q k (w.wanted_done id) default_headroom l h).2 in
    leb→le (w.wanted_done id + default_headroom) free
      (sym (near ∙ ap (fits_in (w.wanted_done id + default_headroom)) f) ∙ fits)
