-- ===== src/Core/Counting.antt =====
-- What the byte counts of a run add up to.
use adp_pro.Prelude.{ℕ, ◌+◌, ◌-◌, ◌≤◌, ◌≡◌, refl, String, string_eq, some, List, [], ◌∷◌, arith}
use adp_pro.Prelude.Dict.{get, get-put_self}
use adp_pro.Core.Stats.{
  Totals, Aggregator, new_aggregator, delta, record_download_progress, record_torrent_progress,
  record_download_completed, record_torrent_completed, forget, Tick, download_progress,
  torrent_progress, download_completed, torrent_completed, forgets, tick, ticks,
}

-- The lifetime figures are those at the start and those of the session together.
pub record IsSplit (start : Totals) (a : Aggregator) : Type 0 where
  pub downloaded : a.lifetime.downloaded_bytes ≡ start.downloaded_bytes + a.session.downloaded_bytes
  pub uploaded : a.lifetime.uploaded_bytes ≡ start.uploaded_bytes + a.session.uploaded_bytes
  pub downloads :
      a.lifetime.completed_downloads ≡ start.completed_downloads + a.session.completed_downloads
  pub torrents :
      a.lifetime.completed_torrents ≡ start.completed_torrents + a.session.completed_torrents

tick-IsSplit :
    (start : Totals) (t : Tick) (a : Aggregator) → IsSplit start a → IsSplit start (tick t a)
unfolding tick record_download_progress record_torrent_progress record_download_completed
    record_torrent_completed forget
tick-IsSplit start (download_progress id size) a h = ground arith
tick-IsSplit start (torrent_progress id d u) a h = ground arith
tick-IsSplit start download_completed a h = ground arith
tick-IsSplit start torrent_completed a h = ground arith
tick-IsSplit start (forgets id) a h = ground arith

run-IsSplit :
    (start : Totals) (events : List Tick) (a : Aggregator)
    → IsSplit start a
    → IsSplit start (ticks events a)
unfolding ticks
run-IsSplit start [] a h = h
run-IsSplit start (t ∷ rest) a h = run-IsSplit start rest (tick t a) (tick-IsSplit start t a h)

-- Whatever is recorded in a run, each lifetime figure stays the loaded one plus that of the session.
pub ticks-IsSplit :
    (start : Totals) (events : List Tick) → IsSplit start (ticks events (new_aggregator start))
unfolding new_aggregator
ticks-IsSplit start events = run-IsSplit start events (new_aggregator start) (ground arith)

-- The observations of one download do not decrease.
abbrev pub IsGrowing : ℕ → List ℕ → Type 0
IsGrowing size [] = Unit
IsGrowing size (next ∷ rest) = (size ≤ next) × IsGrowing next rest

abbrev pub last_of : ℕ → List ℕ → ℕ
last_of size [] = size
last_of size (next ∷ rest) = last_of next rest

unfoldable pub observe_all : String → List ℕ → Aggregator → Aggregator
observe_all id [] a = a
observe_all id (size ∷ rest) a = observe_all id rest (record_download_progress id size a)

recorded :
    (id : String) (size previous : ℕ) (a : Aggregator)
    → get a.last_download_bytes id ≡ some previous
    → (get (record_download_progress id size a).last_download_bytes id ≡ some size)
      × ((record_download_progress id size a).session.downloaded_bytes
          ≡ a.session.downloaded_bytes + (size - previous))
unfolding record_download_progress delta
recorded id size previous a e = ground (arith, get-put_self a.last_download_bytes id size)

-- Polling a download that was seen at some size counts exactly what it has grown by since, however
-- often it is polled, if its size never falls.
observe_all-counts :
    (id : String) (size : ℕ) (sizes : List ℕ) (a : Aggregator)
    → get a.last_download_bytes id ≡ some size
    → IsGrowing size sizes
    → (observe_all id sizes a).session.downloaded_bytes + size
      ≡ a.session.downloaded_bytes + last_of size sizes
unfolding observe_all
observe_all-counts id size [] a e h = refl
observe_all-counts id size (next ∷ rest) a e h =
    let now = recorded id next size a e in
    let more = observe_all-counts id next rest (record_download_progress id next a) now.0 h.1 in
    omega (arith, now.1, more, h.0)
