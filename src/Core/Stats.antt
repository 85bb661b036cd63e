-- ===== src/Core/Stats.antt =====
-- src/adp/core/stats_aggregator.py: byte counts of this run and of all runs. The store that loads
-- and saves the lifetime figures is JSON in a file.
use adp_pro.Prelude.{ℕ, ◌+◌, ◌-◌, String, string_eq, none, some, List, [], ◌∷◌}
use adp_pro.Prelude.Dict.{Dict, get, put, remove}

pub record Totals : Type 0 where
  pub downloaded_bytes : ℕ
  pub uploaded_bytes : ℕ
  pub completed_downloads : ℕ
  pub completed_torrents : ℕ

pub record Aggregator : Type 0 where
  pub session : Totals
  pub lifetime : Totals
  pub last_download_bytes : Dict String ℕ
  pub last_torrent_download_bytes : Dict String ℕ
  pub last_torrent_upload_bytes : Dict String ℕ

abbrev pub no_totals : Totals
no_totals = record {
  downloaded_bytes = 0;
  uploaded_bytes = 0;
  completed_downloads = 0;
  completed_torrents = 0;
}

-- With what the store has loaded.
unfoldable pub new_aggregator : Totals → Aggregator
new_aggregator lifetime = record {
  session = no_totals;
  lifetime = lifetime;
  last_download_bytes = [];
  last_torrent_download_bytes = [];
  last_torrent_upload_bytes = [];
}

-- `max(0, size - last.get(id, size))`
unfoldable pub delta : Dict String ℕ → String → ℕ → ℕ
delta last id size = elim (get last id) [ none ↦ 0 | some previous ↦ size - previous ]

abbrev pub add_downloaded : ℕ → Totals → Totals
add_downloaded n t = record t { downloaded_bytes = t.downloaded_bytes + n }

abbrev pub add_uploaded : ℕ → Totals → Totals
add_uploaded n t = record t { uploaded_bytes = t.uploaded_bytes + n }

unfoldable pub record_download_progress : String → ℕ → Aggregator → Aggregator
record_download_progress id downloaded_size a =
    let n = delta a.last_download_bytes id downloaded_size in
    record a {
      last_download_bytes = put a.last_download_bytes id downloaded_size;
      session = add_downloaded n a.session;
      lifetime = add_downloaded n a.lifetime;
    }

unfoldable pub record_torrent_progress : String → ℕ → ℕ → Aggregator → Aggregator
record_torrent_progress id all_time_download all_time_upload a =
    let d = delta a.last_torrent_download_bytes id all_time_download in
    let u = delta a.last_torrent_upload_bytes id all_time_upload in
    record a {
      last_torrent_download_bytes = put a.last_torrent_download_bytes id all_time_download;
      last_torrent_upload_bytes = put a.last_torrent_upload_bytes id all_time_upload;
      session = add_uploaded u (add_downloaded d a.session);
      lifetime = add_uploaded u (add_downloaded d a.lifetime);
    }

abbrev pub one_download : Totals → Totals
one_download t = record t { completed_downloads = t.completed_downloads + 1 }

abbrev pub one_torrent : Totals → Totals
one_torrent t = record t { completed_torrents = t.completed_torrents + 1 }

unfoldable pub record_download_completed : Aggregator → Aggregator
record_download_completed a = record a {
  session = one_download a.session;
  lifetime = one_download a.lifetime;
}

unfoldable pub record_torrent_completed : Aggregator → Aggregator
record_torrent_completed a = record a {
  session = one_torrent a.session;
  lifetime = one_torrent a.lifetime;
}

unfoldable pub forget : String → Aggregator → Aggregator
forget id a = record a {
  last_download_bytes = remove a.last_download_bytes id;
  last_torrent_download_bytes = remove a.last_torrent_download_bytes id;
  last_torrent_upload_bytes = remove a.last_torrent_upload_bytes id;
}

pub data Tick : Type 0 where
  download_progress : String → ℕ → Tick
  torrent_progress : String → ℕ → ℕ → Tick
  download_completed torrent_completed : Tick
  forgets : String → Tick

unfoldable pub tick : Tick → Aggregator → Aggregator
tick (download_progress id size) a = record_download_progress id size a
tick (torrent_progress id d u) a = record_torrent_progress id d u a
tick download_completed a = record_download_completed a
tick torrent_completed a = record_torrent_completed a
tick (forgets id) a = forget id a

unfoldable pub ticks : List Tick → Aggregator → Aggregator
ticks [] a = a
ticks (t ∷ rest) a = ticks rest (tick t a)
