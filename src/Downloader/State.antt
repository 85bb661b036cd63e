-- ===== src/Downloader/State.antt =====
-- src/adp/core/downloader/manager.py: the attributes of a DownloadManager, and what its methods
-- leave outside: its two files, the tasks given to the thread pool and the signals emitted.
use adp_pro.Prelude.{
  ℕ, ◌+◌, ◌-◌, ◌*◌, max, String, ◌==◌, string_eq, Bool, true, false, not, ◌&&◌, Option, none, some,
  List, [], ◌∷◌, ◌++◌, if◌then◌else◌, ltb, length, drop,
}
use adp_pro.Prelude.Dict.{Dict}
use adp_pro.Core.Models.{Status, pending, downloading, status_eq}

-- A speed in bytes per second, as the exact fraction that Python's float rounds.
pub record Speed : Type 0 where
  pub num : ℕ
  pub den : ℕ

-- The range [start, stop) of the file: `end_byte` is `stop - 1`.
pub record Worker : Type 0 where
  pub start : ℕ
  pub stop : ℕ
  pub epoch : ℕ

pub record Sidecar : Type 0 where
  pub url : String
  pub save_path : String
  pub total_size : ℕ
  pub etag : Option String
  pub last_modified : Option String
  pub chunk_progress : Dict ℕ ℕ

-- The `.progress` file, with numbers for chunk counts. `unreadable` is what cannot be opened or is no
-- JSON; `odd` is any other content that is no sidecar: bytes that are no UTF-8, JSON that is no
-- object, a chunk key that is no number. The keys are numbers here: the texts that JSON makes of
-- them read back as the same numbers.
pub data SidecarFile : Type 0 where
  missing unreadable odd : SidecarFile
  holds : Sidecar → SidecarFile

pub data Message : Type 0 where
  unknown_size already_exists byte_count_mismatch no_such_file checksum_failed : Message
  wrong_size_on_disk : ℕ → ℕ → Message
  reported : String → Message

pub data Task : Type 0 where
  fetch_metadata cleanup : Task
  download : Worker → Task
  verify : ℕ → Task

pub data Signal : Type 0 where
  progress_updated : ℕ → ℕ → Speed → Status → Signal
  download_finished : Signal
  error_occurred : Message → Signal

-- How an attempt to create the file at its full size ends: done, emptied only, or not opened.
pub data Allocation : Type 0 where
  allocated emptied refused : Allocation

-- What the clock (in milliseconds) and the operating system answer during one call.
pub record Env : Type 0 where
  pub now : ℕ
  pub allocation : Allocation
  pub can_write_sidecar : Bool
  pub can_remove_sidecar : Bool
  pub can_stat : Bool

pub record Manager : Type 0 where
  pub download_id : String
  pub url : String
  pub save_path : String
  pub num_threads : ℕ
  pub checksum : Option String
  pub allow_overwrite : Bool
  pub destination_owned_by_adp : Bool
  pub restart_required : Bool
  pub category : String
  pub verify_tls : Bool
  pub total_size : ℕ
  pub downloaded_size : ℕ
  pub metadata_initialized : Bool
  pub workers : List Worker
  -- Every test of this counter is `<= 0`, or `== 0` right after it was set to 0 and counted up; so
  -- a count that stops at 0 answers as Python's does.
  pub active_workers : ℕ
  pub start_time : Option ℕ
  pub downloaded_at_start : ℕ
  pub status : Status
  pub traceback_info : Option Message
  pub last_save_time : ℕ
  pub server_etag : Option String
  pub server_last_modified : Option String
  pub speed_history : List Speed
  pub chunk_progress : Dict ℕ ℕ
  pub worker_epoch : ℕ
  pub current_speed : Speed
  pub ranges_supported : Bool
  pub speed_limit : ℕ
  -- The size of the file at `save_path`, if there is one.
  pub file : Option ℕ
  pub sidecar : SidecarFile
  -- Newest first.
  pub tasks : List Task
  pub signals : List Signal

abbrev pub no_speed : Speed
no_speed = record { num = 0; den = 1 }

-- `__init__`, beside whatever the disk holds at the two paths.
unfoldable pub init :
    String
    → String
    → String
    → ℕ
    → Option String
    → String
    → ℕ
    → Bool
    → Bool
    → Option ℕ
    → SidecarFile
    → Manager
init download_id url save_path num_threads checksum category limit verify_tls overwrite file
      sidecar =
    record {
      download_id = download_id;
      url = url;
      save_path = save_path;
      num_threads = max 1 num_threads;
      checksum = checksum;
      allow_overwrite = overwrite;
      destination_owned_by_adp = false;
      restart_required = false;
      category = category;
      verify_tls = verify_tls;
      total_size = 0;
      downloaded_size = 0;
      metadata_initialized = false;
      workers = [];
      active_workers = 0;
      start_time = none;
      downloaded_at_start = 0;
      status = pending;
      traceback_info = none;
      last_save_time = 0;
      server_etag = none;
      server_last_modified = none;
      speed_history = [];
      chunk_progress = [];
      worker_epoch = 0;
      current_speed = no_speed;
      ranges_supported = true;
      speed_limit = limit;
      file = file;
      sidecar = sidecar;
      tasks = [];
      signals = [];
    }

-- The truth value of an optional text.
abbrev pub truthy : Option String → Bool
truthy none = false
truthy (some s) = not (s == "")

add_speed : Speed → Speed → Speed
add_speed a b = record { num = a.num * b.den + b.num * a.den; den = a.den * b.den }

sum_speed : List Speed → Speed
unfolding add_speed
sum_speed [] = no_speed
sum_speed (s ∷ h) = add_speed s (sum_speed h)

mean : List Speed → Speed
unfolding sum_speed
mean h = let total = sum_speed h in record { num = total.num; den = total.den * length h }

-- A deque of at most ten entries drops from its left end.
push_speed : List Speed → Speed → List Speed
push_speed h s = let h' = h ++ s ∷ [] in if ltb 10 (length h') then drop 1 h' else h'

-- The speed since the transfer was last started, if enough is known of it.
measured : ℕ → ℕ → ℕ → Option Speed
measured start now bytes =
    let elapsed = now - start in
    if ltb 0 bytes && ltb 500 elapsed
    then some (record { num = bytes * 1000; den = elapsed })
    else none

unfoldable pub next_history : ℕ → Manager → List Speed
unfolding measured push_speed
next_history now m = elim m.start_time [
  | none ↦ m.speed_history
  | some start ↦
      if status_eq m.status downloading
      then elim (measured start now (m.downloaded_size - m.downloaded_at_start)) [
        | none ↦ m.speed_history
        | some s ↦ push_speed m.speed_history s
      ]
      else m.speed_history
]

mean_or_none : List Speed → Speed
unfolding mean
mean_or_none [] = no_speed
mean_or_none (s ∷ h) = mean (s ∷ h)

unfoldable pub next_speed : ℕ → Manager → Speed
unfolding mean_or_none next_history
next_speed now m = elim m.start_time [
  | none ↦ no_speed
  | some start ↦
      if status_eq m.status downloading then mean_or_none (next_history now m) else no_speed
]

unfoldable pub update_progress : Env → Manager → Manager
update_progress env m =
    let speed = next_speed env.now m in
    record m {
      speed_history = next_history env.now m;
      current_speed = speed;
      signals = progress_updated m.downloaded_size m.total_size speed m.status ∷ m.signals;
    }

unfoldable pub set_status : Env → Status → Manager → Manager
unfolding update_progress status_eq
set_status env new m =
    if status_eq m.status new then m else update_progress env (record m { status = new })
