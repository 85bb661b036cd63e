-- ===== src/Torrent/States.antt =====
-- src/adp/torrent/models.py and the statuses of src/adp/torrent/engine.py.
use adp_pro.Prelude.{ℕ, Bool, true, false, not, ◌&&◌, ◌||◌, if◌then◌else◌, leb, nat_beq}

pub data TorrentState : Type 0 where
  queued checking downloading_metadata downloading finished seeding paused stopped error :
      TorrentState

unfoldable pub is_active : TorrentState → Bool
is_active checking = true
is_active downloading_metadata = true
is_active downloading = true
is_active seeding = true
is_active _ = false

unfoldable pub is_terminal_for_download : TorrentState → Bool
is_terminal_for_download finished = true
is_terminal_for_download seeding = true
is_terminal_for_download stopped = true
is_terminal_for_download error = true
is_terminal_for_download _ = false

-- `LT_STATE_TO_TORRENT_STATE.get(n, DOWNLOADING)`
unfoldable pub of_lt_state : ℕ → TorrentState
of_lt_state n =
    if nat_beq n 0
    then queued
    else if nat_beq n 1 || nat_beq n 6 || nat_beq n 7
    then checking
    else if nat_beq n 2
    then downloading_metadata
    else if nat_beq n 4
    then finished
    else if nat_beq n 5
    then seeding
    else downloading

pub data FilePriority : Type 0 where
  skip normal high : FilePriority

unfoldable pub priority_value : FilePriority → ℕ
priority_value skip = 0
priority_value normal = 4
priority_value high = 7

-- A priority of libtorrent is not negative.
unfoldable pub from_lt_priority : ℕ → FilePriority
from_lt_priority n = if leb n 0 then skip else if leb 6 n then high else normal

-- The fields of libtorrent's status that the engine reads.
pub record LtStatus : Type 0 where
  pub state : ℕ
  pub is_paused : Bool
  pub is_finished : Bool
  pub auto_managed : Bool
  pub has_metadata : Bool

unfoldable pub is_queued : LtStatus → Bool
is_queued s = s.is_paused && not s.is_finished && s.auto_managed

unfoldable pub state_from_status : LtStatus → TorrentState
state_from_status s =
    if s.is_paused
    then if s.is_finished then finished else if s.auto_managed then queued else paused
    else of_lt_state s.state
