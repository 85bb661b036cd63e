-- ===== src/Downloader/Assembly.antt =====
-- The workers of one run together: src/adp/core/downloader/workers.py writes into one file and one
-- chunk_progress, and src/adp/core/downloader/manager.py counts what the workers report. Each step
-- is one round of one worker's loop; the workers take turns in any order.
use adp_pro.Prelude.{ℕ, ◌+◌, ◌-◌, Option, none, some, List, [], ◌∷◌, length, take, nat_eq}
use adp_pro.Prelude.Dict.{Dict, get, put}
use adp_pro.Downloader.State.{Worker}
use adp_pro.Downloader.Worker.{Bytes, Transfer, commit}
use adp_pro.Downloader.Fetched.{Agrees}

-- What the workers share, and the sum that `on_chunk_downloaded` has made of their reports.
pub record Assembly : Type 0 where
  pub file : Bytes
  pub chunk_progress : Dict ℕ ℕ
  pub downloaded_size : ℕ

abbrev pub or_zero : Option ℕ → ℕ
or_zero none = 0
or_zero (some n) = n

-- `chunk_progress.get(start_byte, 0)`
unfoldable pub progress_of : Worker → Assembly → ℕ
progress_of w s = or_zero (get s.chunk_progress w.start)

-- The loop variables of a worker, as it left them after its last round.
abbrev pub transfer_of : Worker → Assembly → Transfer
transfer_of w s = record {
  file = s.file;
  position = w.start + progress_of w s;
  remaining = w.stop - (w.start + progress_of w s);
  progress = progress_of w s;
  emitted = [];
}

-- One chunk arrives at a worker.
unfoldable pub write_chunk : Worker → List ℕ → Assembly → Assembly
write_chunk w content s =
    let t = transfer_of w s in
    let t' = commit (take t.remaining content) t in
    record {
      file = t'.file;
      chunk_progress = put s.chunk_progress w.start t'.progress;
      downloaded_size = s.downloaded_size + length (take t.remaining content);
    }

pub data IsIn (w : Worker) : List Worker → Type 0 where
  first : {ws : List Worker} → IsIn w (w ∷ ws)
  later : {v : Worker} {ws : List Worker} → IsIn w ws → IsIn w (v ∷ ws)

-- A worker that was sent bytes of the resource writes them.
pub data Step (resource : Bytes) (ws : List Worker) : Assembly → Assembly → Type 0 where
  writes :
      (w : Worker) (content : List ℕ) (s : Assembly)
      → IsIn w ws
      → Agrees resource (w.start + progress_of w s) content
      → Step resource ws s (write_chunk w content s)

pub data Reaches (resource : Bytes) (ws : List Worker) (s : Assembly) : Assembly → Type 0 where
  here : Reaches resource ws s s
  next : {t u : Assembly} → Reaches resource ws s t → Step resource ws t u → Reaches resource ws s u

-- Nothing done yet, over whatever the file holds.
abbrev pub untouched : Bytes → Assembly
untouched file = record { file = file; chunk_progress = []; downloaded_size = 0 }
