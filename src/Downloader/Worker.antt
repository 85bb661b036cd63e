-- ===== src/Downloader/Worker.antt =====
-- src/adp/core/downloader/workers.py: DownloadWorker, the fetch of one range of the file.
use adp_pro.Prelude.{
  ℕ, ◌+◌, ◌-◌, ◌==◌, nat_eq, Bool, not, ◌&&◌, ◌||◌, Option, none, some, List, [], ◌∷◌,
  if◌then◌else◌, leb, ltb, length, take,
}

-- The two groups of the regular expression for the range, and the third: none for `*`.
pub record ContentRange : Type 0 where
  pub first : ℕ
  pub last : ℕ
  pub total : Option ℕ

pub data ContentLength : Type 0 where
  absent not_a_number : ContentLength
  bytes : ℕ → ContentLength

-- One chunk of the body, with what `_is_stale` says before it and after the wait of the limiter.
pub record Arrival : Type 0 where
  pub content : List ℕ
  pub stale_before : Bool
  pub stale_after : Bool

-- What the server answers. The range is none where its header is missing or does not match. The
-- body may break off with an exception after its last arrival.
pub record Response : Type 0 where
  pub status_code : ℕ
  pub content_range : Option ContentRange
  pub content_length : ContentLength
  pub body : List Arrival
  pub breaks_off : Bool

pub data RangeError : Type 0 where
  not_partial unparseable_range wrong_start wrong_end unknown_total wrong_total wrong_length
        unparseable_length :
      RangeError

-- The total of the range, where the manager has a size.
unfoldable pub check_total : ℕ → Option ℕ → Option RangeError
check_total expected none = if expected == 0 then none else some unknown_total
check_total expected (some total) =
    if expected == 0 || total == expected then none else some wrong_total

unfoldable pub check_length : ContentRange → ContentLength → Option RangeError
check_length r absent = none
check_length r not_a_number = some unparseable_length
check_length r (bytes n) = if n == r.last + 1 - r.first then none else some wrong_length

unfoldable pub or_else : Option RangeError → Option RangeError → Option RangeError
or_else none e = e
or_else (some e) _ = some e

unfoldable pub check_range : ℕ → ℕ → ℕ → Option ContentRange → ContentLength → Option RangeError
unfolding check_total check_length or_else
check_range start stop total none length = some unparseable_range
check_range start stop total (some r) length =
    if not (r.first == start)
    then some wrong_start
    else if not (r.last + 1 == stop)
    then some wrong_end
    else or_else (check_total total r.total) (check_length r length)

-- `_verify_partial_response`: none, or the reason to raise `RangeNotHonoredError`. The range asked
-- for ends before `stop`; `total` is the size that the manager expects, or 0.
unfoldable pub verify_partial_response : ℕ → ℕ → ℕ → Response → Option RangeError
unfolding check_range
verify_partial_response start stop total r =
    if not (r.status_code == 206)
    then some not_partial
    else check_range start stop total r.content_range r.content_length

-- The bytes of a file by position.
abbrev pub Bytes : Type 0
Bytes = ℕ → ℕ

unfoldable pub write : ℕ → List ℕ → Bytes → Bytes
write pos [] file x = file x
write pos (b ∷ chunk) file x = if x == pos then b else write (pos + 1) chunk file x

-- The loop's variables; `progress` is `chunk_progress[start_byte]`, `emitted` what
-- `chunk_downloaded` has reported, newest first.
pub record Transfer : Type 0 where
  pub file : Bytes
  pub position : ℕ
  pub remaining : ℕ
  pub progress : ℕ
  pub emitted : List ℕ

unfoldable pub commit : List ℕ → Transfer → Transfer
commit chunk t = record t {
  file = write t.position chunk t.file;
  position = t.position + length chunk;
  remaining = t.remaining - length chunk;
  progress = t.progress + length chunk;
  emitted = length chunk ∷ t.emitted;
}

-- How a worker ends: with `finished`, with `error`, or without a signal because it is stale.
pub data Ending : Type 0 where
  finishes fails retires : Ending

-- The loop over the chunks: what it leaves, and how it ends.
unfoldable pub consume : Bool → List Arrival → Transfer → Transfer × Ending
consume breaks [] t = (t, if breaks then fails else finishes)
consume breaks (a ∷ rest) t =
    let chunk = take t.remaining a.content in
    let t' = if length a.content == 0 then t else commit chunk t in
    let more = consume breaks rest t' in
    if a.stale_before
    then (t, retires)
    else if length a.content == 0
    then more
    else if length chunk == 0
    then (t, finishes)
    else if a.stale_after
    then (t, retires)
    else if t'.remaining == 0
    then (t', finishes)
    else more

-- A worker for the bytes from `start` to before `stop`; it is started only with bytes left to fetch.
pub record Job : Type 0 where
  pub start : ℕ
  pub stop : ℕ
  pub total_size : ℕ
  pub ranges_supported : Bool

-- The outside during one run: none where no answer comes, whether the file can be opened, and what
-- `_is_stale` says when an exception is handled.
pub record Connection : Type 0 where
  pub response : Option Response
  pub can_open : Bool
  pub stale_at_error : Bool

abbrev pub at_error : Connection → Ending
at_error c = if c.stale_at_error then retires else fails

abbrev pub handled : Connection → Ending → Ending
handled c fails = at_error c
handled c e = e

-- The transfer from a position on, with the progress up to there.
unfoldable pub fetch : Job → Connection → Response → ℕ → ℕ → Bytes → Transfer × Ending
fetch j c r pos progress file =
    let t : Transfer = record {
      file = file;
      position = pos;
      remaining = j.stop - pos;
      progress = progress;
      emitted = [];
    } in
    if not c.can_open
    then (t, at_error c)
    else let e = consume r.breaks_off r.body t in (e.0, handled c e.1)

-- Nothing was written, and the exception is handled.
abbrev pub give_up : Job → Connection → ℕ → Bytes → Transfer × Ending
give_up j c progress file = (
  record {
    file = file;
    position = j.start + progress;
    remaining = j.stop - (j.start + progress);
    progress = progress;
    emitted = [];
  },
  at_error c,
)

-- `run` with an answer. `raise_for_status` raises from 400 on.
unfoldable pub receive_body : Job → Connection → Response → ℕ → Bytes → Transfer × Ending
receive_body j c r progress file =
    if leb 400 r.status_code && ltb r.status_code 600
    then give_up j c progress file
    else if j.ranges_supported
    then elim (verify_partial_response (j.start + progress) j.stop j.total_size r) [
      | some e ↦ give_up j c progress file
      | none ↦ fetch j c r (j.start + progress) progress file
    ]
    else if j.start + progress == 0
    then fetch j c r 0 progress file
    else fetch j c r 0 0 file

unfoldable pub run : Job → Connection → ℕ → Bytes → Transfer × Ending
run j c progress file = elim c.response [
  | none ↦ give_up j c progress file
  | some r ↦ receive_body j c r progress file
]
