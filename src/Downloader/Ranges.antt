-- ===== src/Downloader/Ranges.antt =====
-- A worker as a whole: what it may write, that it writes the right bytes, and that it counts them.
use adp_pro.Prelude.{
  ℕ, ◌+◌, ◌-◌, ◌≤◌, ◌<◌, ◌≡◌, refl, ◌⊎◌, inl, inr, nat_eq, true, Option, none, some, [], sum, arith,
  Option-cases,
}
use adp_pro.Downloader.Worker.{
  Response, ContentRange, ContentLength, absent, not_a_number, bytes, verify_partial_response,
  check_range, check_total, check_length, or_else, Bytes, Transfer, Job, Connection, fetch, give_up,
  receive_body, run,
}
use adp_pro.Downloader.Fetched.{IsBody, IsAt, consume-IsAt, consume-outside, consume-inside}

-- The transfer's start.
abbrev from : Job → ℕ → ℕ → Bytes → Transfer
from j pos progress file = record {
  file = file;
  position = pos;
  remaining = j.stop - pos;
  progress = progress;
  emitted = [];
}

fetch-outside :
    (j : Job) (c : Connection) (r : Response) (pos progress x : ℕ) (file : Bytes)
    → pos ≤ j.stop
    → (x < pos) ⊎ (j.stop ≤ x)
    → (fetch j c r pos progress file).0.file x ≡ file x
unfolding fetch
fetch-outside j c r pos progress x file l h =
    ground (arith, consume-outside r.breaks_off r.body x (from j pos progress file))

fetch-IsAt :
    (j : Job) (c : Connection) (r : Response) (pos progress : ℕ) (file : Bytes)
    → pos ≤ j.stop
    → pos ≡ j.start + progress
    → IsAt j.stop j.start progress (fetch j c r pos progress file).0
unfolding fetch
fetch-IsAt j c r pos progress file l e =
    let t : Transfer = from j pos progress file in
    let fits : IsAt j.stop j.start progress t = record {
      position = e;
      remaining = omega arith;
      counted = omega arith;
    } in
    ground (arith, fits, consume-IsAt j.stop j.start progress r.breaks_off r.body t fits)

-- A worker that is started with a range that it has not passed changes no byte outside of it,
-- whatever the server sends; one without range support has the whole file as its range.
pub run-outside :
    (j : Job) (c : Connection) (progress x : ℕ) (file : Bytes)
    → j.start + progress ≤ j.stop
    → (j.ranges_supported ≡ true) ⊎ (j.start ≡ 0)
    → (x < j.start) ⊎ (j.stop ≤ x)
    → (run j c progress file).0.file x ≡ file x
unfolding run receive_body
run-outside j c progress x file l k h = elim (Option-cases c.response) [
  | inl e ↦ rw e refl
  | inr (r, e) ↦ rw e (
      ground (
        arith,
        fetch-outside j c r (j.start + progress) progress x file,
        fetch-outside j c r 0 progress x file,
        fetch-outside j c r 0 0 x file,
      ))
]

give_up-IsAt :
    (j : Job) (c : Connection) (progress : ℕ) (file : Bytes)
    → j.start + progress ≤ j.stop
    → IsAt j.stop j.start progress (give_up j c progress file).0
give_up-IsAt j c progress file l = record {
  position = refl;
  remaining = omega arith;
  counted = omega arith;
}

run-IsAt :
    (j : Job) (c : Connection) (progress : ℕ) (file : Bytes)
    → j.start + progress ≤ j.stop
    → j.ranges_supported ≡ true
    → IsAt j.stop j.start progress (run j c progress file).0
unfolding run receive_body
run-IsAt j c progress file l k = elim (Option-cases c.response) [
  | inl e ↦ rw e (give_up-IsAt j c progress file l)
  | inr (r, e) ↦ rw e (
      ground (
        arith,
        give_up-IsAt j c progress file l,
        fetch-IsAt j c r (j.start + progress) progress file,
      ))
]

-- With range support, the progress of the range grows by exactly the bytes that the worker has
-- reported, and never beyond the range.
run_counts :
    (j : Job) (c : Connection) (progress : ℕ) (file : Bytes)
    → j.start + progress ≤ j.stop
    → j.ranges_supported ≡ true
    → let t = (run j c progress file).0 in
      (t.progress ≡ progress + sum t.emitted) × (j.start + t.progress ≤ j.stop)
run_counts j c progress file l k =
    let h = run-IsAt j c progress file l k in (h.counted, omega (arith, h.position, h.remaining))

-- Every byte of the range up to the progress is that of the resource.
abbrev pub IsRight : Bytes → ℕ → ℕ → Bytes → Type 0
IsRight resource start progress file =
    (x : ℕ) → start ≤ x → x < start + progress → file x ≡ resource x

fetch-IsRight :
    (resource : Bytes) (j : Job) (c : Connection) (r : Response) (pos progress : ℕ) (file : Bytes)
    → pos ≤ j.stop
    → pos ≡ j.start + progress
    → IsBody resource pos r.body
    → IsRight resource j.start progress file
    → IsRight resource j.start
        (fetch j c r pos progress file).0.progress
        (fetch j c r pos progress file).0.file
unfolding fetch
fetch-IsRight resource j c r pos progress file l e b h x low high =
    let t : Transfer = from j pos progress file in
    let fits : IsAt j.stop j.start progress t = record {
      position = e;
      remaining = omega arith;
      counted = omega arith;
    } in
    let after = consume-IsAt j.stop j.start progress r.breaks_off r.body t fits in
    ground (
      arith,
      after.position,
      h x low,
      consume-outside r.breaks_off r.body x t,
      consume-inside resource r.breaks_off r.body x t b,
    )

receive_body-IsRight :
    (resource : Bytes) (j : Job) (c : Connection) (r : Response) (progress : ℕ) (file : Bytes)
    → j.start + progress ≤ j.stop
    → (verify_partial_response (j.start + progress) j.stop j.total_size r ≡ none
        → IsBody resource (j.start + progress) r.body)
    → j.ranges_supported ≡ true
    → IsRight resource j.start progress file
    → IsRight resource j.start
        (receive_body j c r progress file).0.progress
        (receive_body j c r progress file).0.file
unfolding receive_body
receive_body-IsRight resource j c r progress file l b k h x low high =
    elim (Option-cases (verify_partial_response (j.start + progress) j.stop j.total_size r)) [
      | inl ok ↦ ground (
        arith,
        h x low,
        ok,
        fetch-IsRight resource j c r (j.start + progress) progress file l refl (b ok) h x low,
      )
      | inr (e, bad) ↦ ground (arith, h x low, bad)
    ]

-- Where the server supports ranges and sends, in every answer that passes the check of the range,
-- the bytes of the resource from the position asked for, the worker keeps the range right: all bytes
-- that count as done afterwards are those of the resource, however the transfer ended.
pub run-IsRight :
    (resource : Bytes) (j : Job) (c : Connection) (progress x : ℕ) (file : Bytes)
    → j.start + progress ≤ j.stop
    → j.ranges_supported ≡ true
    → ((r : Response)
        → c.response ≡ some r
        → verify_partial_response (j.start + progress) j.stop j.total_size r ≡ none
        → IsBody resource (j.start + progress) r.body)
    → IsRight resource j.start progress file
    → j.start ≤ x
    → x < j.start + (run j c progress file).0.progress
    → (run j c progress file).0.file x ≡ resource x
unfolding run
run-IsRight resource j c progress x file l k b h low high = elim (Option-cases c.response) [
  | inl e ↦ ground (arith, e, h x low)
  | inr (r, e) ↦
      ground (arith, e, receive_body-IsRight resource j c r progress file l (b r e) k h x low)
]

check_range-accepts :
    (start stop total : ℕ) (range : Option ContentRange) (length : ContentLength)
    → start < stop
    → 0 < total
    → check_range start stop total range length ≡ none
    → (range ≡ some (record { first = start; last = stop - 1; total = some total }))
      × ((length ≡ absent) ⊎ (length ≡ bytes (stop - start)))
unfolding check_range check_total check_length or_else
check_range-accepts start stop total none length l m h = ground arith
check_range-accepts start stop total (some r) absent l m h = ground arith
check_range-accepts start stop total (some r) not_a_number l m h = ground arith
check_range-accepts start stop total (some r) (bytes n) l m h = ground arith

-- A range answer that is accepted is a partial one for exactly the bytes asked for: its range
-- starts and ends there, its total is the expected size, and its length, if given, is theirs.
verify_partial_response-accepts :
    (start stop total : ℕ) (r : Response)
    → start < stop
    → 0 < total
    → verify_partial_response start stop total r ≡ none
    → (r.status_code ≡ 206)
      × (r.content_range ≡ some (record { first = start; last = stop - 1; total = some total }))
      × ((r.content_length ≡ absent) ⊎ (r.content_length ≡ bytes (stop - start)))
unfolding verify_partial_response
verify_partial_response-accepts start stop total r l m h =
    let a = check_range-accepts start stop total r.content_range r.content_length l m in
    ground (arith, a)
