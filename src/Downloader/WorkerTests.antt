-- ===== src/Downloader/WorkerTests.antt =====
-- Concrete workers.
use adp_pro.Prelude.{
  ℕ, length, ◌+◌, ◌≡◌, inl, inr, refl, true, false, Option, none, some, List, [], ◌∷◌, arith, sum,
  subst, ap, sym,
}
use adp_pro.Downloader.Worker.{
  bytes, Arrival, Response, verify_partial_response, check_range, check_total, check_length,
  or_else, Bytes, finishes, Job, Connection, consume, commit, write, fetch, receive_body, run,
  Transfer,
}
use adp_pro.Downloader.Fetched.{IsBody}
use adp_pro.Downloader.State.{Manager, Worker, missing, init}
use adp_pro.Downloader.Spawn.{start_chunks, start_chunk, start_worker, chunk_stop, chunk_start}
use adp_pro.Prelude.Dict.{get, put}
use adp_pro.Downloader.Assembly.{
  Assembly, write_chunk, progress_of, first, later, writes, Reaches, here, next, untouched,
}
use adp_pro.Downloader.Assembled.{assembled}
use adp_pro.Downloader.Metadata.{
  Requested, other_error, replies, raises, fetch_metadata, unreadable,
}
use adp_pro.Downloader.Answered.{fetch_metadata-answers}
use adp_pro.Downloader.Rounds.{IsView, consume-refines}
use adp_pro.Downloader.Ranges.{run-outside, run-IsRight}

-- The bytes 4 to 7 of ten, one of which is there.
abbrev job : Job
job = record { start = 4; stop = 8; total_size = 10; ranges_supported = true }

abbrev arrival : List ℕ → Arrival
arrival content = record { content = content; stale_before = false; stale_after = false }

abbrev answer : Response
answer = record {
  status_code = 206;
  content_range = some (record { first = 5; last = 7; total = some 10 });
  content_length = bytes 3;
  body = arrival (15 ∷ 16 ∷ []) ∷ arrival (17 ∷ 18 ∷ 19 ∷ []) ∷ [];
  breaks_off = false;
}

abbrev connection : Connection
connection = record { response = some answer; can_open = true; stale_at_error = false }

-- The resource has 10 + x at position x.
abbrev resource : Bytes
resource x = 10 + x

abbrev blank : Bytes
blank x = 0

-- The byte beyond the range is cut off.
run-answer :
    ((run job connection 1 (write 4 (14 ∷ []) blank)).1 ≡ finishes)
    × ((run job connection 1 (write 4 (14 ∷ []) blank)).0.emitted ≡ 1 ∷ 2 ∷ [])
unfolding run receive_body fetch consume commit verify_partial_response check_range check_total
    check_length or_else write
run-answer = (refl, refl)

run-outside_example : (run job connection 1 blank).0.file 9 ≡ 0
run-outside_example =
    run-outside job connection 1 9 blank (omega arith) (inl refl) (inr (omega arith))

one_done : Bytes
one_done x = 10 + x

abbrev body_of : Option Response → List Arrival
body_of none = []
body_of (some r) = r.body

answer-IsBody : IsBody resource 5 answer.body
answer-IsBody = ((refl, (refl, tt)), ((refl, (refl, (refl, tt))), tt))

run-IsRight_example : (run job connection 1 one_done).0.file 6 ≡ 16
run-IsRight_example =
    run-IsRight resource job connection 1 6 one_done (omega arith) refl
      (λ r e ok. subst (IsBody resource 5) (ap body_of e) answer-IsBody)
      (λ x low high. unfold one_done in refl) (omega arith)
      (unfold run receive_body fetch consume commit verify_partial_response check_range check_total
          check_length or_else in
        omega arith)

-- Four bytes, for two workers; the second one is sent its bytes first.
abbrev manager : Manager
manager =
    record (init "a" "http://host/a.zip" "/tmp/a" 2 none "Archives" 0 true false none missing) {
      total_size = 4;
    }

abbrev crew : List Worker
crew = (start_chunks 2 0 manager).workers

abbrev low : Worker
low = record { start = 0; stop = 2; epoch = 0 }

abbrev high : Worker
high = record { start = 2; stop = 4; epoch = 0 }

-- What is left when both have written.
abbrev both : Assembly
both = write_chunk low (10 ∷ 11 ∷ []) (write_chunk high (12 ∷ 13 ∷ 14 ∷ []) (untouched blank))

crew_is : crew ≡ low ∷ high ∷ []
unfolding init start_chunks start_chunk start_worker chunk_stop chunk_start get
crew_is = refl

both_reached : Reaches resource crew (untouched blank) both
unfolding progress_of write_chunk commit write get put
both_reached =
    subst (λ ws. Reaches resource ws (untouched blank) both) (sym crew_is)
      (next
        (next here (
          writes high (12 ∷ 13 ∷ 14 ∷ []) (untouched blank) (later first)
            (refl, (refl, (refl, tt)))))
        (writes low (10 ∷ 11 ∷ []) (write_chunk high (12 ∷ 13 ∷ 14 ∷ []) (untouched blank)) first
          (refl, (refl, tt))))

assembled_example : both.file 3 ≡ 13
unfolding init
assembled_example =
    assembled resource blank manager both 3 refl refl (omega arith) both_reached
      (unfold write_chunk progress_of commit write get put in refl) (omega arith)

abbrev view : Transfer
view = record { file = blank; position = 2; remaining = 2; progress = 0; emitted = [] }

consume-refines_example :
    let t = (consume false (arrival (12 ∷ []) ∷ arrival (13 ∷ []) ∷ []) view).0 in
    (u : Assembly) × Reaches resource (high ∷ []) (untouched blank) u
    × IsView high u t
    × (u.downloaded_size + 0 ≡ sum t.emitted)
unfolding progress_of get consume commit
consume-refines_example =
    consume-refines resource (high ∷ []) high false (arrival (12 ∷ []) ∷ arrival (13 ∷ []) ∷ [])
      (untouched blank) view first
      (record { file = refl; position = refl; remaining = refl; progress = refl })
      ((refl, tt), ((refl, tt), tt))

-- HEAD is not allowed, and GET has a length that is no number.
abbrev not_allowed : Requested
not_allowed = raises (record { status = some 405; kind = other_error })

abbrev garbled : Requested
garbled = replies (record {
  status = 200;
  content_length = unreadable;
  accept_ranges = "bytes";
  etag = none;
  last_modified = none;
  filename = "a.zip";
})

fetch_metadata-answers_example : length (fetch_metadata true not_allowed garbled) ≡ 0
fetch_metadata-answers_example = fetch_metadata-answers not_allowed garbled
