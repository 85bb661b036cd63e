-- ===== src/Downloader/Answered.antt =====
-- Whether the manager hears of its metadata.
use adp_pro.Prelude.{
  ◌≡◌, refl, ◌==◌, nat_eq, Bool, true, false, not, ◌&&◌, ◌||◌, some, if◌then◌else◌, length, leb,
  ltb, arith, Bool-cases, inl, inr,
}
use adp_pro.Downloader.Metadata.{
  Kind, ssl_error, connect_timeout, connection_error, other_error, HttpError, LengthHeader, missing,
  blank, below_zero, unreadable, bytes, Reply, Requested, replies, raises, checked, report_length,
  fail_kind, take_head, after_get, after_head, fetch_metadata,
}

-- The server refuses.
abbrev pub is_refusal : Reply → Bool
is_refusal r = leb 400 r.status && ltb r.status 600

abbrev pub has_size : LengthHeader → Bool
has_size (bytes n) = not (n == 0)
has_size _ = false

abbrev pub has_no_number : LengthHeader → Bool
has_no_number unreadable = true
has_no_number _ = false

-- HEAD answers with a text for the length that is no number.
abbrev pub stops_at_head : Requested → Bool
stops_at_head (raises e) = false
stops_at_head (replies r) = not (is_refusal r) && has_no_number r.content_length

-- HEAD answers with a size, so that GET is not asked.
abbrev pub is_enough : Requested → Bool
is_enough (raises e) = false
is_enough (replies r) = not (is_refusal r) && has_size r.content_length

abbrev pub is_blank : LengthHeader → Bool
is_blank blank = true
is_blank _ = false

-- GET answers with a text for the length that is empty or no number.
abbrev pub stops_at_get : Requested → Bool
stops_at_get (raises e) = false
stops_at_get (replies r) =
    not (is_refusal r) && (has_no_number r.content_length || is_blank r.content_length)

fail_kind-length : (k : Kind) (e : HttpError) → length (fail_kind k e) ≡ 1
unfolding fail_kind
fail_kind-length ssl_error e = refl
fail_kind-length connect_timeout e = refl
fail_kind-length connection_error e = refl
fail_kind-length other_error e = refl

report_length-length :
    (h : LengthHeader) (r : Reply)
    → length (report_length h r) ≡ (if has_no_number h || is_blank h then 0 else 1)
unfolding report_length
report_length-length missing r = refl
report_length-length blank r = refl
report_length-length below_zero r = refl
report_length-length unreadable r = refl
report_length-length (bytes n) r = refl

after_get-length :
    (get : Requested) → length (after_get (checked get)) ≡ (if stops_at_get get then 0 else 1)
unfolding checked after_get
after_get-length (raises e) = fail_kind-length e.kind e
after_get-length (replies r) = elim (Bool-cases (is_refusal r)) [
  | inl b ↦
      rw b (fail_kind-length other_error (record { status = some r.status; kind = other_error }))
  | inr b ↦ rw b (report_length-length r.content_length r)
]

take_head-length :
    (h : LengthHeader) (r : Reply) (get : Requested)
    → length (take_head h r (checked get))
      ≡ (if has_no_number h || not (has_size h) && stops_at_get get then 0 else 1)
unfolding take_head
take_head-length missing r get = after_get-length get
take_head-length blank r get = after_get-length get
take_head-length below_zero r get = after_get-length get
take_head-length unreadable r get = refl
take_head-length (bytes n) r get =
    ground (arith, after_get-length get, report_length-length (bytes n) r)

-- One signal answers the manager about a link, unless a Content-Length is read that is no number, or
-- an empty one of GET: then none does, and the download is left to wait.
pub fetch_metadata-answers :
    (head get : Requested)
    → length (fetch_metadata true head get)
      ≡ (if stops_at_head head || not (is_enough head) && stops_at_get get then 0 else 1)
unfolding fetch_metadata after_head checked
fetch_metadata-answers (raises e) get = after_get-length get
fetch_metadata-answers (replies r) get = elim (Bool-cases (is_refusal r)) [
  | inl b ↦ rw b (after_get-length get)
  | inr b ↦ rw b (take_head-length r.content_length r get)
]
