-- ===== src/Downloader/Metadata.antt =====
-- src/adp/core/downloader/metadata.py and http.py: what MetadataFetcher makes of the answers to its
-- two requests. An answer comes with its redirects and retries done; the name that a server gives
-- comes sanitised.
use adp_pro.Prelude.{
  ℕ, ◌==◌, nat_eq, String, Bool, true, false, ◌&&◌, Option, none, some, List, [], ◌∷◌,
  if◌then◌else◌, leb, ltb,
}

-- `isinstance` tests of an exception of requests, from the narrowest on.
pub data Kind : Type 0 where
  ssl_error connect_timeout connection_error other_error : Kind

pub record HttpError : Type 0 where
  -- The status of the answer that it carries.
  pub status : Option ℕ
  pub kind : Kind

pub data Description : Type 0 where
  login_required refused not_found rate_limited unverified timed_out no_connection raw : Description
  server_error : ℕ → Description

abbrev pub describe_kind : Kind → Description
describe_kind ssl_error = unverified
describe_kind connect_timeout = timed_out
describe_kind connection_error = no_connection
describe_kind other_error = raw

unfoldable pub describe_http_error : HttpError → Description
describe_http_error e = elim e.status [
  | none ↦ describe_kind e.kind
  | some s ↦
      if s == 401
      then login_required
      else if s == 403
      then refused
      else if s == 404
      then not_found
      else if s == 429
      then rate_limited
      else if leb 500 s && ltb s 600
      then server_error s
      else describe_kind e.kind
]

-- The text of a Content-Length: none, empty, a number from 0 on, a negative one, or no number.
pub data LengthHeader : Type 0 where
  missing blank below_zero unreadable : LengthHeader
  bytes : ℕ → LengthHeader

pub record Reply : Type 0 where
  pub status : ℕ
  pub content_length : LengthHeader
  pub accept_ranges : String
  pub etag : Option String
  pub last_modified : Option String
  pub filename : String

pub data Requested : Type 0 where
  replies : Reply → Requested
  raises : HttpError → Requested

-- `raise_for_status`
unfoldable pub checked : Requested → Requested
checked (raises e) = raises e
checked (replies r) =
    if leb 400 r.status && ltb r.status 600
    then raises (record { status = some r.status; kind = other_error })
    else replies r

pub data FetchSignal : Type 0 where
  -- The size: none where it is negative.
  metadata_fetched : Option ℕ → Reply → FetchSignal
  bad_url tls_failed : FetchSignal
  error_occurred : Description → FetchSignal

-- The last block: a text that is no number raises, and nothing is emitted.
unfoldable pub report_length : LengthHeader → Reply → List FetchSignal
report_length missing r = metadata_fetched (some 0) r ∷ []
report_length (bytes n) r = metadata_fetched (some n) r ∷ []
report_length below_zero r = metadata_fetched none r ∷ []
report_length blank r = []
report_length unreadable r = []

unfoldable pub fail_kind : Kind → HttpError → List FetchSignal
fail_kind ssl_error e = tls_failed ∷ []
fail_kind _ e = error_occurred (describe_http_error e) ∷ []

unfoldable pub after_get : Requested → List FetchSignal
after_get (raises e) = fail_kind e.kind e
after_get (replies r) = report_length r.content_length r

-- What becomes of an answer to HEAD: a length above 0 is taken, one that is no number raises, and
-- GET is asked for all others.
unfoldable pub take_head : LengthHeader → Reply → Requested → List FetchSignal
take_head unreadable r get = []
take_head (bytes n) r get =
    let fallback = after_get get in if n == 0 then fallback else report_length (bytes n) r
take_head _ r get = after_get get

unfoldable pub after_head : Requested → Requested → List FetchSignal
after_head (raises e) get = after_get get
after_head (replies r) get = take_head r.content_length r get

-- `run`: whether the link has a scheme and a host, and the answers to HEAD and to GET.
unfoldable pub fetch_metadata : Bool → Requested → Requested → List FetchSignal
fetch_metadata false head get = bad_url ∷ []
fetch_metadata true head get = after_head (checked head) (checked get)
