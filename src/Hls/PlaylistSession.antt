-- ===== src/Hls/PlaylistSession.antt =====
-- pkg/hls/playlist_session.go, and the retries of `FetchSegmentWithRetryReader` in hls.go. What the network
-- and the parser answer to the n-th request is an argument, and so is what `FetchURL` answers. A header
-- that is missing is 0. The resolver and the prefetcher of an address are left out.
pub mod Requests
use bilirec.Prelude.{
  ℕ, zero, suc, ◌+◌, ◌-◌, Bool, true, false, ◌&&◌, ◌||◌, not, Option, none, some, if◌then◌else◌,
  ltb, leb, ◌==◌,
}
use bilirec.Hls.StreamLoop.{Playlist}

abbrev pub playlist_retry_attempts : ℕ
playlist_retry_attempts = 2

-- `FetchURL`: an address, an empty one, or an error; and one that is no URL.
pub data UrlAnswer : Type 0 where
  url : ℕ → UrlAnswer
  empty_url : UrlAnswer
  url_failed : UrlAnswer

-- The response to a request. An error says whether it is worth a retry and whether the context was
-- cancelled; `body` is what the parser makes of the body.
pub record Response : Type 0 where
  pub status : ℕ
  pub body : Option Playlist
  pub etag : ℕ
  pub last_modified : ℕ

pub data Answer : Type 0 where
  net_error : (retryable is_canceled : Bool) → Answer
  response : Response → Answer

-- `requests` counts the requests, `refreshes` the changes of the address.
pub record PlaylistSession : Type 0 where
  pub m3u8_url : Option ℕ
  pub last_etag : ℕ
  pub last_modified : ℕ
  pub cached_playlist : Option Playlist
  pub requests : ℕ
  pub refreshes : ℕ

pub data FetchError : Type 0 where
  m3u8_expired : FetchError
  no_m3u8_url : FetchError
  is_canceled : FetchError
  status_error : ℕ → FetchError
  other_error : FetchError

pub data Result : Type 0 where
  ok : Playlist → Result
  error : FetchError → Result

-- `IsM3u8URLExpiredStatus`
unfoldable pub is_m3u8_url_expired_status : ℕ → Bool
is_m3u8_url_expired_status s = s == 401 || (s == 403 || (s == 404 || s == 410))

-- `RefreshURL`; `none` for success.
unfoldable pub refresh_url : PlaylistSession → UrlAnswer → PlaylistSession × Option FetchError
refresh_url s url_failed = (s, some other_error)
refresh_url s empty_url = (s, some no_m3u8_url)
refresh_url s (url u) = (
  record s {
    m3u8_url = some u;
    last_etag = 0;
    last_modified = 0;
    cached_playlist = none;
    refreshes = suc s.refreshes;
  },
  none,
)

unfoldable pub from_cache : Option Playlist → Result
from_cache none = error other_error
from_cache (some pl) = ok pl

-- A body that was read.
unfoldable pub parsed : PlaylistSession → Response → Option Playlist → PlaylistSession × Result
parsed s r none = (s, error other_error)
parsed s r (some pl) = (
  record s { last_etag = r.etag; last_modified = r.last_modified; cached_playlist = some pl },
  ok pl,
)

-- The part of `Fetch` behind a response.
unfoldable pub read_response : PlaylistSession → Response → PlaylistSession × Result
unfolding is_m3u8_url_expired_status from_cache parsed
read_response s r =
    if is_m3u8_url_expired_status r.status
    then (s, error m3u8_expired)
    else if r.status == 304
    then (s, from_cache s.cached_playlist)
    else if r.status == 200
    then parsed s r r.body
    else if leb 500 r.status && ltb r.status 600
    then (s, error (status_error r.status))
    else (s, error other_error)

-- The network of a session: the answer to each request, whether the wait before the retry that follows it
-- reached its end, and whether the context is cancelled once so many requests were answered.
pub record Network : Type 0 where
  pub answer : ℕ → Answer
  pub waited : ℕ → Bool
  pub cancelled : ℕ → Bool

-- A round of the loop of `Fetch`; `left` is how many attempts follow it.
unfoldable pub fetch_round :
    (PlaylistSession → PlaylistSession × Result)
    → ℕ
    → Bool
    → PlaylistSession
    → Answer
    → PlaylistSession × Result
unfolding read_response
fetch_round more left waited s (net_error retryable stopped) =
    if ltb 0 left && (retryable && not stopped)
    then if waited then more s else (s, error is_canceled)
    else (s, error (if stopped then is_canceled else other_error))
fetch_round more left waited s (response r) = read_response s r

unfoldable pub fetch_loop : Network → ℕ → PlaylistSession → PlaylistSession × Result
unfolding fetch_round
fetch_loop net zero s = (s, error other_error)
fetch_loop net (suc left) s =
    fetch_round (fetch_loop net left) left (net.waited s.requests)
      (record s { requests = suc s.requests }) (net.answer s.requests)

-- `Fetch`
unfoldable pub fetch : Network → PlaylistSession → PlaylistSession × Result
unfolding fetch_loop
fetch net s = fetch_loop net playlist_retry_attempts s

-- Is the error worth a new address?
unfoldable pub wants_refresh : FetchError → Bool
wants_refresh m3u8_expired = true
wants_refresh (status_error s) = true
wants_refresh no_m3u8_url = false
wants_refresh is_canceled = false
wants_refresh other_error = false

-- The second round of `FetchWithRefresh`, behind `RefreshURL`.
unfoldable pub after_refresh :
    Network → PlaylistSession × Option FetchError → PlaylistSession × Result
unfolding fetch
after_refresh net (s, some e) = (s, error e)
after_refresh net (s, none) = fetch net s

-- The first.
unfoldable pub after_fetch :
    Network → UrlAnswer → PlaylistSession × Result → PlaylistSession × Result
unfolding wants_refresh after_refresh refresh_url
after_fetch net next_url (s, ok pl) = (s, ok pl)
after_fetch net next_url (s, error e) =
    if net.cancelled s.requests
    then (s, error e)
    else if wants_refresh e
    then after_refresh net (refresh_url s next_url)
    else (s, error e)

unfoldable pub fetch_with_refresh : Network → UrlAnswer → PlaylistSession → PlaylistSession × Result
unfolding after_fetch fetch
fetch_with_refresh net next_url s = after_fetch net next_url (fetch net s)

-- `IsRetryableSegmentStatus`
unfoldable pub is_retryable_segment_status : ℕ → Bool
is_retryable_segment_status s = s == 404 || s == 410

-- What `FetchSegmentWithRetryReader` gets: an error, a status that is not 200, or a body with what reading
-- it answers.
pub data SegmentAnswer : Type 0 where
  segment_error : (retryable stopped : Bool) → SegmentAnswer
  segment_status : ℕ → SegmentAnswer
  segment_body : ℕ → SegmentAnswer

pub data SegmentResult : Type 0 where
  segment_bytes : ℕ → SegmentResult
  segment_canceled : SegmentResult
  segment_failed : SegmentResult

-- A round behind the request; an error of reading the body is treated as one of the request is. `left` is
-- how many attempts follow it.
unfoldable pub segment_round : SegmentResult → ℕ → Bool → SegmentAnswer → SegmentResult
segment_round more left waited (segment_body b) = segment_bytes b
segment_round more left waited (segment_error retryable stopped) =
    if stopped
    then segment_canceled
    else if ltb 0 left && retryable
    then if waited then more else segment_canceled
    else segment_failed
segment_round more left waited (segment_status s) =
    if not (is_retryable_segment_status s) || left == 0
    then segment_failed
    else if waited
    then more
    else segment_canceled

unfoldable pub segment_loop : (ℕ → SegmentAnswer) → (ℕ → Bool) → ℕ → ℕ → SegmentResult
unfolding segment_round
segment_loop answers waited n zero = segment_failed
segment_loop answers waited n (suc left) =
    let more = segment_loop answers waited (suc n) left in
    segment_round more left (waited n) (answers n)

unfoldable pub fetch_segment_with_retry : (ℕ → SegmentAnswer) → (ℕ → Bool) → ℕ → SegmentResult
unfolding segment_loop
fetch_segment_with_retry answers waited attempts =
    segment_loop answers waited 0 (if attempts == 0 then 1 else attempts)
