-- ===== src/Hls/PlaylistSession/Requests.antt =====
-- How many requests a fetch makes, and what it leaves in the cache.
use bilirec.Prelude.{
  Bool-cases, ltb→lt, ℕ, zero, suc, ◌+◌, ◌≤◌, ◌<◌, ◌≡◌, refl, sym, ap, ◌∙◌, ◌⊎◌, inl, inr, subst,
  Bool, true, false, ◌&&◌, ◌||◌, not, Option, none, some, if◌then◌else◌, if_cases, ltb, leb, ◌==◌,
  arith,
}
use bilirec.Hls.StreamLoop.{Playlist}
use bilirec.Hls.PlaylistSession.{
  UrlAnswer, url, empty_url, url_failed, Response, Answer, net_error, response, PlaylistSession,
  FetchError, m3u8_expired, no_m3u8_url, status_error, other_error, Result, ok, error, refresh_url,
  from_cache, parsed, read_response, Network, fetch_round, fetch_loop, fetch,
  is_m3u8_url_expired_status, wants_refresh, after_refresh, after_fetch, fetch_with_refresh,
  is_retryable_segment_status, SegmentAnswer, segment_error, segment_status, segment_body,
  SegmentResult, segment_bytes, segment_canceled, segment_failed, segment_round, segment_loop,
  fetch_segment_with_retry,
}

-- A playlist that is returned is the one in the cache.
abbrev pub IsCached : PlaylistSession → Result → Type 0
IsCached s (ok pl) = s.cached_playlist ≡ some pl
IsCached s (error e) = Unit {0}

-- At most `k` requests, and no new address.
abbrev Fetched : ℕ → PlaylistSession → PlaylistSession × Result → Type 0
Fetched k s r = (r.0.requests ≤ s.requests + k) × (r.0.refreshes ≡ s.refreshes) × IsCached r.0 r.1

refused_Fetched : (s : PlaylistSession) (e : FetchError) → Fetched 0 s (s, error e)
refused_Fetched s e = (omega arith, refl, tt)

from_cache-IsCached :
    (s : PlaylistSession) (c : Option Playlist) → s.cached_playlist ≡ c → IsCached s (from_cache c)
unfolding from_cache
from_cache-IsCached s none e = tt
from_cache-IsCached s (some pl) e = e

parsed-Fetched :
    (s : PlaylistSession) (r : Response) (body : Option Playlist) → Fetched 0 s (parsed s r body)
unfolding parsed
parsed-Fetched s r none = (omega arith, refl, tt)
parsed-Fetched s r (some pl) = (omega arith, refl, refl)

read_response-Fetched : (s : PlaylistSession) (r : Response) → Fetched 0 s (read_response s r)
unfolding read_response
read_response-Fetched s r =
    if_cases (Fetched 0 s) (is_m3u8_url_expired_status r.status)
      (λ _. refused_Fetched s m3u8_expired)
      (λ _.
        if_cases (Fetched 0 s) (r.status == 304)
          (λ _. (omega arith, refl, from_cache-IsCached s s.cached_playlist refl))
          (λ _.
            if_cases (Fetched 0 s) (r.status == 200) (λ _. parsed-Fetched s r r.body)
              (λ _.
                if_cases (Fetched 0 s) (leb 500 r.status && ltb r.status 600)
                  (λ _. refused_Fetched s (status_error r.status))
                  (λ _. refused_Fetched s other_error))))

fetch_round-Fetched :
    (more : PlaylistSession → PlaylistSession × Result) (left : ℕ) (waited : Bool)
    (s : PlaylistSession) (a : Answer)
    → Fetched left
        (record s { requests = suc s.requests })
        (more (record s { requests = suc s.requests }))
    → Fetched (suc left) s (fetch_round more left waited (record s { requests = suc s.requests }) a)
unfolding fetch_round
fetch_round-Fetched more left waited s (response r) go =
    let asked : PlaylistSession = record s { requests = suc s.requests } in
    let read = read_response-Fetched asked r in (omega (arith, read.0), read.1, read.2)
fetch_round-Fetched more left waited s (net_error retryable stopped) go =
    if_cases (Fetched (suc left) s) (ltb 0 left && (retryable && not stopped))
      (λ _.
        if_cases (Fetched (suc left) s) waited (λ _. (omega (arith, go.0), go.1, go.2))
          (λ _. (omega arith, refl, tt)))
      (λ _. (omega arith, refl, tt))

fetch_loop-Fetched :
    (net : Network) (left : ℕ) (s : PlaylistSession) → Fetched left s (fetch_loop net left s)
unfolding fetch_loop
fetch_loop-Fetched net zero s = refused_Fetched s other_error
fetch_loop-Fetched net (suc left) s =
    fetch_round-Fetched (fetch_loop net left) left (net.waited s.requests) s (net.answer s.requests)
      (fetch_loop-Fetched net left (record s { requests = suc s.requests }))

-- Why an error for which a new address is worth a try is returned: there was one, or the context was
-- cancelled.
abbrev pub IsGivenUp : Network → PlaylistSession → PlaylistSession → Type 0
IsGivenUp net s t = (t.refreshes ≡ suc s.refreshes) ⊎ (net.cancelled t.requests ≡ true)

abbrev Settled : Network → PlaylistSession → PlaylistSession × Result → Type 0
Settled net s r =
    (r.0.requests ≤ s.requests + 4)
    × (r.0.refreshes ≤ suc s.refreshes)
    × IsCached r.0 r.1
    × ((e : FetchError) → r.1 ≡ error e → wants_refresh e ≡ true → IsGivenUp net s r.0)

same_error : (d e : FetchError) → error d ≡ error e → d ≡ e
same_error d e h = cc

unwanted : {d e : FetchError} → d ≡ e → wants_refresh d ≡ false → wants_refresh e ≡ true → ⊥
unwanted {d} {e} h stays goes = cc

after_refresh-Settled :
    (net : Network) (next_url : UrlAnswer) (s t : PlaylistSession)
    → t.requests ≤ s.requests + 2
    → t.refreshes ≡ s.refreshes
    → Settled net s (after_refresh net (refresh_url t next_url))
unfolding after_refresh refresh_url fetch wants_refresh
after_refresh-Settled net url_failed s t few same =
    (omega arith, omega arith, tt, λ e h w. absurd (unwanted (same_error other_error e h) refl w))
after_refresh-Settled net empty_url s t few same =
    (omega arith, omega arith, tt, λ e h w. absurd (unwanted (same_error no_m3u8_url e h) refl w))
after_refresh-Settled net (url u) s t few same =
    let fresh : PlaylistSession = (refresh_url t (url u)).0 in
    let again = fetch_loop-Fetched net 2 fresh in
    (omega (arith, again.0), omega (arith, again.1), again.2, λ e h w. inl (again.1 ∙ ap suc same))

after_fetch_lem :
    (net : Network) (next_url : UrlAnswer) (s : PlaylistSession) (r : PlaylistSession × Result)
    → Fetched 2 s r
    → Settled net s (after_fetch net next_url r)
unfolding after_fetch
after_fetch_lem net next_url s (t, ok pl) h =
    (omega (arith, h.0), omega (arith, h.1), h.2, λ e z w. cc)
after_fetch_lem net next_url s (t, error d) h =
    if_cases (Settled net s) (net.cancelled t.requests)
      (λ stopped. (omega (arith, h.0), omega (arith, h.1), tt, λ e z w. inr stopped))
      (λ _.
        if_cases (Settled net s) (wants_refresh d)
          (λ _. after_refresh-Settled net next_url s t h.0 h.1)
          (λ stays. (
            omega (arith, h.0),
            omega (arith, h.1),
            tt,
            λ e z w. absurd (unwanted (same_error d e z) stays w),
          )))

-- `FetchWithRefresh` always returns, behind at most four requests and at most one new address; a playlist
-- that it returns is the one in the cache, and an error for which a new address is worth a try is returned
-- only once there was one, or the context was cancelled.
pub fetch_with_refresh_lem :
    (net : Network) (next_url : UrlAnswer) (s : PlaylistSession)
    → let r = fetch_with_refresh net next_url s in
      (r.0.requests ≤ s.requests + 4)
      × (r.0.refreshes ≤ suc s.refreshes)
      × IsCached r.0 r.1
      × ((e : FetchError) → r.1 ≡ error e → wants_refresh e ≡ true → IsGivenUp net s r.0)
unfolding fetch_with_refresh fetch
fetch_with_refresh_lem net next_url s =
    after_fetch_lem net next_url s (fetch_loop net 2 s) (fetch_loop-Fetched net 2 s)

split_le : (n j : ℕ) → n ≤ j → (n ≡ j) ⊎ (suc n ≤ j)
split_le n j le = ground arith

left_of : (a b : Bool) → (a && b) ≡ true → a ≡ true
left_of true b h = refl
left_of false b h = h

last_of : (left : ℕ) (b : Bool) → b ≡ true → (ltb 0 left && b) ≡ false → left ≡ 0
last_of left b again h = ground arith

refused_both : (a b : Bool) → b ≡ false → (a && b) ≡ true → ⊥
refused_both a b off on = ground arith

none_of : (a : Bool) (left : ℕ) → a ≡ true → (not a || left == 0) ≡ true → left ≡ 0
none_of a left again h = ground arith

some_of : (a : Bool) (left : ℕ) → (not a || left == 0) ≡ false → 0 < left
some_of a left h = ground arith

goes_refused : (a : Bool) (left : ℕ) → a ≡ false → (not a || left == 0) ≡ false → ⊥
goes_refused a left off h = ground arith

-- An answer behind which `FetchSegmentWithRetryReader` asks again, if attempts are left.
abbrev pub IsRetried : SegmentAnswer → Type 0
IsRetried (segment_body b) = ⊥
IsRetried (segment_error retryable stopped) = (stopped ≡ false) × (retryable ≡ true)
IsRetried (segment_status status) = is_retryable_segment_status status ≡ true

-- An answer behind which it does not.
abbrev pub IsRefused : SegmentAnswer → Type 0
IsRefused (segment_body b) = ⊥
IsRefused (segment_error retryable stopped) = (stopped ≡ false) × (retryable ≡ false)
IsRefused (segment_status status) = is_retryable_segment_status status ≡ false

abbrev pub IsStopped : SegmentAnswer → Type 0
IsStopped (segment_body b) = ⊥
IsStopped (segment_error retryable stopped) = stopped ≡ true
IsStopped (segment_status status) = ⊥

module _ (answers : ℕ → SegmentAnswer) (waited : ℕ → Bool) (limit : ℕ) where
  -- A request below the limit, where all requests from `n` on before it were retried after a wait.
  abbrev pub Reached : (ℕ → Type 0) → ℕ → Type 0
  Reached P n =
      (k : ℕ) × (k < limit)
      × P k
      × ((j : ℕ) → n ≤ j → j < k → IsRetried (answers j) × (waited j ≡ true))

  -- Where the requests from `n` on end: with a body, with the context that ended during a request or a
  -- wait, or with an answer that is refused or for which no attempt is left.
  abbrev pub IsEnd : ℕ → SegmentResult → Type 0
  IsEnd n (segment_bytes b) = Reached (λ (k : ℕ). answers k ≡ segment_body b) n
  IsEnd n segment_canceled =
      Reached
        (λ (k : ℕ).
          IsStopped (answers k) ⊎ (IsRetried (answers k) × (suc k < limit) × (waited k ≡ false)))
        n
  IsEnd n segment_failed =
      Reached (λ (k : ℕ). IsRefused (answers k) ⊎ (IsRetried (answers k) × (suc k ≡ limit))) n

  Reached-here : (P : ℕ → Type 0) (n : ℕ) → n < limit → P n → Reached P n
  Reached-here P n below here = (n, below, here, λ j lo hi. absurd (omega arith))

  Reached-later :
      (P : ℕ → Type 0) (n : ℕ)
      → IsRetried (answers n)
      → waited n ≡ true
      → Reached P (suc n)
      → Reached P n
  Reached-later P n retried went (k, below, at, before) = (
    k,
    below,
    at,
    λ j lo hi. elim (split_le n j lo) [
      | inl same ↦ subst (λ (m : ℕ). IsRetried (answers m) × (waited m ≡ true)) same (retried, went)
      | inr above ↦ before j above hi
    ],
  )

  IsEnd-later :
      (n : ℕ) (r : SegmentResult)
      → IsRetried (answers n)
      → waited n ≡ true
      → IsEnd (suc n) r
      → IsEnd n r
  IsEnd-later n (segment_bytes b) retried went h = Reached-later _ n retried went h
  IsEnd-later n segment_canceled retried went h = Reached-later _ n retried went h
  IsEnd-later n segment_failed retried went h = Reached-later _ n retried went h

  -- The wait behind an answer that is retried.
  wait-IsEnd :
      (n left : ℕ) (more : SegmentResult)
      → suc (n + left) ≡ limit
      → 0 < left
      → IsRetried (answers n)
      → (0 < left → IsEnd (suc n) more)
      → IsEnd n (if waited n then more else segment_canceled)
  wait-IsEnd n left more at some_left retried h =
      if_cases (IsEnd n) (waited n) (λ went. IsEnd-later n more retried went (h some_left))
        (λ stopped. Reached-here _ n (omega arith) (inr (retried, omega arith, stopped)))

  segment_round-IsEnd :
      (n left : ℕ) (more : SegmentResult) (a : SegmentAnswer)
      → suc (n + left) ≡ limit
      → answers n ≡ a
      → (0 < left → IsEnd (suc n) more)
      → IsEnd n (segment_round more left (waited n) a)
  unfolding segment_round
  segment_round-IsEnd n left more (segment_body b) at e h = Reached-here _ n (omega arith) e
  segment_round-IsEnd n left more (segment_error retryable stopped) at e h =
      if_cases (IsEnd n) stopped
        (λ ends. Reached-here _ n (omega arith) (inl (subst IsStopped (sym e) ends)))
        (λ goes. elim (Bool-cases retryable) [
          | inl again ↦
              (let retried : IsRetried (answers n) = subst IsRetried (sym e) (goes, again) in
                if_cases (IsEnd n) (ltb 0 left && retryable)
                  (λ more_left.
                    wait-IsEnd n left more at (ltb→lt 0 left (left_of _ _ more_left)) retried h)
                  (λ none_left.
                    Reached-here _ n (omega arith)
                      (inr (retried, omega (arith, last_of left retryable again none_left)))))
          | inr refused ↦
              if_cases (IsEnd n) (ltb 0 left && retryable)
                (λ both. absurd (refused_both (ltb 0 left) retryable refused both))
                (λ _.
                  Reached-here _ n (omega arith) (inl (subst IsRefused (sym e) (goes, refused))))
        ])
  segment_round-IsEnd n left more (segment_status status) at e h =
      elim (Bool-cases (is_retryable_segment_status status)) [
        | inl again ↦
            (let retried : IsRetried (answers n) = subst IsRetried (sym e) again in
              if_cases (IsEnd n) (not (is_retryable_segment_status status) || left == 0)
                (λ ends.
                  Reached-here _ n (omega arith)
                    (inr (retried, omega (arith, none_of _ left again ends))))
                (λ goes. wait-IsEnd n left more at (some_of _ left goes) retried h))
        | inr refused ↦
            if_cases (IsEnd n) (not (is_retryable_segment_status status) || left == 0)
              (λ _. Reached-here _ n (omega arith) (inl (subst IsRefused (sym e) refused)))
              (λ goes. absurd (goes_refused _ left refused goes))
      ]

  segment_loop-IsEnd :
      (n left : ℕ) → n + left ≡ limit → 0 < left → IsEnd n (segment_loop answers waited n left)
  unfolding segment_loop
  segment_loop-IsEnd n zero at pos = absurd (omega arith)
  segment_loop-IsEnd n (suc left) at pos =
      segment_round-IsEnd n left (segment_loop answers waited (suc n) left) (answers n)
        (omega arith) refl (λ some_left. segment_loop-IsEnd (suc n) left (omega arith) some_left)

-- `FetchSegmentWithRetryReader` asks until an answer is a body, whose bytes it returns, is no reason to ask
-- again, or is the last of `attempts`, of which there is one at least; then it fails. Where the context
-- ends during a request or the wait behind it, it says so. Every answer before was retried after a wait.
pub fetch_segment_with_retry-IsEnd :
    (answers : ℕ → SegmentAnswer) (waited : ℕ → Bool) (attempts : ℕ)
    → 0 < attempts
    → IsEnd answers waited attempts 0 (fetch_segment_with_retry answers waited attempts)
unfolding fetch_segment_with_retry
fetch_segment_with_retry-IsEnd answers waited attempts pos =
    let same : attempts ≡ (if attempts == 0 then 1 else attempts) = ground arith in
    subst (λ (m : ℕ). IsEnd answers waited attempts 0 (segment_loop answers waited 0 m)) same
      (segment_loop-IsEnd answers waited attempts 0 attempts (omega arith) pos)
