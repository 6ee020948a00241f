-- ===== src/Hls/InitSettle/Ownership.antt =====
-- Every buffer of the pool that enters the debounce leaves it once.
use bilirec.Prelude.{
  ℕ, zero, suc, ◌+◌, ◌<◌, ◌≡◌, refl, inl, inr, Option, none, some, List, [], ◌∷◌, ◌++◌, take, drop,
  arith, Bool-cases, ltb,
}
use bilirec.Hls.InitSettle.{
  Buffer, InitSettle, as_list, cancel, reset, buffer_media, accept_map, settle, Runner, send_settle,
  run_accept_map, deliver, Event, map_fetched, fragment_fetched, window_ended, map_gone,
  url_refreshed, send_fragment, handle, handle_all, send_segments, cancelled,
}
use bilirec.Hls.InitSettle.Count.{
  count, count-append, count-take, IsClean, held, placed, entering, count-cancel,
  accept_map-IsClean, count-accept_map,
}

placed-deliver :
    (k : ℕ) (r : Runner) (o : Option Buffer) (sends : ℕ)
    → placed k (deliver r o sends).0 ≡ placed k r + count k (as_list o)
unfolding deliver placed count as_list
placed-deliver k r none sends = omega arith
placed-deliver k r (some b) zero = omega (arith, count-append k r.released (b ∷ []))
placed-deliver k r (some b) (suc sends) = omega (arith, count-append k r.channel (b ∷ []))

placed-run_accept_map :
    (k : ℕ) (r : Runner) (b : Buffer) (sends : ℕ)
    → IsClean r.settle
    → placed k (run_accept_map r b sends).0 ≡ placed k r + count k (b ∷ [])
unfolding run_accept_map placed
placed-run_accept_map k r b sends c = omega (
  arith,
  count-accept_map k r.settle b c,
  count-append k r.released (accept_map r.settle b).released,
  placed-deliver k
      (record r {
        settle = (accept_map r.settle b).settle;
        released = r.released ++ (accept_map r.settle b).released;
      })
      (accept_map r.settle b).result.deliver_now sends,
)

placed-send_segments :
    (k : ℕ) (r : Runner) (o : Option Buffer) (media : List Buffer) (n : ℕ)
    → (o ≡ none → media ≡ [])
    → placed k (send_segments r o media (suc n)).0
      ≡ placed k r + (count k (as_list o) + count k media)
unfolding send_segments placed count as_list
placed-send_segments k r none media n h = rw (h refl) (omega arith)
placed-send_segments k r (some b) media n h = grind (
  arith,
  count-append k r.channel (b ∷ take n media),
  count-append k r.released (drop n media),
  count-take k n media,
)

-- The buffers that `Settle` hands over are those that were held.
held-settle :
    (k : ℕ) (s : InitSettle)
    → IsClean s
    → held k (settle s).0 + (count k (as_list (settle s).1) + count k (settle s).2) ≡ held k s
unfolding settle held as_list count
held-settle k s c = elim (Bool-cases s.active) [
  | inl a ↦ rw a (omega arith)
  | inr a ↦ rw a (omega arith)
]

settle_media : (s : InitSettle) → IsClean s → (settle s).1 ≡ none → (settle s).2 ≡ []
unfolding settle IsClean
settle_media s c = ground arith

placed-send_settle :
    (k : ℕ) (r : Runner) (sends : ℕ)
    → 0 < sends
    → IsClean r.settle
    → placed k (send_settle r sends).0 ≡ placed k r
unfolding send_settle placed
placed-send_settle k r zero h c = absurd (omega arith)
placed-send_settle k r (suc n) h c = omega (
  arith,
  held-settle k r.settle c,
  placed-send_segments k (record r { settle = (settle r.settle).0 }) (settle r.settle).1
      (settle r.settle).2 n (settle_media r.settle c),
)

placed-send_fragment :
    (k : ℕ) (r : Runner) (b : Buffer) (sends : ℕ)
    → placed k (send_fragment r b sends) ≡ placed k r + count k (b ∷ [])
unfolding send_fragment buffer_media placed held
placed-send_fragment k r b sends = elim (Bool-cases r.settle.active) [
  | inl a ↦ rw a (omega (arith, count-append k r.settle.buf (b ∷ [])))
  | inr a ↦ elim (Bool-cases (ltb 0 sends)) [
    | inl d ↦ rw (a, d) (omega (arith, count-append k r.channel (b ∷ [])))
    | inr d ↦ rw (a, d) (omega (arith, count-append k r.released (b ∷ [])))
  ]
]

placed-cancelled : (k : ℕ) (r : Runner) → placed k (cancelled r (cancel r.settle)) ≡ placed k r
unfolding cancelled placed
placed-cancelled k r =
    omega (arith, count-cancel k r.settle, count-append k r.released (cancel r.settle).1)

-- What a run needs of an event: where the window ends, the channel takes the init segment.
unfoldable pub IsTaken : Event → Type 0
IsTaken (map_fetched b sends) = Unit
IsTaken (fragment_fetched b sends) = Unit
IsTaken (window_ended sends) = 0 < sends
IsTaken map_gone = Unit
IsTaken url_refreshed = Unit

deliver_settle : (r : Runner) (o : Option Buffer) (n : ℕ) → (deliver r o n).0.settle ≡ r.settle
unfolding deliver
deliver_settle r none n = refl
deliver_settle r (some b) zero = refl
deliver_settle r (some b) (suc n) = refl

send_segments_settle :
    (r : Runner) (o : Option Buffer) (media : List Buffer) (n : ℕ)
    → (send_segments r o media n).0.settle ≡ r.settle
unfolding send_segments
send_segments_settle r none media n = refl
send_segments_settle r (some b) media zero = refl
send_segments_settle r (some b) media (suc n) = refl

send_fragment_settle :
    (r : Runner) (b : Buffer) (n : ℕ) → (send_fragment r b n).settle ≡ buffer_media r.settle b
unfolding send_fragment buffer_media
send_fragment_settle r b n = ground arith

-- Each operation keeps `IsClean`.
operations-IsClean :
    (s : InitSettle) (b : Buffer)
    → IsClean s
    → IsClean (settle s).0 × IsClean (cancel s).0 × IsClean (reset s).0 × IsClean (buffer_media s b)
unfolding IsClean settle cancel reset buffer_media
operations-IsClean s b c = (ground arith, ground arith, ground arith, ground arith)

pub handle-IsClean : (r : Runner) (e : Event) → IsClean r.settle → IsClean (handle r e).settle
unfolding handle run_accept_map send_settle send_fragment cancelled
handle-IsClean r (map_fetched b n) c =
    rw
      (deliver_settle
        (record r {
          settle = (accept_map r.settle b).settle;
          released = r.released ++ (accept_map r.settle b).released;
        })
        (accept_map r.settle b).result.deliver_now n)
      (accept_map-IsClean r.settle b c)
handle-IsClean r (fragment_fetched b n) c =
    rw (send_fragment_settle r b n) (operations-IsClean r.settle b c).3
handle-IsClean r (window_ended n) c =
    rw
      (send_segments_settle (record r { settle = (settle r.settle).0 }) (settle r.settle).1
        (settle r.settle).2 n)
      (operations-IsClean r.settle (record { id = 0; bytes = [] }) c).0
handle-IsClean r map_gone c = (operations-IsClean r.settle (record { id = 0; bytes = [] }) c).1
handle-IsClean r url_refreshed c = (operations-IsClean r.settle (record { id = 0; bytes = [] }) c).2

placed-handle :
    (k : ℕ) (r : Runner) (e : Event)
    → IsTaken e
    → IsClean r.settle
    → placed k (handle r e) ≡ placed k r + entering k e
unfolding handle IsTaken entering cancelled placed reset held
placed-handle k r (map_fetched b n) t c = placed-run_accept_map k r b n c
placed-handle k r (fragment_fetched b n) t c = placed-send_fragment k r b n
placed-handle k r (window_ended n) t c = omega (arith, placed-send_settle k r n t c)
placed-handle k r map_gone t c = omega (arith, placed-cancelled k r)
placed-handle k r url_refreshed t c =
    omega (arith, count-cancel k r.settle, count-append k r.released (cancel r.settle).1)

unfoldable pub AllTaken : List Event → Type 0
AllTaken [] = Unit
AllTaken (e ∷ events) = IsTaken e × AllTaken events

pub entered : ℕ → List Event → ℕ
entered k [] = 0
entered k (e ∷ events) = entering k e + entered k events

-- Buffers are neither lost nor given away twice: after any sequence of events, as often as a buffer was
-- fetched so often it is held, was sent to the channel or was given back to the pool. Where the window
-- ends, the channel takes at least the init segment before the context is cancelled.
pub handle_all-placed :
    (k : ℕ) (r : Runner) (events : List Event)
    → IsClean r.settle
    → AllTaken events
    → placed k (handle_all r events) ≡ placed k r + entered k events
unfolding handle_all AllTaken entered
handle_all-placed k r [] c t = omega arith
handle_all-placed k r (e ∷ events) c (t, ts) = omega (
  arith,
  placed-handle k r e t c,
  handle_all-placed k (handle r e) events (handle-IsClean r e c) ts,
)
