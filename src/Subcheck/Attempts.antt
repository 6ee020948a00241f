-- ===== src/Subcheck/Attempts.antt =====
-- How often a live session makes the recorder start.
use bilirec.Prelude.{
  ℕ, zero, suc, ◌+◌, ◌≤◌, ◌≡◌, ◌≢◌, refl, sym, ap, ◌∙◌, subst, Bool, true, false, ◌&&◌, not, Option,
  none, some, List, [], ◌∷◌, ◌++◌, if_cases, if_true, if_false, leb, ==_iff, arith,
}
use bilirec.Subcheck.{
  max_auto_start_attempts, SessionKey, LiveRoomInfo, resolve_live_session_key, AutoStartRetry,
  RoomState, pending, Effect, stream_started, stream_ended, start_called, published, Check, has_key,
  current_retry, Attempt, after_start, wants_record, try_start, store_attempt, act, with_retry,
  process_live, process_info, process_room, postponed_retry, postpone_retry, drop_retry,
}
use bilirec.Subcheck.Stages.{
  starts, begun, StageOf, Stage, publish_counts, Counted, Stage-same, process_live-Counted,
}

-- What happens to a room. A check begins, where it reads the room, and ends, where it writes: the checks of a
-- shard and those of `retryLoop` may overlap, and `ended n` says which of those under way ends. Besides, there
-- is the end of `retryDueRooms`, and its branch for a room whose configuration is gone.
pub data Event : Type 0 where
  began : Check → Event
  ended : ℕ → Event
  postponed : (now later : ℕ) → Event
  unsubscribed : Event

-- A check under way, with what it has read.
abbrev pub Flight : Type 0
Flight = Check × RoomState

unfoldable pub take_flight : ℕ → List Flight → Option (Flight × List Flight)
take_flight n [] = none
take_flight zero (f ∷ fs) = some (f, fs)
take_flight (suc n) (f ∷ fs) = elim (take_flight n fs) as (λ _. Option (Flight × List Flight)) [
  | none ↦ none
  | some r ↦ some (r.0, f ∷ r.1)
]

-- The room, and the checks under way.
abbrev pub Room : Type 0
Room = RoomState × List Flight

unfoldable pub end_flight :
    RoomState → List Flight → Option (Flight × List Flight) → Room × List Effect
end_flight s fs none = ((s, fs), [])
end_flight s fs (some ((c, read), left)) = let r = process_room read s c in ((r.0, left), r.1)

unfoldable pub handle : RoomState → List Flight → Event → Room × List Effect
unfolding end_flight take_flight
handle s fs (began c) = ((s, (c, s) ∷ fs), [])
handle s fs (ended n) = end_flight s fs (take_flight n fs)
handle s fs (postponed now later) = ((postpone_retry s now later, fs), [])
handle s fs unsubscribed = ((drop_retry s, fs), [])

unfoldable pub run_events : RoomState → List Flight → List Event → Room × List Effect
unfolding handle
run_events s fs [] = ((s, fs), [])
run_events s fs (e ∷ events) =
    let r = handle s fs e in let rest = run_events r.0.0 r.0.1 events in (rest.0, r.1 ++ rest.1)

-- A check that finds the room live in this session and no other start pending.
abbrev pub IsLive : SessionKey → Check → Type 0
IsLive key c =
    (info : LiveRoomInfo) × (c.info ≡ some info)
    × (info.live_status ≡ 1)
    × (resolve_live_session_key info ≡ some key)
    × (c.result ≢ pending)

-- The room stays subscribed, every check finds it live in one session and no start pending, and nothing
-- happens to the room while a check is under way. The option is the check under way.
abbrev pub InSession : SessionKey → Option Check → List Event → Type 0
InSession key o [] = Unit {0}
InSession key none (began c ∷ events) = IsLive key c × InSession key (some c) events
InSession key none (ended n ∷ events) = InSession key none events
InSession key none (postponed now later ∷ events) = InSession key none events
InSession key none (unsubscribed ∷ events) = ⊥
InSession key (some c) (began d ∷ events) = ⊥
InSession key (some c) (ended zero ∷ events) = IsLive key c × InSession key none events
InSession key (some c) (ended (suc n) ∷ events) = ⊥
InSession key (some c) (postponed now later ∷ events) = ⊥
InSession key (some c) (unsubscribed ∷ events) = ⊥

process_room-live :
    (key : SessionKey) (s : RoomState) (c : Check) (info : LiveRoomInfo)
    → c.info ≡ some info
    → info.live_status ≡ 1
    → resolve_live_session_key info ≡ some key
    → process_room s s c ≡ process_live s s (some key) c
unfolding process_room process_info
process_room-live key s c info here live found =
    ap (λ (i : Option LiveRoomInfo). process_info s s i c) here
    ∙ (if_true _ _ ((==_iff info.live_status 1).1 live)
        ∙ ap (λ (k : Option SessionKey). process_live s s k c) found)

starts-append : (xs ys : List Effect) → starts (xs ++ ys) ≡ starts xs + starts ys
starts-append [] ys = omega arith
starts-append (stream_started ∷ xs) ys = starts-append xs ys
starts-append (stream_ended ∷ xs) ys = starts-append xs ys
starts-append (start_called ∷ xs) ys = omega (arith, starts-append xs ys)
starts-append (published s ∷ xs) ys = starts-append xs ys

begun-append : (xs ys : List Effect) → begun (xs ++ ys) ≡ begun xs + begun ys
begun-append [] ys = omega arith
begun-append (stream_started ∷ xs) ys = omega (arith, begun-append xs ys)
begun-append (stream_ended ∷ xs) ys = begun-append xs ys
begun-append (start_called ∷ xs) ys = begun-append xs ys
begun-append (published s ∷ xs) ys = begun-append xs ys

postponed_Stage :
    (key : SessionKey) (retry : Option AutoStartRetry) (b : Bool) (now later n m : ℕ)
    → StageOf b (current_retry retry key) n m
    → StageOf b (current_retry (postponed_retry retry now later) key) n m
unfolding current_retry postponed_retry
postponed_Stage key none b now later n m h = h
postponed_Stage key (some r) true now later n m h = h
postponed_Stage key (some r) false now later n m h =
    if_cases (λ (x : Option AutoStartRetry). StageOf false (current_retry x key) n m)
      (leb r.due_at now) (λ _. ground arith) (λ _. h)

postpone_retry-Stage :
    (key : SessionKey) (s : RoomState) (now later n m : ℕ)
    → Stage key s n m
    → Stage key (postpone_retry s now later) n m
unfolding postpone_retry
postpone_retry-Stage key s now later n m h =
    postponed_Stage key s.retry (has_key s.stored key) now later n m h

flights_of : Option Check → RoomState → List Flight
flights_of none s = []
flights_of (some c) s = (c, s) ∷ []

process_room-Counted :
    (key : SessionKey) (s : RoomState) (c : Check) (n m : ℕ)
    → IsLive key c
    → Stage key s n m
    → Counted key n m (process_room s s c)
process_room-Counted key s c n m (info, here, status, found, ne) h =
    subst (Counted key n m) (sym (process_room-live key s c info here status found))
      (process_live-Counted key s c n m ne h)

-- The counts of a run, where the effects of its first event come in front.
after_first :
    (key : SessionKey) (s : RoomState) (xs ys : List Effect) (n m : ℕ)
    → Counted key (n + starts xs) (m + begun xs) (s, ys)
    → Counted key n m (s, xs ++ ys)
after_first key s xs ys n m h =
    Stage-same key s (omega (arith, starts-append xs ys)) (omega (arith, begun-append xs ys)) h

abbrev CountedRun : SessionKey → ℕ → ℕ → Room × List Effect → Type 0
CountedRun key n m r = Counted key n m (r.0.0, r.1)

run_events-Counted :
    (key : SessionKey) (s : RoomState) (o : Option Check) (events : List Event) (n m : ℕ)
    → InSession key o events
    → Stage key s n m
    → CountedRun key n m (run_events s (flights_of o s) events)
unfolding run_events handle end_flight take_flight flights_of
run_events-Counted key s o [] n m live h = Stage-same key s (omega arith) (omega arith) h
run_events-Counted key s none (began c ∷ events) n m live h =
    run_events-Counted key s (some c) events n m live.1 h
run_events-Counted key s none (ended k ∷ events) n m live h =
    run_events-Counted key s none events n m live h
run_events-Counted key s none (postponed now later ∷ events) n m live h =
    run_events-Counted key (postpone_retry s now later) none events n m live
      (postpone_retry-Stage key s now later n m h)
run_events-Counted key s none (unsubscribed ∷ events) n m live h = absurd live
run_events-Counted key s (some c) (began d ∷ events) n m live h = absurd live
run_events-Counted key s (some c) (ended zero ∷ events) n m (ok, live) h =
    let r = process_room s s c in
    let rest = run_events r.0 [] events in
    after_first key rest.0.0 r.1 rest.1 n m (
      run_events-Counted key r.0 none events (n + starts r.1) (m + begun r.1) live
        (process_room-Counted key s c n m ok h))
run_events-Counted key s (some c) (ended (suc k) ∷ events) n m live h = absurd live
run_events-Counted key s (some c) (postponed now later ∷ events) n m live h = absurd live
run_events-Counted key s (some c) (unsubscribed ∷ events) n m live h = absurd live

Stage_le :
    (b : Bool) (retry : Option AutoStartRetry) (n m : ℕ)
    → StageOf b retry n m
    → (n ≤ max_auto_start_attempts) × (m ≤ 1)
Stage_le true retry n m h = h
Stage_le false none n m h = (omega (arith, h.0), omega (arith, h.1))
Stage_le false (some r) n m h = (omega (arith, h.0, h.1), omega (arith, h.2))

-- However often a live session is checked, one check ending before the next begins and before anything else
-- happens to the room, whatever its starts answer, and whenever its retries are put off: the recorder is
-- asked to start at most six times, and the start of the stream is announced at most once. The session is
-- new, the room stays subscribed, and no answer says that another start is pending. Checks that overlap are
-- not covered.
pub run_events_le :
    (key : SessionKey) (s : RoomState) (events : List Event)
    → has_key s.stored key ≡ false
    → current_retry s.retry key ≡ none
    → InSession key none events
    → let r = run_events s [] events in (starts r.1 ≤ max_auto_start_attempts) × (begun r.1 ≤ 1)
unfolding flights_of
run_events_le key s events fresh no_retry live =
    let r = run_events s [] events in
    let le =
      Stage_le (has_key r.0.0.stored key) (current_retry r.0.0.retry key) (0 + starts r.1)
        (0 + begun r.1)
        (run_events-Counted key s none events 0 0 live (
          subst (λ (b : Bool). StageOf b (current_retry s.retry key) 0 0) (sym fresh)
            (subst (λ (x : Option AutoStartRetry). StageOf false x 0 0) (sym no_retry)
              (refl, refl)))) in
    (omega (arith, le.0), omega (arith, le.1))

both : {a b : Bool} → a ≡ true → b ≡ false → (a && not b) ≡ true
both h g = cc

-- The start of a stream is announced at every check that finds another start pending.
pub process_room-pending :
    (key : SessionKey) (s : RoomState) (c : Check) (info : LiveRoomInfo)
    → c.info ≡ some info
    → info.live_status ≡ 1
    → resolve_live_session_key info ≡ some key
    → has_key s.stored key ≡ false
    → current_retry s.retry key ≡ none
    → wants_record c.cfg ≡ true
    → c.busy ≡ false
    → c.result ≡ pending
    → ((process_room s s c).0 ≡ s) × (begun (process_room s s c).1 ≡ 1)
unfolding process_live with_retry act try_start after_start store_attempt
process_room-pending key s c info here live found fresh no_retry wants idle waits =
    let a = try_start key c none in
    let same : a ≡ after_start key c.later none pending =
      if_true _ _ (both wants idle) ∙ ap (after_start key c.later none) waits in
    let run : process_room s s c ≡ with_retry s key c none =
      process_room-live key s c info here live found
      ∙ (if_false _ _ fresh ∙ ap (with_retry s key c) no_retry) in
    (
      ap (λ (r : RoomState × List Effect). r.0) run
          ∙ ap (λ (x : Attempt). store_attempt s key x) same,
      ap (λ (r : RoomState × List Effect). begun r.1) run
          ∙ ap suc (
              (publish_counts c none a.state a.called).1
              ∙ ap (λ (x : Attempt). begun x.called) same),
    )
