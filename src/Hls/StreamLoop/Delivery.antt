-- ===== src/Hls/StreamLoop/Delivery.antt =====
-- A window of a stream without init segments is delivered with no read out of range. What then holds of
-- the sequence number and the channel is a parameter: `Q` at the start of the round of a number, and `R`
-- at the end of the window, with what it returned.
use bilirec.Prelude.{
  ℕ, zero, suc, ◌+◌, ◌≤◌, ◌<◌, ◌≡◌, refl, Bool, true, false, ◌||◌, Option, none, some, List, [],
  ◌∷◌, ◌++◌, if_cases, length, ltb, ltb→lt, arith, EndsIn, ◌∙◌, if_false, subst, sym, ap,
}
use bilirec.Hls.InitSettle.{Buffer, Runner, send_fragment}
use bilirec.Hls.StreamLoop.{
  Playlist, StreamRunner, Fetched, got, failed, canceled, Round, wait, Flow, next, break,
  return_false, Window, segment_at, start_at, settle_first, fetch_map, prefetch_next, with_segment,
  take_segment, after_map, after_settle, deliver_round, continue_loop, deliver_loop, prefetch_ahead,
  prime_window, open_window, finish_window, deliver_window,
}
use bilirec.Hls.StreamLoop.Prefetches.{
  IsPlain, SameStream, start-SameStream, limit, start_at-SameStream, prime_window-SameStream,
}

-- A fragment that is sent at once, or lost to the end of the context.
send_fragment-sent :
    (r : Runner) (b : Buffer) (sends : ℕ)
    → r.settle.active ≡ false
    → 0 < sends
    → ((send_fragment r b sends).channel ≡ r.channel ++ (b ∷ []))
      × ((send_fragment r b sends).settle.active ≡ false)
unfolding send_fragment
send_fragment-sent r b sends plain room = ground arith

send_fragment-lost :
    (r : Runner) (b : Buffer) (sends : ℕ)
    → r.settle.active ≡ false
    → sends ≡ 0
    → ((send_fragment r b sends).channel ≡ r.channel)
      × ((send_fragment r b sends).settle.active ≡ false)
unfolding send_fragment
send_fragment-lost r b sends plain full = ground arith

abbrev pub IsMissed : Fetched → Type 0
IsMissed (got b) = ⊥
IsMissed failed = Unit {0}
IsMissed canceled = Unit {0}

module _ (pl : Playlist) (answers : ℕ → Round) (prev : ℕ) (Q : ℕ → ℕ → List Buffer → Type 0)
    (R : Bool → ℕ → List Buffer → Type 0)
    (skip : (seq n : ℕ) (ch : List Buffer) → seq < n → Q seq n ch → Q (suc seq) n ch)
    (send : (seq n : ℕ) (ch : List Buffer) (b : Buffer)
      → (answers seq).segment_answer ≡ got b
      → n ≤ seq
      → Q seq n ch
      → Q (suc seq) (suc seq) (ch ++ (b ∷ [])))
    (lose : (seq n : ℕ) (ch : List Buffer)
      → (answers seq).sends ≡ 0
      → n ≤ seq
      → Q seq n ch
      → R false (suc seq) ch)
    (miss : (seq n : ℕ) (ch : List Buffer) (ok : Bool)
      → IsMissed (answers seq).segment_answer
      → Q seq n ch
      → R ok n ch)
    (done : (n : ℕ) (ch : List Buffer) → Q (limit pl) n ch → R true n ch) where
  abbrev Holds : ℕ → Window → Type 0
  Holds seq w =
      IsPlain w.stream
      × (w.stream.prev_base_seq ≡ prev)
      × (pl.media_seq ≤ w.next_prefetch_seq)
      × Q seq w.stream.next_seq w.stream.runner.channel

  abbrev pub Ends : Bool → StreamRunner → Type 0
  Ends ok r = IsPlain r × (r.prev_base_seq ≡ prev) × R ok r.next_seq r.runner.channel

  abbrev RoundEnds : ℕ → Window × Flow → Type 0
  RoundEnds seq (w, next) = Holds (suc seq) w
  RoundEnds seq (w, break) = Ends true w.stream
  RoundEnds seq (w, return_false) = Ends false w.stream

  with_segment-RoundEnds :
      (seq : ℕ) (w : Window) (a : Fetched)
      → (answers seq).segment_answer ≡ a
      → w.stream.next_seq ≤ seq
      → Holds seq w
      → RoundEnds seq (with_segment w seq a (answers seq).sends)
  unfolding with_segment
  with_segment-RoundEnds seq w canceled e le (plain, same, ahead, q) = (
    plain,
    same,
    miss seq w.stream.next_seq w.stream.runner.channel false (subst IsMissed (sym e) tt) q,
  )
  with_segment-RoundEnds seq w failed e le (plain, same, ahead, q) = (
    plain,
    same,
    miss seq w.stream.next_seq w.stream.runner.channel true (subst IsMissed (sym e) tt) q,
  )
  with_segment-RoundEnds seq w (got b) e le (plain, same, ahead, q) =
      let r = w.stream in
      let sends = (answers seq).sends in
      let after : Window = record w {
        stream = record r { runner = send_fragment r.runner b sends; next_seq = suc seq };
        segment_delivered = true;
      } in
      if_cases (λ (f : Flow). RoundEnds seq (after, f)) (r.runner.settle.active || ltb 0 sends)
        (λ room.
          let sent = send_fragment-sent r.runner b sends plain.1 (ground arith) in
          (
            (plain.0, sent.1),
            same,
            ahead,
            subst (Q (suc seq) (suc seq)) (sym sent.0)
                (send seq r.next_seq r.runner.channel b e le q),
          ))
        (λ full.
          let lost = send_fragment-lost r.runner b sends plain.1 (ground arith) in
          (
            (plain.0, lost.1),
            same,
            subst (R false (suc seq)) (sym lost.0)
                (lose seq r.next_seq r.runner.channel (ground arith) le q),
          ))

  SameStream-Holds :
      (seq : ℕ) (w : Window) (s : StreamRunner)
      → SameStream w.stream s
      → Holds seq w
      → Holds seq (record w { stream = s })
  SameStream-Holds seq w s same (plain, prev_same, ahead, q) = (
    (same.0 ∙ plain.0, ap (λ (x : Runner). x.settle.active) same.1 ∙ plain.1),
    same.3 ∙ prev_same,
    ahead,
    subst (λ (n : ℕ). Q seq n s.runner.channel) (sym same.2)
        (subst (λ (x : Runner). Q seq w.stream.next_seq x.channel) (sym same.1) q),
  )

  wait-SameStream : (r : StreamRunner) (seq : ℕ) → SameStream r (wait r seq)
  unfolding wait
  wait-SameStream r seq = start-SameStream r seq

  take_segment-RoundEnds :
      (seq : ℕ) (w : Option Window)
      → EndsIn (λ (v : Window). (v.stream.next_seq ≤ seq) × Holds seq v) w
      → EndsIn (RoundEnds seq) (take_segment seq (answers seq) w)
  unfolding take_segment
  take_segment-RoundEnds seq none h = h
  take_segment-RoundEnds seq (some w) (le, h) =
      let same = wait-SameStream w.stream seq in
      with_segment-RoundEnds seq (record w { stream = wait w.stream seq })
        (answers seq).segment_answer refl (omega (arith, same.2))
        (SameStream-Holds seq w (wait w.stream seq) same h)

  prefetched :
      (seq : ℕ) (w : Window) (s : Option StreamRunner)
      → w.stream.next_seq ≤ seq
      → Holds seq w
      → EndsIn (SameStream w.stream) s
      → EndsIn
          (λ (v : Window). (v.stream.next_seq ≤ seq) × Holds seq v)
          (elim s [
            | none ↦ none
            | some r ↦ some (record w { stream = r; next_prefetch_seq = suc w.next_prefetch_seq })
          ])
  prefetched seq w none le h same = same
  prefetched seq w (some s) le h same =
      let held = SameStream-Holds seq w s same h in
      (omega (arith, same.2), (held.0, held.1, omega (arith, h.2), held.3))

  prefetch_next-Holds :
      (seq : ℕ) (w : Window)
      → w.stream.next_seq ≤ seq
      → Holds seq w
      → EndsIn (λ (v : Window). (v.stream.next_seq ≤ seq) × Holds seq v) (prefetch_next pl w)
  unfolding prefetch_next
  prefetch_next-Holds seq w le h =
      let n = w.next_prefetch_seq in
      if_cases (EndsIn (λ (v : Window). (v.stream.next_seq ≤ seq) × Holds seq v)) (ltb n (limit pl))
        (λ e.
          prefetched seq w (start_at w.stream n (segment_at pl n)) le h
            (start_at-SameStream pl w.stream n h.2 (ltb→lt _ _ e)))
        (λ _. (le, h))

  settle_first-plain :
      (r : StreamRunner) (timer : Option ℕ)
      → r.runner.settle.active ≡ false
      → settle_first r timer ≡ (r, next)
  unfolding settle_first
  settle_first-plain r none plain = refl
  settle_first-plain r (some sends) plain = if_false _ (r, next) plain

  fetch_map-plain :
      (r : StreamRunner) (uri : Option ℕ) (a : Fetched) (sends : ℕ)
      → uri ≡ none
      → fetch_map r uri a sends ≡ (r, next)
  unfolding fetch_map
  fetch_map-plain r uri a sends e =
      subst (λ (u : Option ℕ). fetch_map r u a sends ≡ (r, next)) (sym e) refl

  after_settle-RoundEnds :
      (seq : ℕ) (w : Window)
      → Holds seq w
      → EndsIn (RoundEnds seq) (after_settle pl seq (answers seq) w (w.stream, next))
  unfolding after_settle after_map
  after_settle-RoundEnds seq w h =
      let r = w.stream in
      let a = answers seq in
      if_cases (EndsIn (RoundEnds seq)) (ltb seq r.next_seq)
        (λ e. (h.0, h.1, h.2, skip seq r.next_seq r.runner.channel (ltb→lt _ _ e) h.3))
        (λ e.
          subst (λ (x : StreamRunner × Flow). EndsIn (RoundEnds seq) (after_map pl seq a w x))
            (sym (fetch_map-plain r r.current_map_uri a.map_answer a.map_sends h.0.0))
            (take_segment-RoundEnds seq (prefetch_next pl w)
              (prefetch_next-Holds seq w (ground arith) h)))

  deliver_round-RoundEnds :
      (seq : ℕ) (w : Window)
      → Holds seq w
      → EndsIn (RoundEnds seq) (deliver_round pl seq (answers seq) w)
  unfolding deliver_round
  deliver_round-RoundEnds seq w h =
      subst
        (λ (x : StreamRunner × Flow).
          EndsIn (RoundEnds seq) (after_settle pl seq (answers seq) w x))
        (sym (settle_first-plain w.stream (answers seq).timer h.0.1))
        (after_settle-RoundEnds seq w h)

  LoopEnds : Window × Bool → Type 0
  LoopEnds (w, ok) = Ends ok w.stream

  continue_loop-LoopEnds :
      (more : Window → Option (Window × Bool)) (seq : ℕ) (r : Option (Window × Flow))
      → EndsIn (RoundEnds seq) r
      → ((w : Window) → Holds (suc seq) w → EndsIn LoopEnds (more w))
      → EndsIn LoopEnds (continue_loop more r)
  unfolding continue_loop LoopEnds
  continue_loop-LoopEnds more seq none h go = h
  continue_loop-LoopEnds more seq (some (w, next)) h go = go w h
  continue_loop-LoopEnds more seq (some (w, break)) h go = h
  continue_loop-LoopEnds more seq (some (w, return_false)) h go = h

  deliver_loop-LoopEnds :
      (count seq : ℕ) (w : Window)
      → seq + count ≡ limit pl
      → Holds seq w
      → EndsIn LoopEnds (deliver_loop count pl answers seq w)
  unfolding deliver_loop LoopEnds
  deliver_loop-LoopEnds zero seq w e (plain, same, ahead, q) =
      let at_end : seq ≡ limit pl = omega arith in
      let ch = w.stream.runner.channel in
      (
        plain,
        same,
        done w.stream.next_seq ch (subst (λ (n : ℕ). Q n w.stream.next_seq ch) at_end q),
      )
  deliver_loop-LoopEnds (suc count) seq w e h =
      continue_loop-LoopEnds (deliver_loop count pl answers (suc seq)) seq
        (deliver_round pl seq (answers seq) w) (deliver_round-RoundEnds seq w h)
        (λ v held. deliver_loop-LoopEnds count (suc seq) v (omega arith) held)

  abbrev pub WindowEnds : StreamRunner × ℕ × Bool → Type 0
  WindowEnds e = Ends e.2 e.0

  finish_window-WindowEnds :
      (r : Option (Window × Bool)) → EndsIn LoopEnds r → EndsIn WindowEnds (finish_window r)
  unfolding finish_window LoopEnds
  finish_window-WindowEnds none h = h
  finish_window-WindowEnds (some (w, true)) h = h
  finish_window-WindowEnds (some (w, false)) h = h

  open_window-LoopEnds :
      (failures : ℕ) (r : StreamRunner) (s : Option StreamRunner)
      → pl.media_seq ≤ r.next_seq
      → IsPlain r
      → r.prev_base_seq ≡ prev
      → Q pl.media_seq r.next_seq r.runner.channel
      → EndsIn (SameStream r) s
      → EndsIn LoopEnds (open_window pl answers failures s)
  unfolding open_window
  open_window-LoopEnds failures r none lo plain prev_same q same = absurd same
  open_window-LoopEnds failures r (some s) lo plain prev_same q same =
      let opened : StreamRunner → Window = λ t. record {
        stream = t;
        next_prefetch_seq = suc (s.next_seq + prefetch_ahead failures);
        segment_delivered = false;
        failures = failures;
      } in
      deliver_loop-LoopEnds (length pl.segments) pl.media_seq (opened s) refl (
        SameStream-Holds pl.media_seq (opened r) s same
          (plain, prev_same, omega (arith, same.2), q))

  -- The window is delivered with no read out of range.
  pub deliver_window-WindowEnds :
      (r : StreamRunner) (failures : ℕ)
      → pl.media_seq ≤ r.next_seq
      → IsPlain r
      → r.prev_base_seq ≡ prev
      → Q pl.media_seq r.next_seq r.runner.channel
      → EndsIn WindowEnds (deliver_window pl answers r failures)
  unfolding deliver_window
  deliver_window-WindowEnds r failures lo plain prev_same q =
      finish_window-WindowEnds
        (open_window pl answers failures (prime_window pl r (prefetch_ahead failures)))
        (open_window-LoopEnds failures r (prime_window pl r (prefetch_ahead failures)) lo plain
          prev_same q (prime_window-SameStream pl r (prefetch_ahead failures) lo))
