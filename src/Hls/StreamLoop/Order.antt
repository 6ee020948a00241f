-- ===== src/Hls/StreamLoop/Order.antt =====
-- What reaches the channel over many ticks, from a stream without init segments.
use bilirec.Prelude.{
  ℕ, suc, ◌≤◌, ◌≡◌, refl, sym, ap, subst, Bool, true, false, ◌&&◌, not, Option, none, some, List,
  [], ◌∷◌, ◌++◌, if◌then◌else◌, if_cases, if_true, if_false, length, ltb, ltb→lt, arith, EndsIn,
}
use bilirec.Hls.StreamLoop.{Playlist, StreamRunner, deliver_window}
use bilirec.Hls.InitSettle.{Buffer, InitSettle, Runner, settle, send_segments, send_settle}
use bilirec.Hls.StreamLoop.Prefetches.{IsPlain}
use bilirec.Hls.StreamLoop.Delivery.{deliver_window-WindowEnds}
use bilirec.Hls.StreamLoop.Polling.{
  should_reset_sequence_on_rollback, Loop, Tick, after_fetch, Got, go_on, returned, first_fetch,
  back_off, adjust_sequence, adjust_map, end_tick, deliver_tick, sync_tick, play_tick, Turn, ticked,
  debounced, on_debounce, on_turn, run_turns, on_tick, should_apply_manifest_sync_wait,
}
use bilirec.Hls.StreamLoop.Fetches.{
  AscendsTo, AscendsTo-le, AscendsTo-append, IsNamed, KeepsOrder, TickOk, after_fetch-KeepsOrder,
  same_none, GotOk, first_fetch-GotOk, back_off-GotOk,
}

module _ (lo hi : ℕ) (le : lo ≤ hi) where
  -- Up to the window: the next number is in it or behind it.
  abbrev AtWindow : ℕ → StreamRunner → Type 0
  AtWindow base r =
      IsPlain r
      × (r.prev_base_seq ≤ lo)
      × (base ≤ r.next_seq)
      × AscendsTo 0 r.next_seq r.runner.channel

  no_rollback :
      (prev base count n : ℕ)
      → prev ≤ base
      → should_reset_sequence_on_rollback prev base count n ≡ false
  unfolding should_reset_sequence_on_rollback
  no_rollback prev base count n h = ground arith

  adjust_sequence-AtWindow :
      (l : Loop) (pl : Playlist)
      → KeepsOrder lo l
      → lo ≤ pl.media_seq
      → AtWindow pl.media_seq (adjust_sequence l.stream pl)
  unfolding adjust_sequence
  adjust_sequence-AtWindow l pl (plain, prev, sent) lower =
      let r = l.stream in
      let base = pl.media_seq in
      let count = length pl.segments in
      if_cases
        (λ (c : StreamRunner). AtWindow base (
          if should_reset_sequence_on_rollback r.prev_base_seq base count c.next_seq
          then record c { next_seq = base; map_sent = false }
          else c))
        (ltb r.next_seq base)
        (λ gap.
          subst (AtWindow base)
            (sym (if_false _ _ (no_rollback r.prev_base_seq base count base (omega arith))))
            (
              plain,
              prev,
              omega arith,
              AscendsTo-le 0 r.next_seq base r.runner.channel (omega (arith, ltb→lt _ _ gap)) sent,
            ))
        (λ no_gap.
          subst (AtWindow base)
            (sym (if_false _ _ (no_rollback r.prev_base_seq base count r.next_seq (omega arith))))
            (plain, prev, ground arith, sent))

  adjust_map-plain :
      (r : StreamRunner) (uri : Option ℕ)
      → uri ≡ none
      → r.current_map_uri ≡ none
      → adjust_map r uri ≡ r
  unfolding adjust_map
  adjust_map-plain r uri e plain = if_true _ _ (same_none uri r.current_map_uri e plain)

  abbrev TickEnds : Loop × Bool → Type 0
  TickEnds e = KeepsOrder hi e.0

  end_tick-TickEnds :
      (l : Loop) (base : ℕ) (r : Option (StreamRunner × ℕ × Bool)) (prev : ℕ)
      → prev ≤ hi
      → base ≤ hi
      → EndsIn
          (λ (e : StreamRunner × ℕ × Bool).
            IsPlain e.0 × (e.0.prev_base_seq ≡ prev) × AscendsTo 0 e.0.next_seq e.0.runner.channel)
          r
      → EndsIn TickEnds (end_tick l base r)
  unfolding end_tick
  end_tick-TickEnds l base none prev below top h = h
  end_tick-TickEnds l base (some (r, failures, true)) prev below top (plain, same, sent) =
      (plain, top, sent)
  end_tick-TickEnds l base (some (r, failures, false)) prev below top (plain, same, sent) =
      (plain, omega arith, sent)

  deliver_tick-TickEnds :
      (l : Loop) (pl : Playlist) (t : Tick)
      → IsNamed t.rounds
      → pl.media_seq ≤ hi
      → AtWindow pl.media_seq l.stream
      → EndsIn TickEnds (deliver_tick l pl t)
  unfolding deliver_tick
  deliver_tick-TickEnds l pl t named top (plain, prev, at, sent) =
      end_tick-TickEnds l pl.media_seq
        (deliver_window pl t.rounds l.stream l.consecutive_segment_failures) l.stream.prev_base_seq
        (omega arith) top
        (deliver_window-WindowEnds pl t.rounds l.stream.prev_base_seq (λ seq n ch. AscendsTo 0 n ch)
          (λ ok n ch. AscendsTo 0 n ch) (λ seq n ch lt q. q)
          (λ seq n ch b e before q.
            subst (λ (m : ℕ). AscendsTo 0 (suc m) (ch ++ (b ∷ []))) (named seq b e)
              (AscendsTo-append 0 n ch b (omega (arith, named seq b e)) q))
          (λ seq n ch z before q. AscendsTo-le 0 n (suc seq) ch (omega arith) q)
          (λ seq n ch ok missed q. q) (λ n ch q. q) l.stream l.consecutive_segment_failures at plain
          refl sent)

  play_tick-TickEnds :
      (t : Tick) (g : Got) → TickOk lo hi t → GotOk lo hi le g → EndsIn TickEnds (play_tick t g)
  unfolding play_tick sync_tick
  play_tick-TickEnds t (returned l b) ok (plain, prev, sent) = (plain, omega arith, sent)
  play_tick-TickEnds t (go_on l pl) ok (h, (no_map, lower, top)) =
      let adjusted = adjust_sequence l.stream pl in
      let at = adjust_sequence-AtWindow l pl h lower in
      let adjusted_loop : Loop = record l { stream = adjust_map adjusted pl.map_uri } in
      let at_map : AtWindow pl.media_seq (adjust_map adjusted pl.map_uri) =
        subst (AtWindow pl.media_seq) (sym (adjust_map-plain adjusted pl.map_uri no_map at.0.0))
          at in
      if_cases (EndsIn TickEnds)
        (ltb 0 (length pl.segments)
          && should_apply_manifest_sync_wait pl.media_seq adjusted_loop.stream.next_seq
              l.last_sync_wait_base_seq)
        (λ _.
          if_cases (EndsIn TickEnds) t.synced
            (λ _.
              deliver_tick-TickEnds
                (record adjusted_loop { last_sync_wait_base_seq = some pl.media_seq }) pl t ok.3 top
                at_map)
            (λ _. (at_map.0, omega (arith, at_map.1), at_map.3)))
        (λ _. deliver_tick-TickEnds adjusted_loop pl t ok.3 top at_map)

  on_tick-TickEnds :
      (l : Loop) (t : Tick) → TickOk lo hi t → KeepsOrder lo l → EndsIn TickEnds (on_tick l t)
  unfolding on_tick
  on_tick-TickEnds l t ok h =
      let l' = after_fetch l t.first.refreshed in
      play_tick-TickEnds t (back_off t (first_fetch l' t.first.answer t.second)) ok (
        back_off-GotOk lo hi le t (first_fetch l' t.first.answer t.second) ok (
          first_fetch-GotOk lo hi le l' t.first.answer t.second
            (after_fetch-KeepsOrder lo l t.first.refreshed h) ok.0 ok.1))

send_settle-idle :
    (r : Runner) (sends : ℕ) → r.settle.active ≡ false → send_settle r sends ≡ (r, true)
unfolding send_settle settle send_segments
send_settle-idle r sends idle =
    ap
      (λ (x : InitSettle × Option Buffer × List Buffer).
        send_segments (record r { settle = x.0 }) x.1 x.2 sends)
      (if_true _ _ (ap not idle))

-- Where no change is held, the end of a debounce window does nothing.
on_debounce-idle : (l : Loop) (sends : ℕ) → IsPlain l.stream → on_debounce l sends ≡ (l, true)
unfolding on_debounce
on_debounce-idle l sends plain =
    ap (λ (x : Runner × Bool). (record l { stream = record l.stream { runner = x.0 } }, x.1))
      (send_settle-idle l.stream.runner sends plain.1)

-- The playlists of later ticks do not begin before those of earlier ones.
abbrev pub Climbs : ℕ → List Turn → Type 0
Climbs lo [] = Unit {0}
Climbs lo (ticked t ∷ turns) = (hi : ℕ) × (lo ≤ hi) × TickOk lo hi t × Climbs hi turns
Climbs lo (debounced sends ∷ turns) = Climbs lo turns

abbrev pub EndsInOrder : Loop × Bool → Type 0
EndsInOrder e = AscendsTo 0 e.0.stream.next_seq e.0.stream.runner.channel

run_from :
    (lo : ℕ) (r : Option (Loop × Bool)) (turns : List Turn)
    → Climbs lo turns
    → EndsIn (λ (e : Loop × Bool). KeepsOrder lo e.0) r
    → EndsIn EndsInOrder (run_turns r turns)
unfolding run_turns on_turn
run_from lo none turns climbs h = h
run_from lo (some (l, false)) turns climbs h = h.2
run_from lo (some (l, true)) [] climbs h = h.2
run_from lo (some (l, true)) (ticked t ∷ turns) (hi, le, ok, climbs) h =
    run_from hi (on_tick l t) turns climbs (on_tick-TickEnds lo hi le l t ok h)
run_from lo (some (l, true)) (debounced sends ∷ turns) climbs h =
    run_from lo (some (on_debounce l sends)) turns climbs
      (subst (λ (e : Loop × Bool). KeepsOrder lo e.0) (sym (on_debounce-idle l sends h.0)) h)

-- Whatever fetches fail, the loop never reads a segment out of range, and the fragments that it sends have
-- strictly ascending numbers, so that none is sent twice. The playlists have no init segment and do not go
-- back.
pub run_turns-EndsInOrder :
    (lo : ℕ) (l : Loop) (turns : List Turn)
    → KeepsOrder lo l
    → Climbs lo turns
    → EndsIn EndsInOrder (run_turns (some (l, true)) turns)
run_turns-EndsInOrder lo l turns h climbs = run_from lo (some (l, true)) turns climbs h
