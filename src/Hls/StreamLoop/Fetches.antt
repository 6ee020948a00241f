-- ===== src/Hls/StreamLoop/Fetches.antt =====
-- What the fetches of a tick leave of the order of the segments.
use bilirec.Prelude.{
  ℕ, suc, ◌≤◌, ◌≡◌, refl, sym, subst, Bool, true, false, not, Option, none, List, [], ◌∷◌, ◌++◌,
  if_cases, ◌==◌, ◌%◌, arith,
}
use bilirec.Hls.InitSettle.{Buffer, Runner, cancel, cancelled, reset, handle, url_refreshed}
use bilirec.Hls.StreamLoop.{got, Round}
use bilirec.Hls.StreamLoop.Prefetches.{IsPlain}
use bilirec.Hls.StreamLoop.Polling.{
  Fetch, fetched, no_url, fetch_failed, fetch_canceled, FetchAnswer, Loop, Tick, refresh_url,
  after_fetch, Got, go_on, returned, second_fetch, first_fetch, third_fetch, forget_map,
  refresh_after_failures, back_off, same_uri, segment_failure_refresh_every,
}

-- The numbers of the fragments strictly ascend, from `lo` on and below `hi`.
abbrev pub AscendsTo : ℕ → ℕ → List Buffer → Type 0
AscendsTo lo hi [] = lo ≤ hi
AscendsTo lo hi (b ∷ bs) = (lo ≤ b.id) × AscendsTo (suc b.id) hi bs

pub AscendsTo-le :
    (lo hi top : ℕ) (bs : List Buffer) → hi ≤ top → AscendsTo lo hi bs → AscendsTo lo top bs
AscendsTo-le lo hi top [] le h = omega arith
AscendsTo-le lo hi top (b ∷ bs) le (h, hs) = (h, AscendsTo-le (suc b.id) hi top bs le hs)

pub AscendsTo-append :
    (lo hi : ℕ) (bs : List Buffer) (b : Buffer)
    → hi ≤ b.id
    → AscendsTo lo hi bs
    → AscendsTo lo (suc b.id) (bs ++ (b ∷ []))
AscendsTo-append lo hi [] b le h = (omega arith, omega arith)
AscendsTo-append lo hi (c ∷ bs) b le (h, hs) = (h, AscendsTo-append (suc c.id) hi bs b le hs)

-- A fragment is known by its number.
abbrev pub IsNamed : (ℕ → Round) → Type 0
IsNamed answers = (seq : ℕ) (b : Buffer) → (answers seq).segment_answer ≡ got b → b.id ≡ seq

-- The order that is kept: what was sent ascends, and lies below the next number.
abbrev pub KeepsOrder : ℕ → Loop → Type 0
KeepsOrder lo l =
    IsPlain l.stream
    × (l.stream.prev_base_seq ≤ lo)
    × AscendsTo 0 l.stream.next_seq l.stream.runner.channel

-- Playlists without an init segment that begin between two numbers.
abbrev pub FetchOk : ℕ → ℕ → Fetch → Type 0
FetchOk lo hi (fetched pl) = (pl.map_uri ≡ none) × (lo ≤ pl.media_seq) × (pl.media_seq ≤ hi)
FetchOk lo hi no_url = Unit {0}
FetchOk lo hi fetch_failed = Unit {0}
FetchOk lo hi fetch_canceled = Unit {0}

abbrev pub TickOk : ℕ → ℕ → Tick → Type 0
TickOk lo hi t =
    FetchOk lo hi t.first.answer
    × FetchOk lo hi t.second.answer
    × FetchOk lo hi t.third.answer
    × IsNamed t.rounds

refresh_url-KeepsOrder :
    (lo : ℕ) (l : Loop)
    → KeepsOrder lo l
    → KeepsOrder lo (record l { stream = refresh_url l.stream })
unfolding refresh_url reset cancel cancelled handle
refresh_url-KeepsOrder lo l (plain, prev, sent) =
    ((plain.0, refreshed_plain l.stream.runner plain.1), prev, sent)
  where
    refreshed_plain :
        (r : Runner) → r.settle.active ≡ false → (handle r url_refreshed).settle.active ≡ false
    refreshed_plain r e = ground arith

pub after_fetch-KeepsOrder :
    (lo : ℕ) (l : Loop) (refreshed : Bool)
    → KeepsOrder lo l
    → KeepsOrder lo (after_fetch l refreshed)
unfolding after_fetch
after_fetch-KeepsOrder lo l true h = refresh_url-KeepsOrder lo l h
after_fetch-KeepsOrder lo l false h = h

pub same_none : (u v : Option ℕ) → u ≡ none → v ≡ none → same_uri u v ≡ true
unfolding same_uri
same_none u v e g =
    subst (λ (x : Option ℕ). same_uri x v ≡ true) (sym e)
      (subst (λ (x : Option ℕ). same_uri none x ≡ true) (sym g) refl)

module _ (lo hi : ℕ) (le : lo ≤ hi) where
  -- What a tick has before the window.
  abbrev pub GotOk : Got → Type 0
  GotOk (go_on l pl) = KeepsOrder lo l × FetchOk lo hi (fetched pl)
  GotOk (returned l b) = KeepsOrder lo l

  second_fetch-GotOk :
      (l : Loop) (f : Fetch) → KeepsOrder lo l → FetchOk lo hi f → GotOk (second_fetch l f)
  unfolding second_fetch
  second_fetch-GotOk l (fetched pl) h ok = (h, ok)
  second_fetch-GotOk l no_url h ok = h
  second_fetch-GotOk l fetch_canceled h ok = h
  second_fetch-GotOk l fetch_failed h ok = h

  third_fetch-GotOk :
      (l : Loop) (f : Fetch) → KeepsOrder lo l → FetchOk lo hi f → GotOk (third_fetch l f)
  unfolding third_fetch
  third_fetch-GotOk l (fetched pl) h ok = (h, ok)
  third_fetch-GotOk l no_url h ok = h
  third_fetch-GotOk l fetch_canceled h ok = h
  third_fetch-GotOk l fetch_failed h ok = h

  pub first_fetch-GotOk :
      (l : Loop) (f : Fetch) (again : FetchAnswer)
      → KeepsOrder lo l
      → FetchOk lo hi f
      → FetchOk lo hi again.answer
      → GotOk (first_fetch l f again)
  unfolding first_fetch
  first_fetch-GotOk l (fetched pl) again h ok next_ok = (h, ok)
  first_fetch-GotOk l no_url again h ok next_ok = h
  first_fetch-GotOk l fetch_canceled again h ok next_ok = h
  first_fetch-GotOk l fetch_failed again h ok next_ok =
      let counted : Loop = record l {
        consecutive_playlist_failures = suc l.consecutive_playlist_failures;
      } in
      second_fetch-GotOk (after_fetch counted again.refreshed) again.answer
        (after_fetch-KeepsOrder lo counted again.refreshed h) next_ok

  forget_map-KeepsOrder :
      (l : Loop) → KeepsOrder lo l → KeepsOrder lo (record l { stream = forget_map l.stream })
  unfolding forget_map
  forget_map-KeepsOrder l (plain, prev, sent) = ((refl, plain.1), prev, sent)

  pub back_off-GotOk : (t : Tick) (g : Got) → TickOk lo hi t → GotOk g → GotOk (back_off t g)
  unfolding back_off refresh_after_failures
  back_off-GotOk t (returned l b) ok h = h
  back_off-GotOk t (go_on l pl) ok (h, pl_ok) =
      let reset_count : Loop = record l { consecutive_playlist_failures = 0 } in
      let refreshed : Loop = record reset_count { stream = refresh_url l.stream } in
      let forgot : Loop = record refreshed { stream = forget_map refreshed.stream } in
      if_cases GotOk (l.consecutive_segment_failures == 0) (λ _. (h, pl_ok))
        (λ _.
          if_cases GotOk (not t.backed_off) (λ _. h)
            (λ _.
              if_cases GotOk (l.consecutive_segment_failures % segment_failure_refresh_every == 0)
                (λ _.
                  if_cases GotOk (not t.url_ok) (λ _. (h, pl_ok))
                    (λ _.
                      third_fetch-GotOk (after_fetch forgot t.third.refreshed) t.third.answer
                        (after_fetch-KeepsOrder lo forgot t.third.refreshed (
                          forget_map-KeepsOrder refreshed
                            (refresh_url-KeepsOrder lo reset_count h)))
                        ok.2))
                (λ _. (h, pl_ok))))
