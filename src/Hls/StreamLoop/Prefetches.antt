-- ===== src/Hls/StreamLoop/Prefetches.antt =====
-- The prefetches of a window read its segments in range, and change nothing else.
use bilirec.Prelude.{
  ℕ, zero, suc, ◌+◌, ◌-◌, ◌≤◌, ◌<◌, ◌≡◌, refl, false, Option, none, some, List, [], ◌∷◌, if_cases,
  min, length, get_elem?, ltb, ltb→lt, arith, EndsIn, ◌∙◌,
}
use bilirec.Ds.Set.{contains}
use bilirec.Hls.StreamLoop.{
  Playlist, StreamRunner, start, segment_at, start_at, prime, prime_window,
}

-- No init segment, and no change that is held.
abbrev pub IsPlain : StreamRunner → Type 0
IsPlain r = (r.current_map_uri ≡ none) × (r.runner.settle.active ≡ false)

-- What the prefetches leave alone.
abbrev pub SameStream : StreamRunner → StreamRunner → Type 0
SameStream r s =
    (s.current_map_uri ≡ r.current_map_uri)
    × (s.runner ≡ r.runner)
    × (s.next_seq ≡ r.next_seq)
    × (s.prev_base_seq ≡ r.prev_base_seq)

pub start-SameStream : (r : StreamRunner) (seq : ℕ) → SameStream r (start r seq)
unfolding start
start-SameStream r seq =
    if_cases (SameStream r) (contains seq r.started) (λ _. (refl, refl, refl, refl))
      (λ _. (refl, refl, refl, refl))

get_elem?-some : (xs : List ℕ) (i : ℕ) → i < length xs → (x : ℕ) × (get_elem? xs i ≡ some x)
get_elem?-some [] i h = absurd (omega arith)
get_elem?-some (x ∷ xs) zero h = (x, refl)
get_elem?-some (x ∷ xs) (suc i) h = get_elem?-some xs i (omega arith)

module _ (pl : Playlist) where
  abbrev pub limit : ℕ
  limit = pl.media_seq + length pl.segments

  pub start_at-SameStream :
      (r : StreamRunner) (seq : ℕ)
      → pl.media_seq ≤ seq
      → seq < limit
      → EndsIn (SameStream r) (start_at r seq (segment_at pl seq))
  unfolding segment_at start_at
  start_at-SameStream r seq lo hi =
      if_cases (λ (u : Option ℕ). EndsIn (SameStream r) (start_at r seq u)) (ltb seq pl.media_seq)
        (λ e. absurd (omega (arith, ltb→lt _ _ e)))
        (λ _.
          let found = get_elem?-some pl.segments (seq - pl.media_seq) (omega arith) in
          rw found.1 (start-SameStream r seq))

  SameStream-trans :
      (r s : StreamRunner) (t : Option StreamRunner)
      → SameStream r s
      → EndsIn (SameStream s) t
      → EndsIn (SameStream r) t
  SameStream-trans r s none same h = h
  SameStream-trans r s (some t) same h = (h.0 ∙ same.0, h.1 ∙ same.1, h.2 ∙ same.2, h.3 ∙ same.3)

  prime-SameStream :
      (count : ℕ) (seq : ℕ) (r : StreamRunner) (s : Option StreamRunner)
      → pl.media_seq ≤ seq
      → seq + count ≤ limit
      → EndsIn (SameStream r) s
      → EndsIn (SameStream r) (prime count pl seq s)
  unfolding prime
  prime-SameStream zero seq r s lo hi h = h
  prime-SameStream (suc count) seq r none lo hi h = h
  prime-SameStream (suc count) seq r (some s) lo hi h =
      prime-SameStream count (suc seq) r (start_at s seq (segment_at pl seq)) (omega arith)
        (omega arith)
        (SameStream-trans r s (start_at s seq (segment_at pl seq)) h
          (start_at-SameStream s seq lo (omega arith)))

  pub prime_window-SameStream :
      (r : StreamRunner) (ahead : ℕ)
      → pl.media_seq ≤ r.next_seq
      → EndsIn (SameStream r) (prime_window pl r ahead)
  unfolding prime_window
  prime_window-SameStream r ahead lo =
      if_cases (EndsIn (SameStream r)) (ltb r.next_seq limit)
        (λ e.
          prime-SameStream (min (suc ahead) (limit - r.next_seq)) r.next_seq r (some r) lo
            (omega (arith, ltb→lt _ _ e)) (refl, refl, refl, refl))
        (λ _. (refl, refl, refl, refl))
