-- ===== src/Hls/StreamLoop/Served.antt =====
-- A window of a stream without init segments whose segments all arrive.
use bilirec.Prelude.{
  ℕ, zero, suc, ◌+◌, ◌-◌, ◌≤◌, ◌<◌, ◌≡◌, refl, sym, ap, ◌∙◌, subst, Bool, true, Option, none, some,
  List, [], ◌∷◌, ◌++◌, arith, append_assoc, append-nil, EndsIn,
}
use bilirec.Hls.InitSettle.{Buffer}
use bilirec.Hls.StreamLoop.{Playlist, StreamRunner, Fetched, got, Round, deliver_window}
use bilirec.Hls.StreamLoop.Prefetches.{IsPlain, limit}
use bilirec.Hls.StreamLoop.Delivery.{IsMissed, deliver_window-WindowEnds}

-- The fragments of `count` numbers from `from` on.
abbrev pub fragments : (ℕ → Buffer) → ℕ → ℕ → List Buffer
fragments f from zero = []
fragments f from (suc count) = f from ∷ fragments f (suc from) count

fragments_last :
    (f : ℕ → Buffer) (from count : ℕ)
    → fragments f from (suc count) ≡ fragments f from count ++ (f (from + count) ∷ [])
fragments_last f from zero = ap (λ (n : ℕ). f n ∷ []) (omega arith)
fragments_last f from (suc count) =
    ap (λ (t : List Buffer). f from ∷ t)
      (fragments_last f (suc from) count
        ∙ ap (λ (n : ℕ). fragments f (suc from) count ++ (f n ∷ [])) (omega arith))

same_got : (b c : Buffer) → got b ≡ got c → b ≡ c
same_got b c e = cc

-- Every fetch answers the fragment of its number, and the channel takes it.
abbrev pub IsServed : (ℕ → Buffer) → (ℕ → Round) → Type 0
IsServed f answers =
    (seq : ℕ) → ((answers seq).segment_answer ≡ got (f seq)) × (0 < (answers seq).sends)

module _ (pl : Playlist) (answers : ℕ → Round) (f : ℕ → Buffer) (served : IsServed f answers)
    (front : List Buffer) (from : ℕ) where
  abbrev SentUpTo : ℕ → ℕ → List Buffer → Type 0
  SentUpTo seq n ch =
      (from ≤ n)
      × (seq ≤ n)
      × (n ≤ from + (seq - from))
      × (ch ≡ front ++ fragments f from (n - from))

  abbrev SentAll : Bool → ℕ → List Buffer → Type 0
  SentAll ok n ch =
      (ok ≡ true)
      × (n ≡ from + (limit pl - from))
      × (ch ≡ front ++ fragments f from (limit pl - from))

  send-SentUpTo :
      (seq n : ℕ) (ch : List Buffer) (b : Buffer)
      → (answers seq).segment_answer ≡ got b
      → n ≤ seq
      → SentUpTo seq n ch
      → SentUpTo (suc seq) (suc seq) (ch ++ (b ∷ []))
  send-SentUpTo seq n ch b e le (lo, at, hi, whole) =
      let named : b ≡ f seq = same_got b (f seq) (sym e ∙ (served seq).0) in
      let k : ℕ = seq - from in
      let later : suc k ≡ suc seq - from = omega arith in
      (
        omega arith,
        omega arith,
        omega arith,
        ap (λ (t : List Buffer). t ++ (b ∷ [])) whole
            ∙ (append_assoc front (fragments f from (n - from)) (b ∷ [])
                ∙ ap (λ (t : List Buffer). front ++ t)
                    (ap (λ (m : ℕ). fragments f from m ++ (b ∷ [])) (omega arith)
                      ∙ (ap (λ (c : Buffer). fragments f from k ++ (c ∷ []))
                            (named ∙ ap f (omega arith))
                          ∙ (sym (fragments_last f from k)
                              ∙ ap (λ (m : ℕ). fragments f from m) later)))),
      )

  whole_to :
      (n : ℕ) (ch : List Buffer)
      → SentUpTo (limit pl) n ch
      → ch ≡ front ++ fragments f from (limit pl - from)
  whole_to n ch (lo, at, hi, whole) =
      let same : n - from ≡ limit pl - from = omega arith in
      whole ∙ ap (λ (m : ℕ). front ++ fragments f from m) same

  start_whole : (n : ℕ) → n ≡ from → front ≡ front ++ fragments f from (n - from)
  start_whole n e =
      let none_yet : 0 ≡ n - from = omega arith in
      sym (append-nil front) ∙ ap (λ (m : ℕ). front ++ fragments f from m) none_yet

  abbrev EndsSentAll : StreamRunner × ℕ × Bool → Type 0
  EndsSentAll e = SentAll e.2 e.0.next_seq e.0.runner.channel

  ends-SentAll :
      (r : Option (StreamRunner × ℕ × Bool)) (prev : ℕ)
      → EndsIn
          (λ (e : StreamRunner × ℕ × Bool).
            IsPlain e.0 × (e.0.prev_base_seq ≡ prev) × EndsSentAll e)
          r
      → EndsIn EndsSentAll r
  ends-SentAll none prev h = h
  ends-SentAll (some e) prev h = h.2

  -- Where the playlist has no init segment, no change of one is held, and the next number is not before the
  -- window: if every segment of the window arrives and the channel takes it, `deliverWindow` goes on, sends
  -- exactly the segments from the next number to the end of the window, in order, and moves the next number
  -- behind them.
  pub deliver_window-all :
      (r : StreamRunner) (failures : ℕ)
      → IsPlain r
      → r.next_seq ≡ from
      → pl.media_seq ≤ from
      → r.runner.channel ≡ front
      → EndsIn
          (λ (e : StreamRunner × ℕ × Bool).
            (e.2 ≡ true)
            × (e.0.next_seq ≡ from + (limit pl - from))
            × (e.0.runner.channel ≡ front ++ fragments f from (limit pl - from)))
          (deliver_window pl answers r failures)
  deliver_window-all r failures plain at lo sent =
      ends-SentAll (deliver_window pl answers r failures) r.prev_base_seq (
        deliver_window-WindowEnds pl answers r.prev_base_seq SentUpTo SentAll
          (λ seq n ch lt q. (q.0, omega arith, omega (arith, q.0, q.1, q.2), q.3)) send-SentUpTo
          (λ seq n ch z le q. absurd (omega (arith, z, (served seq).1)))
          (λ seq n ch ok missed q.
            absurd (subst (λ (a : Fetched). IsMissed a) (served seq).0 missed))
          (λ n ch q. (refl, omega (arith, q.0, q.1, q.2), whole_to n ch q)) r failures (omega arith)
          plain refl (omega arith, omega arith, omega arith, sent ∙ start_whole r.next_seq at))
