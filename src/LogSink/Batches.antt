-- ===== src/LogSink/Batches.antt =====
-- What the transport gets.
use bilirec.Prelude.{
  ℕ, ◌+◌, ◌≡◌, refl, sym, ap, ◌∙◌, ◌&&◌, List, [], ◌∷◌, ◌++◌, if◌then◌else◌, if_cases, if_true,
  if_false, Bool-cases, inl, inr, nil_of_length, length, ltb, leb, ◌==◌, ==_iff, append_assoc,
  append-nil, concat, concat-append,
}
use bilirec.LogSink.{
  AsyncBufferedSink, WriteResult, enqueue, write_chunk, write, flush, append_chunk, drain_loop,
  drain, Event, written, took, flushed, stop_requested, stop_served, take_chunk, handle, handle_all,
}

-- All the bytes that the sink has accepted, in order: consumed, batched, queued.
abbrev pub accepted : AsyncBufferedSink → List ℕ
accepted s = concat s.payloads ++ (s.batch ++ concat s.ch)

-- The same without the queue.
abbrev sent : AsyncBufferedSink → List ℕ
sent s = concat s.payloads ++ s.batch

sent-flush : (s : AsyncBufferedSink) → sent (flush s) ≡ sent s
unfolding flush
sent-flush s =
    if_cases (λ (t : AsyncBufferedSink). sent t ≡ sent s) (length s.batch == 0) (λ _. refl)
      (λ _.
        append-nil (concat (s.payloads ++ (s.batch ∷ [])))
        ∙ (concat-append s.payloads (s.batch ∷ [])
            ∙ ap (λ (t : List ℕ). concat s.payloads ++ t) (append-nil s.batch)))

ch-flush : (s : AsyncBufferedSink) → (flush s).ch ≡ s.ch
unfolding flush
ch-flush s =
    if_cases (λ (t : AsyncBufferedSink). t.ch ≡ s.ch) (length s.batch == 0) (λ _. refl) (λ _. refl)

-- A state with some bytes sent and a queue.
abbrev SentWith : List ℕ → List (List ℕ) → AsyncBufferedSink → Type 0
SentWith bytes queue t = (sent t ≡ bytes) × (t.ch ≡ queue)

flush-SentWith :
    (bytes : List ℕ) (queue : List (List ℕ)) (s : AsyncBufferedSink)
    → SentWith bytes queue s
    → SentWith bytes queue (flush s)
flush-SentWith bytes queue s h = (sent-flush s ∙ h.0, ch-flush s ∙ h.1)

grow-SentWith :
    (bytes chunk : List ℕ) (queue : List (List ℕ)) (s : AsyncBufferedSink)
    → SentWith bytes queue s
    → SentWith (bytes ++ chunk) queue (record s { batch = s.batch ++ chunk })
grow-SentWith bytes chunk queue s h = (
  sym (append_assoc (concat s.payloads) s.batch chunk) ∙ ap (λ (t : List ℕ). t ++ chunk) h.0,
  h.1,
)

append_chunk-SentWith :
    (s : AsyncBufferedSink) (chunk : List ℕ)
    → SentWith (sent s ++ chunk) s.ch (append_chunk s chunk)
unfolding append_chunk
append_chunk-SentWith s chunk =
    let room : AsyncBufferedSink =
      if ltb 0 (length s.batch) && ltb s.batch_bytes (length s.batch + length chunk)
      then flush s
      else s in
    let kept : SentWith (sent s) s.ch room =
      if_cases (SentWith (sent s) s.ch)
        (ltb 0 (length s.batch) && ltb s.batch_bytes (length s.batch + length chunk))
        (λ _. flush-SentWith (sent s) s.ch s (refl, refl)) (λ _. (refl, refl)) in
    let full : AsyncBufferedSink = record room { batch = room.batch ++ chunk } in
    let grown : SentWith (sent s ++ chunk) s.ch full =
      grow-SentWith (sent s) chunk s.ch room kept in
    if_cases (SentWith (sent s ++ chunk) s.ch) (leb s.batch_bytes (length full.batch))
      (λ _. flush-SentWith (sent s ++ chunk) s.ch full grown) (λ _. grown)

drain_loop-SentWith :
    (s : AsyncBufferedSink) (chunks : List (List ℕ))
    → SentWith (sent s ++ concat chunks) s.ch (drain_loop s chunks)
unfolding drain_loop
drain_loop-SentWith s [] = (sym (append-nil (sent s)), refl)
drain_loop-SentWith s (chunk ∷ chunks) =
    let first = append_chunk-SentWith s chunk in
    let rest = drain_loop-SentWith (append_chunk s chunk) chunks in
    (
      rest.0
          ∙ (ap (λ (t : List ℕ). t ++ concat chunks) first.0
              ∙ append_assoc (sent s) chunk (concat chunks)),
      rest.1 ∙ first.1,
    )

accepted-sent : (s : AsyncBufferedSink) → accepted s ≡ sent s ++ concat s.ch
accepted-sent s = sym (append_assoc (concat s.payloads) s.batch (concat s.ch))

drained_accepted :
    (s : AsyncBufferedSink)
    → (accepted (flush (drain s)) ≡ accepted s) × ((flush (drain s)).ch ≡ [])
unfolding drain
drained_accepted s =
    let out = drain s in
    let loop = drain_loop-SentWith (record s { ch = [] }) s.ch in
    let both = flush-SentWith (sent s ++ concat s.ch) [] out loop in
    (
      accepted-sent (flush out)
          ∙ (ap (λ (q : List (List ℕ)). sent (flush out) ++ concat q) both.1
              ∙ (append-nil (sent (flush out)) ∙ (both.0 ∙ sym (accepted-sent s)))),
      both.1,
    )

-- The bytes that an event adds: those of a write that was queued.
abbrev pub added : AsyncBufferedSink → Event → List ℕ
added s (written []) = []
added s (written (b ∷ p)) =
    if s.stopped then [] else if ltb (length s.ch) s.buffer_size then b ∷ p else []
added s took = []
added s flushed = []
added s stop_requested = []
added s stop_served = []

abbrev pub added_all : AsyncBufferedSink → List Event → List ℕ
added_all s [] = []
added_all s (e ∷ events) = added s e ++ added_all (handle s e) events

appended :
    (s : AsyncBufferedSink) (p : List ℕ)
    → accepted (record s { ch = s.ch ++ (p ∷ []) }) ≡ accepted s ++ p
appended s p =
    ap (λ (t : List ℕ). concat s.payloads ++ (s.batch ++ t))
      (concat-append s.ch (p ∷ []) ∙ ap (λ (t : List ℕ). concat s.ch ++ t) (append-nil p))
    ∙ (ap (λ (t : List ℕ). concat s.payloads ++ t) (sym (append_assoc s.batch (concat s.ch) p))
        ∙ sym (append_assoc (concat s.payloads) (s.batch ++ concat s.ch) p))

queued_accepted :
    (s : AsyncBufferedSink) (p : List ℕ)
    → accepted (enqueue s p).0 ≡ accepted s ++ (if ltb (length s.ch) s.buffer_size then p else [])
unfolding enqueue
queued_accepted s p = elim (Bool-cases (ltb (length s.ch) s.buffer_size)) [
  | inl room ↦
      ap (λ (r : AsyncBufferedSink × WriteResult). accepted r.0) (if_true _ _ room)
      ∙ (appended s p ∙ ap (λ (t : List ℕ). accepted s ++ t) (sym (if_true _ _ room)))
  | inr full ↦
      ap (λ (r : AsyncBufferedSink × WriteResult). accepted r.0) (if_false _ _ full)
      ∙ (sym (append-nil (accepted s))
          ∙ ap (λ (t : List ℕ). accepted s ++ t) (sym (if_false _ _ full)))
]

written_accepted :
    (s : AsyncBufferedSink) (p : List ℕ)
    → accepted (write_chunk s p).0
      ≡ accepted s ++ (if s.stopped then [] else if ltb (length s.ch) s.buffer_size then p else [])
unfolding write_chunk
written_accepted s p = elim (Bool-cases s.stopped) [
  | inl stopped ↦
      ap (λ (r : AsyncBufferedSink × WriteResult). accepted r.0) (if_true _ _ stopped)
      ∙ (sym (append-nil (accepted s))
          ∙ ap (λ (t : List ℕ). accepted s ++ t) (sym (if_true _ _ stopped)))
  | inr running ↦
      ap (λ (r : AsyncBufferedSink × WriteResult). accepted r.0) (if_false _ _ running)
      ∙ (queued_accepted s p ∙ ap (λ (t : List ℕ). accepted s ++ t) (sym (if_false _ _ running)))
]

took_accepted :
    (s : AsyncBufferedSink) (queue : List (List ℕ))
    → s.ch ≡ queue
    → accepted (take_chunk s queue) ≡ accepted s
unfolding take_chunk
took_accepted s [] e = refl
took_accepted s (chunk ∷ chunks) e =
    let before : AsyncBufferedSink = record s { ch = chunks } in
    let h = append_chunk-SentWith before chunk in
    accepted-sent (append_chunk before chunk)
    ∙ (ap (λ (q : List (List ℕ)). sent (append_chunk before chunk) ++ concat q) h.1
        ∙ (ap (λ (t : List ℕ). t ++ concat chunks) h.0
            ∙ (append_assoc (sent s) chunk (concat chunks)
                ∙ (ap (λ (q : List (List ℕ)). sent s ++ concat q) (sym e)
                    ∙ sym (accepted-sent s)))))

batch-flush : (s : AsyncBufferedSink) → (flush s).batch ≡ []
unfolding flush
batch-flush s =
    if_cases (λ (t : AsyncBufferedSink). t.batch ≡ []) (length s.batch == 0)
      (λ z. nil_of_length s.batch ((==_iff _ 0).0 z)) (λ _. refl)

handle-accepted :
    (s : AsyncBufferedSink) (e : Event) → accepted (handle s e) ≡ accepted s ++ added s e
unfolding handle write write_chunk take_chunk
handle-accepted s (written []) = sym (append-nil (accepted s))
handle-accepted s (written (b ∷ p)) = written_accepted s (b ∷ p)
handle-accepted s took = took_accepted s s.ch refl ∙ sym (append-nil (accepted s))
handle-accepted s flushed = (drained_accepted s).0 ∙ sym (append-nil (accepted s))
handle-accepted s stop_requested = sym (append-nil (accepted s))
handle-accepted s stop_served = (drained_accepted s).0 ∙ sym (append-nil (accepted s))

-- The bytes of every write that was queued reach the transport, the batch or the queue, once and in the
-- order of the writes; a write that is dropped or refused leaves nothing behind.
pub handle_all-accepted :
    (s : AsyncBufferedSink) (events : List Event)
    → accepted (handle_all s events) ≡ accepted s ++ added_all s events
unfolding handle_all
handle_all-accepted s [] = sym (append-nil (accepted s))
handle_all-accepted s (e ∷ events) =
    handle_all-accepted (handle s e) events
    ∙ (ap (λ (t : List ℕ). t ++ added_all (handle s e) events) (handle-accepted s e)
        ∙ append_assoc (accepted s) (added s e) (added_all (handle s e) events))

-- When `Stop` has been served, nothing is left behind in the batch or in the queue.
pub stop_served-accepted :
    (s : AsyncBufferedSink)
    → (concat (handle s stop_served).payloads ≡ accepted s) × ((handle s stop_served).ch ≡ [])
unfolding handle
stop_served-accepted s =
    let both = drained_accepted s in
    let empty = batch-flush (drain s) in
    (
      sym (append-nil (concat (flush (drain s)).payloads))
          ∙ (ap (λ (t : List ℕ). concat (flush (drain s)).payloads ++ t)
                (sym
                  (ap (λ (b : List ℕ). b ++ concat (flush (drain s)).ch) empty ∙ ap concat both.1))
              ∙ both.0),
      both.1,
    )
