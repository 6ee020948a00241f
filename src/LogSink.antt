-- ===== src/LogSink.antt =====
-- pkg/sink/async_buffered_sink.go. The goroutine of `run` is a list of what its `select` takes; the channel
-- is a list of at most `buffer_size` chunks. What the transport consumed is the list `payloads`, failed
-- ones included. The hooks are left out.
pub mod Batches
use bilirec.Prelude.{
  ℕ, suc, ◌+◌, Bool, true, false, ◌&&◌, ◌||◌, not, Option, none, some, List, [], ◌∷◌, ◌++◌,
  if◌then◌else◌, length, ltb, leb, ◌==◌,
}

pub record AsyncBufferedSink : Type 0 where
  pub buffer_size : ℕ
  pub batch_bytes : ℕ
  pub overflow_block : Bool
  pub ch : List (List ℕ)
  pub batch : List ℕ
  pub payloads : List (List ℕ)
  pub stopped : Bool

abbrev pub default_buffer_size : ℕ
default_buffer_size = 4096

abbrev pub default_batch_bytes : ℕ
default_batch_bytes = 65536

-- `normalizeOptions` and `NewAsyncBufferedSink`; a setting that is not positive is 0.
unfoldable pub new_sink : ℕ → ℕ → Bool → AsyncBufferedSink
new_sink buffer_size batch_bytes block = record {
  buffer_size = if buffer_size == 0 then default_buffer_size else buffer_size;
  batch_bytes = if batch_bytes == 0 then default_batch_bytes else batch_bytes;
  overflow_block = block;
  ch = [];
  batch = [];
  payloads = [];
  stopped = false;
}

-- What `Write` does where it need not wait: the chunk is queued, dropped, or refused; a write that must wait
-- for room in the channel is none of these.
pub data WriteResult : Type 0 where
  queued dropped refused waits : WriteResult

unfoldable pub enqueue : AsyncBufferedSink → List ℕ → AsyncBufferedSink × WriteResult
enqueue s p =
    if ltb (length s.ch) s.buffer_size
    then (record s { ch = s.ch ++ (p ∷ []) }, queued)
    else (s, if s.overflow_block then waits else dropped)

unfoldable pub write_chunk : AsyncBufferedSink → List ℕ → AsyncBufferedSink × WriteResult
unfolding enqueue
write_chunk s p = if s.stopped then (s, refused) else enqueue s p

unfoldable pub write : AsyncBufferedSink → List ℕ → AsyncBufferedSink × WriteResult
unfolding write_chunk
write s [] = (s, queued)
write s (b ∷ p) = write_chunk s (b ∷ p)

-- `flush`
unfoldable pub flush : AsyncBufferedSink → AsyncBufferedSink
flush s =
    if length s.batch == 0
    then s
    else record s { batch = []; payloads = s.payloads ++ (s.batch ∷ []) }

-- `appendChunk`
unfoldable pub append_chunk : AsyncBufferedSink → List ℕ → AsyncBufferedSink
unfolding flush
append_chunk s chunk =
    let room =
      if ltb 0 (length s.batch) && ltb s.batch_bytes (length s.batch + length chunk)
      then flush s
      else s in
    let full : AsyncBufferedSink = record room { batch = room.batch ++ chunk } in
    if leb s.batch_bytes (length full.batch) then flush full else full

-- `drain`
unfoldable pub drain_loop : AsyncBufferedSink → List (List ℕ) → AsyncBufferedSink
unfolding append_chunk
drain_loop s [] = s
drain_loop s (chunk ∷ chunks) = drain_loop (append_chunk s chunk) chunks

unfoldable pub drain : AsyncBufferedSink → AsyncBufferedSink
unfolding drain_loop
drain s = drain_loop (record s { ch = [] }) s.ch

-- What happens to a sink: a call of `Write`, a chunk that `run` takes from the channel, a tick or a request
-- to flush, and the end.
pub data Event : Type 0 where
  written : List ℕ → Event
  took : Event
  flushed : Event
  stop_requested : Event
  stop_served : Event

unfoldable pub take_chunk : AsyncBufferedSink → List (List ℕ) → AsyncBufferedSink
unfolding append_chunk
take_chunk s [] = s
take_chunk s (chunk ∷ chunks) = append_chunk (record s { ch = chunks }) chunk

unfoldable pub handle : AsyncBufferedSink → Event → AsyncBufferedSink
unfolding write take_chunk flush drain
handle s (written p) = (write s p).0
handle s took = take_chunk s s.ch
handle s flushed = flush (drain s)
handle s stop_requested = record s { stopped = true }
handle s stop_served = flush (drain s)

unfoldable pub handle_all : AsyncBufferedSink → List Event → AsyncBufferedSink
unfolding handle
handle_all s [] = s
handle_all s (e ∷ events) = handle_all (handle s e) events
