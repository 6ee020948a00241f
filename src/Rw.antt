-- ===== src/Rw.antt =====
-- pkg/rw/flush_locked_buffered_writer.go. The writer behind the buffer is an `io.Writer`, a parameter. The
-- lock of a flush makes it atomic. The bytes `b.buf[:b.n]` are a list, the length of `b.buf` its size.
pub mod Flushes
pub mod Contents
use bilirec.Prelude.{
  ℕ, zero, suc, ◌+◌, ◌-◌, ◌≤◌, ◌<◌, ◌≡◌, ◌≢◌, ◌&&◌, Option, none, some, List, [], ◌++◌, min,
  if◌then◌else◌, length, take, drop, leb, ◌==◌,
}

-- What `io.Writer` documents: how many bytes it took, which it took in order, and an error with a number
-- wherever these are not all.
pub record Sink : Type 1 where
  pub State : Type 0
  pub write_to : State → List ℕ → State × ℕ × Option ℕ
  pub content : State → List ℕ
  pub content-write_to :
      (s : State) (p : List ℕ) → content (write_to s p).0 ≡ content s ++ take (write_to s p).1 p
  pub write_to_le : (s : State) (p : List ℕ) → (write_to s p).1 ≤ length p
  pub write_to_short :
      (s : State) (p : List ℕ) → (write_to s p).1 < length p → (write_to s p).2 ≢ none

pub data WriteError : Type 0 where
  short_write : WriteError
  failed : ℕ → WriteError

module _ (w : Sink) where
  pub record BufferedWriter : Type 0 where
    pub sink : w.State
    pub buf : List ℕ
    pub size : ℕ

  unfoldable pub new_buffered_writer : w.State → ℕ → BufferedWriter
  new_buffered_writer s size = record {
    sink = s;
    buf = [];
    size = if size == 0 then 4096 else size;
  }

  -- A round of the loop of `Flush` behind the write; `more` is the loop.
  unfoldable pub flush_round :
      (BufferedWriter → Option (BufferedWriter × Option WriteError))
      → BufferedWriter
      → w.State × ℕ × Option ℕ
      → Option (BufferedWriter × Option WriteError)
  flush_round more b (s, n, some e) =
      some (record b { sink = s; buf = drop n b.buf }, some (failed e))
  flush_round more b (s, n, none) =
      if n == 0
      then some (record b { sink = s }, some short_write)
      else more (record b { sink = s; buf = drop n b.buf })

  -- `none` is no Go value: the fuel is used up.
  unfoldable pub flush_loop : ℕ → BufferedWriter → Option (BufferedWriter × Option WriteError)
  unfolding flush_round
  flush_loop zero b = if length b.buf == 0 then some (b, none) else none
  flush_loop (suc fuel) b =
      let round = flush_round (flush_loop fuel) b (w.write_to b.sink b.buf) in
      if length b.buf == 0 then some (b, none) else round

  unfoldable pub flush : BufferedWriter → Option (BufferedWriter × Option WriteError)
  unfolding flush_loop
  flush b = flush_loop (length b.buf) b

  -- The result of `Write`: the writer, how many bytes it took, and the error.
  abbrev pub Written : Type 0
  Written = BufferedWriter × ℕ × Option WriteError

  -- A large write goes past the empty buffer.
  unfoldable pub write_direct :
      (BufferedWriter → List ℕ → ℕ → Option Written)
      → BufferedWriter
      → List ℕ
      → ℕ
      → w.State × ℕ × Option ℕ
      → Option Written
  write_direct more b p written (s, n, some e) =
      some (record b { sink = s }, written + n, some (failed e))
  write_direct more b p written (s, n, none) = more (record b { sink = s }) (drop n p) (written + n)

  -- The part of a round of `Write` behind the flush.
  unfoldable pub accept :
      (BufferedWriter → List ℕ → ℕ → Option Written) → List ℕ → ℕ → BufferedWriter → Option Written
  unfolding write_direct
  accept more p written b =
      let n = min (b.size - length b.buf) (length p) in
      if length b.buf == 0 && leb b.size (length p)
      then write_direct more b p written (w.write_to b.sink p)
      else more (record b { buf = b.buf ++ take n p }) (drop n p) (written + n)

  unfoldable pub after_flush :
      (BufferedWriter → Option Written)
      → ℕ
      → Option (BufferedWriter × Option WriteError)
      → Option Written
  after_flush go written none = none
  after_flush go written (some (b, some e)) = some (b, written, some e)
  after_flush go written (some (b, none)) = go b

  unfoldable pub write_loop : ℕ → BufferedWriter → List ℕ → ℕ → Option Written
  unfolding accept after_flush flush
  write_loop zero b p written = if length p == 0 then some (b, written, none) else none
  write_loop (suc fuel) b p written =
      let go = accept (write_loop fuel) p written in
      if length p == 0
      then some (b, written, none)
      else if length b.buf == b.size
      then after_flush go written (flush b)
      else go b

  unfoldable pub write : BufferedWriter → List ℕ → Option Written
  unfolding write_loop
  write b p = write_loop (length p) b p 0

  unfoldable pub buffered : BufferedWriter → ℕ
  buffered b = length b.buf

  unfoldable pub available : BufferedWriter → ℕ
  available b = b.size - length b.buf
