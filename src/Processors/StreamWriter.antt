-- ===== src/Processors/StreamWriter.antt =====
-- internal/processors/buffered_stream_writer.go and buffered_stream_writer_cold_release.go. The writer
-- goroutine takes the chunks out of the channel in order, so that a run is a list of events. A file that
-- `os.Create` makes is a state of a `Sink`, or `none` for an error; the file and its writer are set together.
-- `bytesPool` is the list of the chunks that were put back. Log lines and the callbacks are left out.
pub mod Opening
pub mod Accounts
pub mod Contents
pub mod ColdRelease
use bilirec.Prelude.{
  ℕ, ◌+◌, ◌-◌, ◌*◌, Bool, true, false, ◌&&◌, not, Option, none, some, List, [], ◌∷◌, ◌++◌,
  if◌then◌else◌, length, ltb, leb, ◌==◌,
}
use bilirec.Rw.{
  Sink, WriteError, BufferedWriter, Written, new_buffered_writer, write, flush, buffered,
}

abbrev pub max_pending_bytes_before_drop : ℕ
max_pending_bytes_before_drop = 104857600

abbrev pub default_skip_small_flush_threshold : ℕ
default_skip_small_flush_threshold = 1048576

abbrev pub cold_release_hot_window_min : ℕ
cold_release_hot_window_min = 67108864

abbrev pub cold_release_hot_window_mul : ℕ
cold_release_hot_window_mul = 4

abbrev pub cold_release_min_release : ℕ
cold_release_min_release = 33554432

unfoldable pub cold_release_hot_window : ℕ → ℕ
cold_release_hot_window buffer_size =
    let hot = cold_release_hot_window_mul * buffer_size in
    if ltb hot cold_release_hot_window_min then cold_release_hot_window_min else hot

-- Field `size` is the source's `Length`.
pub record ColdReleasePlan : Type 0 where
  pub offset : ℕ
  pub size : ℕ
  pub new_end : ℕ

-- In `int64` the end may be below 0; it is then not above `releasedThrough`, just as 0 is not.
unfoldable pub plan_cold_release : ℕ → ℕ → ℕ → Option ColdReleasePlan
unfolding cold_release_hot_window
plan_cold_release on_disk released_through buffer_size =
    let cold_end = on_disk - cold_release_hot_window buffer_size in
    let size = cold_end - released_through in
    if on_disk == 0
    then none
    else if leb cold_end released_through
    then none
    else if ltb size cold_release_min_release
    then none
    else some (record { offset = released_through; size = size; new_end = cold_end })

module _ (w : Sink) where
  pub record BufferedStreamWriter : Type 0 where
    pub writer : Option (BufferedWriter w)
    pub buffer_size : ℕ
    pub skip_small_flush_threshold : ℕ
    pub min_periodic_flush_bytes : ℕ
    pub pending_chunks : List (List ℕ)
    pub pending_bytes : ℕ
    pub bytes_written : ℕ
    pub buffered_bytes : ℕ
    pub released_through : ℕ
    pub put_back : List (List ℕ)

  unfoldable pub deferred_file_creation : BufferedStreamWriter → Bool
  deferred_file_creation s = ltb 0 s.skip_small_flush_threshold

  -- `createFileAndWriter` behind `os.Create`, where no file is open.
  unfoldable pub create_file_and_writer :
      BufferedStreamWriter → Option w.State → Option BufferedStreamWriter
  create_file_and_writer s none = none
  create_file_and_writer s (some file) =
      some (record s { writer = some (new_buffered_writer w file s.buffer_size) })

  -- `Open`; `none` is its error.
  unfoldable pub open_writer : BufferedStreamWriter → Option w.State → Option BufferedStreamWriter
  unfolding deferred_file_creation create_file_and_writer
  open_writer s created =
      if deferred_file_creation s
      then some (record s { pending_chunks = []; pending_bytes = 0 })
      else create_file_and_writer s created

  unfoldable pub release_pending_chunks : BufferedStreamWriter → BufferedStreamWriter
  release_pending_chunks s = record s {
    pending_chunks = [];
    pending_bytes = 0;
    put_back = s.put_back ++ s.pending_chunks;
  }

  -- The end of a write of `data`: the counts, and the chunk goes back.
  unfoldable pub after_write :
      BufferedStreamWriter → List ℕ → Option (Written w) → Option BufferedStreamWriter
  after_write s chunk none = none
  after_write s chunk (some (b, n, e)) = some (record s {
    writer = some b;
    bytes_written = s.bytes_written + n;
    buffered_bytes = buffered w b;
    put_back = s.put_back ++ (chunk ∷ []);
  })

  -- A write to the writer, if there is one; without one nothing happens, and the chunk is not put back.
  unfoldable pub write_chunk :
      BufferedStreamWriter → List ℕ → Option (BufferedWriter w) → Option BufferedStreamWriter
  unfolding after_write
  write_chunk s chunk none = some s
  write_chunk s chunk (some b) = after_write s chunk (write w b chunk)

  -- The loop of `writePendingChunksToWriter`.
  unfoldable pub write_chunks :
      Option BufferedStreamWriter → List (List ℕ) → Option BufferedStreamWriter
  unfolding write_chunk
  write_chunks none chunks = none
  write_chunks (some s) [] = some s
  write_chunks (some s) (chunk ∷ chunks) = write_chunks (write_chunk s chunk s.writer) chunks

  unfoldable pub write_pending_chunks_to_writer : BufferedStreamWriter → Option BufferedStreamWriter
  unfolding write_chunks
  write_pending_chunks_to_writer s =
      write_chunks (some (record s { pending_chunks = []; pending_bytes = 0 })) s.pending_chunks

  -- What `handleDataChunk` does once the pending bytes have reached the threshold.
  unfoldable pub created_or_kept :
      BufferedStreamWriter → Option BufferedStreamWriter → Option BufferedStreamWriter
  unfolding write_pending_chunks_to_writer release_pending_chunks
  created_or_kept s none =
      if leb s.pending_bytes max_pending_bytes_before_drop
      then some s
      else some (release_pending_chunks s)
  created_or_kept s (some opened) = write_pending_chunks_to_writer opened

  -- `handleDataChunk` where no file is open and a file is made only later.
  unfoldable pub defer_chunk :
      BufferedStreamWriter → List ℕ → Option w.State → Option BufferedStreamWriter
  unfolding created_or_kept create_file_and_writer
  defer_chunk s chunk created =
      let waiting : BufferedStreamWriter = record s {
        pending_chunks = s.pending_chunks ++ (chunk ∷ []);
        pending_bytes = s.pending_bytes + length chunk;
      } in
      if ltb waiting.pending_bytes s.skip_small_flush_threshold
      then some waiting
      else created_or_kept waiting (create_file_and_writer waiting created)

  unfoldable pub handle_data_chunk :
      BufferedStreamWriter
      → List ℕ
      → Option w.State
      → Option (BufferedWriter w)
      → Option BufferedStreamWriter
  unfolding deferred_file_creation defer_chunk write_chunk
  handle_data_chunk s chunk created none =
      if deferred_file_creation s then defer_chunk s chunk created else write_chunk s chunk none
  handle_data_chunk s chunk created (some b) = write_chunk s chunk (some b)

  -- The end of `doPeriodicFlush`: after an error `bufferedBytes` stays as it was.
  unfoldable pub after_periodic_flush :
      BufferedStreamWriter
      → Option (BufferedWriter w × Option WriteError)
      → Option BufferedStreamWriter
  after_periodic_flush s none = none
  after_periodic_flush s (some (b, some e)) = some (record s { writer = some b })
  after_periodic_flush s (some (b, none)) =
      some (record s { writer = some b; buffered_bytes = buffered w b })

  unfoldable pub do_periodic_flush :
      BufferedStreamWriter → Option (BufferedWriter w) → Option BufferedStreamWriter
  unfolding after_periodic_flush buffered
  do_periodic_flush s none = some s
  do_periodic_flush s (some b) =
      if ltb (buffered w b) s.min_periodic_flush_bytes
      then some s
      else after_periodic_flush s (flush w b)

  unfoldable pub release_planned :
      BufferedStreamWriter → Bool → Option ColdReleasePlan → BufferedStreamWriter
  release_planned s dropped none = s
  release_planned s dropped (some plan) =
      if dropped then record s { released_through = plan.new_end } else s

  -- `releaseColdPrefixLocked`; `dropped` says whether the kernel dropped the range.
  unfoldable pub release_cold_prefix :
      BufferedStreamWriter → Bool → Option (BufferedWriter w) → BufferedStreamWriter
  unfolding plan_cold_release release_planned
  release_cold_prefix s dropped none = s
  release_cold_prefix s dropped (some b) =
      release_planned s dropped
        (plan_cold_release (s.bytes_written - buffered w b) s.released_through s.buffer_size)

  -- What the goroutines do between `Open` and `Close`.
  pub data Event : Type 0 where
    chunk : List ℕ → Option w.State → Event
    periodic : Event
    cold : Bool → Event

  unfoldable pub handle : BufferedStreamWriter → Event → Option BufferedStreamWriter
  unfolding handle_data_chunk do_periodic_flush release_cold_prefix
  handle s (chunk bytes created) = handle_data_chunk s bytes created s.writer
  handle s periodic = do_periodic_flush s s.writer
  handle s (cold dropped) = some (release_cold_prefix s dropped s.writer)

  unfoldable pub handle_all : Option BufferedStreamWriter → List Event → Option BufferedStreamWriter
  unfolding handle
  handle_all none events = none
  handle_all (some s) [] = some s
  handle_all (some s) (e ∷ events) = handle_all (handle s e) events

  -- What `Close` leaves: the processor, and the file if there was one.
  unfoldable pub close_file :
      BufferedStreamWriter
      → Option (BufferedWriter w × Option WriteError)
      → Option (BufferedStreamWriter × Option w.State)
  close_file s none = none
  close_file s (some (b, e)) = some (record s { writer = none }, some b.sink)

  -- The second half of `Close`.
  unfoldable pub finish :
      BufferedStreamWriter
      → Option (BufferedWriter w)
      → Option (BufferedStreamWriter × Option w.State)
  unfolding close_file
  finish s none = some (s, none)
  finish s (some b) = close_file s (flush w b)

  unfoldable pub finish_written :
      Option BufferedStreamWriter → Option (BufferedStreamWriter × Option w.State)
  unfolding finish
  finish_written none = none
  finish_written (some s) = finish s s.writer

  unfoldable pub close_created :
      BufferedStreamWriter
      → Option BufferedStreamWriter
      → Option (BufferedStreamWriter × Option w.State)
  unfolding release_pending_chunks finish_written write_pending_chunks_to_writer
  close_created s none = some (release_pending_chunks s, none)
  close_created s (some opened) = finish_written (write_pending_chunks_to_writer opened)

  -- The first half, where no file is open and a file is made only later.
  unfoldable pub close_pending :
      BufferedStreamWriter → Option w.State → Option (BufferedStreamWriter × Option w.State)
  unfolding release_pending_chunks close_created create_file_and_writer
  close_pending s created =
      if s.pending_bytes == 0
      then some (s, none)
      else if ltb s.pending_bytes s.skip_small_flush_threshold
      then some (release_pending_chunks s, none)
      else close_created s (create_file_and_writer s created)

  unfoldable pub close :
      BufferedStreamWriter
      → Option w.State
      → Option (BufferedWriter w)
      → Option (BufferedStreamWriter × Option w.State)
  unfolding deferred_file_creation close_pending finish
  close s created none = if deferred_file_creation s then close_pending s created else finish s none
  close s created (some b) = finish s (some b)
