-- ===== src/Lib.antt =====
-- A model of the parts of bilirec that decide what ends up in a recording: the repair of FLV and
-- MPEG-TS streams, the detection of changed sequence headers, the debounce of fMP4 init segments, the
-- loop that polls a playlist and delivers its segments, the processors of a pipeline with the buffered
-- writer at its end, the transactions that reserve a room, the limit on concurrent recordings, and what
-- is deleted where the disk is full; and of the services beside it that keep a state of their own: the
-- check that starts recordings automatically, the webhook queues, the gift messages with their wire
-- format, the round robin, the fallback client, the log sink, and the check of MP4 files.
--
-- How the parts interact in the program: the recorder (internal/services/recorder) reserves a room with
-- a transaction of pkg/tx, connects a stream and runs its chunks through a pipeline. For FLV the
-- pipeline holds `HeaderChangeDetector`, which starts a new file where the video sequence header
-- changes, and `RealtimeFixer`, which drops duplicate tags and makes the timestamps continuous. For HLS
-- the stream loop of pkg/hls fetches a playlist with a `PlaylistSession`, delivers its segments in
-- order, and holds a changed init segment back for a while (`InitSettle`), and `TsContinuityFixer`
-- patches the continuity counters of TS segments. The processors of internal/processors wrap these and
-- add the deduplication of segments and the guard on fMP4 boxes; the last one writes the file through
-- pkg/rw. The subscription check calls the recorder for rooms that went live; its checks of a room,
-- those of a shard and those of the retries, may overlap. The webhook service delivers the events of a
-- room one after the other. The danmaku service reads gifts with pkg/protowire.
--
-- Files and sources:
--   Prelude: tests on numbers, lists, association lists, int32 words, bits and bytes.
--   Flv/VideoTag: ClassifyVideoTag of pkg/flv/video_tag.go.
--   Flv/Tag: Tag and its bytes (pkg/flv/fixer.go, header_bytes.go, header_writer.go).
--   Flv/Timestamps: TimestampStore and fixTimestamp (pkg/flv/fixer.go, realtime_fixer.go).
--   Flv/Dedup: DedupCache of pkg/flv/fixer.go.
--   Flv/Realtime: RealtimeFixer of pkg/flv/realtime_fixer.go; `fix` is Fix, `scan` its parsing loop.
--   Flv/Detector: pkg/flv/header_change_detector.go; `detect_change` is DetectChange.
--   Flv/Accumulate: AccumulateFixer of pkg/flv/accumulate_fixer.go; `flush` is Flush.
--   Ds: the sets and the stack of pkg/ds.
--   Tx/Pending, Tx/Hook: the two coordinators of pkg/tx with their transactions.
--   Recorder/Admission: the use of a Pending coordinator by internal/services/recorder (recorder.go,
--     start_internal.go, stats.go) as a step relation on the map of recordings and the pending rooms.
--   Hls/InitSettle: pkg/hls/fmp4_init_settle.go, and sendSettle and acceptMap of stream_loop.go.
--   Hls/TsContinuity: pkg/hls/ts_continuity_fixer.go.
--   Hls/Boxes: the box headers of pkg/hls/fmp4_fragment.go.
--   Hls/Fragment: the decode times that the same file rebases in place; the fuel of a walk is the end of the
--     bytes it walks, and a box has at least 8 bytes.
--   Hls/StreamLoop: stream_loop.go and prefetcher.go; `deliver_window` is deliverWindow, `on_tick` of Polling
--     is onTick.
--   Hls/PlaylistSession: playlist_session.go and the retries of a segment in hls.go.
--   Processors: flv_header_split_detector.go, fmp4_box_guard.go and segment_dedup.go of
--     internal/processors; `process_split`, `process_guard` and `process_segment` are their Process.
--   Processors/StreamWriter: buffered_stream_writer.go and buffered_stream_writer_cold_release.go.
--   Rw: pkg/rw/flush_locked_buffered_writer.go; `Sink` is the interface of the io.Writer behind it.
--   Recorder/LowDisk: internal/services/recorder/lowdisk.go.
--   Subcheck: internal/services/subcheck (check.go for one room, schedule.go) and pkg/backoff/sequence.go.
--     Subcheck/Attempts has a check in two steps, `began`, where it reads the room, and `ended`, where it
--     writes.
--   LogSink: pkg/sink/async_buffered_sink.go and options.go.
--   Wire: pkg/protowire; `read_varint` is ReadVarint, `skip_field` SkipField, `write_tag` writeTag.
--   Danmaku/GiftPb: internal/services/danmaku/parse_pb.go; `parse_broadcast` is parseSendGiftBroadcast.
--   Webhook: internal/services/webhook/room_queue.go. Webhook.antt has the functions of one queue, System
--     the threads: a `Move` is one access of a thread to a queue or to `pending`, a `Step` one of a thread
--     among all, or a call, a worker or the tick that begins one; `acquired` is what the semaphore of the
--     deliveries has given out.
--   RoundRobin: pkg/coordinator/round_robin.go; `tick` is a round of loop.
--   Fallback: pkg/fallback/fallback.go; `do_request` is Do.
--   Mp4: pkg/mp4/box.go; `has_top_level_box` is HasTopLevelBox.
--   Examples: runs at concrete inputs.
--
-- State is passed explicitly: an operation returns the new record beside its result. Go's int32 is its
-- bit pattern below 2 ^ 32, with wrap-around written out and a signed order; the hash of a tag wraps at
-- 2 ^ 64. A read through a nil pointer is `none`. Maps are association lists, `nil` slices that differ
-- from empty ones are `none`. A mutex makes a call atomic, so that interleavings are sequences of
-- calls.
--
-- Loops over bytes run on fuel, which is the number of bytes: a tag takes fifteen of them and a TS
-- packet 188, so that the fuel is enough, and theorems below show it. The bound of four million tags
-- keeps the sum of all steps of 500 ms within int32. The walk over MP4 boxes has one round more than
-- the file has bytes, and a message one round for each byte; a varint has ten rounds as in the source.
-- A flush has one round for each buffered byte and a buffered write one for each byte written, which is
-- enough because a round that takes nothing ends the flush, and a write follows it with room in the
-- buffer.
--
-- Parameters: the validation function, `fn` and the hooks of a transaction; the hash of a segment, the
-- base64 decoding, the reads of a file, the writer behind a buffer, what is created, removed and free
-- on the disk, what the network answers to a request, what a participant of the round robin answers,
-- and what the clients of the fallback client answer. Times are numbers that a step is given. Not
-- modelled: the capacities of buffers and their pools, log lines, metrics, HTTP, the parsing of
-- playlists, and the services that are mostly input and output.
pub mod Prelude
pub mod Flv
pub mod Ds
pub mod Tx
pub mod Wire
pub mod Rw
pub mod Subcheck
pub mod LogSink
pub mod Danmaku
pub mod Webhook
pub mod RoundRobin
pub mod Processors
pub mod Fallback
pub mod Mp4
pub mod Hls
pub mod Recorder
pub mod Examples
