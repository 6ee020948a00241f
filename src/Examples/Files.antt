-- ===== src/Examples/Files.antt =====
-- Runs of the buffered writers on a file in memory.
use bilirec.Prelude.{
  ℕ, ◌≡◌, refl, true, none, some, List, [], ◌∷◌, ◌++◌, length, take, take_all, sym, ap, arith,
  EndsIn, inl,
}
use bilirec.Rw.{Sink, BufferedWriter, write}
use bilirec.Rw.Flushes.{IsSteady}
use bilirec.Rw.Contents.{Wrote, write-Wrote}
use bilirec.Processors.StreamWriter.{BufferedStreamWriter, Event, chunk, periodic, cold}
use bilirec.Processors.StreamWriter.Opening.{HasAccounts, chunks_of}
use bilirec.Processors.StreamWriter.Accounts.{handle_all-HasAccounts}
use bilirec.Processors.StreamWriter.{handle_all}
use bilirec.Processors.StreamWriter.Contents.{FileOf, record_chunks, record_chunks-FileOf}

content-append : (s p : List ℕ) → s ++ p ≡ s ++ take (length p) p
content-append s p = ap (λ (t : List ℕ). s ++ t) (sym (take_all (length p) p (omega arith)))

-- A file that takes every byte.
abbrev memory : Sink
memory = record {
  State = List ℕ;
  write_to = λ s p. (s ++ p, length p, none);
  content = λ s. s;
  content-write_to = content-append;
  write_to_le = λ s p. omega arith;
  write_to_short = λ s p less. absurd (omega (arith, less));
}

memory-IsSteady : IsSteady memory
memory-IsSteady s p = refl

abbrev small : BufferedWriter memory
small = record { sink = []; buf = 1 ∷ []; size = 2 }

write_run :
    write memory small (2 ∷ 3 ∷ 4 ∷ 5 ∷ [])
    ≡ some (record { sink = 1 ∷ 2 ∷ 3 ∷ 4 ∷ 5 ∷ []; buf = []; size = 2 }, 4, none)
unfolding write
write_run = refl

write-Wrote_example :
    Wrote memory small (2 ∷ 3 ∷ 4 ∷ 5 ∷ []) 0 (write memory small (2 ∷ 3 ∷ 4 ∷ 5 ∷ []))
write-Wrote_example = write-Wrote memory small (2 ∷ 3 ∷ 4 ∷ 5 ∷ []) (omega arith) (omega arith)

abbrev new_writer : BufferedStreamWriter memory
new_writer = record {
  writer = none;
  buffer_size = 4;
  skip_small_flush_threshold = 3;
  min_periodic_flush_bytes = 1;
  pending_chunks = [];
  pending_bytes = 0;
  bytes_written = 0;
  buffered_bytes = 0;
  released_through = 0;
  put_back = [];
}

abbrev events : List (Event memory)
events =
    chunk (7 ∷ 8 ∷ []) (some [])
    ∷ periodic
    ∷ chunk (9 ∷ []) (some [])
    ∷ cold true
    ∷ periodic
    ∷ chunk (1 ∷ []) (some [])
    ∷ []

record_chunks-FileOf_example :
    EndsIn
      (λ (r : BufferedStreamWriter memory × _). FileOf memory 3 (chunks_of memory events) r.1)
      (record_chunks memory new_writer (some []) events (some []))
record_chunks-FileOf_example =
    record_chunks-FileOf memory memory-IsSteady 3 new_writer (some []) (some []) events
      (refl, refl, refl, refl, refl, refl) refl (refl, (refl, (refl, tt)))

-- Where the file cannot be made at first.
abbrev late_file : List (Event memory)
late_file = chunk (7 ∷ 8 ∷ 9 ∷ []) none ∷ chunk (1 ∷ []) (some []) ∷ periodic ∷ []

handle_all-HasAccounts_example :
    EndsIn
      (HasAccounts memory ⊥ (λ no. absurd no) 3 ([] ++ chunks_of memory late_file))
      (handle_all memory (some new_writer) late_file)
handle_all-HasAccounts_example =
    handle_all-HasAccounts memory ⊥ (λ no. absurd no) 3 [] (some new_writer) late_file
      (λ no. no, (refl, tt))
      (refl, refl, refl, refl, omega arith, inl (omega arith), λ no. absurd no)
