-- ===== src/Flv/Accumulate/Batch.antt =====
-- What a flush of the batch guarantees.
use bilirec.Prelude.{
  ℕ, zero, suc, ◌<◌, ◌⊎◌, ◌≤◌, sym, false, if◌then◌else◌, if_true, if_false, if_cases, ltb→lt, Bool,
  not, ◌≡◌, refl, ap, inl, inr, true, Option, none, some, List, [], ◌∷◌, ◌++◌, ltb, ◌==◌, length,
  take, drop, arith, Option-cases,
}
use mathlib.Core.Option
use bilirec.Prelude.Bytes.{bytes_equal}
use bilirec.Flv.Tag.{Tag, flv_header_size}
use bilirec.Flv.Dedup.{DedupCache}
use bilirec.Flv.Dedup.Invariant.{IsConsistent, is_duplicate-IsConsistent}
use bilirec.Flv.Dedup.Cleaning.{clean_old_lem}
use bilirec.Flv.Realtime.{parse_tag}
use bilirec.Flv.Realtime.Parsing.{parse_tag_shorter, parse_tag_short}
use bilirec.Flv.Accumulate.{
  AccumulateFixer, Collected, collect_tag, collect_loop, Flushed, flushed, waiting,
  flush_not_flv_file, write_tags, clean_batch, flush_tags, flush, fix_timestamps, last_timestamp,
}

collect_tag-IsConsistent :
    (c : Collected) (tag : Tag)
    → IsConsistent c.dedup_cache
    → IsConsistent (collect_tag c tag).dedup_cache
unfolding collect_tag
collect_tag-IsConsistent c tag v = ground (arith, is_duplicate-IsConsistent c.dedup_cache tag v)

collect_loop_lem :
    (fuel : ℕ) (c : Collected) (b : List ℕ)
    → length b ≤ fuel
    → IsConsistent c.dedup_cache
    → (parse_tag (collect_loop fuel c b).1 ≡ none)
      × IsConsistent (collect_loop fuel c b).0.dedup_cache
unfolding collect_loop
collect_loop_lem zero c b h v = (parse_tag_short b h, v)
collect_loop_lem (suc fuel) c b h v = elim (Option-cases (parse_tag b)) [
  | inl e ↦ rw (e, collect_loop) (e, v)
  | inr ((tag, rest), e) ↦
      rw (e, collect_loop)
        (collect_loop_lem fuel (collect_tag c tag) rest
          (omega (arith, parse_tag_shorter b tag rest e)) (collect_tag-IsConsistent c tag v))
]

clean_batch_lem :
    (tags : List Tag) (c : DedupCache)
    → IsConsistent c
    → (c' : DedupCache) × (clean_batch tags c ≡ some c') × IsConsistent c'
unfolding clean_batch
clean_batch_lem [] c v = (c, refl, v)
clean_batch_lem (tag ∷ tags) c v =
    let (c', result, v', size, shorter, kept) = clean_old_lem (last_timestamp tag tags) c v in
    (c', result, v')

-- The output begins with the file header exactly where it was not written before: nine bytes of the
-- buffer and an empty PreviousTagSize0.
abbrev pub Starts : AccumulateFixer → List ℕ → Type 0
Starts before output =
    (rest : List ℕ) × (output
      ≡ (if before.header_written
          then []
          else take flv_header_size before.buffer ++ (0 ∷ 0 ∷ 0 ∷ 0 ∷ []))
        ++ rest)

-- Bytes come out where every complete tag was taken out of the buffer. Nothing is taken where the buffer is
-- empty, or where it is too short for the header or begins with no FLV header, and that is still to come.
abbrev pub IsFlushed : AccumulateFixer → AccumulateFixer → Flushed → Type 0
IsFlushed before af (flushed bytes warnings) =
    (parse_tag af.buffer ≡ none) × (af.header_written ≡ true) × Starts before bytes
IsFlushed before af waiting =
    (af ≡ before)
    × ((length before.buffer ≡ 0)
        ⊎ ((before.header_written ≡ false) × (length before.buffer < flv_header_size)))
IsFlushed before af flush_not_flv_file =
    (af ≡ before)
    × (before.header_written ≡ false)
    × (bytes_equal (take 3 before.buffer) (b'F' ∷ b'L' ∷ b'V' ∷ []) ≡ false)

Flush : AccumulateFixer → Option (AccumulateFixer × Flushed) → Type 0
Flush before o =
    (af : AccumulateFixer) × (r : Flushed) × (o ≡ some (af, r))
    × IsConsistent af.dedup_cache
    × IsFlushed before af r

flush_tags_lem :
    (af : AccumulateFixer) (header b : List ℕ)
    → IsConsistent af.dedup_cache
    → (if af.header_written then [] else take flv_header_size af.buffer ++ (0 ∷ 0 ∷ 0 ∷ 0 ∷ []))
      ≡ header
    → Flush af (flush_tags af header b)
unfolding flush_tags Flush
flush_tags_lem af header b v starts =
    let start : Collected = record {
      tags = [];
      dedup_cache = af.dedup_cache;
      dup_count = af.dup_count;
    } in
    let collected : Collected × List ℕ = collect_loop (length b) start b in
    let (drained, v') = collect_loop_lem (length b) start b (omega arith) v in
    let tags : List ℕ = write_tags (fix_timestamps af.ts_store collected.0.tags).tags in
    let (cache, cleaned, v'') =
      clean_batch_lem (fix_timestamps af.ts_store collected.0.tags).tags collected.0.dedup_cache
        v' in
    (
      _,
      _,
      ap (Option.map _) cleaned,
      v'',
      (drained, refl, (tags, ap (λ (h : List ℕ). h ++ tags) (sym starts))),
    )

false_of : (b : Bool) → not b ≡ true → b ≡ false
false_of b h = ground arith

-- `Flush` does not panic on a consistent cache and keeps it consistent. Where it returns bytes it has taken
-- every complete tag out of the buffer, and the bytes begin with the file header, its nine bytes and an empty
-- PreviousTagSize0, where none was written before. It waits, and changes nothing, only where the buffer is
-- empty or too short for a header that is to come; it fails, and changes nothing, only where that header does
-- not begin with "FLV".
pub flush_lem :
    (af : AccumulateFixer)
    → IsConsistent af.dedup_cache
    → (af' : AccumulateFixer) × (r : Flushed) × (flush af ≡ some (af', r))
      × IsConsistent af'.dedup_cache
      × IsFlushed af af' r
unfolding flush Flush
flush_lem af v =
    if_cases (Flush af) (length af.buffer == 0)
      (λ h. (af, waiting, refl, v, (refl, inl (ground arith))))
      (λ h.
        if_cases (Flush af) af.header_written
          (λ h2. flush_tags_lem af [] af.buffer v (if_true _ _ h2))
          (λ h2.
            if_cases (Flush af) (ltb (length af.buffer) flv_header_size)
              (λ h3. (af, waiting, refl, v, (refl, inr (h2, ltb→lt _ _ h3))))
              (λ h3.
                if_cases (Flush af) (not (bytes_equal (take 3 af.buffer) (b'F' ∷ b'L' ∷ b'V' ∷ [])))
                  (λ h4. (af, flush_not_flv_file, refl, v, (refl, h2, false_of _ h4)))
                  (λ h4.
                    flush_tags_lem af (take flv_header_size af.buffer ++ (0 ∷ 0 ∷ 0 ∷ 0 ∷ []))
                      (drop flv_header_size af.buffer) v (if_false _ _ h2)))))
