-- ===== src/Flv/Realtime/EndToEnd.antt =====
-- A well-formed FLV stream through `Fix`, from the bytes read to the bytes written.
use bilirec.Prelude.{
  ℕ, suc, ◌≤◌, ◌≡◌, refl, ap, sym, ◌∙◌, subst, inl, inr, Bool, true, false, some, List, [], ◌∷◌,
  ◌++◌, if◌then◌else◌, length, map, All, arith, append_assoc, append-nil, Bool-cases,
}
use bilirec.Flv.Tag.{Tag, write_tag, put_uint32, new_file_header_bytes}
use bilirec.Flv.Timestamps.{reset_store, fix_timestamp}
use bilirec.Flv.Timestamps.Steady.{fix_all, HasWord, StartsNear, fix_all-StartsNear}
use bilirec.Flv.Dedup.{DedupCache, new_dedup_cache, is_duplicate}
use bilirec.Flv.Realtime.{
  Scan, scan_tag, scan, RealtimeFixer, new_realtime_fixer, fix, written, max_dedup_cache_size,
  dedup_window_ms, check_header, finish_fix, finished, start_scan, clean_dedup,
}
use bilirec.Flv.Realtime.Safety.{IsSound, scan-IsSound, clean_dedup-IsSound}
use bilirec.Flv.Realtime.Framing.{
  IsWritable, detect, write_all, last_size, scan_tags, scan-write_all,
}

-- The tags that the duplicate cache lets through.
pub accepted : DedupCache → List Tag → List Tag
accepted c [] = []
accepted c (t ∷ ts) =
    let rest = accepted (is_duplicate c t).1 ts in if (is_duplicate c t).0 then rest else t ∷ rest

scan_tag_output_dup :
    (rotation : Bool) (s : Scan) (t : Tag)
    → (is_duplicate s.dedup_cache t).0 ≡ true
    → ((scan_tag rotation s t).output ≡ s.output)
      × ((scan_tag rotation s t).ts_store ≡ s.ts_store)
      × ((scan_tag rotation s t).dedup_cache ≡ (is_duplicate s.dedup_cache t).1)
unfolding scan_tag
scan_tag_output_dup rotation s t e = ground arith

scan_tag_output_fresh :
    (rotation : Bool) (s : Scan) (t : Tag)
    → (is_duplicate s.dedup_cache t).0 ≡ false
    → ((scan_tag rotation s t).output
        ≡ s.output ++ write_tag (fix_timestamp rotation s.ts_store t).tag)
      × ((scan_tag rotation s t).ts_store ≡ (fix_timestamp rotation s.ts_store t).store)
      × ((scan_tag rotation s t).dedup_cache ≡ (is_duplicate s.dedup_cache t).1)
unfolding scan_tag
scan_tag_output_fresh rotation s t e = ground arith

scan_tags_output :
    (rotation : Bool) (s : Scan) (ts : List Tag)
    → (scan_tags rotation s ts).output
      ≡ s.output ++ write_all (fix_all rotation s.ts_store (accepted s.dedup_cache ts))
unfolding scan_tags accepted fix_all
scan_tags_output rotation s [] = sym (append-nil s.output)
scan_tags_output rotation s (t ∷ ts) = elim (Bool-cases (is_duplicate s.dedup_cache t).0) [
  | inl e ↦
      let (out, store, cache) = scan_tag_output_dup rotation s t e in
      scan_tags_output rotation (scan_tag rotation s t) ts ∙ rw (e, out, store, cache)
  | inr e ↦
      let (out, store, cache) = scan_tag_output_fresh rotation s t e in
      scan_tags_output rotation (scan_tag rotation s t) ts
      ∙ rw (e, out, store, cache)
          (append_assoc s.output (write_tag (fix_timestamp rotation s.ts_store t).tag) _)
]

length-accepted : (c : DedupCache) (ts : List Tag) → length (accepted c ts) ≤ length ts
unfolding accepted
length-accepted c [] = omega arith
length-accepted c (t ∷ ts) = ground (arith, length-accepted (is_duplicate c t).1 ts)

length-detect : (ts : List Tag) → length (map detect ts) ≡ length ts
length-detect [] = refl
length-detect (t ∷ ts) = ap suc (length-detect ts)

accepted-HasWord :
    (c : DedupCache) (ts : List Tag) → All IsWritable ts → All HasWord (accepted c (map detect ts))
unfolding accepted
accepted-HasWord c [] h = tt
accepted-HasWord c (t ∷ ts) (w, h) = elim (Bool-cases (is_duplicate c (detect t)).0) [
  | inl e ↦ rw e (accepted-HasWord (is_duplicate c (detect t)).1 ts h)
  | inr e ↦ rw e (w.time_word, accepted-HasWord (is_duplicate c (detect t)).1 ts h)
]

-- What a new fixer makes of the tags of a file.
abbrev pub repaired : List Tag → List Tag
repaired ts =
    fix_all false reset_store
      (accepted (new_dedup_cache max_dedup_cache_size dedup_window_ms) (map detect ts))

new_fixer-IsSound : (max : ℕ) → IsSound (new_realtime_fixer max).dedup_cache 1000
unfolding new_realtime_fixer new_dedup_cache
new_fixer-IsSound max = ground arith

check_header-new :
    (max : ℕ) (b : List ℕ)
    → check_header
        (new_realtime_fixer max)
        ((new_realtime_fixer max).buffer ++ (new_file_header_bytes ++ b))
      ≡ some (put_uint32 0 ++ b, true)
unfolding check_header new_realtime_fixer new_file_header_bytes
check_header-new max b = ground arith

fix-check_header :
    (rf : RealtimeFixer) (input b : List ℕ) (ok : Bool)
    → check_header rf (rf.buffer ++ input) ≡ some (b, ok)
    → fix rf input
      ≡ finish_fix rf ok
          (scan rf.is_rotation_segment (start_scan rf) b).0
          (scan rf.is_rotation_segment (start_scan rf) b).1
unfolding fix
fix-check_header rf input b ok e = rw (e, fix)

finish_fix-clean_dedup :
    (rf : RealtimeFixer) (ok : Bool) (s : Scan) (b : List ℕ) (p : DedupCache × ℕ)
    → clean_dedup s rf.last_dedup_clean ≡ some p
    → finish_fix rf ok s b ≡ some (finished rf ok s b p, written s.output)
unfolding finish_fix
finish_fix-clean_dedup rf ok s b p e = rw e

module _ (max : ℕ) (ts : List Tag) where
  abbrev fresh_scan : Scan
  fresh_scan = scan_tags false (start_scan (new_realtime_fixer max)) (map detect ts)

  fix_result :
      {c : DedupCache} {clean : ℕ}
      → scan false (start_scan (new_realtime_fixer max)) (put_uint32 0 ++ write_all ts)
        ≡ (fresh_scan, put_uint32 (last_size 0 ts))
      → clean_dedup fresh_scan (new_realtime_fixer max).last_dedup_clean ≡ some (c, clean)
      → fix (new_realtime_fixer max) (new_file_header_bytes ++ write_all ts)
        ≡ some (
          finished
              (new_realtime_fixer max)
              true
              fresh_scan
              (put_uint32 (last_size 0 ts))
              (c, clean),
          written (write_all (repaired ts)),
        )
  unfolding new_realtime_fixer
  fix_result {c} {clean} scanned cleaned =
      let rf = new_realtime_fixer max in
      let tail = put_uint32 (last_size 0 ts) in
      fix-check_header rf (new_file_header_bytes ++ write_all ts) (put_uint32 0 ++ write_all ts)
        true (check_header-new max (write_all ts))
      ∙ ap (λ (x : Scan × List ℕ). finish_fix rf true x.0 x.1) scanned
      ∙ finish_fix-clean_dedup rf true fresh_scan tail (c, clean) cleaned
      ∙ ap (λ (out : List ℕ). some (finished rf true fresh_scan tail (c, clean), written out))
          (scan_tags_output false (start_scan rf) (map detect ts))

-- A new fixer is given the file header and up to four million tags whose fields fit their places, with
-- any timestamps. It returns the bytes of the tags that are no duplicates, each with its fixed timestamp:
-- the first stands at 0, and neighbours are at most 500 ms apart.
pub fix-write_all :
    (max : ℕ) (ts : List Tag)
    → All IsWritable ts
    → length ts ≤ 4_000_000
    → (rf : RealtimeFixer) × (fix (new_realtime_fixer max) (new_file_header_bytes ++ write_all ts)
        ≡ some (rf, written (write_all (repaired ts))))
      × StartsNear (repaired ts)
fix-write_all max ts h hn =
    let rf = new_realtime_fixer max in
    let start = put_uint32 0 ++ write_all ts in
    let s = scan_tags false (start_scan rf) (map detect ts) in
    let scanned = scan-write_all false (start_scan rf) 0 ts h in
    let sound : IsSound s.dedup_cache 1000 =
      subst (λ x. IsSound x.0.dedup_cache 1000) scanned
        (scan-IsSound false (start_scan rf) start 1000 (new_fixer-IsSound max)) in
    let (c, clean, cleaned, _) =
      clean_dedup-IsSound s rf.last_dedup_clean 1000 (omega arith) sound in
    (
      finished rf true s (put_uint32 (last_size 0 ts)) (c, clean),
      fix_result max ts scanned cleaned,
      fix_all-StartsNear false _
          (omega (
            arith,
            hn,
            length-accepted (new_dedup_cache max_dedup_cache_size dedup_window_ms) (map detect ts),
            length-detect ts,
          ))
          (accepted-HasWord (new_dedup_cache max_dedup_cache_size dedup_window_ms) ts h),
    )
