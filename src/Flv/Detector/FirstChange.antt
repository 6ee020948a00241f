-- ===== src/Flv/Detector/FirstChange.antt =====
-- Which change the detector reports, and what it says about it.
use bilirec.Prelude.{
  ℕ, ◌+◌, ◌≡◌, ◌≢◌, ◌⊎◌, refl, ap, ◌∙◌, inl, inr, true, false, Option, none, some, List, [], ◌∷◌,
  ◌++◌, length, All, arith, length-append, Option-cases,
}
use bilirec.Prelude.Bytes.{bytes_equal→eq, bytes_equal→ne}
use bilirec.Flv.VideoTag.{classify_video_tag}
use bilirec.Flv.Tag.{Tag, write_tag}
use bilirec.Flv.Realtime.Framing.{IsWritable, write_all}
use bilirec.Flv.Detector.{
  HeaderChangeDetector, FlvHeaderChangedError, same, changed, check_tag, check_video_header,
  check_audio_header, compare_header, detect_change, starts_file, shift_error,
}
use bilirec.Flv.Detector.Stream.{
  watch, watch_tag, detect_change-write_all, length-write_tag, loop_result, Checked-cases,
}

-- A video tag that holds a sequence header.
abbrev pub IsHeaderTag : Tag → Type 0
IsHeaderTag t = (t.type ≡ 9) × ((classify_video_tag t.payload).is_header ≡ true)

-- Every sequence header among the tags is the one remembered.
abbrev pub Agree : Option (List ℕ) → List Tag → Type 0
Agree o ts = All (λ t. IsHeaderTag t → o ≡ some t.payload) ts

record Reported (d : HeaderChangeDetector) (e : FlvHeaderChangedError) (offset : ℕ) (t : Tag)
    : Type 0 where
  new_header : IsHeaderTag t
  known : (p : List ℕ) × (d.last_video_header ≡ some p) × (p ≢ t.payload)
  pub tag_bytes : e.video_header_tag ≡ write_tag t
  pub starts : e.tag_offset ≡ offset
  pub ends : e.tag_end ≡ offset + 15 + length t.payload

watch_tag_same :
    (d d' : HeaderChangeDetector) (offset : ℕ) (t : Tag)
    → watch_tag d offset t ≡ same d'
    → (IsHeaderTag t → d'.last_video_header ≡ some t.payload)
      × ((d.last_video_header ≡ none) ⊎ (d'.last_video_header ≡ d.last_video_header))
unfolding check_tag check_video_header check_audio_header compare_header
watch_tag_same d d' offset t e = elim (Option-cases d.last_video_header) [
  | inl unknown ↦ ground arith
  | inr (p, known) ↦ ground (arith, bytes_equal→eq p t.payload)
]

watch_tag_changed :
    (d d' : HeaderChangeDetector) (e : FlvHeaderChangedError) (offset : ℕ) (t : Tag)
    → watch_tag d offset t ≡ changed d' e
    → Reported d e offset t
unfolding check_tag check_video_header compare_header
watch_tag_changed d d' e offset t h = elim (Option-cases d.last_video_header) [
  | inl unknown ↦ absurd (ground arith)
  | inr (p, known) ↦ record {
    new_header = ground arith;
    known = (p, known, ground (arith, bytes_equal→ne p t.payload));
    tag_bytes = ground arith;
    starts = ground arith;
    ends = ground arith;
  }
]

-- The watch went through without a change.
pub record Quiet (d d' : HeaderChangeDetector) (ts : List Tag) : Type 0 where
  pub agrees : Agree d'.last_video_header ts
  pub kept : (d.last_video_header ≡ none) ⊎ (d'.last_video_header ≡ d.last_video_header)

-- The watch stopped at `t`, behind `pre`.
pub record Stopped (d : HeaderChangeDetector) (e : FlvHeaderChangedError) (offset : ℕ)
    (ts pre : List Tag) (t : Tag) (post : List Tag) : Type 0 where
  pub split : ts ≡ pre ++ t ∷ post
  pub new_header : IsHeaderTag t
  pub before :
      (p : List ℕ) × Agree (some p) pre
      × (p ≢ t.payload)
      × ((d.last_video_header ≡ none) ⊎ (d.last_video_header ≡ some p))
  pub tag_bytes : e.video_header_tag ≡ write_tag t
  pub starts : e.tag_offset ≡ offset + length (write_all pre)
  pub ends : e.tag_end ≡ offset + length (write_all pre) + length (write_tag t)

-- How the remembered header develops over two watches in a row.
kept_twice :
    (a b c : Option (List ℕ)) → (a ≡ none) ⊎ (b ≡ a) → (b ≡ none) ⊎ (c ≡ b) → (a ≡ none) ⊎ (c ≡ a)
kept_twice a b c h k = ground arith

head_agrees : (b c : Option (List ℕ)) (p : List ℕ) → b ≡ some p → (b ≡ none) ⊎ (c ≡ b) → c ≡ some p
head_agrees b c p h k = ground arith

module _ (d d' : HeaderChangeDetector) (offset : ℕ) (t : Tag) (ts : List Tag)
    (r : watch_tag d offset t ≡ same d') where
  Quiet-cons : {d'' : HeaderChangeDetector} → Quiet d' d'' ts → Quiet d d'' (t ∷ ts)
  Quiet-cons {d''} q =
      let (header, kept) = watch_tag_same d d' offset t r in
      record {
        agrees = (
          λ h. head_agrees d'.last_video_header d''.last_video_header t.payload (header h) q.kept,
          q.agrees,
        );
        kept =
            kept_twice d.last_video_header d'.last_video_header d''.last_video_header kept q.kept;
      }

  Stopped-cons :
      {e : FlvHeaderChangedError} {pre : List Tag} {t' : Tag} {post : List Tag}
      → IsWritable t
      → Stopped d' e (offset + (15 + length t.payload)) ts pre t' post
      → Stopped d e offset (t ∷ ts) (t ∷ pre) t' post
  Stopped-cons {pre = pre} w s =
      let (header, kept) = watch_tag_same d d' offset t r in
      let (p, agree, differs, known) = s.before in
      let sizes = length-append (write_tag t) (write_all pre) in
      let size = length-write_tag t [] w in
      record {
        split = ap (λ (l : List Tag). t ∷ l) s.split;
        new_header = s.new_header;
        before = (
          p,
          (
            λ h. head_agrees d'.last_video_header (some p) t.payload (header h) (ground arith),
            agree,
          ),
          differs,
          ground arith,
        );
        tag_bytes = s.tag_bytes;
        starts = omega (arith, s.starts, sizes, size);
        ends = omega (arith, s.ends, sizes, size);
      }

Stopped-here :
    (d d' : HeaderChangeDetector) (e : FlvHeaderChangedError) (offset : ℕ) (t : Tag) (ts : List Tag)
    → IsWritable t
    → watch_tag d offset t ≡ changed d' e
    → Stopped d e offset (t ∷ ts) [] t ts
Stopped-here d d' e offset t ts w r =
    let found = watch_tag_changed d d' e offset t r in
    let (p, known, differs) = found.known in
    record {
      split = refl;
      new_header = found.new_header;
      before = (p, tt, differs, inr known);
      tag_bytes = found.tag_bytes;
      starts = omega (arith, found.starts);
      ends = omega (arith, found.ends, length-write_tag t [] w);
    }

watch_cases :
    (d : HeaderChangeDetector) (offset : ℕ) (ts : List Tag)
    → All IsWritable ts
    → ((d' : HeaderChangeDetector) × (watch d offset ts ≡ same d') × Quiet d d' ts)
      ⊎ ((d' : HeaderChangeDetector) × (e : FlvHeaderChangedError) × (pre : List Tag) × (t : Tag)
          × (post : List Tag) × (watch d offset ts ≡ changed d' e)
          × Stopped d e offset ts pre t post)
unfolding watch
watch_cases d offset [] h = inl (d, refl, record { agrees = tt; kept = inr refl })
watch_cases d offset (t ∷ ts) (w, h) = elim (Checked-cases (watch_tag d offset t)) [
  | inr (d', e, r) ↦ inr (d', e, [], t, ts, rw (r, watch), Stopped-here d d' e offset t ts w r)
  | inl (d', r) ↦ elim (watch_cases d' (offset + (15 + length t.payload)) ts h) [
    | inl (d'', q, quiet) ↦ inl (d'', rw (r, watch) q, Quiet-cons d d' offset t ts r quiet)
    | inr (d'', e, pre, t', post, q, stop) ↦
        inr (d'', e, t ∷ pre, t', post, rw (r, watch) q, Stopped-cons d d' offset t ts r w stop)
  ]
]

shift_error-zero : (e : FlvHeaderChangedError) → shift_error 0 e ≡ e
shift_error-zero e = ground arith

-- On whole tags that do not start like a file, `DetectChange` either goes through, and every video
-- sequence header among the tags is the one it remembers then, which is the one it knew before, if
-- any; or it stops at the first sequence header that differs from the one before it. Then it reports
-- exactly that tag's bytes and where they start and end in the chunk.
pub detect_change_cases :
    (d : HeaderChangeDetector) (ts : List Tag)
    → d.pending ≡ []
    → All IsWritable ts
    → starts_file (write_all ts) ≡ false
    → ((d' : HeaderChangeDetector) × (detect_change d (write_all ts) ≡ same d') × Quiet d d' ts)
      ⊎ ((d' : HeaderChangeDetector) × (e : FlvHeaderChangedError) × (pre : List Tag) × (t : Tag)
          × (post : List Tag) × (detect_change d (write_all ts) ≡ changed d' e)
          × Stopped d e 0 ts pre t post)
detect_change_cases d ts nothing h no_file =
    let run = detect_change-write_all d ts nothing h no_file in
    elim (watch_cases d 0 ts h) [
      | inl (d', e, quiet) ↦ inl (
        record d' { pending = [] },
        run ∙ ap (loop_result 0) e,
        record { agrees = quiet.agrees; kept = quiet.kept },
      )
      | inr (d', x, pre, t, post, e, stop) ↦ inr (
        record d' { pending = [] },
        x,
        pre,
        t,
        post,
        run ∙ ap (loop_result 0) e ∙ ap (changed (record d' { pending = [] })) (shift_error-zero x),
        stop,
      )
    ]
