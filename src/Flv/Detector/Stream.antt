-- ===== src/Flv/Detector/Stream.antt =====
-- The detector on a stream of whole tags, against a watch over the tags themselves.
use bilirec.Prelude.{
  ℕ, zero, suc, ◌+◌, ◌≤◌, ◌≡◌, ◌⊎◌, refl, ap, ◌∙◌, inl, inr, true, false, List, [], ◌∷◌, ◌++◌,
  length, take, drop, get_or, All, arith, append_assoc, length-append, take-append_self,
  drop-append_self,
}
use bilirec.Flv.Tag.{Tag, tag_header, write_tag, put_uint32}
use bilirec.Flv.Tag.RoundTrip.{uint24-byte_at}
use bilirec.Flv.Realtime.Framing.{IsWritable, write_all}
use bilirec.Flv.Detector.{
  HeaderChangeDetector, FlvHeaderChangedError, Checked, same, changed, check_tag, check_at,
  complete_tag, tag_size_at, tag_with_prev_size, detect_loop, detect_from, detect_change,
  starts_file, shift_error,
}

-- The check of one tag that stands at `offset`, on the tag and not on bytes.
abbrev pub watch_tag : HeaderChangeDetector → ℕ → Tag → Checked
watch_tag d offset t =
    check_tag d t.type t.payload (write_tag t) offset (offset + (11 + length t.payload))

-- The tags in turn, up to the first change.
unfoldable pub watch : HeaderChangeDetector → ℕ → List Tag → Checked
watch d offset [] = same d
watch d offset (t ∷ ts) = elim (watch_tag d offset t) [
  | changed d' e ↦ changed d' e
  | same d' ↦ watch d' (offset + (15 + length t.payload)) ts
]

eleven : (n : ℕ) → 11 + n ≡ suc (suc (suc (suc (suc (suc (suc (suc (suc (suc (suc n))))))))))
eleven n = omega arith

module _ (t : Tag) (more : List ℕ) (w : IsWritable t) where
  tag_size_at-write_tag : tag_size_at (write_tag t ++ more) ≡ length t.payload
  unfolding write_tag tag_header
  tag_size_at-write_tag = uint24-byte_at t.data_size (omega (arith, w)) ∙ w.size_matches

  pub length-write_tag : length (write_tag t) ≡ 15 + length t.payload
  unfolding write_tag tag_header
  length-write_tag = omega (arith, length-append t.payload (put_uint32 (11 + length t.payload)))

  complete_tag-write_tag : complete_tag (write_tag t ++ more) ≡ true
  unfolding complete_tag
  complete_tag-write_tag =
      rw tag_size_at-write_tag (ground (arith, length-append (write_tag t) more, length-write_tag))

  drop-write_tag : drop (tag_size_at (write_tag t ++ more) + 15) (write_tag t ++ more) ≡ more
  drop-write_tag =
      ap (λ (k : ℕ). drop k (write_tag t ++ more))
        (omega (arith, tag_size_at-write_tag, length-write_tag))
      ∙ drop-append_self (write_tag t) more

  payload-write_tag :
      take (tag_size_at (write_tag t ++ more)) (drop 11 (write_tag t ++ more)) ≡ t.payload
  payload-write_tag = rw tag_size_at-write_tag (
      unfold write_tag tag_header in
      ap (take (length t.payload))
        (append_assoc t.payload (put_uint32 (11 + length t.payload)) more)
      ∙ take-append_self t.payload _)

  take-write_tag :
      take (11 + tag_size_at (write_tag t ++ more)) (write_tag t ++ more)
      ≡ tag_header t ++ t.payload
  take-write_tag =
      rw (tag_size_at-write_tag, eleven (length t.payload))
        (unfold write_tag tag_header in
          ap (λ (x : List ℕ). tag_header t ++ take (length t.payload) x)
            (append_assoc t.payload (put_uint32 (11 + length t.payload)) more)
          ∙ ap (λ (x : List ℕ). tag_header t ++ x) (take-append_self t.payload _))

  bytes-write_tag :
      tag_with_prev_size (take (11 + tag_size_at (write_tag t ++ more)) (write_tag t ++ more))
      ≡ write_tag t
  bytes-write_tag =
      ap tag_with_prev_size take-write_tag
      ∙ (unfold tag_with_prev_size write_tag tag_header in
          append_assoc (tag_header t) t.payload _
          ∙ ap (λ (k : ℕ). tag_header t ++ (t.payload ++ put_uint32 k)) (omega arith))

  type-write_tag : get_or (write_tag t ++ more) 0 0 ≡ t.type
  unfolding write_tag tag_header
  type-write_tag = refl

  check_at-write_tag :
      (d : HeaderChangeDetector) (offset : ℕ)
      → check_at d offset (write_tag t ++ more) ≡ watch_tag d offset t
  unfolding check_at
  check_at-write_tag d offset =
      cc (type-write_tag, payload-write_tag, bytes-write_tag, end-write_tag)
    where
      end-write_tag :
          offset + 11 + tag_size_at (write_tag t ++ more) ≡ offset + (11 + length t.payload)
      end-write_tag = omega (arith, tag_size_at-write_tag)

-- What the loop returns for the result of the watch: the bytes behind the last tag become `pending`.
abbrev pub loop_result : ℕ → Checked → Checked
loop_result carry (same d) = same (record d { pending = [] })
loop_result carry (changed d e) = changed (record d { pending = [] }) (shift_error carry e)

pub Checked-cases :
    (r : Checked)
    → ((d : HeaderChangeDetector) × (r ≡ same d))
      ⊎ ((d : HeaderChangeDetector) × (e : FlvHeaderChangedError) × (r ≡ changed d e))
Checked-cases (same d) = inl (d, refl)
Checked-cases (changed d e) = inr (d, e, refl)

module _ (fuel carry : ℕ) (d : HeaderChangeDetector) (offset : ℕ) (b : List ℕ) where
  detect_loop_same :
      (d' : HeaderChangeDetector)
      → complete_tag b ≡ true
      → check_at d offset b ≡ same d'
      → detect_loop (suc fuel) carry d offset b
        ≡ detect_loop fuel carry d' (offset + (tag_size_at b + 15)) (drop (tag_size_at b + 15) b)
  unfolding detect_loop
  detect_loop_same d' whole e = rw (whole, detect_loop) (rw e)

  detect_loop_changed :
      (d' : HeaderChangeDetector) (e : FlvHeaderChangedError)
      → complete_tag b ≡ true
      → check_at d offset b ≡ changed d' e
      → detect_loop (suc fuel) carry d offset b
        ≡ changed (record d' { pending = [] }) (shift_error carry e)
  unfolding detect_loop
  detect_loop_changed d' e whole h = rw (whole, detect_loop) (rw h)

detect_loop-write_all :
    (fuel carry : ℕ) (d : HeaderChangeDetector) (offset : ℕ) (ts : List Tag)
    → All IsWritable ts
    → length (write_all ts) ≤ fuel
    → detect_loop fuel carry d offset (write_all ts) ≡ loop_result carry (watch d offset ts)
unfolding watch
detect_loop-write_all zero carry d offset [] h hf = unfold detect_loop in refl
detect_loop-write_all (suc fuel) carry d offset [] h hf = unfold detect_loop complete_tag in refl
detect_loop-write_all zero carry d offset (t ∷ ts) (w, h) hf =
    absurd (
      omega
        (arith, length-append (write_tag t) (write_all ts), length-write_tag t (write_all ts) w))
detect_loop-write_all (suc fuel) carry d offset (t ∷ ts) (w, h) hf =
    let b = write_tag t ++ write_all ts in
    let whole = complete_tag-write_tag t (write_all ts) w in
    elim (Checked-cases (watch_tag d offset t)) [
      | inl (d', e) ↦
          detect_loop_same fuel carry d offset b d' whole
            (check_at-write_tag t (write_all ts) w d offset ∙ e)
          ∙ rw
              (
                drop-write_tag t (write_all ts) w,
                tag_size_at-write_tag t (write_all ts) w,
                e,
                watch,
              )
              (ap (λ (k : ℕ). detect_loop fuel carry d' (offset + k) (write_all ts)) (omega arith)
                ∙ detect_loop-write_all fuel carry d' (offset + (15 + length t.payload)) ts h (
                    omega (
                      arith,
                      length-append (write_tag t) (write_all ts),
                      length-write_tag t (write_all ts) w,
                    )))
      | inr (d', x, e) ↦
          detect_loop_changed fuel carry d offset b d' x whole
            (check_at-write_tag t (write_all ts) w d offset ∙ e)
          ∙ rw (e, watch)
    ]

-- On whole tags the detector does what the watch over the tags does, with nothing left pending.
pub detect_change-write_all :
    (d : HeaderChangeDetector) (ts : List Tag)
    → d.pending ≡ []
    → All IsWritable ts
    → starts_file (write_all ts) ≡ false
    → detect_change d (write_all ts) ≡ loop_result 0 (watch d 0 ts)
unfolding detect_from
detect_change-write_all d ts nothing h no_file =
    unfold detect_change in
    ap (λ (p : List ℕ). detect_from d p (write_all ts)) nothing
    ∙ rw no_file (detect_loop-write_all (length (write_all ts)) 0 d 0 ts h (omega arith))
