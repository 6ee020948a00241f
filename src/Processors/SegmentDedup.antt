-- ===== src/Processors/SegmentDedup.antt =====
-- internal/processors/segment_dedup.go. The hash of crypto/sha256 is a parameter; a dropped segment is
-- the answer `none`.
pub mod Copies
use bilirec.Prelude.{
  ℕ, zero, suc, ◌-◌, ◌≤◌, min, ◌≡◌, refl, sym, ap, ◌∙◌, Bool, true, false, ◌&&◌, not, Option, none,
  some, List, [], ◌∷◌, ◌++◌, if◌then◌else◌, if_true, if_false, length, take, drop, replicate, ◌==◌,
  arith, length-append, length-take, length-drop, take-append_self, Bool-cases, ◌⊎◌, inl, inr,
}
use bilirec.Prelude.Bytes.{bytes_equal, bytes_equal_refl}

pub record SegmentDedup : Type 0 where
  pub last_len : ℕ
  pub last_head : List ℕ
  pub last_tail : List ℕ
  pub last_hash : List ℕ
  pub has_last : Bool

-- `Open`
unfoldable pub open_dedup : SegmentDedup
open_dedup = record {
  last_len = 0;
  last_head = replicate 8 0;
  last_tail = replicate 8 0;
  last_hash = replicate 32 0;
  has_last = false;
}

-- `copy(dst, src)`: the bytes of `dst` behind the copied ones stay.
unfoldable pub copy_into : List ℕ → List ℕ → List ℕ
copy_into dst src = take (length dst) src ++ drop (length src) dst

-- The first and the last bytes of a segment, eight at most.
unfoldable pub head_of : List ℕ → List ℕ
head_of bytes = take (min (length bytes) 8) bytes

unfoldable pub tail_of : List ℕ → List ℕ
tail_of bytes = drop (length bytes - min (length bytes) 8) bytes

unfoldable pub fingerprint_matches : SegmentDedup → List ℕ → Bool
unfolding head_of tail_of
fingerprint_matches p bytes =
    let n = min (length bytes) 8 in
    length bytes == p.last_len
    && bytes_equal (head_of bytes) (take n p.last_head)
    && bytes_equal (tail_of bytes) (take n p.last_tail)

unfoldable pub update_fingerprint : SegmentDedup → List ℕ → SegmentDedup
unfolding head_of tail_of copy_into
update_fingerprint p bytes = record p {
  last_len = length bytes;
  last_head = copy_into p.last_head (head_of bytes);
  last_tail = copy_into p.last_tail (tail_of bytes);
  has_last = true;
}

module _ (sha : List ℕ → List ℕ) where
  unfoldable pub process_segment : SegmentDedup → List ℕ → SegmentDedup × Option (List ℕ)
  unfolding fingerprint_matches update_fingerprint
  process_segment p bytes =
      if length bytes == 0
      then (p, some bytes)
      else if p.has_last && not (fingerprint_matches p bytes)
      then (update_fingerprint p bytes, some bytes)
      else if p.has_last && bytes_equal (sha bytes) p.last_hash
      then (p, none)
      else (update_fingerprint (record p { last_hash = sha bytes }) bytes, some bytes)
